-- ===== src/Execute.antt =====
-- internal/execute/execute.go: run a command and stream its output.
pub mod Order
use remote_exec.Base.{
  ℕ, Text, ◌<>◌, Bool, true, false, Option, none, some, List, [], ◌∷◌, ◌++◌, ◌==◌, eqb,
  if◌then◌else◌, map,
}
use remote_exec.Base.Int.{ℤ, pos, negsuc}
use remote_exec.Base.Dict.{Dict}
use remote_exec.Base.Quote.{quote}
use remote_exec.Error.{Error, plain, wrap}
use remote_exec.Io.{Result, ok, err, Action, Done}

pub record Spec : Type 0 where
  pub command : Text
  pub args : List Text
  pub working_dir : Text
  pub env : Dict Text

-- A nil slice is `none`.
pub record Chunk : Type 0 where
  pub stdout : Option Text
  pub stderr : Option Text

-- What os/exec gives the process: the command with the environment and the directory.
pub record Command : Type 0 where
  pub name : Text
  pub args : List Text
  pub dir : Text
  pub env : List Text

-- How a process ends: with an exit code (a signal counts as -1), or with an error of `Wait`.
pub data Exit : Type 0 where
  exited : ℤ → Exit
  failed : Error → Exit

-- A run of a process as os/exec sees it: it does not start; or it writes, in some order, to its
-- two streams (`true` is stderr), and ends, perhaps otherwise if one of its pipes was closed.
pub data Process : Type 0 where
  not_started : Error → Process
  started : List (Bool × Text) → (Bool → Exit) → Process

-- The error of each stream's copying so far.
pub record Copies : Type 0 where
  pub out : Option Error
  pub errs : Option Error

abbrev blocked : Bool → Copies → Option Error
blocked false c = c.out
blocked true c = c.errs

abbrev close : Bool → Error → Copies → Copies
close false e c = record c { out = some e }
close true e c = record c { errs = some e }

-- The chunk that a `chunkWriter` makes.
abbrev pub chunk_of : Bool → Text → Chunk
chunk_of false p = record { stdout = some p; stderr = none }
chunk_of true p = record { stdout = none; stderr = some p }

module _ {S : Type 0} (emit : Chunk → Action S Done) where
  -- `chunkWriter.Write`
  unfoldable pub write : Bool → Text → Action S Done
  write stderr p = emit (chunk_of stderr p)

  abbrev noted : Bool → Copies → Result Done × S → Copies × S
  noted stream c (ok _, s) = (c, s)
  noted stream c (err e, s) = (close stream e c, s)

  -- The copying of os/exec: each piece of output goes to its writer until that writer fails.
  abbrev copy_one : Option Error → Bool → Text → Copies → S → Copies × S
  copy_one none stream p c s = noted stream c (write stream p s)
  copy_one (some e) stream p c s = (c, s)

  unfoldable pub copy : List (Bool × Text) → Copies → S → Copies × S
  unfolding write
  copy [] c s = (c, s)
  copy ((stream, p) ∷ rest) c s =
      let (c', s') = copy_one (blocked stream c) stream p c s in copy rest c' s'

abbrev pub none_yet : Copies
none_yet = record { out = none; errs = none }

abbrev first_error : Copies → Option Error
first_error c = elim c.out [ some e ↦ some e | none ↦ c.errs ]

abbrev is_some : Option Error → Bool
is_some none = false
is_some (some e) = true

abbrev is_zero : ℤ → Bool
is_zero (pos n) = eqb n 0
is_zero (negsuc n) = false

-- `mergeEnv`. `environ` is `os.Environ()`, and `range` the order in which the run-time visits a map.
unfoldable pub merge_env : List Text → (Dict Text → List (Text × Text)) → Dict Text → List Text
merge_env environ range extra = environ ++ map (λ (k, v). k <> "=" <> v) (range extra)

-- What `cmd.Run` returned, turned into the results of `Run`.
abbrev run_error : Text → Error → Error
run_error command e = wrap ("execute: run " <> quote command <> ": ") e

abbrev of_copies : Option Error → Text → Result ℤ
of_copies none command = ok (pos 0)
of_copies (some e) command = err (run_error command e)

abbrev of_exit : Exit → Copies → Text → Result ℤ
of_exit (failed e) c command = err (run_error command e)
of_exit (exited code) c command =
    if is_zero code then of_copies (first_error c) command else ok code

module _ {S : Type 0} (environ : List Text) (range : Dict Text → List (Text × Text))
    (launch : Command → Process) (emit : Chunk → Action S Done) where
  abbrev finish : (Bool → Exit) → Text → Copies × S → Result ℤ × S
  finish ending command (c, s) = (of_exit (ending (is_some (first_error c))) c command, s)

  abbrev follow : Process → Text → Action S ℤ
  follow (not_started e) command s = (err (run_error command e), s)
  follow (started output ending) command s = finish ending command (copy emit output none_yet s)

  -- The fields of `exec.Cmd` that `Run` sets.
  abbrev pub command_of : Spec → Command
  command_of spec = record {
    name = spec.command;
    args = spec.args;
    dir = spec.working_dir;
    env = merge_env environ range spec.env;
  }

  -- `Run`. The mutex that serializes `emit` is the order of the pieces of output.
  unfoldable pub run : Spec → Action S ℤ
  unfolding copy
  run spec s =
      if spec.command == ""
      then (err (plain "execute: empty command"), s)
      else follow (launch (command_of spec)) spec.command s
