-- ===== src/Execute/Order.antt =====
-- What `Run` hands to `emit`, and when it fails.
use remote_exec.Base.{
  ◌≡◌, ◌≢◌, refl, ◌∙◌, Text, Bool, true, false, Option, none, some, List, [], ◌∷◌, ◌++◌, arith, map,
  text_dec,
}
use mathlib.Core.Logic.{if_pos, if_neg}
use mathlib.Core.List.{append_assoc, append-nil}
use remote_exec.Base.Int.{ℤ}
use remote_exec.Base.Dict.{Dict}
use remote_exec.Error.{Error}
use remote_exec.Io.{Result, ok, err, Action, Done}
use remote_exec.Execute.{
  Spec, Chunk, Command, Exit, exited, Process, not_started, started, Copies, none_yet, write, noted,
  blocked, copy_one, copy, chunk_of, command_of, follow, run,
}

module _ {S : Type 0} (emit : Chunk → Action S Done) (P : S → Type 0) where
  noted_keeps :
      (stream : Bool) (c : Copies) (r : Result Done × S) → P r.1 → P (noted emit stream c r).1
  noted_keeps stream c (ok _, s) h = h
  noted_keeps stream c (err e, s) h = h

  copy_one_keeps :
      (keeps : (stream : Bool) (p : Text) (s : S) → P s → P (write emit stream p s).1)
      → (o : Option Error) (stream : Bool) (p : Text) (c : Copies) (s : S) → P s
      → P (copy_one emit o stream p c s).1
  copy_one_keeps keeps none stream p c s h =
      noted_keeps stream c (write emit stream p s) (keeps stream p s h)
  copy_one_keeps keeps (some e) stream p c s h = h

  -- What every write of a piece of output keeps, the whole copying keeps.
  pub copy_keeps :
      (keeps : (stream : Bool) (p : Text) (s : S) → P s → P (write emit stream p s).1)
      → (output : List (Bool × Text)) (c : Copies) (s : S) → P s
      → P (copy emit output c s).1
  unfolding copy
  copy_keeps keeps [] c s h = h
  copy_keeps keeps ((stream, p) ∷ rest) c s h =
      let next = copy_one emit (blocked stream c) stream p c s in
      copy_keeps keeps rest next.0 next.1 (copy_one_keeps keeps (blocked stream c) stream p c s h)

  module _ (environ : List Text) (range : Dict Text → List (Text × Text))
      (launch : Command → Process) where
    follow_keeps :
        (keeps : (stream : Bool) (p : Text) (s : S) → P s → P (write emit stream p s).1)
        → (process : Process) (command : Text) (s : S) → P s
        → P (follow environ range launch emit process command s).1
    follow_keeps keeps (not_started e) command s h = h
    follow_keeps keeps (started output ending) command s h = copy_keeps keeps output none_yet s h

    -- What every write keeps, a `Run` keeps.
    pub run_keeps :
        (keeps : (stream : Bool) (p : Text) (s : S) → P s → P (write emit stream p s).1)
        → (spec : Spec) (s : S) → P s
        → P (run environ range launch emit spec s).1
    unfolding run
    run_keeps keeps spec s h = elim (text_dec spec.command "") [
      | yes e ↦ rw (if_pos _ e) h
      | no ne ↦
          rw (if_neg _ ne) (
            follow_keeps keeps (launch (command_of environ range launch emit spec)) spec.command s
              h)
    ]

-- A connection that never fails: the chunks are kept in the order of their writes.
abbrev collect : Chunk → Action (List Chunk) Done
collect c sent = (ok tt, sent ++ c ∷ [])

abbrev pub chunks : List (Bool × Text) → List Chunk
chunks = map (λ (stderr, p). chunk_of stderr p)

copy-collect :
    (output : List (Bool × Text)) (sent : List Chunk)
    → copy collect output none_yet sent ≡ (none_yet, sent ++ chunks output)
unfolding copy
copy-collect [] sent = rw append-nil refl
copy-collect ((false, p) ∷ rest) sent =
    copy-collect rest (sent ++ chunk_of false p ∷ []) ∙ rw append_assoc refl
copy-collect ((true, p) ∷ rest) sent =
    copy-collect rest (sent ++ chunk_of true p ∷ []) ∙ rw append_assoc refl

module _ (environ : List Text) (range : Dict Text → List (Text × Text)) (launch : Command → Process)
    (spec : Spec) (named : spec.command ≢ "") (output : List (Bool × Text))
    (ending : Bool → Exit) where
  -- Over a connection that does not fail, the chunks are the process's output, each piece once, in
  -- order and on its own stream, and the result is the exit code.
  run_collect :
      (code : ℤ) (sent : List Chunk)
      → launch (command_of environ range launch collect spec) ≡ started output ending
      → ending false ≡ exited code
      → run environ range launch collect spec sent ≡ (ok code, sent ++ chunks output)
  unfolding run
  run_collect code sent starts ends = ground (arith, copy-collect output sent)
