-- ===== src/Io/Calls.antt =====
-- The system calls, each with the failures that it may have.
use remote_exec.Base.{
  ℕ, zero, suc, ◌≡◌, inl, inr, Option-cases, arith, Text, Option, none, some, List, [], ◌∷◌,
}
use remote_exec.Base.Int.{ℤ}
use remote_exec.Base.Dict.{Dict, lookup, insert, delete}
use remote_exec.Error.{Error, plain, not_exist}
use remote_exec.Io.{Result, ok, err, Action, Done}
use remote_exec.Io.World.{World, Fault, Env, step}

-- `os.ReadFile` returns the data read so far beside an error.
pub record Read : Type 0 where
  pub contents : Text
  pub failure : Option Error

abbrev or_empty : Option Text → Text
or_empty none = ""
or_empty (some t) = t

abbrev pub found : Option Text → Read
found none = record { contents = ""; failure = some not_exist }
found (some t) = record { contents = t; failure = none }

abbrev read_answer : Option Fault → Option Text → Read
read_answer none o = found o
read_answer (some f) o = record { contents = or_empty f.part; failure = some (plain f.reason) }

-- A file that a failed write leaves: as it was, or with what was written of it.
abbrev pub torn : Option Text → Text → Dict Text → Dict Text
torn none path files = files
torn (some t) path files = insert path t files

abbrev write_answer : Option Fault → Text → Text → World → Result Done × World
write_answer none path contents w = (ok tt, record w { files = insert path contents w.files })
write_answer (some f) path contents w =
    (err (plain f.reason), record w { files = torn f.part path w.files })

abbrev renamed : Option Text → Text → Text → World → Result Done × World
renamed none from to w = (err not_exist, w)
renamed (some t) from to w = (ok tt, record w { files = insert to t (delete from w.files) })

abbrev rename_answer : Option Fault → Text → Text → World → Result Done × World
rename_answer none from to w = renamed (lookup from w.files) from to w
rename_answer (some f) from to w = (err (plain f.reason), w)

abbrev plain_answer : Option Fault → World → Result Done × World
plain_answer none w = (ok tt, w)
plain_answer (some f) w = (err (plain f.reason), w)

module _ (env : Env) where
  unfoldable pub read_file : Text → World → Read × World
  read_file path w = (read_answer (env.fault w.calls) (lookup path w.files), step w)

  pub read_file_stored :
      (path t : Text) (w : World)
      → env.fault w.calls ≡ none
      → lookup path w.files ≡ some t
      → read_file path w ≡ (record { contents = t; failure = none }, step w)
  unfolding read_file
  read_file_stored path t w quiet stored = ground arith

  unfoldable pub write_file : Text → Text → Action World Done
  write_file path contents w = write_answer (env.fault w.calls) path contents (step w)

  -- `os.Rename` replaces its target in one step or does nothing.
  unfoldable pub rename : Text → Text → Action World Done
  rename from to w = rename_answer (env.fault w.calls) from to (step w)

  -- `os.MkdirAll`. Directories are not kept, so neither is which one was asked for.
  unfoldable pub mkdir_all : Action World Done
  mkdir_all w = plain_answer (env.fault w.calls) (step w)

  -- A call of which only success or failure matters, such as taking a lock.
  unfoldable pub attempt : Action World Done
  attempt w = plain_answer (env.fault w.calls) (step w)

  -- `time.Now`
  unfoldable pub now : Action World ℤ
  now w = (ok (env.now w.calls), step w)

  -- `crypto/rand.Read` into a buffer of n bytes.
  abbrev bytes : ℕ → ℕ → ℕ → List ℕ
  bytes zero call i = []
  bytes (suc n) call i = env.byte call i ∷ bytes n call (suc i)

  abbrev random_answer : Option Fault → List ℕ → Result (List ℕ)
  random_answer none b = ok b
  random_answer (some f) b = err (plain f.reason)

  unfoldable pub random : ℕ → Action World (List ℕ)
  random n w = (random_answer (env.fault w.calls) (bytes n w.calls 0), step w)

  pub random-cons :
      (n : ℕ) (w : World) (b : List ℕ)
      → (random (suc n) w).0 ≡ ok b
      → (a : ℕ) × (l : List ℕ) × (b ≡ a ∷ l)
  unfolding random
  random-cons n w b h = elim (Option-cases (env.fault w.calls)) [
    | inl quiet ↦ (env.byte w.calls 0, bytes n w.calls 1, ground arith)
    | inr (f, fails) ↦ absurd (ground arith)
  ]

-- `os.Hostname`, whose error leaves the empty text.
unfoldable pub hostname : Env → Action World Text
hostname env w = (ok (env.hostname w.calls), step w)
