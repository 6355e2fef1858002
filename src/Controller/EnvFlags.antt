-- ===== src/Controller/EnvFlags.antt =====
-- `--set-env KEY=VALUE`, and the same text again in the process's environment on the agent.
use Prim.Native.Char.{code}
use Prim.Native.String.{String}
use text.Mathlib.TextLemmas.{cons-append, nil-append}
use remote_exec.Base.{
  ◌≡◌, ◌≢◌, refl, Text, ◌<>◌, false, some, List, [], ◌∷◌, arith, eqb, map, inl, inr, All,
  Option-cases,
}
use remote_exec.Base.Dict.{Dict, insert}
use remote_exec.Io.{ok, Result-cases}
use remote_exec.Controller.{cut, keep, parse_loop, parse_env}

-- No `=` in the text.
abbrev pub IsKey : Text → Type 0
IsKey String.[] = Unit
IsKey (String.◌∷◌ c s) = (eqb (code c) b'=' ≡ false) × IsKey s

cut_sign : (v : Text) → cut ("=" <> v) ≡ some ("", v)
unfolding cut
cut_sign v = rw (cons-append "=" "" v, nil-append v) refl

cut-cons : (k v : Text) → IsKey k → cut (k <> "=" <> v) ≡ some (k, v)
unfolding cut
cut-cons String.[] v h = rw (nil-append ("=" <> v)) (cut_sign v)
cut-cons (String.◌∷◌ c s) v h = rw (cons-append c s ("=" <> v)) (ground (arith, cut-cons s v h.1))

-- The flags for a list of variables, and the map that they stand for: a later one wins.
abbrev pub flags : List (Text × Text) → List Text
flags = map (λ (k, v). k <> "=" <> v)

abbrev pub assign : List (Text × Text) → Dict Text → Dict Text
assign [] env = env
assign ((k, v) ∷ rest) env = assign rest (insert k v env)

abbrev pub AreKeys : List (Text × Text) → Type 0
AreKeys [] = Unit
AreKeys ((k, v) ∷ rest) = IsKey k × (k ≢ "") × AreKeys rest

parse_loop-flags :
    (vars : List (Text × Text)) (env : Dict Text)
    → AreKeys vars
    → parse_loop (flags vars) env ≡ ok (assign vars env)
unfolding parse_loop
parse_loop-flags [] env h = refl
parse_loop-flags ((k, v) ∷ rest) env h =
    ground (arith, cut-cons k v h.0, parse_loop-flags rest (insert k v env) h.2)

-- Variables whose names are not empty and hold no `=` arrive as given, whatever their values hold;
-- of two for one name the later counts.
pub parse_env-flags :
    (vars : List (Text × Text)) → AreKeys vars → parse_env (flags vars) ≡ ok (assign vars [])
unfolding parse_env
parse_env-flags vars h = parse_loop-flags vars [] h

-- The text splits at a sign that is not its first character.
abbrev pub HasKey : Text → Type 0
HasKey pair = (k : Text) × (v : Text) × (cut pair ≡ some (k, v)) × (k ≢ "")

keep-HasKey :
    (pair : Text) (env env' : Dict Text) → keep (cut pair) pair env ≡ ok env' → HasKey pair
keep-HasKey pair env env' h = elim (Option-cases (cut pair)) [
  | inl missing ↦ absurd (ground arith)
  | inr (found, e) ↦ (found.0, found.1, e, ground arith)
]

parse_loop_sound :
    (kv : List Text) (env out : Dict Text) → parse_loop kv env ≡ ok out → All HasKey kv
unfolding parse_loop
parse_loop_sound [] env out h = tt
parse_loop_sound (pair ∷ kv) env out h = elim (Result-cases (keep (cut pair) pair env)) [
  | inl (env', kept) ↦ (keep-HasKey pair env env' kept, parse_loop_sound kv env' out (ground arith))
  | inr (e, bad) ↦ absurd (ground arith)
]

-- One flag without a name or without a sign fails the whole command line.
pub parse_env_sound : (kv : List Text) (out : Dict Text) → parse_env kv ≡ ok out → All HasKey kv
unfolding parse_env
parse_env_sound kv out h = parse_loop_sound kv [] out h
