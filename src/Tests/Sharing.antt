-- ===== src/Tests/Sharing.antt =====
-- Callers that share the token file.
use mathlib.Core.Quot
use remote_exec.Base.{ℕ, ◌≡◌, refl, Text, text_dec, Option, none, some, List, [], ◌∷◌, arith}
use remote_exec.Base.Int.{pos, ◌+ℤ◌}
use remote_exec.Base.Dict.{lookup, insert, delete}
use remote_exec.Error.{is_not_exist}
use remote_exec.Io.{Result, ok}
use remote_exec.Io.World.{World}
use remote_exec.Io.Calls.{read_file, write_file, rename, mkdir_all, attempt}
use remote_exec.Token.{interpret, read, take_token, add_token}
use remote_exec.Token.Abstract
use remote_exec.Base.{zero, suc, inr, ne_literal}
use remote_exec.Token.Quiet.Refines.{results, promises, results-promises}
use remote_exec.Token.Sharing.{
  Op, consuming, issuing, updates, finished, advance, Lock, System, Reach, here, next, run, lock,
  unlock, started, moved,
}
use remote_exec.Token.Sharing.Exclusive.{IsExclusive, consume-exclusive}
use remote_exec.Token.Sharing.Overlap.{IsOneObject, consumers, consume_twice}
use remote_exec.Token.Sharing.Listed.{Lists, Keeps}
use remote_exec.Token.Sharing.Issued.{token_kept}
use remote_exec.Tests.Coding.{join_all, code_text, split}
use remote_exec.Tests.Formats.{
  json, json-IsFaithful, fields, entries, unary, size, sign_and_size, signed,
}
use remote_exec.Tests.Tokens.{path, rec, tokens, encoded, stocked, never_fails, total, listed}
use remote_exec.Tests.Data.{calm}

-- A lock that knows its holder.
abbrev held_by_one : Lock
held_by_one = record {
  State = Option ℕ;
  Take = λ i s t. (s ≡ none) × (t ≡ some i);
  Drop = λ i s t. (s ≡ some i) × (t ≡ none);
}

held_by_one-IsExclusive : IsExclusive held_by_one
held_by_one-IsExclusive = record {
  Holds = λ i s. s ≡ some i;
  unique = λ i j s h h'. ground (arith);
  take = λ i s t h. h.1;
  take_keeps = λ i j s t h h'. ground (arith, h.0);
  drop_keeps = λ i j s t h ne h'. ground (arith, h.0);
}

abbrev same_token : ℕ → Op
same_token i = consuming "t"

abbrev State : Type 0
State = System calm json path held_by_one same_token

abbrev at_start : State
at_start = started calm json path held_by_one same_token stocked none

abbrev go : State → State
go = moved calm json path held_by_one same_token 0

abbrev at_lock : State
at_lock = go at_start

abbrev inside : State
inside = record (go at_lock) { lock = some 0 }

abbrev at_unlock : State
at_unlock = go (go (go (go inside)))

abbrev at_end : State
at_end = record (go at_unlock) { lock = none }

runs : Reach calm json path held_by_one same_token at_start at_end
unfolding advance updates mkdir_all attempt read read_file interpret lookup text_dec join_all
    code_text fields sign_and_size unary split entries size signed take_token delete write_file
    rename insert is_not_exist
runs =
    next
      (next
        (next
          (next
            (next
              (next (next here (run 0 (λ e. cc) (λ r e. cc)))
                (lock 0 (some 0) refl refl (refl, refl)))
              (run 0 (λ e. cc) (λ r e. cc)))
            (run 0 (λ e. cc) (λ r e. cc)))
          (run 0 (λ e. cc) (λ r e. cc)))
        (run 0 (λ e. cc) (λ r e. cc)))
      (unlock 0 (ok "a") none refl (refl, refl))

ends : at_end.pc 0 ≡ finished (ok "a")
unfolding advance updates mkdir_all attempt read read_file interpret lookup text_dec join_all
    code_text fields sign_and_size unary split entries size signed take_token delete write_file
    rename insert is_not_exist
ends = refl

consume-exclusive_example : ◌≡◌ {A = ℕ} 0 0
consume-exclusive_example =
    consume-exclusive calm json json-IsFaithful path held_by_one same_token "t" stocked none at_end
      held_by_one-IsExclusive (λ i. tt) runs 0 0 "a" "a" ends ends refl refl

-- One caller issues a token beside others that redeem another one.
abbrev mixed : ℕ → Op
mixed zero = issuing "u" "a" (pos 9)
mixed (suc i) = consuming "t"

abbrev Mixed : Type 0
Mixed = System calm json path held_by_one mixed

abbrev begun : Mixed
begun = started calm json path held_by_one mixed stocked none

abbrev turn : Mixed → Mixed
turn = moved calm json path held_by_one mixed 0

abbrev locked : Mixed
locked = record (turn (turn begun)) { lock = some 0 }

abbrev issued_by_then : Mixed
issued_by_then = record (turn (turn (turn (turn (turn locked))))) { lock = none }

issuing_runs : Reach calm json path held_by_one mixed begun issued_by_then
unfolding advance updates mkdir_all attempt read read_file interpret lookup text_dec join_all
    code_text fields sign_and_size unary split entries size signed add_token delete write_file
    rename insert is_not_exist ◌+ℤ◌
issuing_runs =
    next
      (next
        (next
          (next
            (next
              (next (next here (run 0 (λ e. cc) (λ r e. cc)))
                (lock 0 (some 0) refl refl (refl, refl)))
              (run 0 (λ e. cc) (λ r e. cc)))
            (run 0 (λ e. cc) (λ r e. cc)))
          (run 0 (λ e. cc) (λ r e. cc)))
        (run 0 (λ e. cc) (λ r e. cc)))
      (unlock 0 (ok "u") none refl (refl, refl))

issued_u : issued_by_then.pc 0 ≡ finished (ok "u")
unfolding advance updates mkdir_all attempt read read_file interpret lookup text_dec join_all
    code_text fields sign_and_size unary split entries size signed add_token delete write_file
    rename insert is_not_exist ◌+ℤ◌
issued_u = refl

mixed-Keeps : (i : ℕ) → Keeps json path "u" "a" (mixed i)
mixed-Keeps zero = λ e. refl
mixed-Keeps (suc i) = ne_literal "t" "u" refl

token_kept_example : Lists json path "u" "a" issued_by_then.world
token_kept_example =
    token_kept calm json json-IsFaithful path "u" "a" mixed held_by_one stocked none issued_by_then
      (λ n f e. cc) held_by_one-IsExclusive mixed-Keeps issuing_runs
      (inr (0, pos 9, refl, issued_u))

-- One lock object, free or locked.
data Held : Type 0 where
  free held : Held

abbrev one_object : Lock
one_object = record { State = Held; Take = λ i s t. t ≡ held; Drop = λ i s t. t ≡ free }

abbrev object : IsOneObject one_object
object = record {
  free = free;
  held = held;
  first = λ i. refl;
  again = λ i. refl;
  unlocks = λ i. refl;
  unlocked = λ i. refl;
}

abbrev clock_stopped : remote_exec.Io.World.Env
clock_stopped = record calm { now = λ n. pos 0 }

abbrev one_token : ℕ → Text
one_token i = "t"

found : lookup "t" tokens ≡ some rec
unfolding lookup text_dec
found = refl

consume_twice_example :
    (s : System clock_stopped json path one_object (consumers one_token)) × Reach clock_stopped json
      path one_object
      (consumers one_token)
      (started clock_stopped json path one_object (consumers one_token) stocked free)
      s
    × (s.pc 0 ≡ finished (ok "a"))
    × (s.pc 1 ≡ finished (ok "a"))
unfolding interpret
consume_twice_example =
    consume_twice clock_stopped json path never_fails one_object object "t"
      (encoded (delete "t" tokens)) tokens rec stocked listed found (λ n. refl) refl

abbrev calls : List Abstract.Op
calls = Abstract.issuing "b" (pos 9) ∷ Abstract.consuming "t" ∷ Abstract.consuming "t" ∷ []

results-promises_example :
    results calm json path calls stocked ≡ promises calm json path calls stocked (Quot.mk tokens)
results-promises_example =
    results-promises calm json path never_fails json-IsFaithful total calls stocked (Quot.mk tokens)
      (tokens, listed, refl)
