-- ===== src/Policy/Decide.antt =====
-- What `Evaluate` and `Load` decide, against a description in terms of membership.
use mathlib.Core.Logic.Or
use mathlib.Core.Bool.{Bool-set}
use mathlib.Core.List.{Mem, mem-cons, not-mem-nil}
use remote_exec.Base.{
  ℕ, ◌≤◌, ◌≡◌, refl, ◌≢◌, ◌↔◌, ◌⊎◌, inl, inr, Text, true, false, List, [], ◌∷◌, ◌++◌, ◌||◌, arith,
  contains, Bool-cases, ne_literal,
}
use remote_exec.Policy.{Policy, Decision, denied, allowed, asked, mode_allow, mode_ask, evaluate}

contains-head : (item v : Text) (l : List Text) → v ≡ item → contains (item ∷ l) v ≡ true
unfolding contains
contains-head item v l e = ground arith

contains-tail : (item v : Text) (l : List Text) → contains l v ≡ true → contains (item ∷ l) v ≡ true
unfolding contains
contains-tail item v l h = ground arith

contains-cons :
    (item v : Text) (l : List Text)
    → contains (item ∷ l) v ≡ true
    → (v ≡ item) ⊎ (contains l v ≡ true)
unfolding contains
contains-cons item v l h = ground arith

contains→Mem : (l : List Text) (v : Text) → contains l v ≡ true → Mem v l
unfolding contains
contains→Mem [] v h = cc
contains→Mem (item ∷ l) v h = elim (contains-cons item v l h) [
  | inl e ↦ mem-cons.1 (Or.inl e)
  | inr h' ↦ mem-cons.1 (Or.inr (contains→Mem l v h'))
]

Mem→contains : (l : List Text) (v : Text) → Mem v l → contains l v ≡ true
Mem→contains [] v m = absurd (not-mem-nil m)
Mem→contains (item ∷ l) v m =
    Or.elim (Bool-set _ _) (mem-cons.0 m) (contains-head item v l)
      (λ m'. contains-tail item v l (Mem→contains l v m'))

-- `contains` decides membership.
pub contains_iff : (l : List Text) (v : Text) → (contains l v ≡ true) ↔ Mem v l
contains_iff l v = (contains→Mem l v, Mem→contains l v)

not-contains : (l : List Text) (v : Text) → ¬ Mem v l → contains l v ≡ false
not-contains l v n = elim (Bool-cases (contains l v)) [
  | inl h ↦ absurd (n (contains→Mem l v h))
  | inr h ↦ h
]

ask-ne-allow : ◌≢◌ {A = Text} mode_ask mode_allow
ask-ne-allow = ne_literal mode_ask mode_allow refl

allowed_if_contains :
    (p : Policy) (c : Text)
    → (evaluate p c ≡ allowed)
      ↔ (contains p.deny c ≡ false)
        × ((p.destructive ≡ mode_allow) × ((p.allow ≡ []) ⊎ (contains p.allow c ≡ true))
            ⊎ (p.destructive ≡ mode_ask) × (contains p.allow c ≡ true))
unfolding evaluate contains
allowed_if_contains p c = (λ h. ground arith, λ h. ground (arith, ask-ne-allow))

-- A destructive command runs outright exactly when it is not on the deny list and either the mode
-- is "allow" and the allow list is empty or holds it, or the mode is "ask" and the allow list
-- holds it.
pub evaluate-allowed_iff :
    (p : Policy) (c : Text)
    → (evaluate p c ≡ allowed)
      ↔ (¬ Mem c p.deny)
        × ((p.destructive ≡ mode_allow) × ((p.allow ≡ []) ⊎ Mem c p.allow)
            ⊎ (p.destructive ≡ mode_ask) × Mem c p.allow)
evaluate-allowed_iff p c = (
  λ h. ground (arith, (allowed_if_contains p c).0 h, contains_iff p.deny c, contains_iff p.allow c),
  λ h. (allowed_if_contains p c).1 (ground (arith, contains_iff p.allow c, not-contains p.deny c)),
)

asked_if_contains :
    (p : Policy) (c : Text)
    → (evaluate p c ≡ asked)
      ↔ (contains p.deny c ≡ false) × (p.destructive ≡ mode_ask) × (contains p.allow c ≡ false)
unfolding evaluate contains
asked_if_contains p c = (λ h. ground arith, λ h. ground (arith, ask-ne-allow))

-- A command is put to a human exactly when the mode is "ask" and it is on neither list.
evaluate-asked_iff :
    (p : Policy) (c : Text)
    → (evaluate p c ≡ asked) ↔ (¬ Mem c p.deny) × (p.destructive ≡ mode_ask) × (¬ Mem c p.allow)
evaluate-asked_iff p c = (
  λ h. ground (arith, (asked_if_contains p c).0 h, contains_iff p.deny c, contains_iff p.allow c),
  λ h. (asked_if_contains p c).1 (ground (arith, not-contains p.allow c, not-contains p.deny c)),
)

-- How far a decision lets a command go.
abbrev pub freedom : Decision → ℕ
freedom denied = 0
freedom asked = 1
freedom allowed = 2

abbrev pub deny_also : List Text → Policy → Policy
deny_also more p = record p { deny = more ++ p.deny }

contains-append :
    (xs ys : List Text) (v : Text) → contains (xs ++ ys) v ≡ (contains xs v || contains ys v)
unfolding contains
contains-append [] ys v = refl
contains-append (x ∷ xs) ys v = ground (arith, contains-append xs ys v)

-- A longer deny list never lets a command go further.
freedom-deny_also :
    (p : Policy) (more : List Text) (c : Text)
    → freedom (evaluate (deny_also more p) c) ≤ freedom (evaluate p c)
unfolding evaluate
freedom-deny_also p more c = ground (arith, contains-append more p.deny c)
