-- ===== src/Token/Sharing/Shared.antt =====
-- What the callers rely on together: kept by an access of one of them, as long as no
-- other one is in the critical section.
use remote_exec.Base.{ℕ, ◌≡◌, ◌≢◌, ap, sym, ◌∙◌, inl, inr, Text, ◌<>◌, true, false, Bool-cases}
use remote_exec.Base.Dict.{Dict, lookup}
use remote_exec.Base.Family.{update, update_cases}
use remote_exec.Io.World.{World, Env}
use remote_exec.Token.{Codec, IsFaithful}
use remote_exec.Token.Sharing.{
  Op, consuming, Pc, outside, waiting, entered, loaded, storing, renaming, leaving, finished,
  critical, Lock,
}
use remote_exec.Token.Sharing.Local.{won, Absent, Local, Fine, Writes-kept}

module _ (env : Env) (json : Codec) (law : IsFaithful json) (path : Text) (k : Lock) (op : ℕ → Op)
    (token : Text) where
  pub record Shared (w : World) (pc : ℕ → Pc) : Type 0 where
    pub known : (i : ℕ) → Local env json law path token (op i) (pc i) w
    pub spent :
        (i : ℕ) → won (pc i) ≡ true → op i ≡ consuming token → Absent env json law path token w
    pub once :
        (i j : ℕ)
        → won (pc i) ≡ true
        → won (pc j) ≡ true
        → op i ≡ consuming token
        → op j ≡ consuming token
        → i ≡ j

  lookup-files : (w w' : World) → w'.files ≡ w.files → lookup path w'.files ≡ lookup path w.files
  lookup-files w w' same = ap (λ (f : Dict Text). lookup path f) same

  Absent-files :
      (w w' : World)
      → w'.files ≡ w.files
      → Absent env json law path token w'
      → Absent env json law path token w
  Absent-files w w' same absent u e = absent u (lookup-files w w' same ∙ e)

  Local-files :
      (v : Op) (p : Pc) (w w' : World)
      → w'.files ≡ w.files
      → Local env json law path token v p w
      → Local env json law path token v p w'
  Local-files v outside w w' same h = tt
  Local-files v waiting w w' same h = tt
  Local-files v entered w w' same h = tt
  Local-files v (loaded m) w w' same h = λ absent. h (Absent-files w w' same absent)
  Local-files v (storing r t) w w' same h =
      Writes-kept env json law path token v r t w w' (lookup-files w w' same) h
  Local-files v (renaming r t) w w' same h = (
    Writes-kept env json law path token v r t w w' (lookup-files w w' same) h.0,
    ap (λ (f : Dict Text). lookup (path <> ".tmp") f) same ∙ h.1,
  )
  Local-files v (leaving r) w w' same h = tt
  Local-files v (finished r) w w' same h = tt

  Local-outside :
      (v : Op) (p : Pc) (w : World) → critical p ≡ false → Local env json law path token v p w
  Local-outside v outside w h = tt
  Local-outside v waiting w h = tt
  Local-outside v entered w h = tt
  Local-outside v (loaded m) w h = absurd (cc)
  Local-outside v (storing r t) w h = absurd (cc)
  Local-outside v (renaming r t) w h = absurd (cc)
  Local-outside v (leaving r) w h = tt
  Local-outside v (finished r) w h = tt

  -- An access of caller `i`, with no other caller in the critical section beside it.
  module _ (w w' : World) (pc : ℕ → Pc) (i : ℕ) (p : Pc)
      (fine : Fine env json law path token (op i) (pc i) w p w')
      (apart : (j : ℕ) → j ≢ i → critical (pc i) ≡ true → critical (pc j) ≡ false)
      (inv : Shared w pc) where
    known_other : (j : ℕ) → j ≢ i → Local env json law path token (op j) (pc j) w'
    known_other j h = elim (Bool-cases (critical (pc i))) [
      | inl inside ↦ Local-outside (op j) (pc j) w' (apart j h inside)
      | inr out ↦ Local-files (op j) (pc j) w w' (fine.alone out) (inv.known j)
    ]

    -- The token is not in the file, once the call of `i` succeeded.
    spent_self : won p ≡ true → op i ≡ consuming token → Absent env json law path token w'
    spent_self win e = elim (Bool-cases (won (pc i))) [
      | inl before ↦ fine.stays (inv.spent i before e)
      | inr lost ↦ (fine.wins win lost e).1
    ]

    once_other :
        (j : ℕ)
        → j ≢ i
        → won p ≡ true
        → won (pc j) ≡ true
        → op i ≡ consuming token
        → op j ≡ consuming token
        → i ≡ j
    once_other j h win other e e' = elim (Bool-cases (won (pc i))) [
      | inl before ↦ inv.once i j before other e e'
      | inr lost ↦ absurd ((fine.wins win lost e).0 (inv.spent j other e'))
    ]

    won_as : (j : ℕ) (q : Pc) → update pc i p j ≡ q → won (update pc i p j) ≡ true → won q ≡ true
    won_as j q same h = ap won (sym same) ∙ h

    op_as : (j : ℕ) → j ≡ i → op j ≡ consuming token → op i ≡ consuming token
    op_as j e h = ap op (sym e) ∙ h

    known_after : (j : ℕ) → Local env json law path token (op j) (update pc i p j) w'
    known_after j = elim (update_cases pc i j p) [
      | inl (e, same) ↦ rw (same, e) fine.known
      | inr (h, same) ↦ rw same (known_other j h)
    ]

    spent_after :
        (j : ℕ)
        → won (update pc i p j) ≡ true
        → op j ≡ consuming token
        → Absent env json law path token w'
    spent_after j win e = elim (update_cases pc i j p) [
      | inl (same_caller, same) ↦ spent_self (won_as j p same win) (op_as j same_caller e)
      | inr (h, same) ↦ fine.stays (inv.spent j (won_as j (pc j) same win) e)
    ]

    once_after :
        (j l : ℕ)
        → won (update pc i p j) ≡ true
        → won (update pc i p l) ≡ true
        → op j ≡ consuming token
        → op l ≡ consuming token
        → j ≡ l
    once_after j l win win' e e' = elim (update_cases pc i j p) [
      | inl (is_i, same) ↦ elim (update_cases pc i l p) [
        | inl (is_i', same') ↦ is_i ∙ sym is_i'
        | inr (h', same') ↦
            is_i
            ∙ once_other l h' (won_as j p same win) (won_as l (pc l) same' win') (op_as j is_i e) e'
      ]
      | inr (h, same) ↦ elim (update_cases pc i l p) [
        | inl (is_i', same') ↦ sym (
            is_i'
            ∙ once_other j h (won_as l p same' win') (won_as j (pc j) same win) (op_as l is_i' e')
                e)
        | inr (h', same') ↦
            inv.once j l (won_as j (pc j) same win) (won_as l (pc l) same' win') e e'
      ]
    ]

    pub moved-Shared : Shared w' (update pc i p)
    moved-Shared = record { known = known_after; spent = spent_after; once = once_after }
