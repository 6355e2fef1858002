-- ===== src/Base/Family.antt =====
-- A family of components, one for each number, and the change of one of them.
use native.Mathlib.Decide.{ℕ_discrete}
use native.Mathlib.Omega.{arith}
use Prim.Native.Nat.{ℕ}
use mathlib.Core.Path.{◌≡◌}
use mathlib.Core.Logic.{◌≢◌, ◌⊎◌, inl, inr}
use remote_exec.Base.Tests.{eqb, if◌then◌else◌}

abbrev pub update {ℓ} : {A : Type ℓ} → (ℕ → A) → ℕ → A → ℕ → A
update f i a j = if eqb i j then a else f j

module _ {A : Type 0} (f : ℕ → A) where
  pub update_self : (i : ℕ) (a : A) → update f i a i ≡ a
  update_self i a = ground arith

  update-ne : (i j : ℕ) (a : A) → j ≢ i → update f i a j ≡ f j
  update-ne i j a h = ground arith

  pub update_cases :
      (i j : ℕ) (a : A) → ((j ≡ i) × (update f i a j ≡ a)) ⊎ ((j ≢ i) × (update f i a j ≡ f j))
  update_cases i j a = elim (ℕ_discrete j i) [
    | yes e ↦ inl (e, rw e (update_self i a))
    | no h ↦ inr (h, update-ne i j a h)
  ]
