-- ===== src/Io.antt =====
-- Fallible code over a state. What a call wrote before it failed stays written, so the new state
-- comes back beside the error too. A Go `(A, error)` is a `Result A`.
pub mod World
pub mod Calls
use remote_exec.Base.{◌≡◌, refl, ◌⊎◌, inl, inr}
use remote_exec.Error.{Error}

pub data Result {ℓ} (A : Type ℓ) : Type ℓ where
  ok : A → Result A
  err : Error → Result A

abbrev pub Action {ℓ κ} : Type ℓ → Type κ → Type (ℓ ⊔ κ)
Action S A = S → Result A × S

-- A result whose error is replaced, as by `return zero, fmt.Errorf("prefix: %w", err)`.
abbrev pub with_error {ℓ} : {A : Type ℓ} → (Error → Error) → Result A → Result A
with_error f (ok a) = ok a
with_error f (err e) = err (f e)

-- A call that returns an `error` only.
abbrev pub Done : Type 0
Done = Unit {0}

module _ {ℓ κ} {S : Type ℓ} {A : Type κ} where
  abbrev pub pure : A → Action S A
  pure a s = (ok a, s)

  abbrev pub raise : Error → Action S A
  raise e s = (err e, s)

  abbrev pub lift : Result A → Action S A
  lift r s = (r, s)

  abbrev pub on_error : (Error → Error) → Action S A → Action S A
  on_error f m s = let (r, s') = m s in (with_error f r, s')

module _ {ℓ κ μ} {S : Type ℓ} {A : Type κ} {B : Type μ} where
  abbrev continue : Result A → (A → Action S B) → Action S B
  continue (ok a) f s = f a s
  continue (err e) f s = (err e, s)

  infixl 5 ◌>>=◌ ◌>>◌
  abbrev pub ◌>>=◌ : Action S A → (A → Action S B) → Action S B
  ◌>>=◌ m f s = let (r, s') = m s in continue r f s'

  abbrev pub ◌>>◌ : Action S A → Action S B → Action S B
  m >> n = m >>= λ _. n

module _ {ℓ κ} {A : Type ℓ} {B : Type κ} where
  abbrev pub bind : Result A → (A → Result B) → Result B
  bind (ok a) f = f a
  bind (err e) f = err e

pub Result-cases {ℓ} :
    {A : Type ℓ} (r : Result A) → ((a : A) × (r ≡ ok a)) ⊎ ((e : Error) × (r ≡ err e))
Result-cases (ok a) = inl (a, refl)
Result-cases (err e) = inr (e, refl)
