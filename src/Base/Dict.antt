-- ===== src/Base/Dict.antt =====
-- A Go `map[string]V` as an association list. The laws say what a read sees after a write or a
-- delete; the order of entries stands for no order of the program's.
use mathlib.Core.Path.{◌≡◌, refl}
use mathlib.Core.Logic.{◌≢◌}
use mathlib.Core.Option.{Option, none, some}
use mathlib.Core.List.{List, [], ◌∷◌}
use native.Mathlib.Omega.{arith}
use remote_exec.Base.Tests.{if◌then◌else◌}
use remote_exec.Base.Strings.{Text, ◌==◌}

abbrev pub Dict {ℓ} : Type ℓ → Type ℓ
Dict V = List (Text × V)

module _ {ℓ} {V : Type ℓ} where
  -- `v, ok := m[k]`
  unfoldable pub lookup : Text → Dict V → Option V
  lookup k [] = none
  lookup k ((j, v) ∷ m) = if k == j then some v else lookup k m

  -- `delete(m, k)`
  unfoldable pub delete : Text → Dict V → Dict V
  delete k [] = []
  delete k ((j, v) ∷ m) = let rest = delete k m in if k == j then rest else (j, v) ∷ rest

  -- `m[k] = v`
  unfoldable pub insert : Text → V → Dict V → Dict V
  unfolding delete
  insert k v m = (k, v) ∷ delete k m

  pub lookup-nil : (k : Text) → lookup k [] ≡ none
  unfolding lookup
  lookup-nil k = refl

  pub lookup-delete :
      (j k : Text) (m : Dict V) → lookup j (delete k m) ≡ (if j == k then none else lookup j m)
  unfolding lookup delete
  lookup-delete j k [] = ground arith
  lookup-delete j k ((i, v) ∷ m) = ground (arith, lookup-delete j k m)

  pub lookup-insert :
      (j k : Text) (v : V) (m : Dict V)
      → lookup j (insert k v m) ≡ (if j == k then some v else lookup j m)
  unfolding lookup insert
  lookup-insert j k v m = ground (arith, lookup-delete j k m)

  pub lookup-insert_self : (k : Text) (v : V) (m : Dict V) → lookup k (insert k v m) ≡ some v
  lookup-insert_self k v m = ground (arith, lookup-insert k k v m)

  pub lookup-delete_self : (k : Text) (m : Dict V) → lookup k (delete k m) ≡ none
  lookup-delete_self k m = ground (arith, lookup-delete k k m)

  pub lookup-delete_ne : (j k : Text) (m : Dict V) → j ≢ k → lookup j (delete k m) ≡ lookup j m
  lookup-delete_ne j k m h = ground (arith, lookup-delete j k m)

  pub lookup-insert_ne :
      (j k : Text) (v : V) (m : Dict V) → j ≢ k → lookup j (insert k v m) ≡ lookup j m
  lookup-insert_ne j k v m h = ground (arith, lookup-insert j k v m)

  -- Both maps answer every read alike.
  abbrev pub SameLookups : Dict V → Dict V → Type ℓ
  SameLookups m n = (k : Text) → lookup k m ≡ lookup k n
