-- ===== src/Base/Strings.antt =====
-- Go's `string` and `[]byte` as one type: a text with one character for each byte. A conversion
-- between the two is then the identity, and an ASCII literal reads as in the source.
use Prim.Native.String.{String, ◌++◌}
use mathlib.Core.Path.{◌≡◌, sym, ◌∙◌}
use mathlib.Core.Logic.{◌≢◌, ite, dite}
use mathlib.Core.Bool.{Bool, true, false, ◌||◌, Bool-discrete, false≢true}
use mathlib.Core.List.{List, [], ◌∷◌}
use mathlib.Core.HLevel.{hedberg}
use native.Mathlib.Omega.{arith}
use text.Mathlib.Text.{◌==◌ as native_eq}
use text.Mathlib.TextEquality.{eq_iff}
use text.Mathlib.TextLemmas.{append_cancel_left, append-nil}

abbrev pub Text : Type 0
Text = String

infixr 60 ◌<>◌
abbrev pub ◌<>◌ : Text → Text → Text
s <> t = s ++ t

-- Equality of texts, decided. Shut in proofs, where a split on `s == t` yields the equation.
unfoldable pub text_dec : Discrete Text
text_dec s t =
    dite (Bool-discrete (native_eq s t) true) (λ same. yes ((eq_iff s t).0 same))
      (λ differ. no (λ p. differ ((eq_iff s t).1 p)))

pub text_set : IsSet Text
text_set = hedberg text_dec

infix 50 ◌==◌
abbrev pub ◌==◌ : Text → Text → Bool
s == t = ite (text_dec s t) true false

-- `==` at equal texts and at two literals, for proofs that do not run it.
pub eq_self : (s : Text) → (s == s) ≡ true
eq_self s = ground arith

pub eq→≡ : (s t : Text) → (s == t) ≡ true → s ≡ t
eq→≡ s t h = ground arith

-- A membership test, as the loop of policy.go's `contains` makes it.
unfoldable pub contains : List Text → Text → Bool
contains [] v = false
contains (item ∷ list) v = item == v || contains list v

-- Two literals differ: the second argument is `refl`.
pub ne_literal : (s t : Text) → native_eq s t ≡ false → s ≢ t
ne_literal s t h e = false≢true (sym h ∙ (eq_iff s t).1 e)

-- No text is its own proper prefix.
pub append-ne_self : (s t : Text) → t ≢ "" → s ≢ s <> t
append-ne_self s t ne e = ne (sym (append_cancel_left s "" t (append-nil s ∙ e)))
