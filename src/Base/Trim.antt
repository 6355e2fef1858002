-- ===== src/Base/Trim.antt =====
-- `strings.TrimSpace`, on ASCII white space.
use Prim.Native.Char.{Char, code}
use Prim.Native.String.{String}
use mathlib.Core.Path.{◌≡◌, refl}
use mathlib.Core.Bool.{Bool, true, false, ◌&&◌, ◌||◌}
use native.Mathlib.Omega.{arith}
use text.Mathlib.TextLemmas.{cons-append}
use remote_exec.Base.Tests.{leb, eqb, if◌then◌else◌}
use remote_exec.Base.Strings.{Text, ◌<>◌}

-- '\t', '\n', '\v', '\f', '\r' and ' '.
unfoldable pub is_space : Char → Bool
is_space c = eqb (code c) 32 || leb 9 (code c) && leb (code c) 13

abbrev is_empty : Text → Bool
is_empty String.[] = true
is_empty (String.◌∷◌ c s) = false

unfoldable pub trim_left : Text → Text
trim_left String.[] = ""
trim_left (String.◌∷◌ c s) = let rest = trim_left s in if is_space c then rest else String.◌∷◌ c s

unfoldable pub trim_right : Text → Text
trim_right String.[] = ""
trim_right (String.◌∷◌ c s) =
    let rest = trim_right s in if is_space c && is_empty rest then "" else String.◌∷◌ c rest

unfoldable pub trim_space : Text → Text
trim_space s = trim_right (trim_left s)

-- No white space anywhere.
abbrev pub IsSolid : Text → Type 0
IsSolid String.[] = Unit
IsSolid (String.◌∷◌ c s) = (is_space c ≡ false) × IsSolid s

trim_right_newline : trim_right ("" <> "\n") ≡ ""
unfolding trim_right is_space
trim_right_newline = refl

trim_right-solid : (s : Text) → IsSolid s → trim_right (s <> "\n") ≡ s
unfolding trim_right
trim_right-solid String.[] h = trim_right_newline
trim_right-solid (String.◌∷◌ c s) h =
    rw (cons-append c s "\n") (ground (arith, trim_right-solid s h.1))

trim_left-solid :
    (c : Char) (s : Text) → is_space c ≡ false → trim_left (String.◌∷◌ c s) ≡ String.◌∷◌ c s
unfolding trim_left
trim_left-solid c s h = ground arith

trim_space_newline : trim_space ("" <> "\n") ≡ ""
unfolding trim_space trim_left trim_right is_space
trim_space_newline = refl

-- A line feed behind a solid text is trimmed, and nothing else.
pub trim_space-solid : (s : Text) → IsSolid s → trim_space (s <> "\n") ≡ s
trim_space-solid String.[] h = trim_space_newline
trim_space-solid (String.◌∷◌ c s) h =
    unfold trim_space in
    rw (cons-append c s "\n", trim_left-solid c (s <> "\n") h.0, ← cons-append c s "\n")
      (trim_right-solid (String.◌∷◌ c s) h)
