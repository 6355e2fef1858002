-- ===== src/Base/Base64.antt =====
-- encoding/base64's `RawURLEncoding.EncodeToString`: three bytes become four digits, and no
-- padding is written.
use Prim.Native.Nat.{ℕ, zero, suc, ◌+◌, ◌*◌, ◌/◌, ◌%◌}
use Prim.Native.Char.{Char, nul}
use Prim.Native.String.{String}
use mathlib.Core.List.{List, [], ◌∷◌}
use mathlib.Core.Logic.{◌≢◌}
use text.Mathlib.TextLemmas.{cons≢nil}
use remote_exec.Base.Strings.{Text}

abbrev alphabet : Text
alphabet = "ABCDEFGHIJKLMNOPQRSTUVWXYZabcdefghijklmnopqrstuvwxyz0123456789-_"

nth_char : Text → ℕ → Char
nth_char String.[] i = nul
nth_char (String.◌∷◌ c s) zero = c
nth_char (String.◌∷◌ c s) (suc i) = nth_char s i

digit : ℕ → Char
unfolding nth_char
digit n = nth_char alphabet n

unfoldable pub encode_to_string : List ℕ → Text
unfolding digit
encode_to_string [] = ""
encode_to_string (a ∷ []) = String.◌∷◌ (digit (a / 4)) (String.◌∷◌ (digit (a % 4 * 16)) "")
encode_to_string (a ∷ b ∷ []) =
    String.◌∷◌ (digit (a / 4))
      (String.◌∷◌ (digit (a % 4 * 16 + b / 16)) (String.◌∷◌ (digit (b % 16 * 4)) ""))
encode_to_string (a ∷ b ∷ c ∷ rest) = String.◌∷◌ (digit (a / 4)) (
    String.◌∷◌ (digit (a % 4 * 16 + b / 16)) (
      String.◌∷◌ (digit (b % 16 * 4 + c / 64))
        (String.◌∷◌ (digit (c % 64)) (encode_to_string rest))))

-- The digits of at least one byte.
pub encode_to_string-ne_empty : (a : ℕ) (l : List ℕ) → encode_to_string (a ∷ l) ≢ ""
unfolding encode_to_string
encode_to_string-ne_empty a [] e = cons≢nil e
encode_to_string-ne_empty a (b ∷ []) e = cons≢nil e
encode_to_string-ne_empty a (b ∷ c ∷ l) e = cons≢nil e
