-- ===== src/Base/Quote.antt =====
-- `%q` of fmt, on ASCII texts: quotes, backslashes and control characters are escaped. Bytes from
-- 128 on are kept, as `strconv.Quote` does for printable UTF-8.
use Prim.Native.Nat.{ℕ, ◌/◌, ◌%◌}
use Prim.Native.Char.{Char, code}
use Prim.Native.String.{String}
use mathlib.Core.Bool.{◌||◌}
use remote_exec.Base.Tests.{ltb, eqb, if◌then◌else◌}
use remote_exec.Base.Strings.{Text, ◌<>◌}

hex_digit : ℕ → Text → Text
hex_digit n String.[] = ""
hex_digit n (String.◌∷◌ c s) =
    let rest = hex_digit (Prim.Native.Nat.pred n) s in if eqb n 0 then String.◌∷◌ c "" else rest

hex : ℕ → Text
unfolding hex_digit
hex n = hex_digit (n / 16) "0123456789abcdef" <> hex_digit (n % 16) "0123456789abcdef"

escape : Char → Text
unfolding hex
escape c =
    let n = code c in
    if eqb n 34 || eqb n 92
    then "\\" <> String.◌∷◌ c ""
    else if eqb n 7
    then "\\a"
    else if eqb n 8
    then "\\b"
    else if eqb n 9
    then "\\t"
    else if eqb n 10
    then "\\n"
    else if eqb n 11
    then "\\v"
    else if eqb n 12
    then "\\f"
    else if eqb n 13
    then "\\r"
    else if ltb n 32 || eqb n 127
    then "\\x" <> hex n
    else String.◌∷◌ c ""

escape_all : Text → Text
escape_all String.[] = ""
escape_all (String.◌∷◌ c s) = escape c <> escape_all s

unfoldable pub quote : Text → Text
unfolding escape escape_all
quote s = "\"" <> escape_all s <> "\""
