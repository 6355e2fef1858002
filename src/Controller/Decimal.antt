-- ===== src/Controller/Decimal.antt =====
-- The decimal text of an exit code.
use Prim.Native.Nat.{◌<◌}
use Prim.Native.Char.{code}
use Prim.Native.String.{String}
use native.Mathlib.Nat.{pow-suc}
use text.Mathlib.TextLemmas.{nil-append, cons-append}
use remote_exec.Base.{
  sym, ℕ, zero, suc, ◌+◌, ◌-◌, ◌*◌, ◌/◌, ◌%◌, ◌^◌, ◌≡◌, refl, ap, ◌∙◌, ltb, arith, Text, ◌<>◌,
  Bool-cases, inl, inr,
}
use remote_exec.Base.Int.{pos, negsuc}
use remote_exec.Controller.{digit, decimal, format_int}

-- The number that a text of decimal digits stands for, read behind the number `n`.
read_from : ℕ → Text → ℕ
read_from n String.[] = n
read_from n (String.◌∷◌ c s) = read_from (n * 10 + (code c - b'0')) s

read_from-append : (n : ℕ) (s t : Text) → read_from n (s <> t) ≡ read_from (read_from n s) t
unfolding read_from
read_from-append n String.[] t = ap (λ (s : Text). read_from n s) (nil-append t)
read_from-append n (String.◌∷◌ c s) t =
    ap (λ (u : Text). read_from n u) (cons-append c s t)
    ∙ read_from-append (n * 10 + (code c - b'0')) s t

read_from-digit : (n d : ℕ) → d < 10 → read_from n (digit d) ≡ n * 10 + d
unfolding read_from digit
read_from-digit n zero h = refl
read_from-digit n (suc zero) h = refl
read_from-digit n (suc (suc zero)) h = refl
read_from-digit n (suc (suc (suc zero))) h = refl
read_from-digit n (suc (suc (suc (suc zero)))) h = refl
read_from-digit n (suc (suc (suc (suc (suc zero))))) h = refl
read_from-digit n (suc (suc (suc (suc (suc (suc zero)))))) h = refl
read_from-digit n (suc (suc (suc (suc (suc (suc (suc zero))))))) h = refl
read_from-digit n (suc (suc (suc (suc (suc (suc (suc (suc zero)))))))) h = refl
read_from-digit n (suc (suc (suc (suc (suc (suc (suc (suc (suc zero))))))))) h = refl
read_from-digit n (suc (suc (suc (suc (suc (suc (suc (suc (suc (suc d)))))))))) h =
    absurd (omega arith)

zero_of : (n : ℕ) → n < 1 → n ≡ 0
zero_of n h = omega arith

read-decimal : (fuel n : ℕ) → n < 10 ^ fuel → read_from 0 (decimal fuel n) ≡ n
unfolding decimal read_from
read-decimal zero n h = sym (zero_of n h)
read-decimal (suc fuel) n h =
    let shorter : n / 10 < 10 ^ fuel = omega (arith, pow-suc 10 fuel) in
    elim (Bool-cases (ltb n 10)) [
      | inl one ↦ ground (arith, read_from-digit 0 n)
      | inr more ↦ ground (
        arith,
        read_from-append 0 (decimal fuel (n / 10)) (digit (n % 10)),
        read-decimal fuel (n / 10) shorter,
        read_from-digit (n / 10) (n % 10),
      )
    ]

-- Twenty digits are enough for every number of 64 bits: the text that `format_int` writes of a
-- number that is not negative reads back as that number, and of a negative one it is the sign
-- before the text of its absolute value.
format_int-read :
    (n : ℕ)
    → n < 2 ^ 64
    → (read_from 0 (format_int (pos n)) ≡ n)
      × ((t : Text) × (format_int (negsuc n) ≡ "-" <> t) × (read_from 0 t ≡ suc n))
unfolding format_int
format_int-read n h = (
  read-decimal 20 n (omega arith),
  (decimal 20 (suc n), refl, read-decimal 20 (suc n) (omega arith)),
)
