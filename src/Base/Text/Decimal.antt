-- ===== src/Base/Text/Decimal.antt =====
-- `decimal` prints every number of 64 bits in full: its text reads back as the number.
use Prim.Native.Nat.{ℕ, zero, suc, ◌+◌, ◌-◌, ◌*◌, ◌/◌, ◌%◌, ◌<◌}
use Prim.Native.Char.{Char, code}
use Prim.Native.String.append
use Prim.Native.String.{String, ◌++◌}
use mathlib.Core.Path.{◌≡◌, refl, ap, ◌∙◌}
use mathlib.Core.Logic.{inl, inr}
use native.Mathlib.Omega.{arith}
use csi_alcub.Base.Tests.{ltb, Bool-cases}
use csi_alcub.Base.Int.{pos}
use csi_alcub.Base.Text.{digit, digits_onto, decimal}

-- The number that the digits of a text stand for, behind a number that is already read.
unfoldable pub value_onto : ℕ → String → ℕ
value_onto n String.[] = n
value_onto n (String.◌∷◌ c s) = value_onto (10 * n + (code c - 48)) s

-- The first number with more than `k` digits.
abbrev limit : ℕ → ℕ
limit zero = 1
limit (suc k) = 10 * limit k

append_one : (c : Char) (s : String) → String.◌∷◌ c "" ++ s ≡ String.◌∷◌ c s
append_one c s = append.cons c "" s ∙ ap (String.◌∷◌ c) (append.nil s)

value_onto-one :
    (c : Char) (a : ℕ) (s : String)
    → value_onto a (String.◌∷◌ c "" ++ s) ≡ value_onto (10 * a + (code c - 48)) s
unfolding value_onto
value_onto-one c a s = rw (append_one c s) refl

value_onto-digit :
    (a n : ℕ) (s : String) → n < 10 → value_onto a (digit n ++ s) ≡ value_onto (10 * a + n) s
value_onto-digit a zero s h = value_onto-one _ a s
value_onto-digit a (suc zero) s h = value_onto-one _ a s
value_onto-digit a (suc (suc zero)) s h = value_onto-one _ a s
value_onto-digit a (suc (suc (suc zero))) s h = value_onto-one _ a s
value_onto-digit a (suc (suc (suc (suc zero)))) s h = value_onto-one _ a s
value_onto-digit a (suc (suc (suc (suc (suc zero))))) s h = value_onto-one _ a s
value_onto-digit a (suc (suc (suc (suc (suc (suc zero)))))) s h = value_onto-one _ a s
value_onto-digit a (suc (suc (suc (suc (suc (suc (suc zero))))))) s h = value_onto-one _ a s
value_onto-digit a (suc (suc (suc (suc (suc (suc (suc (suc zero)))))))) s h = value_onto-one _ a s
value_onto-digit a (suc (suc (suc (suc (suc (suc (suc (suc (suc zero))))))))) s h =
    value_onto-one _ a s
value_onto-digit a (suc (suc (suc (suc (suc (suc (suc (suc (suc (suc n)))))))))) s h =
    absurd (omega arith)

-- With a round for each digit, the digits in front of `out` stand for the number.
value_onto-digits_onto :
    (k n : ℕ) (out : String)
    → n < limit (suc k)
    → value_onto 0 (digits_onto (suc k) n out) ≡ value_onto n out
unfolding digits_onto
value_onto-digits_onto zero n out h = ground (arith, value_onto-digit 0 (n % 10) out (omega arith))
value_onto-digits_onto (suc k) n out h = elim (Bool-cases (ltb n 10)) [
  | inl last ↦ ground (arith, value_onto-digit 0 (n % 10) out (omega arith))
  | inr more ↦
      let low : value_onto (n / 10) (digit (n % 10) ++ out)
          ≡ value_onto (10 * (n / 10) + n % 10) out =
        value_onto-digit (n / 10) (n % 10) out (omega arith) in
      let whole : 10 * (n / 10) + n % 10 ≡ n = omega arith in
      let high = value_onto-digits_onto k (n / 10) (digit (n % 10) ++ out) (omega arith) in
      ground (arith, low, whole, high)
]

-- Twenty digits are enough for a number below ten to the twentieth power, and so for every number
-- of 64 bits.
pub value_onto-decimal : (n : ℕ) → n < limit 20 → value_onto 0 (decimal (pos n)) ≡ n
unfolding decimal value_onto
value_onto-decimal n h = value_onto-digits_onto 19 n "" h
