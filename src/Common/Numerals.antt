-- ===== src/Common/Numerals.antt =====
-- Decimal numerals as Go writes and reads them: `strconv.FormatInt` and the digits that
-- `strconv.Atoi` reads.
use Prim.Native.Nat.{ℕ, zero, suc, ◌<◌, ◌+◌, ◌*◌, ◌/◌, ◌%◌, ◌^◌, ◌-◌}
use mathlib.Core.Path.{◌≡◌, refl, ◌∙◌, ap}
use mathlib.Core.Logic.{inl, inr}
use mathlib.Core.Bool.{true, false, ◌&&◌}
use mathlib.Core.Option.{some}
use mathlib.Core.List.{[], ◌∷◌, ◌++◌}
use native.Mathlib.Omega.{arith}
use realstate_allan.Common.Tests.{ltb, leb, and_then, Bool-cases, ltb→lt}
use realstate_allan.Common.Texts.{Text, digits_value}

-- The digits of a number below 10 ^ fuel, and at least one.
unfoldable pub digits_of : ℕ → ℕ → Text
digits_of zero n = []
digits_of (suc fuel) n = elim (ltb n 10) [
  | true ↦ (48 + n) ∷ []
  | false ↦ digits_of fuel (n / 10) ++ (48 + n % 10) ∷ []
]

-- 400 digits hold every whole float64 and its hundredfold.
unfoldable pub show_nat : ℕ → Text
show_nat n = digits_of 400 n

digits_value-concat :
    (a : ℕ) (s : Text) (d : ℕ)
    → d < 10
    → digits_value a (s ++ (48 + d) ∷ []) ≡ and_then (digits_value a s) (λ v. some (10 * v + d))
unfolding digits_value
digits_value-concat a [] d h = ground arith
digits_value-concat a (c ∷ s) d h = elim (Bool-cases (leb 48 c && leb c 57)) [
  | inl e ↦ rw e (digits_value-concat (10 * a + (c - 48)) s d h)
  | inr e ↦ rw e refl
]

next_digit :
    (fuel n : ℕ)
    → digits_value 0 (digits_of fuel (n / 10)) ≡ some (n / 10)
    → digits_value 0 (digits_of fuel (n / 10) ++ (48 + n % 10) ∷ []) ≡ some n
next_digit fuel n h =
    digits_value-concat 0 (digits_of fuel (n / 10)) (n % 10) (omega arith)
    ∙ rw h (ap some (omega arith))

one_digit : (n : ℕ) → n < 10 → digits_value 0 ((48 + n) ∷ []) ≡ some n
unfolding digits_value
one_digit n h = ground arith

no_digits : digits_value 0 [] ≡ some 0
unfolding digits_value
no_digits = refl

lower : (fuel n : ℕ) → n < 10 ^ suc fuel → n / 10 < 10 ^ fuel
lower fuel n h = omega (arith, h)

pub digits_of_lem : (fuel n : ℕ) → n < 10 ^ fuel → digits_value 0 (digits_of fuel n) ≡ some n
unfolding digits_of
digits_of_lem zero n h = no_digits ∙ ap some (omega (arith, h))
digits_of_lem (suc fuel) n h = elim (Bool-cases (ltb n 10)) [
  | inl e ↦ rw (e, digits_of) (one_digit n (ltb→lt n 10 e))
  | inr e ↦ rw (e, digits_of) (next_digit fuel n (digits_of_lem fuel (n / 10) (lower fuel n h)))
]
