-- ===== src/Calculator.antt =====
-- backend/internal/services/calculator.go: the brokerage calculator, over float64 as in Float.
pub mod Cut
pub mod Accepts
pub mod Split
use Prim.Native.Char.{code}
use realstate_allan.Float.Convert.{add_float, of_int, to_int64, negative_int}
use realstate_allan.Format.{format_indian_number}
use realstate_allan.Float.{Float64, div, mul, le, of_nat, zero_float, lt}
use realstate_allan.Common.Int.{ℤ, to_nat, pos, negsuc, ltb_ℤ}
use realstate_allan.Common.{
  String, Option, ℕ, none, Text, if◌then◌else◌, Bool, atoi, some, str_eq, ◌+◌, codes, not, ltb,
  ◌==◌, trim_space, ◌||◌, ◌^◌, false, ◌-◌, and_then,
}

abbrev pub mode_sale : String
mode_sale = "SALE"

abbrev pub mode_rental : String
mode_rental = "RENTAL"

pub record CalculatorInput : Type 0 where
  pub mode : String
  pub property_value : Float64
  pub monthly_rent : Float64
  pub commission_rate : Float64
  pub split_ratio : String

pub record CalculatorResult : Type 0 where
  pub mode : String
  pub total_commission : Float64
  pub split_a : Option Float64
  pub split_b : Option Float64
  pub total_commission_formatted : Text
  pub split_a_formatted : Option Text
  pub split_b_formatted : Option Text

-- The errors, by what their messages say.
pub data CalculatorError : Type 0 where
  property_value_not_positive monthly_rent_not_positive unknown_mode : CalculatorError
  commission_rate_out_of_range not_a_pair bad_a bad_b zero_part : CalculatorError
  bad_sum : (a b sum : ℤ) → CalculatorError

pub data Calculated (A : Type 0) : Type 0 where
  good : A → Calculated A
  bad : CalculatorError → Calculated A

abbrev pub checked_then : {A B : Type 0} → Calculated A → (A → Calculated B) → Calculated B
checked_then (good a) f = f a
checked_then (bad e) f = bad e

abbrev pub check_rate : Float64 → Option CalculatorError
check_rate rate =
    if le rate zero_float || lt (of_nat 10) rate then some commission_rate_out_of_range else none

unfoldable pub validate_input : CalculatorInput → Option CalculatorError
validate_input i =
    if str_eq i.mode mode_sale
    then (if le i.property_value zero_float
        then some property_value_not_positive
        else check_rate i.commission_rate)
    else if str_eq i.mode mode_rental
    then (if le i.monthly_rent zero_float
        then some monthly_rent_not_positive
        else check_rate i.commission_rate)
    else some unknown_mode

-- `float64(int64(v*100+0.5)) / 100`
unfoldable pub round2 : Float64 → Float64
round2 v =
    div (of_int (to_int64 (add_float (mul v (of_nat 100)) (div (of_nat 1) (of_nat 2)))))
      (of_nat 100)

-- strings.SplitN(s, sep, 2) with a separator of one code point: `none` where it does not occur.
unfoldable pub cut : ℕ → String → Option (String × String)
cut sep String.[] = none
cut sep (String.◌∷◌ c s) =
    let rest = cut sep s in
    if code c == sep then some ("", s) else and_then rest λ p. some (String.◌∷◌ c p.0, p.1)

-- a + b on non-negative ints, whose sum may wrap round.
abbrev pub add_int : ℤ → ℤ → ℤ
add_int a b =
    let sum = to_nat a + to_nat b in
    if ltb sum (2 ^ 63) then pos sum else negative_int (2 ^ 64 - sum)

abbrev pub is_int : ℕ → ℤ → Bool
is_int n (pos m) = m == n
is_int n (negsuc m) = false

abbrev pub part : String → CalculatorError → Calculated ℤ
part s e = elim (atoi (codes (trim_space s))) [
  | none ↦ bad e
  | some n ↦ if ltb_ℤ n (pos 0) then bad e else good n
]

abbrev pub whole_split : ℤ → ℤ → Calculated (ℤ × ℤ)
whole_split a b =
    if not (is_int 100 (add_int a b))
    then bad (bad_sum a b (add_int a b))
    else if is_int 0 a || is_int 0 b
    then bad zero_part
    else good (a, b)

unfoldable pub parse_split_ratio : String → Calculated (ℤ × ℤ)
parse_split_ratio ratio = elim (cut b':' ratio) [
  | none ↦ bad not_a_pair
  | some p ↦ checked_then (part p.0 bad_a) λ a. checked_then (part p.1 bad_b) λ b. whole_split a b
]

abbrev pub percent : Float64 → Float64
percent rate = div rate (of_nat 100)

unfoldable pub commission : CalculatorInput → Float64
commission i =
    if str_eq i.mode mode_sale
    then mul i.property_value (percent i.commission_rate)
    else if str_eq i.mode mode_rental
    then mul i.monthly_rent (percent i.commission_rate)
    else zero_float

abbrev pub share_of : Float64 → ℤ → Float64
share_of total n = round2 (percent (mul total (of_int n)))

abbrev pub unsplit : CalculatorInput → CalculatorResult
unsplit i = record {
  mode = i.mode;
  total_commission = round2 (commission i);
  split_a = none;
  split_b = none;
  total_commission_formatted = format_indian_number (round2 (commission i));
  split_a_formatted = none;
  split_b_formatted = none;
}

abbrev pub with_split : CalculatorInput → ℤ × ℤ → CalculatorResult
with_split i (a, b) = record (unsplit i) {
  split_a = some (share_of (commission i) a);
  split_b = some (share_of (commission i) b);
  split_a_formatted = some (format_indian_number (share_of (commission i) a));
  split_b_formatted = some (format_indian_number (share_of (commission i) b));
}

unfoldable pub calculate : CalculatorInput → Calculated CalculatorResult
calculate i = elim (validate_input i) [
  | some e ↦ bad e
  | none ↦
      if str_eq i.split_ratio ""
      then good (unsplit i)
      else checked_then (parse_split_ratio i.split_ratio) λ p. good (with_split i p)
]
