-- ===== src/Format.antt =====
-- backend/internal/utils/format.go: rupees with Indian digit groups, and the price per square metre.
pub mod Shape
pub mod Grouping
use realstate_allan.Float.Convert.{show_int, to_int64, neg, math_round}
use realstate_allan.Float.{Float64, of_nat, eq, div, zero_float, lt, mul}
use realstate_allan.Common.{
  Text, ℕ, if◌then◌else◌, codes, drop, take, leb, ◌∷◌, ◌≡◌, length, suc, ◌-◌, ◌++◌, [], refl, zero,
}

abbrev rupee : Text
rupee = codes "₹"

-- The state of the loop over the digits that are left: `s` and `result`.
abbrev pub Grouping : Type 0
Grouping = Text × Text

-- s[len(s)-k:] and s[:len(s)-k], for k up to len(s)
abbrev pub suffix : ℕ → Text → Text
suffix k s = drop (length s - k) s

abbrev pub without_suffix : ℕ → Text → Text
without_suffix k s = take (length s - k) s

-- One round of the loop.
unfoldable pub group_step : Grouping → Grouping
group_step (s, result) =
    if leb 2 (length s)
    then (without_suffix 2 s, suffix 2 s ++ b',' ∷ result)
    else ([], s ++ b',' ∷ result)

-- `for len(s) > 0`, at most `fuel` rounds.
unfoldable pub group_loop : ℕ → Grouping → Grouping
group_loop fuel ([], result) = ([], result)
group_loop zero (c ∷ s, result) = (c ∷ s, result)
group_loop (suc fuel) (c ∷ s, result) = group_loop fuel (group_step (c ∷ s, result))

-- As many rounds as digits are enough (Format.Grouping).
unfoldable pub group_digits : Text → Text
group_digits s =
    if leb (length s) 3 then s else (group_loop (length s) (without_suffix 3 s, suffix 3 s)).1

unfoldable pub format_magnitude : Float64 → Text
format_magnitude n = group_digits (show_int (to_int64 (math_round n)))

unfoldable pub format_indian_number : Float64 → Text
format_indian_number n =
    if eq n zero_float
    then codes "₹0"
    else if lt n zero_float
    then codes "-₹" ++ format_magnitude (neg n)
    else rupee ++ format_magnitude n

abbrev pub hundredth : Float64 → Float64
hundredth x = div x (of_nat 100)

unfoldable pub format_price_per_sqm : (price area : Float64) → Float64
format_price_per_sqm price area =
    if eq area zero_float
    then zero_float
    else hundredth (math_round (mul (div price area) (of_nat 100)))

format_test :
    (format_indian_number (of_nat 5000000) ≡ codes "₹50,00,000")
    × (format_indian_number (of_nat 100000) ≡ codes "₹1,00,000")
    × (format_indian_number (neg (of_nat 1500)) ≡ codes "-₹1,500")
    × (format_indian_number (of_nat 123) ≡ codes "₹123")
unfolding format_indian_number eq of_nat lt format_magnitude group_digits show_int to_int64
    math_round realstate_allan.Common.show_nat realstate_allan.Common.digits_of group_loop
    group_step neg
format_test = (refl, refl, refl, refl)
