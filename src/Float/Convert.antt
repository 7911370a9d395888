-- ===== src/Float/Convert.antt =====
-- float64 beyond its arithmetic: sums, the roundings and conversions that
-- backend/internal/utils/format.go and backend/internal/services use (math.Round, int64(…),
-- float64(…)), and fmt's verb %.nf.
use realstate_allan.Common.Int.{ℤ, pos, negsuc}
use realstate_allan.Common.{
  ℕ, Bool, ◌*◌, Text, ◌≡◌, if◌then◌else◌, not, ◌+◌, suc, ◌^◌, show_nat, [], ◌∷◌, codes, ◌/◌, ◌-◌,
  ◌++◌, zero, true, refl, ltb, ◌%◌, false,
}
use realstate_allan.Float.{
  round_units, Float64, one_units, of_nat, div, inf, round_even, fin, xor, nan,
}

unfoldable pub add_float : Float64 → Float64 → Float64
unfolding round_units
add_float nan _ = nan
add_float (inf s) nan = nan
add_float (inf s) (inf t) = if xor s t then nan else inf s
add_float (inf s) (fin t n) = inf s
add_float (fin s m) nan = nan
add_float (fin s m) (inf t) = inf t
add_float (fin s m) (fin t n) =
    if not (xor s t)
    then round_units s (m + n) 1
    else if ltb n m
    then round_units s (m - n) 1
    else if ltb m n
    then round_units t (n - m) 1
    else fin false 0

unfoldable pub neg : Float64 → Float64
neg nan = nan
neg (inf s) = inf (not s)
neg (fin s n) = fin (not s) n

-- The whole number nearest to a magnitude, halves away from zero.
unfoldable pub rounded : ℕ → ℕ
unfolding one_units
rounded n = (2 * n + one_units) / (2 * one_units)

-- math.Round
unfoldable pub math_round : Float64 → Float64
unfolding rounded one_units
math_round nan = nan
math_round (inf s) = inf s
math_round (fin s n) = fin s (rounded n * one_units)

abbrev pub negative_int : ℕ → ℤ
negative_int zero = pos 0
negative_int (suc n) = negsuc n

-- What amd64 gives for a value that int64 does not hold: -2 ^ 63.
abbrev pub min_int64 : ℤ
min_int64 = negsuc (2 ^ 63 - 1)

-- int64(x): towards zero.
unfoldable pub to_int64 : Float64 → ℤ
unfolding one_units
to_int64 nan = min_int64
to_int64 (inf s) = min_int64
to_int64 (fin false n) = let k = n / one_units in if ltb k (2 ^ 63) then pos k else min_int64
to_int64 (fin true n) =
    let k = n / one_units in if ltb k (2 ^ 63) then negative_int k else min_int64

-- float64(i)
unfoldable pub of_int : ℤ → Float64
unfolding of_nat
of_int (pos n) = of_nat n
of_int (negsuc n) = neg (of_nat (suc n))

unfoldable pub show_int : ℤ → Text
show_int (pos n) = show_nat n
show_int (negsuc n) = b'-' ∷ show_nat (suc n)

-- The last digits of a number, with leading zeros.
unfoldable pub last_digits : ℕ → ℕ → Text
last_digits zero n = []
last_digits (suc k) n = last_digits k (n / 10) ++ (48 + n % 10) ∷ []

abbrev fraction : ℕ → ℕ → Text
fraction zero n = []
fraction (suc k) n = b'.' ∷ last_digits (suc k) n

abbrev minus_if : Bool → Text
minus_if true = b'-' ∷ []
minus_if false = []

-- fmt.Sprintf("%.nf", x): the exact value to n decimals, halves to even.
unfoldable pub show_fixed : ℕ → Float64 → Text
unfolding one_units round_even
show_fixed p nan = codes "NaN"
show_fixed p (inf false) = codes "+Inf"
show_fixed p (inf true) = codes "-Inf"
show_fixed p (fin s n) =
    let k = round_even (n * 10 ^ p) one_units in minus_if s ++ show_nat (k / 10 ^ p) ++ fraction p k

convert_test :
    (show_fixed 2 (div (of_nat 5) (of_nat 2)) ≡ codes "2.50")
    × (show_fixed 0 (div (of_nat 5) (of_nat 2)) ≡ codes "2")
    × (to_int64 (math_round (neg (div (of_nat 5) (of_nat 2)))) ≡ negsuc 2)
    × (add_float (of_nat 1) (neg (of_nat 3)) ≡ neg (of_nat 2))
unfolding show_fixed div of_nat show_nat realstate_allan.Common.digits_of last_digits to_int64
    math_round neg add_float
convert_test = (refl, refl, refl, refl)
