-- ===== src/Float.antt =====
-- Go's float64: IEEE 754 binary64 with rounding to nearest, ties to even. Every finite value is a
-- whole multiple of 2 ^ -1074, so a finite value is its sign and that multiple. Used by the
-- prices, areas and coordinates of backend/internal/models/property.go and by
-- backend/internal/services/calculator.go.
pub mod Sql
pub mod Order
pub mod Rounding
pub mod Convert
use realstate_allan.Common.{
  ℕ, zero, suc, ◌+◌, ◌-◌, ◌*◌, ◌/◌, ◌%◌, ◌^◌, ◌≡◌, refl, Bool, true, false, not, ◌&&◌, ◌||◌, ltb,
  ◌==◌, if◌then◌else◌,
}

pub data Float64 : Type 0 where
  nan : Float64
  inf : (negative : Bool) → Float64
  fin : (negative : Bool) → (units : ℕ) → Float64

-- 1.0, in units.
unfoldable pub one_units : ℕ
one_units = 2 ^ 1074

-- The first multiple that no float64 reaches: 2 ^ 1024.
unfoldable pub limit_units : ℕ
limit_units = 2 ^ 2098

-- The number of binary digits.
unfoldable pub bit_length : ℕ → ℕ → ℕ
bit_length zero n = 0
bit_length (suc fuel) n = let rest = suc (bit_length fuel (n / 2)) in if n == 0 then 0 else rest

unfoldable pub round_even : ℕ → ℕ → ℕ
round_even p q =
    let floor = p / q in
    let twice = 2 * (p % q) in
    if ltb twice q
    then floor
    else if ltb q twice
    then floor + 1
    else if floor % 2 == 0
    then floor
    else floor + 1

-- The float64 nearest to p / q units, for q above 0: 53 binary digits, or fewer below the normal
-- range. 4300 digits hold every quotient that the operations make.
unfoldable pub round_units : Bool → ℕ → ℕ → Float64
unfolding bit_length round_even limit_units
round_units negative p q =
    let ulp = 2 ^ (bit_length 4300 (p / q) - 53) in
    let units = round_even p (q * ulp) * ulp in
    if ltb units limit_units then fin negative units else inf negative

abbrev pub xor : Bool → Bool → Bool
xor true b = not b
xor false b = b

unfoldable pub of_nat : ℕ → Float64
unfolding round_units one_units
of_nat n = round_units false (n * one_units) 1

unfoldable pub mul : Float64 → Float64 → Float64
unfolding round_units one_units
mul nan _ = nan
mul (inf s) nan = nan
mul (inf s) (inf t) = inf (xor s t)
mul (inf s) (fin t n) = if n == 0 then nan else inf (xor s t)
mul (fin s m) nan = nan
mul (fin s m) (inf t) = if m == 0 then nan else inf (xor s t)
mul (fin s m) (fin t n) = round_units (xor s t) (m * n) one_units

unfoldable pub div : Float64 → Float64 → Float64
unfolding round_units one_units
div nan _ = nan
div (inf s) nan = nan
div (inf s) (inf t) = nan
div (inf s) (fin t n) = inf (xor s t)
div (fin s m) nan = nan
div (fin s m) (inf t) = fin (xor s t) 0
div (fin s m) (fin t n) =
    if n == 0
    then (if m == 0 then nan else inf (xor s t))
    else round_units (xor s t) (m * one_units) n

-- `a < b` and `a <= b`; both are false where a side is not a number.
unfoldable pub lt : Float64 → Float64 → Bool
lt nan _ = false
lt (inf s) nan = false
lt (inf s) (inf t) = s && not t
lt (inf s) (fin t n) = s
lt (fin s m) nan = false
lt (fin s m) (inf t) = not t
lt (fin true m) (fin true n) = ltb n m
lt (fin true m) (fin false n) = not (m == 0 && n == 0)
lt (fin false m) (fin true n) = false
lt (fin false m) (fin false n) = ltb m n

-- `a == b`: the two zeros are equal, and nan is equal to nothing.
unfoldable pub eq : Float64 → Float64 → Bool
eq nan _ = false
eq (inf s) nan = false
eq (inf s) (inf t) = not (xor s t)
eq (inf s) (fin t n) = false
eq (fin s m) nan = false
eq (fin s m) (inf t) = false
eq (fin s m) (fin t n) = m == n && (m == 0 || not (xor s t))

unfoldable pub le : Float64 → Float64 → Bool
unfolding lt eq
le a b = lt a b || eq a b

-- The order of PostgreSQL's numeric and float8, in which nan equals itself and is above all else.
unfoldable pub sql_lt : Float64 → Float64 → Bool
unfolding lt
sql_lt nan b = false
sql_lt (inf s) nan = true
sql_lt (fin s m) nan = true
sql_lt (inf s) (inf t) = lt (inf s) (inf t)
sql_lt (inf s) (fin t n) = lt (inf s) (fin t n)
sql_lt (fin s m) (inf t) = lt (fin s m) (inf t)
sql_lt (fin s m) (fin t n) = lt (fin s m) (fin t n)

unfoldable pub sql_le : Float64 → Float64 → Bool
unfolding sql_lt
sql_le a b = not (sql_lt b a)

abbrev pub zero_float : Float64
zero_float = fin false 0

third_times_three : mul (div (of_nat 1) (of_nat 3)) (of_nat 3) ≡ of_nat 1
unfolding mul div of_nat
third_times_three = refl
