-- ===== src/Float/Rounding.antt =====
-- Rounding to a float64 keeps the order.
use native.Mathlib.Nat.{
  pow-suc, mul_assoc, le-div_iff_mul-le, div-mul-le_self, mul-mod_left, one-le-pow, pow-succ',
  mod-eq-sub-mul-div, mul-div_cancel, pow-le-pow_right, mul-le-mul_right,
}
use realstate_allan.Common.{
  ℕ, ◌≡◌, ◌==◌, ◌≤◌, ◌<◌, suc, false, arith, ◌/◌, Bool-cases, zero, inl, refl, inr, ==_iff,
  ==_false, if◌then◌else◌, ◌%◌, ◌+◌, ◌-◌, ◌≢◌, ltb, ◌*◌, ap, ◌∙◌, ◌^◌, ap₂, sym, subst,
}
use realstate_allan.Float.{bit_length, round_even}

bit_length_zero : (fuel : ℕ) → bit_length fuel 0 ≡ 0
unfolding bit_length
bit_length_zero zero = refl
bit_length_zero (suc fuel) = refl

bit_length-suc :
    (fuel n : ℕ) → (n == 0) ≡ false → bit_length (suc fuel) n ≡ suc (bit_length fuel (n / 2))
unfolding bit_length
bit_length-suc fuel n e = rw e refl

bit_length_mono : (fuel n m : ℕ) → n ≤ m → bit_length fuel n ≤ bit_length fuel m
unfolding bit_length
bit_length_mono zero n m h = omega arith
bit_length_mono (suc fuel) n m h = elim (Bool-cases (n == 0)) [
  | inl e ↦ rw (e, bit_length) (omega arith)
  | inr e ↦ elim (Bool-cases (m == 0)) [
    | inl f ↦ absurd (==_false n 0 e (omega (arith, (==_iff m 0).0 f, h)))
    | inr f ↦
        rw (e, f, bit_length)
          (omega (arith, bit_length_mono fuel (n / 2) (m / 2) (omega (arith, h))))
  ]
]

-- round_even, by the quotient and the remainder.
abbrev nearest : (floor rest q : ℕ) → ℕ
nearest floor rest q =
    if ltb (2 * rest) q
    then floor
    else if ltb q (2 * rest)
    then floor + 1
    else if floor % 2 == 0
    then floor
    else floor + 1

round_even_lem : (p q : ℕ) → round_even p q ≡ nearest (p / q) (p % q) q
unfolding round_even
round_even_lem p q = refl

nearest_mono : (floor r s q : ℕ) → r ≤ s → nearest floor r q ≤ nearest floor s q
nearest_mono floor r s q h = ground arith

nearest-le : (floor r q : ℕ) → (floor ≤ nearest floor r q) × (nearest floor r q ≤ floor + 1)
nearest-le floor r q = ground arith

sub_mono : (p p' f f' k k' : ℕ) → p ≤ p' → k ≡ k' → p - k ≤ p' - k'
sub_mono p p' f f' k k' h e = omega (arith, h, e)

mod_mono : (p p' q : ℕ) → p ≤ p' → p / q ≡ p' / q → p % q ≤ p' % q
mod_mono p p' q h e =
    rw (mod-eq-sub-mul-div p q, mod-eq-sub-mul-div p' q)
      (sub_mono p p' 0 0 (q * (p / q)) (q * (p' / q)) h (ap (λ f. q * f) e))

div_mono : (a b q : ℕ) → 0 < q → a ≤ b → a / q ≤ b / q
div_mono a b q pos h = (le-div_iff_mul-le pos).1 (omega (arith, div-mul-le_self a q, h))

lt_of : (a b : ℕ) → a ≤ b → a ≢ b → a < b
lt_of a b h k = ground arith

round_even_mono : (p p' q : ℕ) → 0 < q → p ≤ p' → round_even p q ≤ round_even p' q
round_even_mono p p' q pos h = elim (Bool-cases (p / q == p' / q)) [
  | inl e ↦
      let f = (==_iff (p / q) (p' / q)).0 e in
      rw (round_even_lem p q, round_even_lem p' q, f)
        (nearest_mono (p' / q) (p % q) (p' % q) q (mod_mono p p' q h f))
  | inr e ↦
      let less : p / q < p' / q =
        lt_of (p / q) (p' / q) (div_mono p p' q pos h) (==_false (p / q) (p' / q) e) in
      rw (round_even_lem p q, round_even_lem p' q)
        (omega (arith, less, (nearest-le (p / q) (p % q) q).1, (nearest-le (p' / q) (p' % q) q).0))
]

-- A multiple of the step is its own rounding.
exact_nearest : (k q : ℕ) → 0 < q → nearest k 0 q ≡ k
exact_nearest k q pos = ground arith

round_even_multiple : (k q : ℕ) → 0 < q → round_even (k * q) q ≡ k
round_even_multiple k q pos =
    round_even_lem (k * q) q
    ∙ ap₂ (λ f r. nearest f r q) (mul-div_cancel k pos) (mul-mod_left k q)
    ∙ exact_nearest k q pos

double : (n b : ℕ) → n / 2 < 2 ^ b → n < 2 ^ suc b
double n b h = omega (arith, h, pow-succ' 2 b)

below_power : (fuel n : ℕ) → n < 2 ^ fuel → n < 2 ^ bit_length fuel n
below_power zero n h = omega (arith, h, one-le-pow (bit_length 0 n) 2 (omega arith))
below_power (suc fuel) n h = elim (Bool-cases (n == 0)) [
  | inl e ↦ omega (arith, (==_iff n 0).0 e, one-le-pow (bit_length (suc fuel) n) 2 (omega arith))
  | inr e ↦ rw (bit_length-suc fuel n e) (
      double n (bit_length fuel (n / 2))
        (below_power fuel (n / 2) (omega (arith, h, pow-succ' 2 fuel))))
]

halve :
    (n b : ℕ) → 0 < n → (n / 2 ≡ 0 → b ≡ 0) → (0 < n / 2 → 2 ^ b ≤ 2 * (n / 2)) → 2 ^ suc b ≤ 2 * n
halve n b h z k = elim (Bool-cases (n / 2 == 0)) [
  | inl e ↦ rw (z ((==_iff (n / 2) 0).0 e)) (omega (arith, h))
  | inr e ↦
      omega (
        arith,
        pow-succ' 2 b,
        k (lt_of 0 (n / 2) (omega arith) (λ q. ==_false (n / 2) 0 e (sym q))),
      )
]

above_power : (fuel n : ℕ) → 0 < n → 2 ^ bit_length fuel n ≤ 2 * n
unfolding bit_length
above_power zero n h = omega (arith, h)
above_power (suc fuel) n h =
    let positive : (n == 0) ≡ false = ground arith in
    rw positive (
      halve n (bit_length fuel (n / 2)) h (λ z. ap (bit_length fuel) z ∙ bit_length_zero fuel)
        (above_power fuel (n / 2)))

-- The step between float64 values at a number of binary digits.
abbrev pub digit_step : ℕ → ℕ
digit_step b = 2 ^ (b - 53)

step_positive : (b : ℕ) → 0 < digit_step b
step_positive b = omega (arith, one-le-pow (b - 53) 2 (omega arith))

-- The rounded number of units.
abbrev pub rounded_units : ℕ → ℕ
rounded_units p = round_even p (digit_step (bit_length 4300 p)) * digit_step (bit_length 4300 p)

power_one : (a : ℕ) → 2 ^ a * 2 ^ zero ≡ 2 ^ a
power_one a = omega arith

pow_add : (a b : ℕ) → 2 ^ (a + b) ≡ 2 ^ a * 2 ^ b
pow_add a zero = ap (λ e. 2 ^ e) (omega arith) ∙ sym (power_one a)
pow_add a (suc b) =
    ap (λ e. 2 ^ e) (omega arith)
    ∙ pow-suc 2 (a + b)
    ∙ ap (λ x. x * 2) (pow_add a b)
    ∙ mul_assoc (2 ^ a) (2 ^ b) 2
    ∙ ap (λ x. 2 ^ a * x) (sym (pow-suc 2 b))

-- A power of two that is not below a step is a multiple of it.
power_multiple : (b c : ℕ) → b - 53 ≤ c → (k : ℕ) × (2 ^ c ≡ k * digit_step b)
power_multiple b c h =
    (2 ^ (c - (b - 53)), ap (λ e. 2 ^ e) (omega (arith, h)) ∙ pow_add (c - (b - 53)) (b - 53))

at_most :
    (p k : ℕ)
    → p ≤ k * digit_step (bit_length 4300 p)
    → rounded_units p ≤ k * digit_step (bit_length 4300 p)
at_most p k h =
    let q = digit_step (bit_length 4300 p) in
    let pos = step_positive (bit_length 4300 p) in
    mul-le-mul_right q (
      subst (λ x. round_even p q ≤ x) (round_even_multiple k q pos)
        (round_even_mono p (k * q) q pos h))

at_least :
    (p k : ℕ)
    → k * digit_step (bit_length 4300 p) ≤ p
    → k * digit_step (bit_length 4300 p) ≤ rounded_units p
at_least p k h =
    let q = digit_step (bit_length 4300 p) in
    let pos = step_positive (bit_length 4300 p) in
    mul-le-mul_right q (
      subst (λ x. x ≤ round_even p q) (round_even_multiple k q pos)
        (round_even_mono (k * q) p q pos h))

up_to_power : (p : ℕ) → p < 2 ^ 4300 → rounded_units p ≤ 2 ^ bit_length 4300 p
up_to_power p h =
    let b = bit_length 4300 p in
    let (k, e) = power_multiple b b (omega arith) in
    subst (λ x. rounded_units p ≤ x) (sym e)
      (at_most p k (subst (λ x. p ≤ x) e (omega (arith, below_power 4300 p h))))

half_power : (p c : ℕ) → 2 ^ suc c ≤ 2 * p → 2 ^ c ≤ p
half_power p c h = omega (arith, h, pow-succ' 2 c)

from_power : (p c : ℕ) → 0 < p → bit_length 4300 p ≡ suc c → 2 ^ c ≤ rounded_units p
from_power p c h e =
    let b = bit_length 4300 p in
    let (k, f) = power_multiple b c (omega (arith, e)) in
    subst (λ x. x ≤ rounded_units p) (sym f)
      (at_least p k (
        subst (λ x. x ≤ p) f
          (half_power p c (subst (λ n. 2 ^ n ≤ 2 * p) e (above_power 4300 p h)))))

same_step :
    (p p' : ℕ)
    → p ≤ p'
    → bit_length 4300 p ≡ bit_length 4300 p'
    → rounded_units p ≤ rounded_units p'
same_step p p' h e =
    let q = digit_step (bit_length 4300 p) in
    subst (λ b. rounded_units p ≤ round_even p' (digit_step b) * digit_step b) e
      (mul-le-mul_right q (round_even_mono p p' q (step_positive (bit_length 4300 p)) h))

nonzero : {b : ℕ} (p : ℕ) → b < bit_length 4300 p → 0 < p
nonzero {b} zero h = absurd (omega (arith, h, bit_length_zero 4300))
nonzero (suc p) h = omega arith

pub rounded_units_mono : (p p' : ℕ) → p ≤ p' → p' < 2 ^ 4300 → rounded_units p ≤ rounded_units p'
rounded_units_mono p p' h top = elim (Bool-cases (bit_length 4300 p == bit_length 4300 p')) [
  | inl e ↦ same_step p p' h ((==_iff (bit_length 4300 p) (bit_length 4300 p')).0 e)
  | inr e ↦
      let b = bit_length 4300 p in
      let c = bit_length 4300 p' - 1 in
      let less : b < bit_length 4300 p' =
        lt_of b (bit_length 4300 p') (bit_length_mono 4300 p p' h)
          (==_false b (bit_length 4300 p') e) in
      let some_digit : 0 < p' = nonzero p' less in
      omega (
        arith,
        up_to_power p (omega (arith, h, top)),
        pow-le-pow_right {n = 2} (omega arith) {i = b} {j = c} (omega (arith, less)),
        from_power p' c some_digit (omega (arith, less)),
      )
]
