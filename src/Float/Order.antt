-- ===== src/Float/Order.antt =====
-- float64(n) keeps the order of the natural numbers that a time in nanoseconds reaches.
use realstate_allan.Float.Rounding.{rounded_units, rounded_units_mono, digit_step}
use realstate_allan.Float.{
  of_nat, le, one_units, Float64, round_units, lt, eq, limit_units, fin, inf, round_even,
  bit_length,
}
use realstate_allan.Common.{
  ℕ, ◌/◌, ◌*◌, ltb, ◌≤◌, ◌≡◌, if◌then◌else◌, arith, true, ◌<◌, ap, false, Bool-cases, ◌^◌, inr, inl,
  ap₂, refl, sym, ◌∙◌,
}

abbrev pub cap : ℕ → Float64
cap u = if ltb u limit_units then fin false u else inf false

div_one : (p : ℕ) → p / 1 ≡ p
div_one p = omega arith

one_times : (s : ℕ) → 1 * s ≡ s
one_times s = omega arith

of_nat-cap : (n : ℕ) → of_nat n ≡ cap (rounded_units (n * one_units))
unfolding of_nat round_units
of_nat-cap n =
    let p = n * one_units in
    ap
      (λ d.
        cap (round_even p (1 * digit_step (bit_length 4300 d)) * digit_step (bit_length 4300 d)))
      (div_one p)
    ∙ ap (λ s. cap (round_even p s * digit_step (bit_length 4300 p)))
        (one_times (digit_step (bit_length 4300 p)))

finite_le : (u v : ℕ) → u ≤ v → le (fin false u) (fin false v) ≡ true
unfolding le lt eq
finite_le u v h = ground arith

le-finite : (u v : ℕ) → le (fin false u) (fin false v) ≡ true → u ≤ v
unfolding le lt eq
le-finite u v h = ground arith

infinite_le : (u : ℕ) → le (fin false u) (inf false) ≡ true
unfolding le lt eq
infinite_le u = refl

infinite_least : (u : ℕ) → le (inf false) (fin false u) ≡ false
unfolding le lt eq
infinite_least u = refl

infinite_self : le (inf false) (inf false) ≡ true
unfolding le lt eq
infinite_self = refl

cap_small : (u : ℕ) → ltb u limit_units ≡ true → cap u ≡ fin false u
cap_small u h = rw h refl

cap_large : (u : ℕ) → ltb u limit_units ≡ false → cap u ≡ inf false
cap_large u h = rw h refl

below : (u v l : ℕ) → u ≤ v → ltb v l ≡ true → ltb u l ≡ true
below u v l h k = ground arith

-- Whatever is at most a value is at most every greater one.
cap_trans : (u v w : ℕ) → le (cap u) (cap v) ≡ true → v ≤ w → le (cap u) (cap w) ≡ true
cap_trans u v w h k = elim (Bool-cases (ltb w limit_units)) [
  | inr c ↦ elim (Bool-cases (ltb u limit_units)) [
    | inl a ↦ rw (cap_small u a, cap_large w c) (infinite_le u)
    | inr a ↦ rw (cap_large u a, cap_large w c) infinite_self
  ]
  | inl c ↦
      let b = below v w limit_units k c in
      elim (Bool-cases (ltb u limit_units)) [
        | inl a ↦
            let small : le (fin false u) (fin false v) ≡ true =
              ap₂ le (sym (cap_small u a)) (sym (cap_small v b)) ∙ h in
            ap₂ le (cap_small u a) (cap_small w c)
            ∙ finite_le u w (omega (arith, le-finite u v small, k))
        | inr a ↦
            let large : le (inf false) (fin false v) ≡ true =
              ap₂ le (sym (cap_large u a)) (sym (cap_small v b)) ∙ h in
            let wrong : true ≡ false = sym large ∙ infinite_least v in absurd (cc)
      ]
]

cap_refl : (u : ℕ) → le (cap u) (cap u) ≡ true
cap_refl u = elim (Bool-cases (ltb u limit_units)) [
  | inl a ↦ ap₂ le (cap_small u a) (cap_small u a) ∙ finite_le u u (omega arith)
  | inr a ↦ ap₂ le (cap_large u a) (cap_large u a) ∙ infinite_self
]

units_mono :
    (a b : ℕ) → a ≤ b → b < 2 ^ 64 → rounded_units (a * one_units) ≤ rounded_units (b * one_units)
unfolding one_units
units_mono a b h k =
    rounded_units_mono (a * 2 ^ 1074) (b * 2 ^ 1074) (omega (arith, h)) (omega (arith, k))

pub le-of_nat_trans :
    (x a b : ℕ)
    → le (of_nat x) (of_nat a) ≡ true
    → a ≤ b
    → b < 2 ^ 64
    → le (of_nat x) (of_nat b) ≡ true
le-of_nat_trans x a b h k top =
    ap₂ le (of_nat-cap x) (of_nat-cap b)
    ∙ cap_trans (rounded_units (x * one_units)) (rounded_units (a * one_units))
        (rounded_units (b * one_units)) (ap₂ le (sym (of_nat-cap x)) (sym (of_nat-cap a)) ∙ h)
        (units_mono a b k top)

pub of_nat-le : (a b : ℕ) → a ≤ b → b < 2 ^ 64 → le (of_nat a) (of_nat b) ≡ true
of_nat-le a b h top =
    le-of_nat_trans a a b
      (ap₂ le (of_nat-cap a) (of_nat-cap a) ∙ cap_refl (rounded_units (a * one_units))) h top
