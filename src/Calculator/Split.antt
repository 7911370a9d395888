-- ===== src/Calculator/Split.antt =====
-- What parseSplitRatio and Calculate of backend/internal/services/calculator.go accept.
use realstate_allan.Float.Convert.{negative_int}
use realstate_allan.Common.{
  ℕ, ◌≡◌, suc, false, ◌+◌, ◌==◌, ap, if◌then◌else◌, Bool-cases, String, not, ltb, Option-cases,
  subst, zero, ◌^◌, refl, ◌||◌, inl, ◌⊎◌, inr, atoi, ==_iff, ◌-◌, codes, trim_space,
}
use realstate_allan.Calculator.{
  Calculated, good, bad, whole_split, negsuc, is_int, parse_split_ratio, CalculatorError, bad_sum,
  part, cut, zero_part, bad_a, bad_b,
}
use realstate_allan.Common.Int.{ℤ, ltb_ℤ, pos}

-- The two parts of a commission, of a hundred.
abbrev pub IsSplit : ℤ × ℤ → Type 0
IsSplit (a, b) = (m n : ℕ) × (a ≡ pos (suc m)) × (b ≡ pos (suc n)) × (suc m + suc n ≡ 100)

abbrev SplitsInto : Calculated (ℤ × ℤ) → Type 0
SplitsInto (good p) = IsSplit p
SplitsInto (bad e) = Unit

overflow_not_100 : (n : ℕ) → is_int 100 (negative_int n) ≡ false
overflow_not_100 zero = refl
overflow_not_100 (suc n) = refl

positive : (n : ℕ) → (n == 0) ≡ false → (m : ℕ) × (n ≡ suc m)
positive zero h = absurd (cc)
positive (suc n) h = (n, refl)

both_parts :
    (a b : ℕ) → a + b ≡ 100 → (m : ℕ) × (a ≡ suc m) → (n : ℕ) × (b ≡ suc n) → IsSplit (pos a, pos b)
both_parts a b h (m, e) (n, f) = (m, n, ap pos e, ap pos f, rw (← e, ← f) h)

no_overflow :
    (a b : ℕ)
    → SplitsInto (
        if not (a + b == 100)
        then bad (bad_sum (pos a) (pos b) (pos (a + b)))
        else if a == 0 || b == 0
        then bad zero_part
        else good (pos a, pos b))
no_overflow a b = elim (Bool-cases (a + b == 100)) [
  | inr e ↦ rw e tt
  | inl e ↦ elim (Bool-cases (a == 0)) [
    | inl f ↦ rw (e, f) tt
    | inr f ↦ elim (Bool-cases (b == 0)) [
      | inl g ↦ rw (e, f, g) tt
      | inr g ↦
          rw (e, f, g) (both_parts a b ((==_iff (a + b) 100).0 e) (positive a f) (positive b g))
    ]
  ]
]

whole_split-IsSplit :
    (a b : ℤ) → ltb_ℤ a (pos 0) ≡ false → ltb_ℤ b (pos 0) ≡ false → SplitsInto (whole_split a b)
whole_split-IsSplit (negsuc a) b h k = absurd (cc)
whole_split-IsSplit (pos a) (negsuc b) h k = absurd (cc)
whole_split-IsSplit (pos a) (pos b) h k = elim (Bool-cases (ltb (a + b) (2 ^ 63))) [
  | inl e ↦ rw e (no_overflow a b)
  | inr e ↦ rw (e, overflow_not_100 (2 ^ 64 - (a + b))) tt
]

part-cases :
    (s : String) (e : CalculatorError)
    → (part s e ≡ bad e) ⊎ ((n : ℤ) × (part s e ≡ good n) × (ltb_ℤ n (pos 0) ≡ false))
part-cases s e = elim (Option-cases (atoi (codes (trim_space s)))) [
  | inl f ↦ inl (rw (f, part) refl)
  | inr (n, f) ↦ elim (Bool-cases (ltb_ℤ n (pos 0))) [
    | inl g ↦ inl (rw (f, g, part) refl)
    | inr g ↦ inr (n, rw (f, g, part) refl, g)
  ]
]

parse-SplitsInto : (ratio : String) → SplitsInto (parse_split_ratio ratio)
unfolding parse_split_ratio
parse-SplitsInto ratio = elim (Option-cases (cut b':' ratio)) [
  | inl e ↦ rw (SplitsInto, e) tt
  | inr (p, e) ↦ elim (part-cases p.0 bad_a) [
    | inl f ↦ rw (SplitsInto, e, f) tt
    | inr (a, f, ha) ↦ elim (part-cases p.1 bad_b) [
      | inl g ↦ rw (SplitsInto, e, f, g) tt
      | inr (b, g, hb) ↦ rw (SplitsInto, e, f, g) (whole_split-IsSplit a b ha hb)
    ]
  ]
]

-- A ratio that parses has two parts of at least 1 each, which sum to 100, whatever the text.
pub parse_split_ratio-IsSplit :
    (ratio : String) (p : ℤ × ℤ) → parse_split_ratio ratio ≡ good p → IsSplit p
parse_split_ratio-IsSplit ratio p h = subst SplitsInto h (parse-SplitsInto ratio)
