-- ===== src/Calculator/Accepts.antt =====
-- When Calculate of backend/internal/services/calculator.go gives a result, and which.
use realstate_allan.Calculator.Cut.{IsRatio, good-IsRatio, IsRatio-good}
use realstate_allan.Common.{
  ◌≡◌, ◌⊎◌, none, false, Bool-cases, inl, inr, Bool, ◌||◌, refl, arith, str_eq, Option, eq_iff,
  if◌then◌else◌, some, true, Option-cases, ◌↔◌,
}
use realstate_allan.Float.{Float64, le, zero_float, lt, of_nat}
use realstate_allan.Calculator.{
  CalculatorInput, check_rate, mode_sale, mode_rental, parse_split_ratio, good, validate_input,
  calculate, CalculatorError, commission_rate_out_of_range, CalculatorResult,
  property_value_not_positive, monthly_rent_not_positive, unknown_mode, Calculated, unsplit, bad,
  with_split,
}

-- The mode is known and its amount is not at or below 0; NaN, which no request holds, is neither.
abbrev pub HasAmount : CalculatorInput → Type 0
HasAmount i =
    ((i.mode ≡ "SALE") × (le i.property_value zero_float ≡ false))
    ⊎ ((i.mode ≡ "RENTAL") × (le i.monthly_rent zero_float ≡ false))

abbrev pub HasRate : CalculatorInput → Type 0
HasRate i = (le i.commission_rate zero_float ≡ false) × (lt (of_nat 10) i.commission_rate ≡ false)

abbrev pub HasSplit : CalculatorInput → Type 0
HasSplit i = (i.split_ratio ≡ "") ⊎ IsRatio i.split_ratio

guard-none :
    (c : Bool) (e : CalculatorError) (o : Option CalculatorError)
    → (if c then some e else o) ≡ none
    → (c ≡ false) × (o ≡ none)
guard-none true e o h = absurd (cc)
guard-none false e o h = (refl, h)

or-false : (a b : Bool) → (a || b) ≡ false → (a ≡ false) × (b ≡ false)
or-false a b h = ground arith

check_rate-none :
    (rate : Float64)
    → check_rate rate ≡ none
    → (le rate zero_float ≡ false) × (lt (of_nat 10) rate ≡ false)
check_rate-none rate h =
    or-false (le rate zero_float) (lt (of_nat 10) rate)
      (guard-none (le rate zero_float || lt (of_nat 10) rate) commission_rate_out_of_range none h).0

rate-check : (i : CalculatorInput) → HasRate i → check_rate i.commission_rate ≡ none
rate-check i (a, b) = rw (check_rate, a, b) refl

Calculated-cases :
    {A : Type 0} (c : Calculated A)
    → ((a : A) × (c ≡ good a)) ⊎ ((e : CalculatorError) × (c ≡ bad e))
Calculated-cases (good a) = inl (a, refl)
Calculated-cases (bad e) = inr (e, refl)

validated : (i : CalculatorInput) → validate_input i ≡ none → HasAmount i × HasRate i
unfolding validate_input
validated i h = elim (Bool-cases (str_eq i.mode mode_sale)) [
  | inl e ↦
      let (amount, rate) =
        guard-none (le i.property_value zero_float) property_value_not_positive
          (check_rate i.commission_rate) (rw e at h) in
      (inl ((eq_iff i.mode mode_sale).0 e, amount), check_rate-none i.commission_rate rate)
  | inr e ↦ elim (Bool-cases (str_eq i.mode mode_rental)) [
    | inl f ↦
        let (amount, rate) =
          guard-none (le i.monthly_rent zero_float) monthly_rent_not_positive
            (check_rate i.commission_rate) (rw (e, f) at h) in
        (inr ((eq_iff i.mode mode_rental).0 f, amount), check_rate-none i.commission_rate rate)
    | inr f ↦ let wrong : some unknown_mode ≡ none = rw (e, f) at h in absurd (cc)
  ]
]

validates : (i : CalculatorInput) → HasAmount i → HasRate i → validate_input i ≡ none
unfolding validate_input
validates i (inl (m, a)) r = rw (m, a) (rate-check i r)
validates i (inr (m, a)) r = rw (m, a) (rate-check i r)

finished :
    (i : CalculatorInput)
    → validate_input i ≡ none
    → (r : CalculatorResult) → calculate i ≡ good r
    → HasSplit i
unfolding calculate
finished i v r h = elim (Bool-cases (str_eq i.split_ratio "")) [
  | inl e ↦ inl ((eq_iff i.split_ratio "").0 e)
  | inr e ↦ elim (Calculated-cases (parse_split_ratio i.split_ratio)) [
    | inl (p, f) ↦ inr (good-IsRatio i.split_ratio p f)
    | inr (x, f) ↦ let wrong : bad x ≡ good r = rw (v, e, f, calculate) at h in absurd (cc)
  ]
]

accepted :
    (i : CalculatorInput)
    → validate_input i ≡ none
    → HasSplit i
    → (r : CalculatorResult) × (calculate i ≡ good r)
unfolding calculate
accepted i v (inl e) = (unsplit i, rw (v, (eq_iff i.split_ratio "").1 e, calculate) refl)
accepted i v (inr ratio) =
    let (p, e) = IsRatio-good i.split_ratio ratio in
    elim (Bool-cases (str_eq i.split_ratio "")) [
      | inl f ↦ (unsplit i, rw (v, f, calculate) refl)
      | inr f ↦ (with_split i p, rw (v, f, e, calculate) refl)
    ]

accepts :
    (i : CalculatorInput) (r : CalculatorResult)
    → calculate i ≡ good r
    → HasAmount i × HasRate i × HasSplit i
unfolding calculate
accepts i r h = elim (Option-cases (validate_input i)) [
  | inl v ↦ let (amount, rate) = validated i v in (amount, rate, finished i v r h)
  | inr (e, v) ↦ let wrong : bad e ≡ good r = rw (v, calculate) at h in absurd (cc)
]

-- The calculator gives a result exactly where the mode is SALE or RENTAL with an amount that is
-- not at or below 0, the rate is not at or below 0 and not above 10, and the ratio is empty or
-- has, around its first colon, two decimal numbers of at least 1 each that sum to 100, space
-- around each aside.
pub calculate-Accepts :
    (i : CalculatorInput)
    → ((r : CalculatorResult) × (calculate i ≡ good r)) ↔ (HasAmount i × HasRate i × HasSplit i)
calculate-Accepts i = ((λ (r, h). accepts i r h), (λ (a, b, c). accepted i (validates i a b) c))
