-- ===== src/Calculator/Cut.antt =====
-- Which ratios parseSplitRatio of backend/internal/services/calculator.go takes.
use realstate_allan.Common.{
  ℕ, String, ◌≡◌, ◌≢◌, some, atoi, ==_iff, Bool-cases, codes, ◌==◌, trim_space, inl, suc, inr,
  subst, ◌+◌, and_then-eq-some, refl, true, false, sym, ◌∙◌, ap, Option-cases, ◌||◌, arith,
}
use realstate_allan.Calculator.{
  Calculated, CalculatorError, good, bad, whole_split, parse_split_ratio, part, cut, bad_a, bad_b,
  checked_then, is_int, add_int, not_a_pair, bad_sum, zero_part,
}
use realstate_allan.Calculator.Split.{IsSplit, parse_split_ratio-IsSplit}
use realstate_allan.Common.Int.{ℤ, ltb_ℤ, pos}
use Prim.Native.Char.{Char, code}
use mathlib.Core.Option.{some-injective}

-- The text is a, then the first separator in it, then b.
pub data CutAt (sep : ℕ) : String → String → String → Type 0 where
  here : (c : Char) (s : String) → code c ≡ sep → CutAt sep (String.◌∷◌ c s) "" s
  further :
      (c : Char) (s a b : String)
      → code c ≢ sep
      → CutAt sep s a b
      → CutAt sep (String.◌∷◌ c s) (String.◌∷◌ c a) b

CutAt-cut : (sep : ℕ) (s a b : String) → CutAt sep s a b → cut sep s ≡ some (a, b)
unfolding cut
CutAt-cut sep s a b (here c t e) = rw ((==_iff (code c) sep).1 e) refl
CutAt-cut sep s a b (further c t d _ ne h) = elim (Bool-cases (code c == sep)) [
  | inl e ↦ absurd (ne ((==_iff (code c) sep).0 e))
  | inr e ↦ rw (e, CutAt-cut sep t d b h) refl
]

cut-CutAt : (sep : ℕ) (s : String) (p : String × String) → cut sep s ≡ some p → CutAt sep s p.0 p.1
unfolding cut
cut-CutAt sep String.[] p h = absurd (cc)
cut-CutAt sep (String.◌∷◌ c s) p h = elim (Bool-cases (code c == sep)) [
  | inl e ↦
      let same = some-injective ("", s) p (rw (e, parse_split_ratio) at h) in
      subst (λ (p : String × String). CutAt sep (String.◌∷◌ c s) p.0 p.1) same
        (here c s ((==_iff (code c) sep).0 e))
  | inr e ↦
      let (r, f, g) =
        and_then-eq-some (cut sep s) (λ q. some (String.◌∷◌ c q.0, q.1)) (rw e at h) in
      subst (λ (p : String × String). CutAt sep (String.◌∷◌ c s) p.0 p.1)
        (some-injective (String.◌∷◌ c r.0, r.1) p g)
        (further c s r.0 r.1
          (λ same. let wrong : true ≡ false = sym ((==_iff (code c) sep).1 same) ∙ e in absurd (cc))
          (cut-CutAt sep s r f))
]

-- Two numbers of at least 1, written around the first colon, that sum to 100.
abbrev pub IsRatio : String → Type 0
IsRatio ratio =
    (a : String) × (b : String) × (m : ℕ) × (n : ℕ) × CutAt b':' ratio a b
    × (atoi (codes (trim_space a)) ≡ some (pos (suc m)))
    × (atoi (codes (trim_space b)) ≡ some (pos (suc n)))
    × (suc m + suc n ≡ 100)

value_or : {A : Type 0} → A → Calculated A → A
value_or d (good a) = a
value_or d (bad e) = d

good-injective : {A : Type 0} (a b : A) → good a ≡ good b → a ≡ b
unfolding value_or
good-injective a b h = ap (value_or a) h

part-good :
    (s : String) (e : CalculatorError) (n : ℤ)
    → part s e ≡ good n
    → atoi (codes (trim_space s)) ≡ some n
part-good s e n h = elim (Option-cases (atoi (codes (trim_space s)))) [
  | inl f ↦ let wrong : bad e ≡ good n = rw (f, part) at h in absurd (cc)
  | inr (m, f) ↦ elim (Bool-cases (ltb_ℤ m (pos 0))) [
    | inl g ↦ let wrong : bad e ≡ good n = rw (f, g, part) at h in absurd (cc)
    | inr g ↦ f ∙ ap some (good-injective m n (rw (f, g, part) at h))
  ]
]

whole_split-same : (a b : ℤ) (p : ℤ × ℤ) → whole_split a b ≡ good p → (a, b) ≡ p
whole_split-same a b p h = elim (Bool-cases (is_int 100 (add_int a b))) [
  | inr e ↦ let wrong : bad (bad_sum a b (add_int a b)) ≡ good p = rw e at h in absurd (cc)
  | inl e ↦ elim (Bool-cases (is_int 0 a || is_int 0 b)) [
    | inl f ↦ let wrong : bad zero_part ≡ good p = rw (e, f) at h in absurd (cc)
    | inr f ↦ good-injective (a, b) p (rw (e, f) at h)
  ]
]

checked_then-good :
    {A B : Type 0} (c : Calculated A) (f : A → Calculated B) (b : B)
    → checked_then c f ≡ good b
    → (a : A) × (c ≡ good a) × (f a ≡ good b)
checked_then-good (good a) f b h = (a, refl, h)
checked_then-good (bad e) f b h = absurd (cc)

pub good-IsRatio : (ratio : String) (p : ℤ × ℤ) → parse_split_ratio ratio ≡ good p → IsRatio ratio
unfolding parse_split_ratio
good-IsRatio ratio p h = elim (Option-cases (cut b':' ratio)) [
  | inl e ↦ let wrong : bad not_a_pair ≡ good p = rw (e, parse_split_ratio) at h in absurd (cc)
  | inr (r, e) ↦
      let (a, ha, h1) =
        checked_then-good (part r.0 bad_a) (λ a. checked_then (part r.1 bad_b) λ b. whole_split a b)
          p (rw (e, parse_split_ratio) at h) in
      let (b, hb, h2) = checked_then-good (part r.1 bad_b) (λ b. whole_split a b) p h1 in
      let (m, n, em, en, sum) =
        subst IsSplit (sym (whole_split-same a b p h2)) (parse_split_ratio-IsSplit ratio p h) in
      (
        r.0,
        r.1,
        m,
        n,
        cut-CutAt b':' ratio r e,
        part-good r.0 bad_a a ha ∙ ap some em,
        part-good r.1 bad_b b hb ∙ ap some en,
        sum,
      )
]

suc_not_0 : (n : ℕ) → (suc n == 0) ≡ false
suc_not_0 n = ground arith

suc_not_negative : (n : ℕ) → ltb_ℤ (pos (suc n)) (pos 0) ≡ false
suc_not_negative n = ground arith

whole :
    (m n : ℕ)
    → suc m + suc n ≡ 100
    → whole_split (pos (suc m)) (pos (suc n)) ≡ good (pos (suc m), pos (suc n))
whole m n sum = rw (sum, suc_not_0 m, suc_not_0 n) refl

pub IsRatio-good :
    (ratio : String) → IsRatio ratio → (p : ℤ × ℤ) × (parse_split_ratio ratio ≡ good p)
unfolding parse_split_ratio
IsRatio-good ratio (a, b, m, n, cuts, ha, hb, sum) =
    let pa : part a bad_a ≡ good (pos (suc m)) = rw (ha, part, suc_not_negative m) refl in
    let pb : part b bad_b ≡ good (pos (suc n)) = rw (hb, part, suc_not_negative n) refl in
    (
      (pos (suc m), pos (suc n)),
      rw (CutAt-cut b':' ratio a b cuts, pa, pb, parse_split_ratio) (whole m n sum),
    )
