-- ===== src/Format/Shape.antt =====
-- The sizes of the digit groups that backend/internal/utils/format.go writes.
use realstate_allan.Format.{group_loop, group_step, suffix, without_suffix, group_digits}
use realstate_allan.Common.{
  Text, ℕ, length, ◌&&◌, all, leb, ◌≡◌, ◌≤◌, ◌∷◌, true, false, [], drop, take, ◌++◌, arith, suc,
  Bool-cases, zero, inl, refl, inr, ap₂, leb→gt, subst, length-drop, sym, leb→le, ◌-◌,
  length-take-le, is_digit, and-true,
}

-- A group of three digits at the end, and groups of two before it.
pub data IsPaired : Text → Type 0 where
  last :
      (a b c : ℕ)
      → is_digit a ≡ true
      → is_digit b ≡ true
      → is_digit c ≡ true
      → IsPaired (a ∷ b ∷ c ∷ [])
  pair :
      (a b : ℕ) (t : Text)
      → is_digit a ≡ true
      → is_digit b ≡ true
      → IsPaired t
      → IsPaired (a ∷ b ∷ b',' ∷ t)

-- The first group may be a single digit, and up to three digits stand without a comma.
pub data IsIndian : Text → Type 0 where
  short : (s : Text) → length s ≤ 3 → IsIndian s
  even : (t : Text) → IsPaired t → IsIndian t
  odd : (a : ℕ) (t : Text) → is_digit a ≡ true → IsPaired t → IsIndian (a ∷ b',' ∷ t)

length-suffix : (k : ℕ) (s : Text) → k ≤ length s → length (suffix k s) ≡ k
length-suffix k s h = omega (arith, h, length-drop (length s - k) s)

all-drop : (k : ℕ) (s : Text) → all is_digit s ≡ true → all is_digit (drop k s) ≡ true
all-drop zero s h = h
all-drop (suc k) [] h = refl
all-drop (suc k) (c ∷ s) h = all-drop k s (and-true h).1

all-take : (k : ℕ) (s : Text) → all is_digit s ≡ true → all is_digit (take k s) ≡ true
all-take zero s h = refl
all-take (suc k) [] h = refl
all-take (suc k) (c ∷ s) h = ap₂ (λ a b. a && b) (and-true h).0 (all-take k s (and-true h).1)

pair_up :
    (t r : Text) → length t ≡ 2 → all is_digit t ≡ true → IsPaired r → IsPaired (t ++ b',' ∷ r)
pair_up [] r e h p = absurd (omega (arith, e))
pair_up (a ∷ []) r e h p = absurd (omega (arith, e))
pair_up (a ∷ b ∷ []) r e h p = pair a b r (and-true h).0 (and-true (and-true h).1).0 p
pair_up (a ∷ b ∷ c ∷ t) r e h p = absurd (omega (arith, e))

three : (t : Text) → length t ≡ 3 → all is_digit t ≡ true → IsPaired t
three [] e h = absurd (omega (arith, e))
three (a ∷ []) e h = absurd (omega (arith, e))
three (a ∷ b ∷ []) e h = absurd (omega (arith, e))
three (a ∷ b ∷ c ∷ []) e h =
    let (ha, rest) = and-true h in let (hb, hc) = and-true rest in last a b c ha hb (and-true hc).0
three (a ∷ b ∷ c ∷ d ∷ t) e h = absurd (omega (arith, e))

single :
    (a : ℕ) (s r : Text)
    → leb 2 (length (a ∷ s)) ≡ false
    → all is_digit (a ∷ s) ≡ true
    → IsPaired r
    → IsIndian ((a ∷ s) ++ b',' ∷ r)
single a [] r e h p = odd a r (and-true h).0 p
single a (b ∷ s) r e h p = absurd (omega (arith, leb→gt 2 (length (a ∷ b ∷ s)) e))

step_pair :
    (s r : Text)
    → leb 2 (length s) ≡ true
    → group_step (s, r) ≡ (without_suffix 2 s, suffix 2 s ++ b',' ∷ r)
unfolding group_step
step_pair s r e = rw e refl

step_single : (s r : Text) → leb 2 (length s) ≡ false → group_step (s, r) ≡ ([], s ++ b',' ∷ r)
unfolding group_step
step_single s r e = rw e refl

loop_done : (fuel : ℕ) (r : Text) → group_loop fuel ([], r) ≡ ([], r)
unfolding group_loop
loop_done zero r = refl
loop_done (suc fuel) r = refl

loop_shape :
    (fuel : ℕ) (s r : Text)
    → length s ≤ fuel
    → all is_digit s ≡ true
    → IsPaired r
    → IsIndian (group_loop fuel (s, r)).1
unfolding group_loop
loop_shape zero [] r h d p = even r p
loop_shape (suc fuel) [] r h d p = even r p
loop_shape zero (c ∷ s) r h d p = absurd (omega (arith, h))
loop_shape (suc fuel) (c ∷ s) r h d p = elim (Bool-cases (leb 2 (length (c ∷ s)))) [
  | inl e ↦
      let t : Text = c ∷ s in
      subst (λ g. IsIndian (group_loop fuel g).1) (sym (step_pair t r e))
        (loop_shape fuel (without_suffix 2 t) (suffix 2 t ++ b',' ∷ r)
          (omega (arith, h, length-take-le (length t - 2) t)) (all-take (length t - 2) t d)
          (pair_up (suffix 2 t) r (length-suffix 2 t (leb→le 2 (length t) e))
            (all-drop (length t - 2) t d) p))
  | inr e ↦
      subst (λ g. IsIndian (group_loop fuel g).1) (sym (step_single (c ∷ s) r e))
        (subst (λ g. IsIndian g.1) (sym (loop_done fuel ((c ∷ s) ++ b',' ∷ r)))
          (single c s r e d p))
]

-- A text of digits is grouped the Indian way: up to three digits as they are, more with a comma
-- before the last three and then before every two, so that one or two digits stand in front.
pub group_digits-IsIndian : (s : Text) → all is_digit s ≡ true → IsIndian (group_digits s)
unfolding group_digits
group_digits-IsIndian s d = elim (Bool-cases (leb (length s) 3)) [
  | inl e ↦ rw e (short s (leb→le (length s) 3 e))
  | inr e ↦ rw e (
      loop_shape (length s) (without_suffix 3 s) (suffix 3 s)
        (omega (arith, length-take-le (length s - 3) s, leb→gt (length s) 3 e))
        (all-take (length s - 3) s d)
        (three (suffix 3 s) (length-suffix 3 s (omega (arith, leb→gt (length s) 3 e)))
          (all-drop (length s - 3) s d)))
]
