-- ===== src/Format/Grouping.antt =====
-- The digit groups of FormatIndianNumber in backend/internal/utils/format.go.
use realstate_allan.Float.Convert.{math_round, to_int64, rounded, show_int, neg}
use realstate_allan.Float.{one_units, fin, eq, lt}
use native.Mathlib.Nat.{mul-div_cancel}
use realstate_allan.Format.{
  Grouping, group_step, group_loop, without_suffix, suffix, group_digits, format_magnitude,
  format_indian_number,
}
use realstate_allan.Common.{
  ℕ, Text, Bool, select, ◌++◌, ◌≡◌, length, not, ◌∷◌, Bool-cases, suc, ◌≤◌, ◌==◌, sym,
  select-append, leb, ◌∙◌, ◌<◌, [], ap, inl, arith, zero, take-append-drop, append_assoc, inr, refl,
  ◌-◌, leb→le, length-take-le, false, ◌+◌, digits_of, if◌then◌else◌, true, ltb, ◌&&◌, ◌/◌, codes,
  ◌%◌, ◌^◌, ap₂, show_nat, digits_value, some, digits_of_lem, ltb→lt, leb→gt,
}

abbrev pub not_comma : ℕ → Bool
not_comma c = not (c == b',')

abbrev pub without_commas : Text → Text
without_commas = select not_comma

-- What is written and what is left to write, without the commas.
abbrev plain : Grouping → Text
plain (s, result) = without_commas s ++ without_commas result

split_suffix :
    (k : ℕ) (s : Text)
    → without_commas (without_suffix k s) ++ without_commas (suffix k s) ≡ without_commas s
split_suffix k s =
    sym (select-append not_comma (without_suffix k s) (suffix k s))
    ∙ ap without_commas (take-append-drop (length s - k) s)

comma-append : (s r : Text) → without_commas (s ++ b',' ∷ r) ≡ without_commas s ++ without_commas r
comma-append s r = select-append not_comma s (b',' ∷ r)

plain-group_step : (s r : Text) → plain (group_step (s, r)) ≡ plain (s, r)
unfolding group_step
plain-group_step s r = elim (Bool-cases (leb 2 (length s))) [
  | inl e ↦
      rw (e, comma-append (suffix 2 s) r)
        (sym (
            append_assoc (without_commas (without_suffix 2 s)) (without_commas (suffix 2 s))
              (without_commas r))
          ∙ ap (λ t. t ++ without_commas r) (split_suffix 2 s))
  | inr e ↦ rw e (comma-append s r)
]

plain-group_loop : (fuel : ℕ) (g : Grouping) → plain (group_loop fuel g) ≡ plain g
unfolding group_loop
plain-group_loop zero ([], r) = refl
plain-group_loop (suc fuel) ([], r) = refl
plain-group_loop zero (c ∷ s, r) = refl
plain-group_loop (suc fuel) (c ∷ s, r) =
    plain-group_loop fuel (group_step (c ∷ s, r)) ∙ plain-group_step (c ∷ s) r

-- Each round leaves fewer digits.
group_step_shorter : (c : ℕ) (s r : Text) → length (group_step (c ∷ s, r)).0 < length (c ∷ s)
unfolding group_step
group_step_shorter c s r = elim (Bool-cases (leb 2 (length (c ∷ s)))) [
  | inl e ↦
      rw e (omega (arith, leb→le 2 (length (c ∷ s)) e, length-take-le (length (c ∷ s) - 2) (c ∷ s)))
  | inr e ↦ rw e (omega arith)
]

loop_ends : (fuel : ℕ) (g : Grouping) → length g.0 ≤ fuel → (group_loop fuel g).0 ≡ []
unfolding group_loop
loop_ends zero ([], r) h = refl
loop_ends (suc fuel) ([], r) h = refl
loop_ends zero (c ∷ s, r) h = absurd (omega (arith, h))
loop_ends (suc fuel) (c ∷ s, r) h =
    loop_ends fuel (group_step (c ∷ s, r)) (omega (arith, h, group_step_shorter c s r))

-- The loop of FormatIndianNumber ends within as many rounds as there are digits: none are left,
-- and what is written holds the digits that were left and those that were written, in order.
pub group_loop_ends :
    (fuel : ℕ) (s r : Text)
    → length s ≤ fuel
    → ((group_loop fuel (s, r)).0 ≡ [])
      × (without_commas (group_loop fuel (s, r)).1 ≡ without_commas (s ++ r))
group_loop_ends fuel s r h = (
  loop_ends fuel (s, r) h,
  sym (
        ap (λ t. without_commas t ++ without_commas (group_loop fuel (s, r)).1)
          (loop_ends fuel (s, r) h))
      ∙ plain-group_loop fuel (s, r)
      ∙ sym (select-append not_comma s r),
)

digit_not_comma : (n : ℕ) → not_comma (48 + n) ≡ true
digit_not_comma n = ground arith

one_positive : 0 < one_units
unfolding one_units
one_positive = omega arith

plain-group_digits : (s : Text) → without_commas (group_digits s) ≡ without_commas s
unfolding group_digits
plain-group_digits s = elim (Bool-cases (leb (length s) 3)) [
  | inl e ↦ rw e refl
  | inr e ↦ rw e (
      (group_loop_ends (length s) (without_suffix 3 s) (suffix 3 s)
        (omega (arith, length-take-le (length s - 3) s, leb→gt (length s) 3 e))).1
      ∙ ap without_commas (take-append-drop (length s - 3) s))
]

keeps_numeral : (fuel n : ℕ) → without_commas (digits_of fuel n) ≡ digits_of fuel n
unfolding digits_of
keeps_numeral zero n = refl
keeps_numeral (suc fuel) n = elim (Bool-cases (ltb n 10)) [
  | inl e ↦ rw (e, digits_of) (rw (digit_not_comma n) refl)
  | inr e ↦
      rw (e, digits_of)
        (select-append not_comma (digits_of fuel (n / 10)) ((48 + n % 10) ∷ [])
          ∙ ap₂ (λ s t. s ++ t) (keeps_numeral fuel (n / 10)) (rw (digit_not_comma (n % 10)) refl))
]

-- A magnitude that int64 holds, written as a numeral.
plain-format_magnitude :
    (n : ℕ)
    → ltb (rounded n) (2 ^ 63) ≡ true
    → without_commas (format_magnitude (fin false n)) ≡ show_nat (rounded n)
unfolding format_magnitude math_round to_int64 show_int show_nat
plain-format_magnitude n h =
    rw (mul-div_cancel (rounded n) one_positive, h)
      (plain-group_digits (digits_of 400 (rounded n)) ∙ keeps_numeral 400 (rounded n))

abbrev pub sign_prefix : Bool → ℕ → Text
sign_prefix negative n = if negative && not (n == 0) then codes "-₹" else codes "₹"

suc_not_zero : (n : ℕ) → (suc n == 0) ≡ false
suc_not_zero n = ground arith

not_below_zero : (n : ℕ) → ltb n 0 ≡ false
not_below_zero n = ground arith

written_zero :
    (negative : Bool)
    → without_commas (format_indian_number (fin negative 0))
      ≡ sign_prefix negative 0 ++ show_nat (rounded 0)
unfolding format_indian_number eq show_nat digits_of rounded
written_zero true = refl
written_zero false = refl

written :
    (negative : Bool) (n : ℕ)
    → ltb (rounded n) (2 ^ 63) ≡ true
    → without_commas (format_indian_number (fin negative n))
      ≡ sign_prefix negative n ++ show_nat (rounded n)
unfolding format_indian_number eq lt neg
written negative zero h = written_zero negative
written true (suc n) h =
    rw (suc_not_zero n) (ap (λ t. b'-' ∷ 8377 ∷ t) (plain-format_magnitude (suc n) h))
written false (suc n) h =
    rw (suc_not_zero n, not_below_zero (suc n))
      (ap (λ t. 8377 ∷ t) (plain-format_magnitude (suc n) h))

-- A finite amount whose rounded magnitude int64 holds is written so that, without the commas,
-- it is the rupee sign, behind a minus where the amount is below 0, and the decimal digits of
-- the magnitude rounded to a whole number; and those digits read back as that number.
pub format_indian_number-Reads :
    (negative : Bool) (n : ℕ)
    → ltb (rounded n) (2 ^ 63) ≡ true
    → (without_commas (format_indian_number (fin negative n))
        ≡ sign_prefix negative n ++ show_nat (rounded n))
      × (digits_value 0 (show_nat (rounded n)) ≡ some (rounded n))
unfolding show_nat digits_of
format_indian_number-Reads negative n h = (
  written negative n h,
  digits_of_lem 400 (rounded n) (omega (arith, ltb→lt (rounded n) (2 ^ 63) h)),
)
