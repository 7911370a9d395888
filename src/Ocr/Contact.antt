-- ===== src/Ocr/Contact.antt =====
-- The owner's contact that parseOCRText of backend/internal/services/ocr.go suggests.
use mathlib.Core.Option.{some-injective}
use realstate_allan.Regexp.Complete.{find_match-Found, find_match_complete}
use realstate_allan.Common.Int.{ltb_ℤ, pos}
use realstate_allan.Regexp.Sound.{Matches, by_seq, by_one, by_empty, by_right}
use realstate_allan.Models.{OcrSuggestions}
use realstate_allan.Ocr.Parser.{
  phone_re, is_6_to_9, ten_digits, last_ten, contact_digits, price_suggestion, parse_ocr_text,
  area_of, contact_of, area_re, extract_largest_price,
}
use realstate_allan.Regexp.{
  Regex, seq, one, empty, times, digit, Hit, find_match, hits, prefixes, one_of, extend,
}
use realstate_allan.Common.{
  String, Text, ℕ, Bool, length, Option, false, ◌≡◌, arith, and_then, ◌∷◌, all, ◌++◌, [], true,
  find, is_digit, ap, refl, str_eq, suc, some, and-true, zero, select, drop, length-append,
  select-append, Bool-cases, none, ◌∙◌, ◌≢◌, sym, subst, inl, inr, append_assoc,
}

-- The entry of a map.
abbrev pub suggested : String → OcrSuggestions → Option Text
suggested key s = and_then (find (λ e. str_eq e.0 key) s) λ e. some e.1

abbrev pub starts_6_to_9 : Text → Bool
starts_6_to_9 [] = false
starts_6_to_9 (c ∷ s) = is_6_to_9 c

-- Ten digits of which the first is 6 to 9.
abbrev pub IsMobile : Text → Type 0
IsMobile d = (length d ≡ 10) × (all is_digit d ≡ true) × (starts_6_to_9 d ≡ true)

pub seq-inv :
    (r q : Regex) (t : Text)
    → Matches (seq r q) t
    → (s : Text) × (u : Text) × (t ≡ s ++ u) × Matches r s × Matches q u
seq-inv r q _ (by_seq _ _ s u m n) = (s, u, refl, m, n)

pub one-inv : (p : ℕ → Bool) (t : Text) → Matches (one p) t → (c : ℕ) × (t ≡ c ∷ []) × (p c ≡ true)
one-inv p _ (by_one _ c e) = (c, refl, e)

empty-inv : (t : Text) → Matches empty t → t ≡ []
empty-inv _ by_empty = refl

digits-inv :
    (n : ℕ) (t : Text) → Matches (times n digit) t → (length t ≡ n) × (all is_digit t ≡ true)
digits-inv zero t m = rw (empty-inv t m) (refl, refl)
digits-inv (suc n) t m =
    let (s, u, e, a, b) = seq-inv digit (times n digit) t m in
    let (c, f, g) = one-inv is_digit s a in
    let (len, digits) = digits-inv n u b in rw (e, f, g) (ap suc len, digits)

digit_6_to_9 : (c : ℕ) → is_6_to_9 c ≡ true → is_digit c ≡ true
digit_6_to_9 c h = ground arith

ten-inv : (t : Text) → Matches ten_digits t → IsMobile t
ten-inv t m =
    let (s, u, e, a, b) = seq-inv (one is_6_to_9) (times 9 digit) t m in
    let (c, f, g) = one-inv is_6_to_9 s a in
    let (len, digits) = digits-inv 9 u b in rw (e, f, digit_6_to_9 c g) (ap suc len, digits, g)

phone-inv : (t : Text) → Matches phone_re t → (s : Text) × (u : Text) × (t ≡ s ++ u) × IsMobile u
unfolding phone_re
phone-inv t m = let (s, u, e, a, b) = seq-inv _ ten_digits t m in (s, u, e, ten-inv u b)

digits_match : (n : ℕ) (t : Text) → length t ≡ n → all is_digit t ≡ true → Matches (times n digit) t
digits_match zero [] e h = by_empty
digits_match zero (c ∷ t) e h = absurd (omega (arith, e))
digits_match (suc n) [] e h = absurd (omega (arith, e))
digits_match (suc n) (c ∷ t) e h =
    by_seq digit (times n digit) (c ∷ []) t (by_one is_digit c (and-true h).0)
      (digits_match n t (omega (arith, e)) (and-true h).1)

mobile-Matches : (d : Text) → IsMobile d → Matches phone_re d
unfolding phone_re
mobile-Matches [] (e, _, _) = absurd (omega (arith, e))
mobile-Matches (c ∷ d) (e, h, g) = by_seq _ ten_digits [] (c ∷ d) (by_right _ empty [] by_empty) (
    by_seq (one is_6_to_9) (times 9 digit) (c ∷ []) d (by_one is_6_to_9 c g)
      (digits_match 9 d (omega (arith, e)) (and-true h).1))

select-all : (d : Text) → all is_digit d ≡ true → select is_digit d ≡ d
select-all [] h = refl
select-all (c ∷ d) h =
    let e : is_digit c ≡ true = (and-true h).0 in
    rw e (ap (λ t. c ∷ t) (select-all d (and-true h).1))

drop-append : (s d : Text) → drop (length s) (s ++ d) ≡ d
drop-append [] d = refl
drop-append (c ∷ s) d = drop-append s d

last_ten-append : (s d : Text) → length d ≡ 10 → last_ten (s ++ d) ≡ d
last_ten-append s d e =
    ap (λ n. drop n (s ++ d)) (omega (arith, length-append s d, e)) ∙ drop-append s d

contact_digits-append : (s d : Text) → IsMobile d → contact_digits (s ++ d) ≡ d
contact_digits-append s d (e, h, _) =
    ap last_ten (select-append is_digit s d ∙ ap (λ t. select is_digit s ++ t) (select-all d h))
    ∙ last_ten-append (select is_digit s) d e

-- The other fields have other keys.
price_skipped :
    (lower : ℕ → ℕ) (t : Text) (ys : OcrSuggestions)
    → suggested "owner_contact" (price_suggestion lower t ++ ys) ≡ suggested "owner_contact" ys
unfolding price_suggestion
price_skipped lower t ys = elim (Bool-cases (ltb_ℤ (pos 10_000) (extract_largest_price lower t))) [
  | inl e ↦ rw e refl
  | inr e ↦ rw e refl
]

area_skipped :
    (o : Option Hit) (ys : OcrSuggestions)
    → suggested "owner_contact" (area_of o ++ ys) ≡ suggested "owner_contact" ys
area_skipped none ys = refl
area_skipped (some h) ys = refl

abbrev contact_in : Option Hit → Option Text
contact_in none = none
contact_in (some h) = some (contact_digits h.text)

contact_read : (o : Option Hit) → suggested "owner_contact" (contact_of o) ≡ contact_in o
contact_read none = refl
contact_read (some h) = refl

no_contact : find_match phone_re [] ≡ none
unfolding find_match hits phone_re prefixes one_of extend
no_contact = refl

suggested_contact :
    (lower : ℕ → ℕ) (text : Text)
    → suggested "owner_contact" (parse_ocr_text lower text) ≡ contact_in (find_match phone_re text)
unfolding parse_ocr_text
suggested_contact lower [] = sym (ap contact_in no_contact)
suggested_contact lower (c ∷ s) =
    price_skipped lower (c ∷ s) _
    ∙ area_skipped (find_match area_re (c ∷ s)) _
    ∙ contact_read (find_match phone_re (c ∷ s))

found_contact :
    (text : Text) (o : Option Hit)
    → find_match phone_re text ≡ o
    → (d : Text) → contact_in o ≡ some d
    → IsMobile d × ((before : Text) × (after : Text) × (text ≡ before ++ (d ++ after)))
found_contact text none f d e = absurd (cc)
found_contact text (some h) f d e =
    let (m, (before, p)) = find_match-Found phone_re text h f in
    let (s, u, q, good) = phone-inv h.text m in
    let same : u ≡ d =
      sym (contact_digits-append s u good)
      ∙ ap contact_digits (sym q)
      ∙ some-injective (contact_digits h.text) d e in
    (
      subst IsMobile same good,
      (
        before ++ s,
        h.rest,
        p
            ∙ ap (λ t. before ++ (t ++ h.rest)) (q ∙ ap (λ v. s ++ v) same)
            ∙ ap (λ t. before ++ t) (append_assoc s d h.rest)
            ∙ sym (append_assoc before s (d ++ h.rest)),
      ),
    )

contact_present :
    (text : Text) (o : Option Hit)
    → find_match phone_re text ≡ o
    → o ≢ none
    → (d : Text) × (contact_in o ≡ some d)
contact_present text none f h = absurd (h refl)
contact_present text (some x) f h = (contact_digits x.text, refl)

-- A contact is suggested exactly where ten digits in a row, the first of them 6 to 9, stand in
-- the recognised text, and a suggested contact is ten such digits that stand there.
pub parse_ocr_text-Contact :
    (lower : ℕ → ℕ) (text : Text)
    → ((d : Text)
        → suggested "owner_contact" (parse_ocr_text lower text) ≡ some d
        → IsMobile d × ((before : Text) × (after : Text) × (text ≡ before ++ (d ++ after))))
      × ((before mobile after : Text)
          → text ≡ before ++ (mobile ++ after)
          → IsMobile mobile
          → (d : Text) × (suggested "owner_contact" (parse_ocr_text lower text) ≡ some d))
parse_ocr_text-Contact lower text = (
  (λ d e.
      found_contact text (find_match phone_re text) refl d
        (sym (suggested_contact lower text) ∙ e)),
  (λ before mobile after p m.
      let (d, e) = contact_present text (find_match phone_re text) refl (
        subst (λ t. find_match phone_re t ≢ none) (sym p)
          (find_match_complete phone_re before mobile after (mobile-Matches mobile m))) in
      (d, suggested_contact lower text ∙ e)),
)
