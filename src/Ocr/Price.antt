-- ===== src/Ocr/Price.antt =====
-- The price that parseOCRText of backend/internal/services/ocr.go suggests.
use realstate_allan.Models.{OcrSuggestions}
use realstate_allan.Float.Convert.{show_int}
use realstate_allan.Ocr.Contact.{suggested, seq-inv, one-inv}
use realstate_allan.Regexp.All.{NeverEmpty, find_all-enough}
use realstate_allan.Regexp.Sound.{Matches, by_group}
use realstate_allan.Auth.Rows.{to_lower}
use realstate_allan.Ocr.Parser.{
  largest, price_of, max_price, price_re, no_commas, price_suggestion, parse_ocr_text, area_of,
  extract_largest_price, contact_of, area_re, phone_re, is_number_char,
}
use realstate_allan.Regexp.{Hit, find_all, group, seq, find_match, digit, many}
use realstate_allan.Common.Int.{ℤ, ltb_ℤ, pos, negsuc, to_nat}
use realstate_allan.Common.{
  ℕ, Text, List, Option, some, ◌≡◌, false, true, or_else, ◌⊎◌, All, none, [], arith, inl, Any,
  Bool-cases, ◌∷◌, inr, refl, ◌∙◌, ◌<◌, if◌then◌else◌, All-weaken, ap, show_nat, sym, length, ◌++◌,
  length-append, is_digit, ltb, subst, ◌≤◌, ltb→lt,
}

-- The matches of the price expression, with `fuel` rounds, and what the loop makes of one.
abbrev pub price_hits : ℕ → Text → List Hit
price_hits fuel text = find_all fuel price_re text

abbrev pub price_in : (ℕ → ℕ) → Text → Hit → Option ℤ
price_in lower text h = price_of (to_lower lower text) (no_commas (or_else h.group []))

abbrev pub AtMost : ℤ → Option ℤ → Type 0
AtMost v none = Unit
AtMost v (some w) = ltb_ℤ v w ≡ false

ltb_ℤ_trans : (a b c : ℤ) → ltb_ℤ a b ≡ false → ltb_ℤ b c ≡ false → ltb_ℤ a c ≡ false
ltb_ℤ_trans (pos a) (pos b) (pos c) h k = ground arith
ltb_ℤ_trans (pos a) b (negsuc c) h k = refl
ltb_ℤ_trans (pos a) (negsuc b) (pos c) h k = absurd (cc)
ltb_ℤ_trans (negsuc a) (pos b) c h k = absurd (cc)
ltb_ℤ_trans (negsuc a) (negsuc b) (pos c) h k = absurd (cc)
ltb_ℤ_trans (negsuc a) (negsuc b) (negsuc c) h k = ground arith

ltb_ℤ_irrefl : (a : ℤ) → ltb_ℤ a a ≡ false
ltb_ℤ_irrefl (pos a) = ground arith
ltb_ℤ_irrefl (negsuc a) = ground arith

ltb_ℤ_asym : (a b : ℤ) → ltb_ℤ a b ≡ true → ltb_ℤ b a ≡ false
ltb_ℤ_asym (pos a) (pos b) h = ground arith
ltb_ℤ_asym (pos a) (negsuc b) h = absurd (cc)
ltb_ℤ_asym (negsuc a) (pos b) h = refl
ltb_ℤ_asym (negsuc a) (negsuc b) h = ground arith

AtMost-trans : (a b : ℤ) (o : Option ℤ) → ltb_ℤ a b ≡ false → AtMost b o → AtMost a o
AtMost-trans a b none h k = tt
AtMost-trans a b (some c) h k = ltb_ℤ_trans a b c h k

-- One round.
max_price_lem :
    (best : ℤ) (o : Option ℤ)
    → (ltb_ℤ (max_price best o) best ≡ false)
      × AtMost (max_price best o) o
      × ((max_price best o ≡ best) ⊎ (o ≡ some (max_price best o)))
max_price_lem best none = (ltb_ℤ_irrefl best, tt, inl refl)
max_price_lem best (some v) = elim (Bool-cases (ltb_ℤ best v)) [
  | inl e ↦ rw e (ltb_ℤ_asym best v e, ltb_ℤ_irrefl v, inr refl)
  | inr e ↦ rw e (ltb_ℤ_irrefl best, e, inl refl)
]

origin :
    {R : Type 0} (m next best : ℤ) (o : Option ℤ)
    → (m ≡ next) ⊎ R
    → (next ≡ best) ⊎ (o ≡ some next)
    → (m ≡ best) ⊎ ((o ≡ some m) ⊎ R)
origin m next best o (inr r) k = inr (inr r)
origin m next best o (inl e) (inl f) = inl (e ∙ f)
origin m next best o (inl e) (inr f) = inr (inl (f ∙ ap some (sym e)))

module _ (lower : Text) where
  abbrev price : Hit → Option ℤ
  price h = price_of lower (no_commas (or_else h.group []))

  largest_lem :
      (best : ℤ) (hs : List Hit)
      → (ltb_ℤ (largest lower best hs) best ≡ false)
        × All (λ h. AtMost (largest lower best hs) (price h)) hs
        × ((largest lower best hs ≡ best) ⊎ Any (λ h. price h ≡ some (largest lower best hs)) hs)
  unfolding largest
  largest_lem best [] = (ltb_ℤ_irrefl best, tt, inl refl)
  largest_lem best (h ∷ hs) =
      let next = max_price best (price h) in
      let (up, own, from) = max_price_lem best (price h) in
      let (above, rest, found) = largest_lem next hs in
      (
        ltb_ℤ_trans (largest lower next hs) next best above up,
        (AtMost-trans (largest lower next hs) next (price h) above own, rest),
        origin (largest lower next hs) next best (price h) found from,
      )

number_nonempty : (t : Text) → Matches (group (seq digit (many is_number_char))) t → 0 < length t
number_nonempty _ (by_group _ t m) =
    let (s, u, e, a, _) = seq-inv digit (many is_number_char) t m in
    let (c, f, _) = one-inv is_digit s a in
    omega (arith, ap length e, ap length f, length-append s u)

never_empty : NeverEmpty price_re
unfolding price_re
never_empty t m =
    let (s, u, e, _, b) = seq-inv _ _ t m in
    let (v, w, f, _, c) = seq-inv _ _ u b in
    let (x, y, g, d, _) = seq-inv _ _ w c in
    omega (
      arith,
      ap length e,
      ap length f,
      ap length g,
      length-append s u,
      length-append v w,
      length-append x y,
      number_nonempty x d,
    )

-- What the suggestion says of the prices of the matches.
abbrev pub PriceSays : (ℕ → ℕ) → Text → List Hit → Option Text → Type 0
PriceSays lower text hs none = All (λ h. AtMost (pos 10_000) (price_in lower text h)) hs
PriceSays lower text hs (some t) =
    (n : ℕ) × (10_000 < n)
    × (t ≡ show_nat n)
    × Any (λ h. price_in lower text h ≡ some (pos n)) hs
    × All (λ h. AtMost (pos n) (price_in lower text h)) hs

abbrev shown_price : ℤ → Option Text
shown_price v = if ltb_ℤ (pos 10_000) v then some (show_int v) else none

no_price : (o p : Option Hit) → suggested "price" (area_of o ++ contact_of p) ≡ none
no_price none none = refl
no_price none (some x) = refl
no_price (some h) none = refl
no_price (some h) (some x) = refl

price_first :
    (lower : ℕ → ℕ) (t : Text) (ys : OcrSuggestions)
    → suggested "price" ys ≡ none
    → suggested "price" (price_suggestion lower t ++ ys)
      ≡ shown_price (extract_largest_price lower t)
unfolding price_suggestion
price_first lower t ys h = elim (Bool-cases (ltb_ℤ (pos 10_000) (extract_largest_price lower t))) [
  | inl e ↦ rw e refl
  | inr e ↦ rw e h
]

suggested_price :
    (lower : ℕ → ℕ) (text : Text)
    → suggested "price" (parse_ocr_text lower text) ≡ shown_price (extract_largest_price lower text)
unfolding parse_ocr_text extract_largest_price largest find_all
suggested_price lower [] = refl
suggested_price lower (c ∷ s) =
    price_first lower (c ∷ s)
      (area_of (find_match area_re (c ∷ s)) ++ contact_of (find_match phone_re (c ∷ s)))
      (no_price (find_match area_re (c ∷ s)) (find_match phone_re (c ∷ s)))

shown_above : (n : ℕ) → ltb 10_000 n ≡ true → shown_price (pos n) ≡ some (show_nat n)
unfolding show_int
shown_above n e = rw e refl

shown_below : (v : ℤ) → ltb_ℤ (pos 10_000) v ≡ false → shown_price v ≡ none
shown_below v e = rw e refl

above_zero : {R : Type 0} (n : ℕ) → ltb 10_000 n ≡ true → (pos n ≡ pos 0) ⊎ R → R
above_zero n e (inl z) = absurd (omega (arith, ltb→lt 10_000 n e, ap to_nat z))
above_zero n e (inr r) = r

shown-Says :
    (lower : ℕ → ℕ) (text : Text) (hs : List Hit) (v : ℤ)
    → All (λ h. AtMost v (price_in lower text h)) hs
    → ((v ≡ pos 0) ⊎ Any (λ h. price_in lower text h ≡ some v) hs)
    → PriceSays lower text hs (shown_price v)
shown-Says lower text hs (negsuc n) a o =
    All-weaken _ _ hs (λ h. AtMost-trans (pos 10_000) (negsuc n) (price_in lower text h) refl) a
shown-Says lower text hs (pos n) a o = elim (Bool-cases (ltb 10_000 n)) [
  | inl e ↦
      subst (PriceSays lower text hs) (sym (shown_above n e))
        (n, ltb→lt 10_000 n e, refl, above_zero n e o, a)
  | inr e ↦
      subst (PriceSays lower text hs) (sym (shown_below (pos n) e))
        (All-weaken _ _ hs (λ h. AtMost-trans (pos 10_000) (pos n) (price_in lower text h) e) a)
]

says :
    (lower : ℕ → ℕ) (text : Text)
    → PriceSays lower text
        (price_hits (length text) text)
        (suggested "price" (parse_ocr_text lower text))
unfolding extract_largest_price
says lower text =
    let hs = price_hits (length text) text in
    let (_, a, o) = largest_lem (to_lower lower text) (pos 0) hs in
    subst (PriceSays lower text hs) (sym (suggested_price lower text))
      (shown-Says lower text hs (largest (to_lower lower text) (pos 0) hs) a o)

-- The suggested price is the decimal of the largest price of all matches, and is above 10000;
-- where none is suggested, no match has a price above 10000. All matches are those that any
-- number of rounds finds which is at least the length of the text.
pub parse_ocr_text-PriceSays :
    (lower : ℕ → ℕ) (text : Text) (rounds : ℕ)
    → length text ≤ rounds
    → PriceSays lower text (price_hits rounds text) (suggested "price" (parse_ocr_text lower text))
parse_ocr_text-PriceSays lower text rounds h =
    subst (λ hs. PriceSays lower text hs (suggested "price" (parse_ocr_text lower text)))
      (find_all-enough price_re never_empty (length text) rounds text (omega arith) h)
      (says lower text)
