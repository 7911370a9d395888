-- ===== src/Ocr/Parser.antt =====
-- parseOCRText and extractLargestPrice of backend/internal/services/ocr.go. The length and the first
-- byte of a price are those of ASCII digits, commas and points, on which strings.TrimSpace and
-- strings.ToLower do nothing.
use realstate_allan.Float.Convert.{show_int, to_int64}
use realstate_allan.Models.{OcrSuggestions}
use realstate_allan.Auth.Rows.{to_lower}
use realstate_allan.Common.Int.{ℤ, ltb_ℤ, pos}
use realstate_allan.Float.{Float64, fin, round_units, one_units, mul, of_nat}
use realstate_allan.Regexp.{
  Regex, optional, alt, seq, empty, Hit, char, word, group, one, blanks, digit, times, find_all,
  find_match, many, hits, prefixes, one_of, extend,
}
use realstate_allan.Common.{
  ℕ, Text, Option, codes, Bool, select, ◌∷◌, and_then, if◌then◌else◌, or_else, some, List, drop,
  ◌≡◌, is_digit, leb, not, ◌==◌, none, digits_value, ltb, ◌-◌, after_first, false, [], length, ◌++◌,
  ◌||◌, ◌&&◌, refl, ◌*◌, ◌^◌, text_contains, show_nat, digits_of,
}

abbrev pub is_number_char : ℕ → Bool
is_number_char c = is_digit c || c == b',' || c == b'.'

abbrev point : Regex
point = optional (char b'.')

abbrev either : Text → Regex → Regex
either w r = alt (word w) r

-- (?i)(?:₹|rs\.?\s*)?\s*(\d[\d,\.]*)\s*(?:crore|cr\.?|lakh|lac|l\.?|lacs)?
unfoldable pub price_re : Regex
price_re = seq (optional (alt (char 0x20B9) (seq (word (codes "rs")) (seq point blanks)))) (
    seq blanks (
      seq (group (seq digit (many is_number_char))) (
        seq blanks (
          optional (
            either (codes "crore") (
              alt (seq (word (codes "cr")) point) (
                either (codes "lakh") (
                  either (codes "lac")
                    (alt (seq (word (codes "l")) point) (word (codes "lacs")))))))))))

-- (?i)(\d[\d,\.]*)\s*(?:sq\.?\s*(?:ft|feet|m|meter|metre)|sqft|sqm)
unfoldable pub area_re : Regex
area_re = seq (group (seq digit (many is_number_char))) (
    seq blanks (
      alt
        (seq (word (codes "sq")) (
          seq point (
            seq blanks (
              either (codes "ft") (
                either (codes "feet")
                  (either (codes "m") (either (codes "meter") (word (codes "metre")))))))))
        (either (codes "sqft") (word (codes "sqm")))))

abbrev pub is_6_to_9 : ℕ → Bool
is_6_to_9 c = leb b'6' c && leb c b'9'

abbrev pub literal : Text → Regex
literal [] = empty
literal (c ∷ s) = seq (char c) (literal s)

-- [6-9]\d{9}
abbrev pub ten_digits : Regex
ten_digits = seq (one is_6_to_9) (times 9 digit)

-- (?:(?:\+91|91|0)\s*)?[6-9]\d{9}
unfoldable pub phone_re : Regex
phone_re =
    seq
      (optional (
        seq (alt (literal (codes "+91")) (alt (literal (codes "91")) (literal (codes "0"))))
          blanks))
      ten_digits

-- strings.ReplaceAll(s, ",", "")
abbrev pub no_commas : Text → Text
no_commas = select λ c. not (c == b',')

-- The digits before the first point, and what stands after it.
unfoldable pub split_point : Text → Text × Text
split_point [] = ([], [])
split_point (c ∷ s) =
    let (before, after) = split_point s in if c == b'.' then ([], s) else (c ∷ before, after)

abbrev pub finite : Float64 → Option Float64
finite (fin s n) = some (fin s n)
finite _ = none

-- strconv.ParseFloat on digits and points: an error where there is a second point, or the value is
-- out of range.
unfoldable pub parse_decimal : Text → Option Float64
parse_decimal s =
    let (before, after) = split_point s in
    and_then (digits_value 0 (before ++ after))
      λ m. finite (round_units false (m * one_units) (10 ^ length after))

-- Bytes of a code point in UTF-8.
abbrev pub utf8_length : ℕ → ℕ
utf8_length c = if ltb c 0x80 then 1 else if ltb c 0x800 then 2 else if ltb c 0x10000 then 3 else 4

-- The code points that lie whole in the first bytes; a part of one holds no ASCII.
unfoldable pub take_bytes : ℕ → Text → Text
take_bytes n [] = []
take_bytes n (c ∷ s) =
    let rest = take_bytes (n - utf8_length c) s in if leb (utf8_length c) n then c ∷ rest else []

-- The ten bytes after the first place in the lowered text where the number stands.
unfoldable pub context : (lower raw : Text) → Text
context lower raw = take_bytes 10 (or_else (after_first raw lower) [])

-- By the unit in the context.
unfoldable pub scaled : Text → Float64 → ℤ
scaled suffix f =
    if text_contains suffix (codes "crore") || text_contains suffix (codes "cr")
    then to_int64 (mul f (of_nat 10_000_000))
    else if text_contains suffix (codes "lakh")
        || text_contains suffix (codes "lac")
        || text_contains suffix (codes " l")
    then to_int64 (mul f (of_nat 100_000))
    else to_int64 f

-- Ten digits of which the first is 6 to 9.
unfoldable pub looks_like_phone : Text → Bool
looks_like_phone [] = false
looks_like_phone (c ∷ s) = length (c ∷ s) == 10 && is_6_to_9 c

-- One round of the loop over the matches.
unfoldable pub price_of : (lower raw : Text) → Option ℤ
price_of lower raw =
    if looks_like_phone raw
    then none
    else and_then (parse_decimal raw) λ f. some (scaled (context lower raw) f)

abbrev pub max_price : ℤ → Option ℤ → ℤ
max_price best none = best
max_price best (some v) = if ltb_ℤ best v then v else best

unfoldable pub largest : Text → ℤ → List Hit → ℤ
largest lower best [] = best
largest lower best (h ∷ hs) =
    largest lower (max_price best (price_of lower (no_commas (or_else h.group [])))) hs

unfoldable pub extract_largest_price : (ℕ → ℕ) → Text → ℤ
extract_largest_price lower_rune text =
    largest (to_lower lower_rune text) (pos 0) (find_all (length text) price_re text)

abbrev pub last_ten : Text → Text
last_ten s = drop (length s - 10) s

unfoldable pub price_suggestion : (ℕ → ℕ) → Text → OcrSuggestions
price_suggestion lower_rune text =
    let price = extract_largest_price lower_rune text in
    if ltb_ℤ (pos 10_000) price then ("price", show_int price) ∷ [] else []

abbrev pub area_of : Option Hit → OcrSuggestions
area_of none = []
area_of (some h) = ("area", no_commas (or_else h.group [])) ∷ []

-- Normalised to ten digits.
abbrev pub contact_digits : Text → Text
contact_digits m = last_ten (select is_digit m)

abbrev pub contact_of : Option Hit → OcrSuggestions
contact_of none = []
contact_of (some h) = ("owner_contact", contact_digits h.text) ∷ []

unfoldable pub parse_ocr_text : (ℕ → ℕ) → Text → OcrSuggestions
parse_ocr_text lower_rune [] = []
parse_ocr_text lower_rune (c ∷ s) =
    price_suggestion lower_rune (c ∷ s)
    ++ (area_of (find_match area_re (c ∷ s)) ++ contact_of (find_match phone_re (c ∷ s)))

-- Also an area in acres, which reads as crores, and a unit that is taken from the first place of
-- the digits.
parser_test :
    (parse_ocr_text (λ c. c) (codes "Flat 1,200 sq ft Rs. 1.5 crore call +91 9876543210")
      ≡ ("price", codes "15000000")
        ∷ ("area", codes "1200")
        ∷ ("owner_contact", codes "9876543210")
        ∷ [])
    × (parse_ocr_text (λ c. c) (codes "plot of 2 acres") ≡ ("price", codes "20000000") ∷ [])
    × (parse_ocr_text (λ c. c) (codes "50 sqft, 50 lakh") ≡ ("area", codes "50") ∷ [])
unfolding parse_ocr_text price_suggestion extract_largest_price largest to_lower price_of
    parse_decimal split_point digits_value scaled context take_bytes after_first text_contains
    looks_like_phone mul of_nat to_int64 show_int show_nat digits_of find_all find_match hits
    prefixes one_of extend price_re area_re phone_re round_units one_units
parser_test = (refl, refl, refl)
