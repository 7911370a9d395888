-- ===== src/Common/Texts.antt =====
-- Texts as lists of code points, for the code that walks characters: Go's `strings.TrimSpace`,
-- `strings.ToLower`, `strings.SplitN` and `strconv.Atoi`. Texts that are only compared stay `String`.
use mathlib.Core.Path.{◌≡◌, refl}
use mathlib.Core.Option.{Option, some, none}
use Prim.Native.Nat.{ℕ, ◌*◌, ◌+◌, ◌^◌, ◌-◌}
use Prim.Native.Char.{code}
use Prim.Native.String.{String}
use mathlib.Core.Bool.{Bool, true, false, ◌&&◌, ◌||◌}
use mathlib.Core.List.{List, [], ◌∷◌}
use realstate_allan.Common.Tests.{◌==◌, leb, if◌then◌else◌, ltb, ==_self}
use realstate_allan.Common.Int.{ℤ, pos, negsuc}

abbrev pub Text : Type 0
Text = List ℕ

abbrev pub codes : String → Text
codes String.[] = []
codes (String.◌∷◌ c s) = code c ∷ codes s

unfoldable pub text_eq : Text → Text → Bool
text_eq [] [] = true
text_eq [] (_ ∷ _) = false
text_eq (_ ∷ _) [] = false
text_eq (c ∷ s) (d ∷ t) = c == d && text_eq s t

pub text_eq_self : (s : Text) → text_eq s s ≡ true
unfolding text_eq
text_eq_self [] = refl
text_eq_self (c ∷ s) = rw (==_self c, text_eq_self s) refl

-- unicode.IsSpace
unfoldable pub is_space : ℕ → Bool
is_space c =
    (leb 9 c && leb c 13)
    || c == 32
    || c == 0x85
    || c == 0xA0
    || c == 0x1680
    || (leb 0x2000 c && leb c 0x200A)
    || c == 0x2028
    || c == 0x2029
    || c == 0x202F
    || c == 0x205F
    || c == 0x3000

unfoldable pub trim_left : String → String
trim_left String.[] = String.[]
trim_left (String.◌∷◌ c s) =
    let rest = trim_left s in if is_space (code c) then rest else String.◌∷◌ c s

abbrev pub push_unless_blank : Bool → String → String → String
push_unless_blank true String.[] s = String.[]
push_unless_blank true (String.◌∷◌ d r) s = s
push_unless_blank false r s = s

unfoldable pub trim_right : String → String
trim_right String.[] = String.[]
trim_right (String.◌∷◌ c s) =
    let rest = trim_right s in push_unless_blank (is_space (code c)) rest (String.◌∷◌ c rest)

-- strings.TrimSpace
unfoldable pub trim_space : String → String
unfolding is_space trim_left trim_right
trim_space s = trim_right (trim_left s)

abbrev pub cons_head : (String → String) → List String → List String
cons_head f [] = []
cons_head f (s ∷ ss) = f s ∷ ss

-- strings.Split with a separator of one code point.
unfoldable pub split_on : ℕ → String → List String
split_on sep String.[] = "" ∷ []
split_on sep (String.◌∷◌ c s) =
    let rest = split_on sep s in if code c == sep then "" ∷ rest else cons_head (String.◌∷◌ c) rest

abbrev pub has_prefix : Text → Text → Bool
has_prefix s [] = true
has_prefix [] (c ∷ p) = false
has_prefix (d ∷ s) (c ∷ p) = d == c && has_prefix s p

abbrev drop_text : Text → Text → Text
drop_text [] s = s
drop_text (_ ∷ p) [] = []
drop_text (_ ∷ p) (_ ∷ s) = drop_text p s

-- The text after the first occurrence of another, which is not empty: strings.Index with what
-- follows it.
unfoldable pub after_first : Text → Text → Option Text
after_first p [] = none
after_first p (c ∷ s) =
    let rest = after_first p s in if has_prefix (c ∷ s) p then some (drop_text p (c ∷ s)) else rest

-- strings.Contains, of a text that is not empty.
unfoldable pub text_contains : Text → Text → Bool
text_contains [] p = false
text_contains (c ∷ s) p = has_prefix (c ∷ s) p || text_contains s p

abbrev pub is_digit : ℕ → Bool
is_digit c = leb b'0' c && leb c b'9'

-- The value of a run of decimal digits, on top of the digits read so far.
unfoldable pub digits_value : ℕ → Text → Option ℕ
digits_value acc [] = some acc
digits_value acc (c ∷ s) =
    let rest = digits_value (10 * acc + (c - 48)) s in if leb 48 c && leb c 57 then rest else none

abbrev pub signed : Bool → Option ℕ → Option ℤ
signed negative none = none
signed false (some n) = if ltb n (2 ^ 63) then some (pos n) else none
signed true (some n) =
    if n == 0 then some (pos 0) else if leb n (2 ^ 63) then some (negsuc (n - 1)) else none

unfoldable pub unsigned_digits : Text → Option ℕ
unfolding digits_value
unsigned_digits [] = none
unsigned_digits (c ∷ s) = digits_value 0 (c ∷ s)

-- strconv.Atoi: an optional sign and decimal digits, within 64 bits.
unfoldable pub atoi : Text → Option ℤ
unfolding unsigned_digits
atoi [] = none
atoi (c ∷ s) =
    if c == b'-'
    then signed true (unsigned_digits s)
    else if c == b'+'
    then signed false (unsigned_digits s)
    else signed false (unsigned_digits (c ∷ s))

texts_test :
    (trim_space " \t a b \n" ≡ "a b")
    × (split_on b',' "a,,b" ≡ "a" ∷ "" ∷ "b" ∷ [])
    × (atoi (codes "-12") ≡ some (negsuc 11))
    × (atoi (codes "9223372036854775808") ≡ none)
    × (atoi (codes "1 ") ≡ none)
unfolding trim_space split_on atoi
texts_test = (refl, refl, refl, refl, refl)
