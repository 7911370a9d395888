-- ===== src/Regexp.antt =====
-- The part of Go's regexp syntax that backend/internal/services/ocr.go uses, matched leftmost-first:
-- the matches at a place in the order in which they are preferred.
pub mod All
pub mod Complete
pub mod Sound
use realstate_allan.Common.{
  ℕ, Text, Option, ◌++◌, some, List, is_digit, Bool, none, ◌∷◌, [], suc, ◌==◌, if◌then◌else◌, map,
  ◌||◌, zero, ◌+◌, ◌&&◌,
}

pub data Regex : Type 0 where
  one : (ℕ → Bool) → Regex
  -- a class under `*`
  many : (ℕ → Bool) → Regex
  empty : Regex
  seq alt : Regex → Regex → Regex
  group : Regex → Regex

pub record Hit : Type 0 where
  pub text : Text
  pub group : Option Text
  pub rest : Text

abbrev pub hit : Text → Text → Hit
hit text rest = record { text = text; group = none; rest = rest }

abbrev pub push : ℕ → Hit → Hit
push c h = record h { text = c ∷ h.text }

abbrev pub later : Option Text → Option Text → Option Text
later g none = g
later g (some t) = some t

abbrev pub joined : Hit → Hit → Hit
joined h k = record { text = h.text ++ k.text; group = later h.group k.group; rest = k.rest }

abbrev pub captured : Hit → Hit
captured h = record h { group = some h.text }

-- The longest first.
unfoldable pub prefixes : (ℕ → Bool) → Text → List Hit
prefixes p [] = hit [] [] ∷ []
prefixes p (c ∷ s) =
    if p c then map (push c) (prefixes p s) ++ hit [] (c ∷ s) ∷ [] else hit [] (c ∷ s) ∷ []

unfoldable pub one_of : (ℕ → Bool) → Text → List Hit
one_of p [] = []
one_of p (c ∷ s) = if p c then hit (c ∷ []) s ∷ [] else []

unfoldable pub extend : (Text → List Hit) → List Hit → List Hit
extend next [] = []
extend next (h ∷ hs) = map (joined h) (next h.rest) ++ extend next hs

unfoldable pub hits : Regex → Text → List Hit
hits (one p) s = one_of p s
hits (many p) s = prefixes p s
hits empty s = hit [] s ∷ []
hits (seq r q) s = extend (hits q) (hits r s)
hits (alt r q) s = hits r s ++ hits q s
hits (group r) s = map captured (hits r s)

abbrev pub first : List Hit → Option Hit
first [] = none
first (h ∷ hs) = some h

abbrev pub or_find : Option Hit → Option Hit → Option Hit
or_find none o = o
or_find (some h) o = some h

-- FindString and FindStringSubmatch.
unfoldable pub find_match : Regex → Text → Option Hit
find_match r [] = first (hits r [])
find_match r (c ∷ s) = or_find (first (hits r (c ∷ s))) (find_match r s)

-- FindAllStringSubmatch(text, -1) of an expression that matches no empty text, at most `fuel` times.
unfoldable pub find_all : ℕ → Regex → Text → List Hit
find_all zero r s = []
find_all (suc fuel) r s = elim (find_match r s) [ none ↦ [] | some h ↦ h ∷ find_all fuel r h.rest ]

abbrev pub optional : Regex → Regex
optional r = alt r empty

abbrev pub times : ℕ → Regex → Regex
times zero r = empty
times (suc n) r = seq r (times n r)

-- \d and \s
abbrev pub digit : Regex
digit = one is_digit

abbrev pub is_blank : ℕ → Bool
is_blank c = c == 9 || c == 10 || c == 12 || c == 13 || c == 32

abbrev pub blanks : Regex
blanks = many is_blank

abbrev pub char : ℕ → Regex
char c = one λ d. d == c

-- (?i) on a lower-case ASCII letter: K also has the Kelvin sign, and S the long s.
abbrev pub folds : ℕ → ℕ → Bool
folds c d = d == c || d + 32 == c || (c == b'k' && d == 0x212A) || (c == b's' && d == 0x17F)

abbrev pub word : Text → Regex
word [] = empty
word (c ∷ s) = seq (one (folds c)) (word s)
