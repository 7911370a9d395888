-- ===== src/Regexp/Complete.antt =====
-- A text of the language is found wherever it stands, and what is found is such a text.
use mathlib.Core.Option.{some-injective}
use realstate_allan.Regexp.Sound.{
  Matches, by_one, Occurs, by_none, by_more, by_seq, by_left, by_right, by_group, by_empty,
  hits-Occurs,
}
use realstate_allan.Regexp.{
  prefixes, extend, one_of, hits, find_match, Regex, Hit, first, or_find, push, joined, many, hit,
  captured,
}
use realstate_allan.Common.{
  Text, Option, ℕ, List, ◌≡◌, Bool, Any, ◌≢◌, ◌++◌, All, [], true, ◌∷◌, none, some, inl,
  Any-append_left, subst, Bool-cases, map, refl, Any-append_right, Any-map_from, inr, ap, ap₂, sym,
  append_assoc, ◌⊎◌,
}

abbrev IsHit : Text → Text → Hit → Type 0
IsHit t u h = (h.text ≡ t) × (h.rest ≡ u)

prefixes-none : (p : ℕ → Bool) (u : Text) → Any (IsHit [] u) (prefixes p u)
unfolding prefixes
prefixes-none p [] = inl (refl, refl)
prefixes-none p (c ∷ u) = elim (Bool-cases (p c)) [
  | inl e ↦ rw e (
      Any-append_right (IsHit [] (c ∷ u)) (map (push c) (prefixes p u)) (hit [] (c ∷ u) ∷ [])
        (inl (refl, refl)))
  | inr e ↦ rw e (inl (refl, refl))
]

prefixes-more :
    (p : ℕ → Bool) (c : ℕ) (s u : Text)
    → p c ≡ true
    → Any (IsHit s u) (prefixes p (s ++ u))
    → Any (IsHit (c ∷ s) u) (prefixes p (c ∷ s ++ u))
unfolding prefixes
prefixes-more p c s u e h = rw e (
    Any-append_left (IsHit (c ∷ s) u) (map (push c) (prefixes p (s ++ u)))
      (hit [] (c ∷ s ++ u) ∷ [])
      (Any-map_from (IsHit (c ∷ s) u) (IsHit s u) (push c) (prefixes p (s ++ u))
        (λ k (a, b). (ap (λ t. c ∷ t) a, b)) h))

extend-IsHit :
    (s t u v : Text) (next : Text → List Hit) (hs : List Hit)
    → Any (IsHit s v) hs
    → Any (IsHit t u) (next v)
    → Any (IsHit (s ++ t) u) (extend next hs)
unfolding extend
extend-IsHit s t u v next [] h k = absurd h
extend-IsHit s t u v next (x ∷ xs) (inl (a, b)) k =
    Any-append_left (IsHit (s ++ t) u) (map (joined x) (next x.rest)) (extend next xs) (
      Any-map_from (IsHit (s ++ t) u) (IsHit t u) (joined x) (next x.rest)
        (λ y (c, d). (ap₂ (λ m n. m ++ n) a c, d))
        (subst (λ r. Any (IsHit t u) (next r)) (sym b) k))
extend-IsHit s t u v next (x ∷ xs) (inr h) k =
    Any-append_right (IsHit (s ++ t) u) (map (joined x) (next x.rest)) (extend next xs)
      (extend-IsHit s t u v next xs h k)

one_of-IsHit :
    (p : ℕ → Bool) (c : ℕ) (u : Text) → p c ≡ true → Any (IsHit (c ∷ []) u) (one_of p (c ∷ u))
unfolding one_of
one_of-IsHit p c u e = rw e (inl (refl, refl))

pub hits_complete :
    (r : Regex) (t : Text) → Matches r t → (u : Text) → Any (IsHit t u) (hits r (t ++ u))
unfolding hits
hits_complete _ _ (by_one p c e) u = one_of-IsHit p c u e
hits_complete _ _ (by_none p) u = prefixes-none p u
hits_complete _ _ (by_more p c s e m) u = prefixes-more p c s u e (hits_complete (many p) s m u)
hits_complete _ _ by_empty u = inl (refl, refl)
hits_complete _ _ (by_seq r q s t m n) u =
    subst (λ v. Any (IsHit (s ++ t) u) (extend (hits q) (hits r v))) (sym (append_assoc s t u))
      (extend-IsHit s t u (t ++ u) (hits q) (hits r (s ++ (t ++ u))) (hits_complete r s m (t ++ u))
        (hits_complete q t n u))
hits_complete _ _ (by_left r q s m) u =
    Any-append_left (IsHit s u) (hits r (s ++ u)) (hits q (s ++ u)) (hits_complete r s m u)
hits_complete _ _ (by_right r q s m) u =
    Any-append_right (IsHit s u) (hits r (s ++ u)) (hits q (s ++ u)) (hits_complete q s m u)
hits_complete _ _ (by_group r s m) u =
    Any-map_from (IsHit s u) (IsHit s u) captured (hits r (s ++ u)) (λ k e. e)
      (hits_complete r s m u)

nonempty : (t u : Text) (hs : List Hit) → Any (IsHit t u) hs → first hs ≢ none
nonempty t u [] h = absurd h
nonempty t u (x ∷ xs) h = λ e. absurd (cc)

or_find-left : (a b : Option Hit) → a ≢ none → or_find a b ≢ none
or_find-left none b h = λ _. h refl
or_find-left (some x) b h = λ e. absurd (cc)

or_find-right : (a b : Option Hit) → b ≢ none → or_find a b ≢ none
or_find-right none b h = h
or_find-right (some x) b h = λ e. absurd (cc)

find_match-here : (r : Regex) (s : Text) → first (hits r s) ≢ none → find_match r s ≢ none
unfolding find_match
find_match-here r [] h = h
find_match-here r (c ∷ s) h = or_find-left (first (hits r (c ∷ s))) (find_match r s) h

-- Where a text of the language stands in a text, a match is found.
pub find_match_complete :
    (r : Regex) (before t u : Text) → Matches r t → find_match r (before ++ (t ++ u)) ≢ none
unfolding find_match
find_match_complete r [] t u m =
    find_match-here r (t ++ u) (nonempty t u (hits r (t ++ u)) (hits_complete r t m u))
find_match_complete r (c ∷ before) t u m =
    or_find-right (first (hits r (c ∷ before ++ (t ++ u)))) (find_match r (before ++ (t ++ u)))
      (find_match_complete r before t u m)

first-Occurs :
    (r : Regex) (s : Text) (hs : List Hit) (h : Hit)
    → All (Occurs r s) hs
    → first hs ≡ some h
    → Occurs r s h
first-Occurs r s [] h a e = absurd (cc)
first-Occurs r s (x ∷ xs) h (o, _) e = subst (λ k. Occurs r s k) (some-injective x h e) o

-- What is found is a text of the language, and stands there.
abbrev pub Found : Regex → Text → Hit → Type 0
Found r s h = Matches r h.text × ((before : Text) × (s ≡ before ++ (h.text ++ h.rest)))

or_find-some : (a b : Option Hit) (h : Hit) → or_find a b ≡ some h → (a ≡ some h) ⊎ (b ≡ some h)
or_find-some none b h e = inr e
or_find-some (some x) b h e = inl e

-- A match is a text of the language, and stands in the text.
pub find_match-Found : (r : Regex) (s : Text) (h : Hit) → find_match r s ≡ some h → Found r s h
unfolding find_match
find_match-Found r [] h e =
    let (m, p) = first-Occurs r [] (hits r []) h (hits-Occurs r []) e in (m, ([], sym p))
find_match-Found r (c ∷ s) h e = elim (or_find-some (first (hits r (c ∷ s))) (find_match r s) h e) [
  | inl f ↦
      let (m, p) = first-Occurs r (c ∷ s) (hits r (c ∷ s)) h (hits-Occurs r (c ∷ s)) f in
      (m, ([], sym p))
  | inr f ↦ let (m, (before, p)) = find_match-Found r s h f in (m, (c ∷ before, ap (λ t. c ∷ t) p))
]
