-- ===== src/Regexp/Sound.antt =====
-- What the matcher finds is in the language of the expression and stands in the text.
use realstate_allan.Common.{
  Text, ℕ, Bool, List, All, ◌≡◌, ◌++◌, true, ◌∷◌, [], Bool-cases, append_assoc, All-append, inl,
  ◌∙◌, map, inr, ap, All-map_from, refl, All-weaken,
}
use realstate_allan.Regexp.{
  Regex, prefixes, one_of, extend, hits, Hit, many, one, seq, joined, alt, empty, group, push, hit,
  captured,
}

pub data Matches : Regex → Text → Type 0 where
  by_one : (p : ℕ → Bool) (c : ℕ) → p c ≡ true → Matches (one p) (c ∷ [])
  by_none : (p : ℕ → Bool) → Matches (many p) []
  by_more :
      (p : ℕ → Bool) (c : ℕ) (s : Text) → p c ≡ true → Matches (many p) s → Matches (many p) (c ∷ s)
  by_empty : Matches empty []
  by_seq : (r q : Regex) (s t : Text) → Matches r s → Matches q t → Matches (seq r q) (s ++ t)
  by_left : (r q : Regex) (s : Text) → Matches r s → Matches (alt r q) s
  by_right : (r q : Regex) (s : Text) → Matches q s → Matches (alt r q) s
  by_group : (r : Regex) (s : Text) → Matches r s → Matches (group r) s

abbrev pub Occurs : Regex → Text → Hit → Type 0
Occurs r s h = Matches r h.text × (h.text ++ h.rest ≡ s)

prefixes-Occurs : (p : ℕ → Bool) (s : Text) → All (Occurs (many p) s) (prefixes p s)
unfolding prefixes
prefixes-Occurs p [] = ((by_none p, refl), tt)
prefixes-Occurs p (c ∷ s) = elim (Bool-cases (p c)) [
  | inl e ↦ rw e (
      All-append (Occurs (many p) (c ∷ s)) (map (push c) (prefixes p s)) (hit [] (c ∷ s) ∷ [])
        (All-map_from (Occurs (many p) (c ∷ s)) (Occurs (many p) s) (push c) (prefixes p s)
          (λ h (m, q). (by_more p c h.text e m, ap (λ t. c ∷ t) q)) (prefixes-Occurs p s))
        ((by_none p, refl), tt))
  | inr e ↦ rw e ((by_none p, refl), tt)
]

one_of-Occurs : (p : ℕ → Bool) (s : Text) → All (Occurs (one p) s) (one_of p s)
unfolding one_of
one_of-Occurs p [] = tt
one_of-Occurs p (c ∷ s) = elim (Bool-cases (p c)) [
  | inl e ↦ rw e ((by_one p c e, refl), tt)
  | inr e ↦ rw e tt
]

joined-Occurs :
    (r q : Regex) (s : Text) (h : Hit)
    → Occurs r s h
    → (k : Hit) → Occurs q h.rest k
    → Occurs (seq r q) s (joined h k)
joined-Occurs r q s h (m, e) k (n, f) =
    (by_seq r q h.text k.text m n, append_assoc h.text k.text k.rest ∙ ap (λ t. h.text ++ t) f ∙ e)

extend-Occurs :
    (r q : Regex) (s : Text) (next : Text → List Hit)
    → ((t : Text) → All (Occurs q t) (next t))
    → (hs : List Hit) → All (Occurs r s) hs
    → All (Occurs (seq r q) s) (extend next hs)
unfolding extend
extend-Occurs r q s next i [] h = tt
extend-Occurs r q s next i (x ∷ xs) (o, h) =
    All-append (Occurs (seq r q) s) (map (joined x) (next x.rest)) (extend next xs)
      (All-map_from (Occurs (seq r q) s) (Occurs q x.rest) (joined x) (next x.rest)
        (joined-Occurs r q s x o) (i x.rest))
      (extend-Occurs r q s next i xs h)

pub hits-Occurs : (r : Regex) (s : Text) → All (Occurs r s) (hits r s)
unfolding hits
hits-Occurs (one p) s = one_of-Occurs p s
hits-Occurs (many p) s = prefixes-Occurs p s
hits-Occurs empty s = ((by_empty, refl), tt)
hits-Occurs (seq r q) s = extend-Occurs r q s (hits q) (hits-Occurs q) (hits r s) (hits-Occurs r s)
hits-Occurs (alt r q) s =
    All-append (Occurs (alt r q) s) (hits r s) (hits q s)
      (All-weaken (Occurs (alt r q) s) (Occurs r s) (hits r s)
        (λ h (m, e). (by_left r q h.text m, e)) (hits-Occurs r s))
      (All-weaken (Occurs (alt r q) s) (Occurs q s) (hits q s)
        (λ h (m, e). (by_right r q h.text m, e)) (hits-Occurs q s))
hits-Occurs (group r) s =
    All-map_from (Occurs (group r) s) (Occurs r s) captured (hits r s)
      (λ h (m, e). (by_group r h.text m, e)) (hits-Occurs r s)
