-- ===== src/Regexp/All.antt =====
-- FindAll: as many rounds as the text has code points are enough.
use realstate_allan.Regexp.Complete.{find_match-Found}
use realstate_allan.Regexp.Sound.{Matches}
use realstate_allan.Common.{
  ℕ, Text, Option, suc, length, ◌<◌, List, ◌≡◌, ◌≤◌, some, [], Option-cases, none, ◌∙◌, ◌∷◌, inl,
  sym, zero, arith, inr, refl, ap, length-append, ◌++◌,
}
use realstate_allan.Regexp.{Regex, find_all, Hit, find_match}

abbrev pub NeverEmpty : Regex → Type 0
NeverEmpty r = (t : Text) → Matches r t → 0 < length t

rest_shorter :
    (r : Regex) (s : Text) (h : Hit)
    → NeverEmpty r
    → find_match r s ≡ some h
    → length h.rest < length s
rest_shorter r s h ne e =
    let (m, (before, p)) = find_match-Found r s h e in
    omega (
      arith,
      ne h.text m,
      ap length p,
      length-append before (h.text ++ h.rest),
      length-append h.text h.rest,
    )

abbrev next_hits : ℕ → Regex → Option Hit → List Hit
next_hits fuel r none = []
next_hits fuel r (some h) = h ∷ find_all fuel r h.rest

find_all-suc :
    (fuel : ℕ) (r : Regex) (s : Text) → find_all (suc fuel) r s ≡ next_hits fuel r (find_match r s)
unfolding find_all
find_all-suc fuel r s = elim (Option-cases (find_match r s)) [
  | inl e ↦ rw (e, find_all) refl
  | inr (h, e) ↦ rw (e, find_all) refl
]

no_hit : (r : Regex) (s : Text) → NeverEmpty r → length s ≤ 0 → find_match r s ≡ none
no_hit r s ne z = elim (Option-cases (find_match r s)) [
  | inl e ↦ e
  | inr (h, e) ↦ absurd (omega (arith, z, rest_shorter r s h ne e))
]

none_of : (n : ℕ) (r : Regex) (s : Text) → NeverEmpty r → length s ≤ 0 → find_all n r s ≡ []
unfolding find_all
none_of zero r s ne z = refl
none_of (suc n) r s ne z = rw (no_hit r s ne z, find_all) refl

-- Two numbers of rounds that are enough give the same matches.
pub find_all-enough :
    (r : Regex)
    → NeverEmpty r
    → (m n : ℕ) (s : Text) → length s ≤ m
    → length s ≤ n
    → find_all m r s ≡ find_all n r s
find_all-enough r ne zero n s h k = none_of zero r s ne h ∙ sym (none_of n r s ne h)
find_all-enough r ne (suc m) zero s h k = none_of (suc m) r s ne k ∙ sym (none_of zero r s ne k)
find_all-enough r ne (suc m) (suc n) s h k =
    find_all-suc m r s
    ∙ elim (Option-cases (find_match r s)) [
      | inl e ↦ rw e refl
      | inr (x, e) ↦
          let short = rest_shorter r s x ne e in
          rw e (
            ap (λ hs. x ∷ hs)
              (find_all-enough r ne m n x.rest (omega (arith, short, h)) (omega (arith, short, k))))
    ]
    ∙ sym (find_all-suc n r s)
