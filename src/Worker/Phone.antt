-- ===== src/Worker/Phone.antt =====
-- Phone numbers that are normalised twice, by HandleStale and by the sender, in
-- backend/internal/worker/dispatcher.go.
use realstate_allan.Worker.{normalise_phone, with_country, plus, plus_91}
use realstate_allan.Common.{
  Text, select, ◌≡◌, ◌∷◌, drop, Bool-cases, [], inl, refl, ap, inr, ℕ, length, Bool, suc, ◌&&◌,
  ◌==◌, ◌≤◌, arith, true, ==_iff, ◌∙◌, is_digit, has_prefix,
}

select-digits : (s : Text) → select is_digit (select is_digit s) ≡ select is_digit s
select-digits [] = refl
select-digits (c ∷ s) = elim (Bool-cases (is_digit c)) [
  | inl e ↦ rw (e, e) (ap (λ t. c ∷ t) (select-digits s))
  | inr e ↦ rw e (select-digits s)
]

length-select-le : (p : ℕ → Bool) (s : Text) → length (select p s) ≤ length s
length-select-le p [] = omega arith
length-select-le p (c ∷ s) = ground (arith, length-select-le p s)

digits-drop : (s : Text) → select is_digit s ≡ s → select is_digit (drop 1 s) ≡ drop 1 s
digits-drop [] h = refl
digits-drop (c ∷ s) h = elim (Bool-cases (is_digit c)) [
  | inl e ↦ rw e at (ap (drop 1) h)
  | inr e ↦
      let longer : length (select is_digit s) ≡ suc (length s) = rw e at (ap length h) in
      absurd (omega (arith, longer, length-select-le is_digit s))
]

length-drop_one : (s : Text) (n : ℕ) → length s ≡ suc n → length (drop 1 s) ≡ n
length-drop_one [] n h = omega (arith, h)
length-drop_one (c ∷ s) n h = omega (arith, h)

-- A number with its country's prefix.
national :
    (d : Text) → select is_digit d ≡ d → length d ≡ 10 → normalise_phone (plus_91 d) ≡ plus_91 d
unfolding normalise_phone
national d h len = rw (h, len) refl

international : (d : Text) → select is_digit d ≡ d → normalise_phone (plus d) ≡ with_country d
unfolding normalise_phone
international d h = rw h refl

eleven : (d : Text) → (has_prefix d (b'0' ∷ []) && length d == 11) ≡ true → length d ≡ 11
eleven d g = ground arith

again : (d : Text) → select is_digit d ≡ d → normalise_phone (with_country d) ≡ with_country d
again d h = elim (Bool-cases (length d == 10)) [
  | inl e ↦ rw e (national d h ((==_iff (length d) 10).0 e))
  | inr e ↦ elim (Bool-cases (has_prefix d (b'9' ∷ b'1' ∷ []) && length d == 12)) [
    | inl f ↦ rw (e, f) (international d h ∙ rw (e, f) refl)
    | inr f ↦ elim (Bool-cases (has_prefix d (b'0' ∷ []) && length d == 11)) [
      | inl g ↦
          rw (e, f, g) (national (drop 1 d) (digits-drop d h) (length-drop_one d 10 (eleven d g)))
      | inr g ↦ rw (e, f, g) (international d h ∙ rw (e, f, g) refl)
    ]
  ]
]

-- Normalising a phone number twice gives what normalising it once gives.
pub normalise_phone_idempotent :
    (contact : Text) → normalise_phone (normalise_phone contact) ≡ normalise_phone contact
unfolding normalise_phone
normalise_phone_idempotent contact = again (select is_digit contact) (select-digits contact)
