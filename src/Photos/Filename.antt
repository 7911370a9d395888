-- ===== src/Photos/Filename.antt =====
-- The object keys of backend/internal/services/photos.go.
use realstate_allan.Auth.Rows.{to_lower}
use realstate_allan.Photos.{sanitise_filename, is_safe, replace_unsafe}
use realstate_allan.Common.{
  ℕ, Bool-cases, String, ◌==◌, inl, ◌≡◌, inr, true, codes, refl, ◌≤◌, ◌⊎◌, leb, false, ◌&&◌, arith,
  ==_iff, Each, map-Each,
}

-- An ASCII lower-case letter, a digit, a dot or a dash.
abbrev pub IsPlain : ℕ → Type 0
IsPlain c = ((b'a' ≤ c) × (c ≤ b'z')) ⊎ ((b'0' ≤ c) × (c ≤ b'9')) ⊎ (c ≡ b'.') ⊎ (c ≡ b'-')

-- What stands in the name for a character: itself, or an underscore for one that is not plain.
abbrev pub Stored : (given kept : ℕ) → Type 0
Stored given kept = (IsPlain given × (kept ≡ given)) ⊎ ((¬ IsPlain given) × (kept ≡ b'_'))

safe : (c : ℕ) → is_safe c ≡ true → IsPlain c
safe c h = elim (Bool-cases (leb b'a' c && leb c b'z')) [
  | inl e ↦ inl (ground arith, ground arith)
  | inr e ↦ elim (Bool-cases (leb b'0' c && leb c b'9')) [
    | inl f ↦ inr (inl (ground arith, ground arith))
    | inr f ↦ elim (Bool-cases (c == b'.')) [
      | inl g ↦ inr (inr (inl ((==_iff c b'.').0 g)))
      | inr g ↦ inr (inr (inr ((==_iff c b'-').0 (rw (e, f, g) at h))))
    ]
  ]
]

unsafe : (c : ℕ) → is_safe c ≡ false → ¬ IsPlain c
unsafe c h (inl (a, b)) = ground arith
unsafe c h (inr (inl (a, b))) = ground arith
unsafe c h (inr (inr (inl e))) = ground arith
unsafe c h (inr (inr (inr e))) = ground arith

replace_unsafe-Stored : (c : ℕ) → Stored c (replace_unsafe c)
replace_unsafe-Stored c = elim (Bool-cases (is_safe c)) [
  | inl e ↦ rw e (inl (safe c e, refl))
  | inr e ↦ rw e (inr (unsafe c e, refl))
]

-- A sanitised file name holds, for each character of the lower-cased name in turn, the
-- character itself where it is an ASCII lower-case letter, a digit, a dot or a dash, and an
-- underscore for every other one.
pub sanitise_filename-Stored :
    (lower : ℕ → ℕ) (name : String)
    → Each Stored (to_lower lower (codes name)) (sanitise_filename lower name)
unfolding sanitise_filename
sanitise_filename-Stored lower name =
    map-Each Stored replace_unsafe (to_lower lower (codes name)) replace_unsafe-Stored
