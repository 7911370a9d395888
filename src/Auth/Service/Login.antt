-- ===== src/Auth/Service/Login.antt =====
-- AuthService.Login of backend/internal/services/auth.go.
use realstate_allan.Auth.Service.Issue.{Stores, Opens, start_session-Opens}
use realstate_allan.World.{World, Result, resume, err}
use realstate_allan.Models.{User}
use realstate_allan.Auth.Service.{
  check_credentials, login, normalise_email, start_session, ok, some,
}
use realstate_allan.Auth.Rows.{Session, by_email, scanned}
use realstate_allan.Common.{
  String, Option, ◌≡◌, Bool-cases, true, Option-cases, find, inl, inr, none, refl, subst, sym, ◌∙◌,
  some,
}
use realstate_allan.Auth.Tokens.{TokenConfig}
use realstate_allan.External.{Libraries}

module _ (lib : Libraries) (cfg : TokenConfig) where
  -- The row's account is active and has this password.
  abbrev pub Accepts : String → User → Type 0
  Accepts password u =
      (u.is_active ≡ true)
      × (hash : String) × (u.password_hash ≡ some hash)
      × (lib.bcrypt_matches hash password ≡ true)

  abbrev pub Grants : String → String → World → Result Session × World → Type 0
  Grants email password w (ok s, v) =
      (u : User) × (find (by_email (normalise_email lib cfg email)) w.users ≡ some u)
      × Accepts password u
      × (s.user ≡ scanned u)
      × (v.users ≡ w.users)
      × Stores lib u.id s.pair w.refresh_tokens v.refresh_tokens
  Grants email password w (err e, v) = (v.users ≡ w.users) × (v.refresh_tokens ≡ w.refresh_tokens)

  abbrev Checked : Option User → String → World → Result User × World → Type 0
  Checked row password w (ok a, v) =
      (u : User) × (row ≡ some u) × Accepts password u × (a ≡ scanned u) × (v ≡ w)
  Checked row password w (err e, v) = v ≡ w

  check_credentials-Checked :
      (row : Option User) (password : String) (w : World)
      → Checked row password w (check_credentials lib cfg row password w)
  unfolding check_credentials
  check_credentials-Checked none password w = refl
  check_credentials-Checked (some u) password w = elim (Option-cases u.password_hash) [
    | inl e ↦ rw e refl
    | inr (hash, e) ↦ elim (Bool-cases u.is_active) [
      | inr f ↦ rw (e, f) refl
      | inl f ↦ elim (Bool-cases (lib.bcrypt_matches hash password)) [
        | inr g ↦ rw (e, f, g) refl
        | inl g ↦
            let same : check_credentials lib cfg (some u) password w ≡ (ok (scanned u), w) =
              rw (e, f, g) refl in
            subst (Checked (some u) password w) (sym same) (u, refl, (f, hash, e, g), refl, refl)
      ]
    ]
  ]

  granted :
      (email password : String) (w w1 : World) (u : User) (r : Result Session × World)
      → w1.users ≡ w.users
      → w1.refresh_tokens ≡ w.refresh_tokens
      → find (by_email (normalise_email lib cfg email)) w.users ≡ some u
      → Accepts password u
      → Opens lib (scanned u) w1 r
      → Grants email password w r
  granted email password w w1 u (err e, v) hu ht found acc (a, b) = (a ∙ hu, b ∙ ht)
  granted email password w w1 u (ok s, v) hu ht found acc (su, vu, st) =
      (u, found, acc, su, vu ∙ hu, subst (λ t. Stores lib u.id s.pair t v.refresh_tokens) ht st)

  opened :
      (email password : String) (w w1 : World) (r : Result User × World)
      → w1.users ≡ w.users
      → w1.refresh_tokens ≡ w.refresh_tokens
      → Checked (find (by_email (normalise_email lib cfg email)) w.users) password w1 r
      → Grants email password w (resume (start_session lib cfg) r)
  opened email password w w1 (err e, v) hu ht c = (rw c hu, rw c ht)
  opened email password w w1 (ok a, v) hu ht (u, found, acc, same, at) =
      rw (same, at)
        (granted email password w w1 u _ hu ht found acc
          (start_session-Opens lib cfg (scanned u) w1))

  -- A login that ends well was for an account found under the normalised address, active, whose
  -- bcrypt hash matches the password; the accounts stay as they are, and one live refresh token
  -- of that user is stored under the hash of the token handed out. A login that fails changes
  -- neither accounts nor refresh tokens.
  pub login-Grants :
      (email password : String) (w : World)
      → Grants email password w (login lib cfg email password w)
  unfolding login
  login-Grants email password w = elim (Bool-cases (w.oracle.fault w.tick)) [
    | inl e ↦ rw e (refl, refl)
    | inr e ↦ rw e (opened email password w _ _ refl refl (check_credentials-Checked _ password _))
  ]
