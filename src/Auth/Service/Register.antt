-- ===== src/Auth/Service/Register.antt =====
-- AuthService.Register of backend/internal/services/auth.go.
use realstate_allan.Auth.Service.Issue.{Opens, Stores, is_some-none, start_session-Opens}
use realstate_allan.Models.{User, role_broker}
use realstate_allan.World.{World, Result, err}
use realstate_allan.Auth.Service.{register, normalise_email, ok}
use realstate_allan.Auth.Rows.{insert_user, new_user, Session, scanned, by_email, put_users}
use realstate_allan.Common.{
  String, List, ◌≡◌, Option-cases, ◌++◌, inl, ◌∷◌, inr, [], Bool-cases, find, ◌⊎◌, ◌∙◌, ◌+◌, subst,
  is_some, sym, none, true, refl, ℕ, ◌≢◌, some, ◌==◌,
}
use realstate_allan.Auth.Tokens.{TokenConfig}
use realstate_allan.External.{Libraries}

module _ (lib : Libraries) (cfg : TokenConfig) where
  -- A new active BROKER under the normalised address, which no account had, with a bcrypt hash.
  abbrev pub Adds : String → String → (before after : List User) → User → Type 0
  Adds email password before after row =
      (after ≡ before ++ row ∷ [])
      × (find (by_email (normalise_email lib cfg email)) before ≡ none)
      × (row.email ≡ normalise_email lib cfg email)
      × (row.role ≡ role_broker)
      × (row.is_active ≡ true)
      × (salt : ℕ) × (row.password_hash ≡ lib.bcrypt_hash salt password)
      × (row.password_hash ≢ none)

  abbrev pub Registers : String → String → World → Result Session × World → Type 0
  Registers email password w (ok s, v) =
      (row : User) × Adds email password w.users v.users row
      × (s.user ≡ scanned row)
      × Stores lib row.id s.pair w.refresh_tokens v.refresh_tokens
  Registers email password w (err e, v) =
      (v.refresh_tokens ≡ w.refresh_tokens)
      × ((v.users ≡ w.users) ⊎ ((row : User) × Adds email password w.users v.users row))

  added :
      (email password : String) (w w1 : World) (row : User) (r : Result Session × World)
      → Adds email password w.users w1.users row
      → w1.refresh_tokens ≡ w.refresh_tokens
      → Opens lib (scanned row) w1 r
      → Registers email password w r
  added email password w w1 row (err e, v) adds ht (a, b) =
      (b ∙ ht, inr (row, subst (λ us. Adds email password w.users us row) (sym a) adds))
  added email password w w1 row (ok s, v) adds ht (su, vu, st) = (
    row,
    subst (λ us. Adds email password w.users us row) (sym vu) adds,
    su,
    subst (λ t. Stores lib row.id s.pair t v.refresh_tokens) ht st,
  )

  -- A registration that ends well adds one active BROKER under the normalised address, which no
  -- account had, with a bcrypt hash of the password, and stores one live refresh token of that
  -- account under its hash. One that fails stores no refresh token, and adds at most that
  -- account.
  pub register-Registers :
      (email password full_name : String) (w : World)
      → Registers email password w (register lib cfg email password full_name w)
  unfolding register insert_user new_user
  register-Registers email password full_name w =
      elim (Option-cases (lib.bcrypt_hash (w.oracle.fresh w.tick) password)) [
        | inl e ↦ rw e (refl, inl refl)
        | inr (hash, e) ↦ rw e (elim (Bool-cases (w.oracle.fault (w.tick + 1))) [
          | inl f ↦ rw f (refl, inl refl)
          | inr f ↦
              rw f
                (elim (Bool-cases
                  (is_some (find (by_email (normalise_email lib cfg email)) w.users))) [
                    | inl g ↦ rw g (refl, inl refl)
                    | inr g ↦
                        rw g
                          (elim (Bool-cases (
                            is_some
                              (find (λ u. u.id == w.oracle.fresh (w.tick + 1 + 1)) w.users))) [
                                | inl k ↦ rw k (refl, inl refl)
                                | inr k ↦
                                    let row : User =
                                      new_user (w.oracle.fresh (w.tick + 1 + 1))
                                        (normalise_email lib cfg email) (some hash) none full_name
                                        (w.oracle.clock (w.tick + 1 + 1 + 1)) in
                                    rw k (
                                      added email password w
                                        (put_users (w.users ++ row ∷ [])
                                          (record w { tick = w.tick + 1 + 1 + 1 + 1 }))
                                        row _
                                        (
                                          refl,
                                          is_some-none _ g,
                                          refl,
                                          refl,
                                          refl,
                                          _,
                                          sym e,
                                          λ h. absurd (cc),
                                        )
                                        refl (start_session-Opens lib cfg _ _))
                              ])
                  ])
        ])
      ]
