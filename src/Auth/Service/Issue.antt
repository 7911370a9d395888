-- ===== src/Auth/Service/Issue.antt =====
-- What AuthService.issueTokenPair of backend/internal/services/auth.go leaves in refresh_tokens.
-- A new row: live, of this user, under the hash of the token that is handed out, which no row had.
use realstate_allan.World.{World, Result, err}
use realstate_allan.Auth.Service.{start_session, issue_token_pair, ok, some}
use realstate_allan.Auth.Rows.{TokenPair, Session, insert_token, by_hash}
use realstate_allan.Auth.Tokens.{TokenConfig, issue_access_token, issue_refresh_token, claims_of}
use realstate_allan.Models.{User, RefreshToken}
use realstate_allan.Common.{
  Option, ℕ, is_some, ◌≡◌, List, false, none, ◌++◌, ◌∷◌, refl, [], Option-cases, find, ◌+◌, inl,
  inr, Bool-cases, ◌==◌,
}
use realstate_allan.External.{Libraries}

abbrev pub Stores : Libraries → ℕ → TokenPair → (before after : List RefreshToken) → Type 0
Stores lib user_id pair before after =
    (row : RefreshToken) × (after ≡ before ++ row ∷ [])
    × (find (by_hash row.token_hash) before ≡ none)
    × (row.user_id ≡ user_id)
    × (row.token_hash ≡ lib.sha256_hex pair.refresh_token)
    × (row.revoked ≡ false)
    × (row.expires_at ≡ pair.expires_at)

-- On an error no row is added; the accounts stay as they are.
abbrev pub Opens : Libraries → User → World → Result Session × World → Type 0
Opens lib user w (ok s, v) =
    (s.user ≡ user)
    × (v.users ≡ w.users)
    × Stores lib user.id s.pair w.refresh_tokens v.refresh_tokens
Opens lib user w (err e, v) = (v.users ≡ w.users) × (v.refresh_tokens ≡ w.refresh_tokens)

pub is_some-none : {A : Type 0} (o : Option A) → is_some o ≡ false → o ≡ none
is_some-none none h = refl
is_some-none (some a) h = absurd (cc)

module _ (lib : Libraries) (cfg : TokenConfig) where
  -- Issuing a pair for a user stores one new refresh token, live, of that user, under the hash
  -- of the token handed out, which no row had, with the expiry handed out; where it fails, no
  -- row is added. The accounts stay as they are.
  pub start_session-Opens :
      (user : User) (w : World) → Opens lib user w (start_session lib cfg user w)
  unfolding start_session issue_token_pair issue_access_token issue_refresh_token insert_token
  start_session-Opens user w =
      elim (Option-cases (
        lib.sign cfg.jwt_secret
          (claims_of lib cfg user (w.oracle.fresh w.tick) (w.oracle.clock (w.tick + 1))))) [
            | inl e ↦ rw e (refl, refl)
            | inr (t, e) ↦ rw e (elim (Option-cases (w.oracle.random (w.tick + 1 + 1))) [
              | inl r ↦ rw r (refl, refl)
              | inr (raw, r) ↦ rw r (elim (Bool-cases (w.oracle.fault (w.tick + 1 + 1 + 1 + 1))) [
                | inl f ↦ rw f (refl, refl)
                | inr f ↦
                    rw f
                      (elim (Bool-cases
                        (is_some (find (by_hash (lib.sha256_hex raw)) w.refresh_tokens))) [
                          | inl d ↦ rw d (refl, refl)
                          | inr d ↦
                              rw d
                                (elim (Bool-cases (is_some (find (λ u. u.id == user.id) w.users))) [
                                  | inl g ↦
                                      rw g
                                        (elim (Bool-cases (
                                          is_some (
                                            find
                                              (λ r.
                                                r.id == w.oracle.fresh (w.tick + 1 + 1 + 1 + 1 + 1))
                                              w.refresh_tokens))) [
                                                | inl k ↦ rw k (refl, refl)
                                                | inr k ↦ rw k (
                                                  refl,
                                                  refl,
                                                  (
                                                    _,
                                                    refl,
                                                    is_some-none _ d,
                                                    refl,
                                                    refl,
                                                    refl,
                                                    refl,
                                                  ),
                                                )
                                              ])
                                  | inr g ↦ rw g (refl, refl)
                                ])
                        ])
              ])
            ])
          ]
