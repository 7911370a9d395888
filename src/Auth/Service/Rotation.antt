-- ===== src/Auth/Service/Rotation.antt =====
-- Rotation of refresh tokens: AuthService.RefreshTokens of backend/internal/services/auth.go.
use realstate_allan.Auth.Service.Steps.{load_user-Spent, start_session-Spent}
use realstate_allan.World.Keeps.{Keeps, >>=-Keeps, keeps_on}
use realstate_allan.Auth.Service.History.{Reaches, Reaches-Spent}
use realstate_allan.Auth.Service.Spent.{Spent, revoked_now}
use realstate_allan.Models.{RefreshToken}
use realstate_allan.World.{
  World, Error, ok, err, >>=-eq-ok, statement, internal, ◌>>=◌, token_invalid, Result,
}
use realstate_allan.Common.{
  String, Option, ◌≡◌, some, find, false, arith, none, ℕ, Bool-cases, Bool, inl, update, inr, refl,
  ◌==◌, ap, ==_self,
}
use realstate_allan.Auth.Service.{refresh_tokens, start_session}
use realstate_allan.Auth.Rows.{check_refresh, Session, by_hash, revoke_token, load_user, revoke}
use realstate_allan.Auth.Tokens.{TokenConfig}
use realstate_allan.External.{Libraries}

module _ (lib : Libraries) (cfg : TokenConfig) where
  check_refresh-eq-ok :
      (row : Option RefreshToken) (w : World) {rt : RefreshToken} {v : World}
      → check_refresh row w ≡ (ok rt, v)
      → (row ≡ some rt) × (rt.revoked ≡ false) × (v.refresh_tokens ≡ w.refresh_tokens)
  unfolding check_refresh
  check_refresh-eq-ok none w h = absurd (cc)
  check_refresh-eq-ok (some r) w h = ground arith

  revoke_token-eq-ok :
      (hit : RefreshToken → Bool) (w : World) {v : World}
      → revoke_token hit w ≡ (ok tt, v)
      → v.refresh_tokens ≡ update hit revoke w.refresh_tokens
  unfolding revoke_token
  revoke_token-eq-ok hit w h = ground arith

  rest-Spent : (h : String) (id : ℕ) → Keeps (Spent h) (load_user id >>= start_session lib cfg)
  rest-Spent h id = >>=-Keeps (load_user-Spent h id) (start_session-Spent h lib cfg)

  -- An exchange of a refresh token that ends well found a row under the token's hash that was
  -- not revoked, and leaves it revoked.
  pub refresh_inversion :
      (raw : String) (w : World) {s : Session} {v : World}
      → refresh_tokens lib cfg raw w ≡ (ok s, v)
      → (r : RefreshToken) × (find (by_hash (lib.sha256_hex raw)) w.refresh_tokens ≡ some r)
        × (r.revoked ≡ false)
        × Spent (lib.sha256_hex raw) v
  unfolding refresh_tokens
  refresh_inversion raw w {v = v} e =
      let (_, w1, h1, k1) = >>=-eq-ok statement _ w e in
      let (rt, w2, h2, k2) =
        >>=-eq-ok (check_refresh (find (by_hash (lib.sha256_hex raw)) w1.refresh_tokens)) _ w1 k1 in
      let (_, w3, h3, k3) = >>=-eq-ok (revoke_token (λ r. r.id == rt.id)) _ w2 k2 in
      let (found, live, same) = check_refresh-eq-ok _ w1 h2 in
      let before : w.refresh_tokens ≡ w1.refresh_tokens =
        ap (λ (q : Result (Unit {0}) × World). q.1.refresh_tokens) h1 in
      (
        rt,
        rw before found,
        live,
        keeps_on (rest-Spent (lib.sha256_hex raw) rt.user_id) w3 k3 (
            rw (revoke_token-eq-ok _ w2 h3) (
              revoked_now (lib.sha256_hex raw) (λ r. r.id == rt.id) w2.refresh_tokens rt
                (rw same found) (==_self rt.id))),
      )

  refused_again :
      (raw : String) (w : World)
      → Spent (lib.sha256_hex raw) w
      → (e : Error) × ((refresh_tokens lib cfg raw w).0 ≡ err e)
  unfolding refresh_tokens check_refresh
  refused_again raw w (r, found, revoked) = elim (Bool-cases (w.oracle.fault w.tick)) [
    | inl e ↦ (internal, rw e refl)
    | inr e ↦ (token_invalid, rw (e, found, revoked) refl)
  ]

  -- Once a refresh token has been exchanged for a new pair, every later exchange of it ends in
  -- an error, after any sequence of register, login, refresh, logout and Google sign-in calls,
  -- whether those end well or not.
  pub refresh_once :
      (raw : String) (w : World) {s : Session} {v u : World}
      → refresh_tokens lib cfg raw w ≡ (ok s, v)
      → Reaches lib cfg v u
      → (e : Error) × ((refresh_tokens lib cfg raw u).0 ≡ err e)
  refresh_once raw w h r =
      let (_, _, _, spent) = refresh_inversion raw w h in
      refused_again raw _ (Reaches-Spent (lib.sha256_hex raw) r spent)
