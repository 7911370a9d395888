-- ===== src/Auth/Service.antt =====
-- backend/internal/services/auth.go. A user that the service returns has the columns that the
-- source scans: no password hash and no Google id.
use realstate_allan.Auth.Rows.{
  to_lower, TokenPair, Session, insert_token, by_email, by_hash, revoke_token, link_google,
  new_user, check_refresh, insert_user, upsert_google, scanned, load_user,
}
use realstate_allan.World.{
  Action, ◌>>◌, fail, World, ◌>>=◌, invalid_credentials, statement, Result, pure, fresh_uuid, gets,
  or_fail, ok, now, internal, inactive_user, fail_if,
}
use realstate_allan.Models.{User}
use realstate_allan.Common.{
  String, Option, Text, ℕ, codes, trim_space, some, if◌then◌else◌, find, str_eq, ◌+◌, none, not,
  ◌==◌, false,
}
use realstate_allan.Auth.Tokens.{
  TokenConfig, blacklist_token, issue_access_token, issue_refresh_token, refresh_ttl,
}
use realstate_allan.External.{Libraries}
pub mod Spent
pub mod Steps
pub mod History
pub mod Rotation
pub mod Issue
pub mod Login
pub mod Register
pub mod RoundTrip

module _ (lib : Libraries) (cfg : TokenConfig) where
  unfoldable pub normalise_email : String → Text
  normalise_email email = to_lower lib.lower_rune (codes (trim_space email))

  unfoldable pub issue_token_pair : User → Action TokenPair
  issue_token_pair user = do
    access ← issue_access_token lib cfg user
    refresh ← issue_refresh_token lib cfg
    t ← now
    statement
    id ← fresh_uuid
    created ← now
    insert_token (record {
      id = id;
      user_id = user.id;
      token_hash = refresh.hash;
      expires_at = t + refresh_ttl cfg;
      revoked = false;
      created_at = created;
    })
    pure (record {
      access_token = access.token;
      access_jti = access.jti;
      refresh_token = refresh.raw;
      expires_at = t + refresh_ttl cfg;
    })

  unfoldable pub start_session : User → Action Session
  start_session user = do pair ← issue_token_pair user; pure (record { user = user; pair = pair })

  unfoldable pub register : String → String → String → Action Session
  register email password full_name = do
    salt ← fresh_uuid
    hash ← or_fail (lib.bcrypt_hash salt password) internal
    statement
    id ← fresh_uuid
    t ← now
    let row = new_user id (normalise_email email) (some hash) none full_name t
    insert_user row
    start_session (scanned row)

  -- A NULL password hash does not scan into a Go string: an error that is not ErrNoRows.
  unfoldable pub check_credentials : Option User → String → Action User
  check_credentials none password = fail invalid_credentials
  check_credentials (some u) password = elim u.password_hash [
    | none ↦ fail internal
    | some hash ↦
        if not u.is_active
        then fail inactive_user
        else if lib.bcrypt_matches hash password
        then pure (scanned u)
        else fail invalid_credentials
  ]

  unfoldable pub login : String → String → Action Session
  login email password = do
    statement
    row ← gets (λ w. find (by_email (normalise_email email)) w.users)
    user ← check_credentials row password
    start_session user

  unfoldable pub refresh_tokens : String → Action Session
  refresh_tokens raw = do
    statement
    row ← gets (λ w. find (by_hash (lib.sha256_hex raw)) w.refresh_tokens)
    rt ← check_refresh row
    revoke_token (λ r. r.id == rt.id)
    user ← load_user rt.user_id
    start_session user

  unfoldable pub logout : String → String → ℕ → Action (Unit {0})
  logout jti raw ttl = do
    blacklist_token jti ttl
    (λ w. if str_eq raw "" then (ok tt, w) else revoke_token (by_hash (lib.sha256_hex raw)) w)

  unfoldable pub upserted : String → Text → Option User × World → Result User × World
  upserted google_id email (some u, w) = (ok u, w)
  upserted google_id email (none, w) = link_google google_id email w

  unfoldable pub upsert_google_user : String → String → String → Action Session
  upsert_google_user google_id email full_name = do
    statement
    id ← fresh_uuid
    t ← now
    let row = new_user id (normalise_email email) none (some google_id) full_name t
    user ← (λ w. upserted google_id (normalise_email email) (upsert_google row google_id w))
    fail_if (not user.is_active) inactive_user
    start_session (scanned user)
