-- ===== src/Auth/Tokens.antt =====
-- backend/internal/services/token.go: access tokens, refresh tokens and the Redis blacklist. Times
-- and durations count nanoseconds; the TTLs of the configuration are positive.
use realstate_allan.Models.{User}
use realstate_allan.External.{Libraries, Claims}
use realstate_allan.World.{
  Action, ◌>>=◌, ◌>>◌, or_fail, internal, fresh_uuid, now, pure, statement, modify, gets,
}
use realstate_allan.Common.{
  String, ℕ, ◌*◌, ◌/◌, List, Bool, ◌∷◌, false, ◌+◌, if◌then◌else◌, str_eq, ltb, [],
}

pub record TokenConfig : Type 0 where
  pub jwt_secret : String
  pub jwt_access_ttl_minutes : ℕ
  pub jwt_refresh_ttl_days : ℕ

abbrev pub second : ℕ
second = 1_000_000_000

unfoldable pub access_ttl : TokenConfig → ℕ
access_ttl cfg = cfg.jwt_access_ttl_minutes * (60 * second)

unfoldable pub refresh_ttl : TokenConfig → ℕ
refresh_ttl cfg = cfg.jwt_refresh_ttl_days * (24 * (3600 * second))

-- jwt.NewNumericDate cuts to whole seconds.
abbrev pub numeric_date : ℕ → ℕ
numeric_date t = t / second * second

-- A refresh token as the client and as the table see it.
pub record RefreshPair : Type 0 where
  pub raw : String
  pub hash : String

pub record AccessToken : Type 0 where
  pub token : String
  pub jti : String

-- rand.Read; it may fail.
abbrev pub read_random : Action String
read_random w = or_fail (w.oracle.random w.tick) internal (record w { tick = w.tick + 1 })

-- The entry of a key that SET replaces.
abbrev pub set_key : String → ℕ → List (String × ℕ) → List (String × ℕ)
set_key k v [] = (k, v) ∷ []
set_key k v ((j, u) ∷ m) = if str_eq j k then (k, v) ∷ m else (j, u) ∷ set_key k v m

-- EXISTS at a time: an entry that has not expired.
abbrev pub exists_key : String → ℕ → List (String × ℕ) → Bool
exists_key k t [] = false
exists_key k t ((j, u) ∷ m) = if str_eq j k then ltb t u else exists_key k t m

module _ (lib : Libraries) (cfg : TokenConfig) where
  unfoldable pub claims_of : User → (jti : ℕ) → (t : ℕ) → Claims
  unfolding access_ttl
  claims_of user jti t = record {
    user_id = user.id;
    email = user.email;
    role = user.role;
    jti = lib.show_uuid jti;
    issued_at = numeric_date t;
    expires_at = numeric_date (t + access_ttl cfg);
  }

  unfoldable pub issue_access_token : User → Action AccessToken
  unfolding claims_of
  issue_access_token user = do
    jti ← fresh_uuid
    t ← now
    token ← or_fail (lib.sign cfg.jwt_secret (claims_of user jti t)) internal
    pure (record { token = token; jti = lib.show_uuid jti })

  unfoldable pub parse_access_token : String → Action Claims
  parse_access_token token = do t ← now; or_fail (lib.verify cfg.jwt_secret t token) internal

  unfoldable pub issue_refresh_token : Action RefreshPair
  issue_refresh_token = do raw ← read_random; pure (record { raw = raw; hash = lib.sha256_hex raw })

-- SET with a TTL, by Redis's clock.
unfoldable pub blacklist_token : String → ℕ → Action (Unit {0})
blacklist_token jti ttl = do
  statement
  t ← now
  modify (λ w. record w { blacklist = set_key jti (t + ttl) w.blacklist })

unfoldable pub is_blacklisted : String → Action Bool
is_blacklisted jti = do statement; t ← now; gets (λ w. exists_key jti t w.blacklist)
