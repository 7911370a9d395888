-- ===== src/Handlers/Auth.antt =====
-- backend/internal/handlers/auth.go. A reply carries what it does to the refresh_token cookie.
use realstate_allan.Middleware.{Identity}
use realstate_allan.World.{
  Error, World, Result, ok, email_taken, invalid_credentials, token_invalid, inactive_user, err,
}
use realstate_allan.Auth.Service.{logout, upsert_google_user, register, login, refresh_tokens}
use realstate_allan.Auth.Rows.{TokenPair, Session}
use realstate_allan.Models.{PublicUser, User, to_public}
use realstate_allan.Auth.Tokens.{TokenConfig, second, access_ttl}
use realstate_allan.Common.Int.{ℤ, pos, negsuc}
use realstate_allan.External.{Libraries}
use realstate_allan.Respond.{Response, error, json}
use realstate_allan.Common.{
  String, ℕ, Text, Option, if◌then◌else◌, ◌∷◌, codes, Bool, ltb, ◌+◌, leb, suc, ◌-◌, [], ◌/◌, some,
  str_eq, ◌||◌, none, or_else, zero,
}
pub mod Credentials

pub data CookieChange : Type 0 where
  unchanged : CookieChange
  -- Value, Expires, MaxAge and Secure; Path, HttpOnly and SameSite are fixed
  set_cookie : (value : String) → (expires : ℕ) → (max_age : ℤ) → (secure : Bool) → CookieChange
  clear_cookie : (secure : Bool) → CookieChange

pub data Reply (A : Type 0) : Type 0 where
  replied : CookieChange → Response A → Reply A
  no_content : CookieChange → Reply A

pub record TokenBody : Type 0 where
  pub access_token : String
  pub expires_in : ℕ
  pub user : Option PublicUser

pub record RegisterRequest : Type 0 where
  pub email : String
  pub password : String
  pub full_name : String

pub record LoginRequest : Type 0 where
  pub email : String
  pub password : String

-- What Google answered to GoogleCallback: the code's exchange, the request for the profile, its
-- body, or the profile.
pub data GoogleOutcome : Type 0 where
  not_exchanged not_built not_fetched not_parsed : GoogleOutcome
  profile : (id email name : String) → GoogleOutcome

-- len of a string counts the bytes of its UTF-8.
abbrev pub char_bytes : ℕ → ℕ
char_bytes c = if ltb c 0x80 then 1 else if ltb c 0x800 then 2 else if ltb c 0x10000 then 3 else 4

abbrev pub sum_bytes : Text → ℕ
sum_bytes [] = 0
sum_bytes (c ∷ s) = char_bytes c + sum_bytes s

abbrev pub byte_length : String → ℕ
byte_length s = sum_bytes (codes s)

-- The whole seconds from one time to another, towards zero.
abbrev pub minus : ℕ → ℤ
minus zero = pos 0
minus (suc n) = negsuc n

abbrev pub seconds_until : ℕ → ℕ → ℤ
seconds_until t end = if leb t end then pos ((end - t) / second) else minus ((t - end) / second)

abbrev pub refused : {A : Type 0} → ℕ → String → String → Reply A
refused s code message = replied unchanged (error s code message)

module _ (lib : Libraries) (cfg : TokenConfig) (production : Bool) where
  -- setRefreshCookie, then the body.
  unfoldable pub with_cookie :
      (status : ℕ) → String → Option PublicUser → TokenPair → World → Reply TokenBody × World
  with_cookie status message user pair w = (
    replied
        (set_cookie pair.refresh_token pair.expires_at
          (seconds_until (w.oracle.clock w.tick) pair.expires_at) production)
        (json status
          (record {
            access_token = pair.access_token;
            expires_in = access_ttl cfg / second;
            user = user;
          })
          message),
    record w { tick = w.tick + 1 },
  )

  abbrev pub finish :
      (status : ℕ)
      → String
      → (User → Option PublicUser)
      → (Error → Reply TokenBody)
      → Result Session × World
      → Reply TokenBody × World
  finish s message public bad (ok session, w) =
      with_cookie s message (public session.user) session.pair w
  finish s message public bad (err e, w) = (bad e, w)

  abbrev pub shown : User → Option PublicUser
  shown u = some (to_public u)

  abbrev pub register_error : Error → Reply TokenBody
  register_error email_taken = refused 409 "EMAIL_TAKEN" "an account with this email already exists"
  register_error _ = refused 500 "INTERNAL_ERROR" "could not create account"

  unfoldable pub register_handler : Option RegisterRequest → World → Reply TokenBody × World
  register_handler none w = (refused 400 "INVALID_JSON" "request body must be valid JSON", w)
  register_handler (some req) w =
      if str_eq req.email "" || str_eq req.password "" || str_eq req.full_name ""
      then (refused 400 "VALIDATION_FAILED" "email, password, and full_name are required", w)
      else if ltb (byte_length req.password) 8
      then (refused 400 "VALIDATION_FAILED" "password must be at least 8 characters", w)
      else finish 201 "account created successfully" shown register_error
          (register lib cfg req.email req.password req.full_name w)

  abbrev pub login_error : Error → Reply TokenBody
  login_error invalid_credentials = refused 401 "INVALID_CREDENTIALS" "invalid email or password"
  login_error inactive_user = refused 403 "ACCOUNT_INACTIVE" "account is deactivated"
  login_error _ = refused 500 "INTERNAL_ERROR" "login failed"

  unfoldable pub login_handler : Option LoginRequest → World → Reply TokenBody × World
  login_handler none w = (refused 400 "INVALID_JSON" "request body must be valid JSON", w)
  login_handler (some req) w =
      if str_eq req.email "" || str_eq req.password ""
      then (refused 400 "VALIDATION_FAILED" "email and password are required", w)
      else finish 200 "logged in successfully" shown login_error
          (login lib cfg req.email req.password w)

  abbrev pub refresh_error : Error → Reply TokenBody
  refresh_error token_invalid =
      replied (clear_cookie production)
        (error 401 "UNAUTHORIZED" "refresh token invalid or expired")
  refresh_error inactive_user =
      replied (clear_cookie production) (error 403 "ACCOUNT_INACTIVE" "account is deactivated")
  refresh_error _ = refused 500 "INTERNAL_ERROR" "could not refresh tokens"

  -- The cookie is `none` where the request has none.
  unfoldable pub refresh_handler : Option String → World → Reply TokenBody × World
  refresh_handler none w = (refused 401 "UNAUTHORIZED" "refresh token cookie missing", w)
  refresh_handler (some cookie) w =
      finish 200 "tokens refreshed" (λ u. none) refresh_error (refresh_tokens lib cfg cookie w)

  abbrev pub logged : Result (Unit {0}) × World → Reply (Unit {0}) × World
  logged (ok _, w) = (no_content (clear_cookie production), w)
  logged (err e, w) = (refused 500 "INTERNAL_ERROR" "logout failed", w)

  unfoldable pub logout_handler : Identity → Option String → World → Reply (Unit {0}) × World
  logout_handler caller cookie w =
      logged (logout lib cfg caller.jti (or_else cookie "") (access_ttl cfg) w)

  abbrev pub google_error : Error → Reply TokenBody
  google_error inactive_user = refused 403 "ACCOUNT_INACTIVE" "account is deactivated"
  google_error _ = refused 500 "INTERNAL_ERROR" "OAuth sign-in failed"

  abbrev pub with_profile : GoogleOutcome → World → Reply TokenBody × World
  with_profile not_exchanged w = (refused 401 "OAUTH_FAILED" "failed to exchange OAuth code", w)
  with_profile not_built w = (refused 500 "OAUTH_FAILED" "failed to build profile request", w)
  with_profile not_fetched w = (refused 500 "OAUTH_FAILED" "failed to fetch Google profile", w)
  with_profile not_parsed w = (refused 500 "OAUTH_FAILED" "failed to parse Google profile", w)
  with_profile (profile id email name) w =
      finish 200 "signed in with Google" shown google_error
        (upsert_google_user lib cfg id email name w)

  unfoldable pub google_callback : String → GoogleOutcome → World → Reply TokenBody × World
  google_callback code outcome w =
      if str_eq code ""
      then (refused 400 "INVALID_REQUEST" "missing OAuth code", w)
      else with_profile outcome w

pub record Redirect : Type 0 where
  pub status : ℕ
  pub location : String

-- AuthCodeURL of the oauth2 configuration, by the state.
unfoldable pub google_login : (auth_code_url : String → String) → Redirect
google_login auth_code_url = record { status = 307; location = auth_code_url "state-token" }
