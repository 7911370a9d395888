-- ===== src/Middleware.antt =====
-- backend/internal/middleware: Authenticate (auth.go) and Require (rbac.go), around any handler.
pub mod Limit
pub mod Window
pub mod RateLimit
use realstate_allan.World.{Result, World, err, ok}
use realstate_allan.Auth.Rows.{ascii_lower}
use realstate_allan.Auth.Tokens.{TokenConfig, parse_access_token, is_blacklisted}
use realstate_allan.Respond.{Response, Handler, error}
use realstate_allan.External.{Libraries, Claims}
use realstate_allan.Common.{
  String, Text, Option, List, none, map, Bool, some, if◌then◌else◌, text_eq, trim_space, str_eq,
  false, codes, ◌∷◌, ◌||◌, [], true, ◌==◌,
}
pub mod Guards
pub mod Logout
use Prim.Native.Char.{Char, code}

-- What Authenticate puts into the request's context.
pub record Identity : Type 0 where
  pub user_id : String
  pub email : Text
  pub role : String
  pub jti : String

abbrev push_first : Char → Option (String × String) → Option (String × String)
push_first c none = none
push_first c (some (s, t)) = some (String.◌∷◌ c s, t)

-- strings.SplitN(s, " ", 2), where there is a space
unfoldable pub split_first : String → Option (String × String)
split_first String.[] = none
split_first (String.◌∷◌ c s) =
    let rest = split_first s in if code c == b' ' then some ("", s) else push_first c rest

abbrev pub lower_ascii : Text → Text
lower_ascii = map ascii_lower

-- strings.EqualFold with a word of ASCII letters other than K and S, which alone have foldings
-- outside ASCII.
abbrev pub equal_fold : String → String → Bool
equal_fold s t = text_eq (lower_ascii (codes s)) (lower_ascii (codes t))

abbrev pub bearer_part : Option (String × String) → String
bearer_part none = ""
bearer_part (some (scheme, rest)) = if equal_fold scheme "Bearer" then trim_space rest else ""

-- The header is "" where the request has none.
unfoldable pub extract_bearer_token : String → String
extract_bearer_token header = if str_eq header "" then "" else bearer_part (split_first header)

unfoldable pub identity : Libraries → Claims → Identity
identity lib c = record {
  user_id = lib.show_uuid c.user_id;
  email = c.email;
  role = c.role;
  jti = c.jti;
}

-- The map of the allowed roles, looked up.
abbrev pub among : String → List String → Bool
among s [] = false
among s (r ∷ rs) = str_eq s r || among s rs

module _ {B : Type 0} where
  abbrev pub unauthorized : String → Response B
  unauthorized message = error 401 "UNAUTHORIZED" message

  module _ (lib : Libraries) (cfg : TokenConfig) where
    abbrev pub with_revoked :
        Claims → (Identity → Handler B) → Result Bool × World → Response B × World
    with_revoked c next (err e, w) = (error 500 "INTERNAL_ERROR" "could not validate token", w)
    with_revoked c next (ok true, w) = (unauthorized "token has been revoked", w)
    with_revoked c next (ok false, w) = next (identity lib c) w

    abbrev pub with_claims : (Identity → Handler B) → Result Claims × World → Response B × World
    with_claims next (err e, w) = (unauthorized "invalid or expired token", w)
    with_claims next (ok c, w) = with_revoked c next (is_blacklisted c.jti w)

    unfoldable pub authenticate : String → (Identity → Handler B) → Handler B
    authenticate header next w =
        if str_eq (extract_bearer_token header) ""
        then (unauthorized "missing or malformed Authorization header", w)
        else with_claims next (parse_access_token lib cfg (extract_bearer_token header) w)

  -- The role is "" where no Authenticate ran before.
  unfoldable pub require : List String → String → Handler B → Handler B
  require roles role next w =
      if str_eq role ""
      then (unauthorized "authentication required", w)
      else if among role roles
      then next w
      else (error 403 "FORBIDDEN" "you do not have permission to access this resource", w)
