-- ===== src/External.antt =====
-- What the services call and the repository does not hold: PostgreSQL's column types and PostGIS,
-- google/uuid, SHA-256, bcrypt, golang-jwt, and Go's Unicode tables. Each is a parameter of the code that calls it.
use realstate_allan.Common.{ℕ, Bool, Option, String, Text}
use realstate_allan.Float.{Float64}

pub record Postgres : Type 0 where
  -- uuid.Parse, and PostgreSQL's cast of a text to uuid
  pub parse_uuid : String → Option ℕ
  -- what a NUMERIC(15,2) or NUMERIC(10,2) column gives back; `none` is a value out of range
  pub price_column : Float64 → Option Float64
  pub area_column : Float64 → Option Float64
  -- ST_Within(point(lng, lat), ST_MakeEnvelope(xmin, ymin, xmax, ymax, 4326))
  pub within_envelope : (xmin ymin xmax ymax lng lat : Float64) → Bool
  -- ST_DWithin and ST_Distance of two points as geographies, in metres, which measure on the spheroid
  pub within_metres : (lng lat lng' lat' metres : Float64) → Bool
  pub distance_metres : (lng lat lng' lat' : Float64) → Float64
  -- the operator <->, which measures on the sphere
  pub sphere_metres : (lng lat lng' lat' : Float64) → Float64
  -- the order of texts under the collation, and ILIKE
  pub comes_before : String → String → Bool
  pub ilike : (value pattern : String) → Bool

-- The payload of an access token (services.TokenClaims): jti and expiry are registered claims.
pub record Claims : Type 0 where
  pub user_id : ℕ
  pub email : Text
  pub role : String
  pub jti : String
  pub issued_at : ℕ
  pub expires_at : ℕ

pub record Libraries : Type 0 where
  -- unicode.ToLower outside ASCII
  pub lower_rune : ℕ → ℕ
  pub show_uuid : ℕ → String
  pub sha256_hex : String → String
  -- bcrypt.GenerateFromPassword with the salt drawn, and CompareHashAndPassword
  pub bcrypt_hash : (salt : ℕ) → String → Option String
  pub bcrypt_matches : (hash password : String) → Bool
  -- SignedString under HS256, and ParseWithClaims at a time
  pub sign : (secret : String) → Claims → Option String
  pub verify : (secret : String) → ℕ → String → Option Claims
  -- SignedURL of the storage client: bucket, object key, content type, expiry
  pub signed_url : (bucket key : Text) (content_type : String) → ℕ → Option String
