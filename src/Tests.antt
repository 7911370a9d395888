-- ===== src/Tests.antt =====
-- A small database, and concrete functions in place of the libraries, on which the theorems are run.
pub mod Sharing
pub mod Reminders
pub mod Routing
pub mod Nearby
pub mod Limits
pub mod Recognition
pub mod Numbers
use realstate_allan.Float.{of_nat, zero_float}
use realstate_allan.Common.{
  false, codes, ◌∷◌, if◌then◌else◌, ◌+◌, some, none, [], ◌==◌, str_eq, true,
}
use realstate_allan.Photos.{GcsClient}
use realstate_allan.Auth.Tokens.{TokenConfig}
use realstate_allan.External.{Claims, Libraries, Postgres}
use realstate_allan.Models.{User, RefreshToken, Property, PropertyPhoto}
use realstate_allan.World.{Oracle, World}
pub mod Auth
pub mod Listings
pub mod Photos
pub mod Jobs

abbrev pub quiet : Oracle
quiet = record {
  fault = λ _. false;
  clock = λ n. 1_000 + n;
  fresh = λ n. 500 + n;
  random = λ n. if n == 6 then some "second" else some "first";
}

abbrev pub broker : User
broker = record {
  id = 1;
  email = codes "ann@example.com";
  password_hash = some "correct horse";
  google_id = none;
  full_name = "Ann";
  role = "BROKER";
  is_active = true;
  created_at = 5;
  updated_at = 5;
}

abbrev pub stored_token : RefreshToken
stored_token = record {
  id = 70;
  user_id = 1;
  token_hash = "old token";
  expires_at = 9_000;
  revoked = false;
  created_at = 5;
}

abbrev pub flat : Property
flat = record {
  id = 10;
  listing_category = "BUYING";
  property_type = "FLAT";
  owner_name = "Olga";
  owner_contact = "555";
  price = of_nat 900;
  plot_area = none;
  built_up_area = none;
  location_lat = of_nat 12;
  location_lng = of_nat 77;
  description = none;
  tags = "sea" ∷ [];
  is_direct_owner = true;
  assigned_broker_id = none;
  created_by = 1;
  created_at = 100;
  updated_at = 100;
  deleted_at = none;
}

abbrev pub shop : Property
shop = record flat { id = 11; property_type = "SHOP"; created_by = 2; created_at = 200 }

abbrev pub front : PropertyPhoto
front = record {
  id = 30;
  property_id = 10;
  cdn_url = codes "cdn/front";
  gcs_key = codes "front";
  display_order = 0;
  status = "PENDING";
  created_at = 150;
}

abbrev pub world : World
world = record {
  oracle = quiet;
  tick = 0;
  users = broker ∷ record broker { id = 2; email = codes "bo@example.com" } ∷ [];
  refresh_tokens = stored_token ∷ [];
  properties = flat ∷ shop ∷ [];
  photos = front ∷ [];
  jobs = [];
  blacklist = [];
  ocr_results = [];
  app_config = ("stale_listing_threshold_days", "30") ∷ [];
  geocode_cache = [];
  hits = [];
  queue = [];
}

abbrev pub claims : Claims
claims = record {
  user_id = 1;
  email = codes "ann@example.com";
  role = "SUPER_ADMIN";
  jti = "jti 1";
  issued_at = 0;
  expires_at = 9_000;
}

abbrev pub libraries : Libraries
libraries = record {
  lower_rune = λ c. c;
  show_uuid =
      λ n. if n == 1 then "1" else if n == 10 then "10" else if n == 30 then "30" else "other";
  sha256_hex = λ s. s;
  bcrypt_hash = λ salt password. some password;
  bcrypt_matches = str_eq;
  sign = λ secret c. some "signed";
  verify = λ secret t token. if str_eq token "signed" then some claims else none;
  signed_url = λ bucket key content_type expires. some "https://upload";
}

abbrev pub postgres : Postgres
postgres = record {
  parse_uuid = λ s.
      if str_eq s "1"
      then some 1
      else if str_eq s "10"
      then some 10
      else if str_eq s "30"
      then some 30
      else none;
  price_column = λ v. some v;
  area_column = λ v. some v;
  within_envelope = λ a b c d x y. true;
  within_metres = λ a b c d m. true;
  distance_metres = λ a b c d. zero_float;
  sphere_metres = λ a b c d. zero_float;
  comes_before = λ s t. false;
  ilike = λ s t. true;
}

abbrev pub config : TokenConfig
config = record { jwt_secret = "secret"; jwt_access_ttl_minutes = 15; jwt_refresh_ttl_days = 7 }

abbrev pub storage : GcsClient
storage = record { bucket = codes "photos"; cdn_base = codes "cdn"; configured = true }
