-- ===== src/Config.antt =====
-- backend/internal/config/config.go: Load over an environment, in which a variable that is not set is "".
use realstate_allan.Common.Int.{ℤ, pos}
use realstate_allan.Common.{
  String, List, Text, Bool, Option, find, ◌∷◌, if◌then◌else◌, codes, str_eq, ◌≡◌, Bool-cases,
  or_else, [], ◌++◌, some, inl, atoi, inr, none, refl,
}

pub record Config : Type 0 where
  pub db_host : String
  pub db_port : String
  pub db_name : String
  pub db_user : String
  pub db_password : String
  pub redis_url : String
  pub jwt_secret : String
  pub jwt_access_ttl_minutes : ℤ
  pub jwt_refresh_ttl_days : ℤ
  pub google_client_id : String
  pub google_client_secret : String
  pub google_redirect_url : String
  pub app_env : String
  pub port : String
  pub gcs_bucket : String
  pub gcs_project : String
  pub gcs_credentials_file : String
  pub gcs_cdn_base_url : String
  pub google_maps_api_key : String
  pub twilio_account_sid : String
  pub twilio_auth_token : String
  pub twilio_whatsapp_from : String
  pub twilio_sms_from : String
  pub google_vision_enabled : Bool
  pub rate_limit_auth_login : ℤ
  pub rate_limit_auth_register : ℤ
  pub rate_limit_auth_refresh : ℤ
  pub rate_limit_ocr_scan : ℤ
  pub rate_limit_global : ℤ

abbrev pub Environment : Type 0
Environment = String → String

-- A configuration, or the variable that the panic names.
pub data Loaded (A : Type 0) : Type 0 where
  loaded : A → Loaded A
  missing : (key : String) → Loaded A

abbrev pub loaded_then : {A B : Type 0} → Loaded A → (A → Loaded B) → Loaded B
loaded_then (loaded a) f = f a
loaded_then (missing key) f = missing key

unfoldable pub first_non_empty : List String → String
first_non_empty [] = ""
first_non_empty (v ∷ vs) = if str_eq v "" then first_non_empty vs else v

module _ (env : Environment) where
  unfoldable pub require_env : String → Loaded String
  require_env key = if str_eq (env key) "" then missing key else loaded (env key)

  unfoldable pub get_env_or_default : (key default_val : String) → String
  get_env_or_default key default_val = if str_eq (env key) "" then default_val else env key

  unfoldable pub env_int_or_default : String → ℤ → ℤ
  env_int_or_default key def =
      if str_eq (env key) "" then def else or_else (atoi (codes (env key))) def

  -- Load, once the required variables are read.
  abbrev pub config_of :
      (db_host db_name db_user db_password redis_url jwt_secret : String) → Config
  config_of db_host db_name db_user db_password redis_url jwt_secret = record {
    db_host = db_host;
    db_port = get_env_or_default "DB_PORT" "5432";
    db_name = db_name;
    db_user = db_user;
    db_password = db_password;
    redis_url = redis_url;
    jwt_secret = jwt_secret;
    jwt_access_ttl_minutes = env_int_or_default "JWT_ACCESS_TTL_MINUTES" (pos 60);
    jwt_refresh_ttl_days = env_int_or_default "JWT_REFRESH_TTL_DAYS" (pos 30);
    google_client_id = env "GOOGLE_CLIENT_ID";
    google_client_secret = env "GOOGLE_CLIENT_SECRET";
    google_redirect_url = env "GOOGLE_REDIRECT_URL";
    app_env = get_env_or_default "APP_ENV" "development";
    port = get_env_or_default "PORT" "8080";
    gcs_bucket = env "GCS_BUCKET";
    gcs_project = env "GCS_PROJECT";
    gcs_credentials_file = env "GOOGLE_APPLICATION_CREDENTIALS";
    gcs_cdn_base_url = first_non_empty (env "GCS_CDN_BASE_URL" ∷ env "CDN_BASE_URL" ∷ []);
    google_maps_api_key = env "GOOGLE_MAPS_API_KEY";
    twilio_account_sid = env "TWILIO_ACCOUNT_SID";
    twilio_auth_token = env "TWILIO_AUTH_TOKEN";
    twilio_whatsapp_from = env "TWILIO_WHATSAPP_FROM";
    twilio_sms_from = env "TWILIO_SMS_FROM";
    google_vision_enabled = str_eq (env "GOOGLE_VISION_ENABLED") "true";
    rate_limit_auth_login = env_int_or_default "RATE_LIMIT_AUTH_LOGIN" (pos 10);
    rate_limit_auth_register = env_int_or_default "RATE_LIMIT_AUTH_REGISTER" (pos 5);
    rate_limit_auth_refresh = env_int_or_default "RATE_LIMIT_AUTH_REFRESH" (pos 30);
    rate_limit_ocr_scan = env_int_or_default "RATE_LIMIT_OCR_SCAN" (pos 20);
    rate_limit_global = env_int_or_default "RATE_LIMIT_GLOBAL" (pos 300);
  }

  -- The required variables are read in this order, and the first that is not set ends the process.
  unfoldable pub load : Loaded Config
  load = loaded_then (require_env "DB_HOST") λ db_host.
      loaded_then (require_env "DB_NAME") λ db_name. loaded_then (require_env "DB_USER") λ db_user.
        loaded_then (require_env "DB_PASSWORD") λ db_password.
          loaded_then (require_env "REDIS_URL") λ redis_url.
            loaded_then (require_env "JWT_SECRET") λ jwt_secret.
              loaded (config_of db_host db_name db_user db_password redis_url jwt_secret)

-- DBConnString
unfoldable pub db_conn_string : Config → Text
db_conn_string c =
    codes "host="
    ++ (codes c.db_host
        ++ (codes " port="
            ++ (codes c.db_port
                ++ (codes " dbname="
                    ++ (codes c.db_name
                        ++ (codes " user="
                            ++ (codes c.db_user
                                ++ (codes " password="
                                    ++ (codes c.db_password ++ codes " sslmode=disable")))))))))

unfoldable pub is_production : Config → Bool
is_production c = str_eq c.app_env "production"

-- The variables without which Load panics.
abbrev required : List String
required = "DB_HOST" ∷ "DB_NAME" ∷ "DB_USER" ∷ "DB_PASSWORD" ∷ "REDIS_URL" ∷ "JWT_SECRET" ∷ []

abbrev pub is_unset : Environment → String → Bool
is_unset env key = str_eq (env key) ""

abbrev pub Loads : Environment → Option String → Loaded Config → Type 0
Loads env none (loaded c) =
    (c.db_host ≡ env "DB_HOST")
    × (c.db_name ≡ env "DB_NAME")
    × (c.db_user ≡ env "DB_USER")
    × (c.db_password ≡ env "DB_PASSWORD")
    × (c.redis_url ≡ env "REDIS_URL")
    × (c.jwt_secret ≡ env "JWT_SECRET")
Loads env none (missing key) = ⊥
Loads env (some key) (loaded c) = ⊥
Loads env (some key) (missing other) = other ≡ key

-- Load gives a configuration with the required variables as they are set where all of them are, and
-- otherwise stops at the first one that is not, in the order in which they are listed.
pub load-Loads : (env : Environment) → Loads env (find (is_unset env) required) (load env)
unfolding load require_env
load-Loads env = elim (Bool-cases (is_unset env "DB_HOST")) [
  | inl a ↦ rw (Loads, a) refl
  | inr a ↦ elim (Bool-cases (is_unset env "DB_NAME")) [
    | inl b ↦ rw (Loads, a, b) refl
    | inr b ↦ elim (Bool-cases (is_unset env "DB_USER")) [
      | inl c ↦ rw (Loads, a, b, c) refl
      | inr c ↦ elim (Bool-cases (is_unset env "DB_PASSWORD")) [
        | inl d ↦ rw (Loads, a, b, c, d) refl
        | inr d ↦ elim (Bool-cases (is_unset env "REDIS_URL")) [
          | inl e ↦ rw (Loads, a, b, c, d, e) refl
          | inr e ↦ elim (Bool-cases (is_unset env "JWT_SECRET")) [
            | inl f ↦ rw (Loads, a, b, c, d, e, f) refl
            | inr f ↦ rw (Loads, a, b, c, d, e, f) (refl, refl, refl, refl, refl, refl)
          ]
        ]
      ]
    ]
  ]
]
