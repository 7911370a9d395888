-- ===== src/Router.antt =====
-- The router of backend/cmd/api/main.go: its routes with the middleware around each, and the health check.
-- Which of the registered routes serves a request is chi's choice.
pub mod Access
use realstate_allan.Common.{
  List, String, Text, ℕ, ◌∷◌, Option, codes, some, map, ◌*◌, [], ◌++◌, none, not, text_eq, ◌||◌,
  if◌then◌else◌, str_eq,
}
use realstate_allan.Config.{Config}
use realstate_allan.Common.Int.{ℤ}
use realstate_allan.Auth.Tokens.{TokenConfig, second}
use realstate_allan.External.{Libraries}
use realstate_allan.Middleware.{Identity, authenticate, require}
use realstate_allan.Middleware.RateLimit.{ClientAddress, Limited, rate_limit, unlimited}
use realstate_allan.Models.{role_super_admin}
use realstate_allan.Respond.{Handler}
use realstate_allan.World.{World}

pub data Method : Type 0 where
  get_method : Method
  post_method : Method
  patch_method : Method
  delete_method : Method

-- The handlers that are registered.
pub data Endpoint : Type 0 where
  auth_register : Endpoint
  auth_login : Endpoint
  auth_refresh : Endpoint
  auth_google_login : Endpoint
  auth_google_callback : Endpoint
  auth_logout : Endpoint
  prop_nearby : Endpoint
  prop_list : Endpoint
  prop_create : Endpoint
  prop_get : Endpoint
  prop_update : Endpoint
  prop_delete : Endpoint
  photo_presign : Endpoint
  photo_confirm : Endpoint
  photo_delete : Endpoint
  ocr_scan : Endpoint
  ocr_get_result : Endpoint
  share_share : Endpoint
  tags_autocomplete : Endpoint
  users_list : Endpoint
  tools_calculator : Endpoint
  tools_export_csv : Endpoint
  notif_list : Endpoint
  notif_get : Endpoint
  notif_trigger_stale_scan : Endpoint
  health_check : Endpoint

pub data Guard : Type 0 where
  authenticated : Guard
  required : (roles : List String) → Guard

pub record RouteLimit : Type 0 where
  pub route_group : String
  pub limit : ℤ
  pub window : ℕ

pub record Route : Type 0 where
  pub method : Method
  pub pattern : Text
  pub limited : Option RouteLimit
  pub guards : List Guard
  pub endpoint : Endpoint

abbrev pub route : Method → String → Endpoint → Route
route method pattern endpoint = record {
  method = method;
  pattern = codes pattern;
  limited = none;
  guards = [];
  endpoint = endpoint;
}

-- `r.With(mw.RateLimit(…))` on one route, and `r.Use` or `r.With` of the other middleware on several.
abbrev pub with_limit : String → ℤ → ℕ → Route → Route
with_limit route_group limit window r = record r {
  limited = some (record { route_group = route_group; limit = limit; window = window });
}

abbrev pub using : List Guard → List Route → List Route
using guards = map (λ (r : Route). record r { guards = guards ++ r.guards })

-- r.Route
abbrev pub mount : String → List Route → List Route
mount prefix = map (λ (r : Route). record r { pattern = codes prefix ++ r.pattern })

abbrev pub minutes : ℕ → ℕ
minutes n = n * (60 * second)

abbrev pub auth_routes : Config → List Route
auth_routes cfg =
    with_limit "auth_register" cfg.rate_limit_auth_register (minutes 60)
      (route post_method "/register" auth_register)
    ∷ with_limit "auth_login" cfg.rate_limit_auth_login (minutes 15)
        (route post_method "/login" auth_login)
    ∷ with_limit "auth_refresh" cfg.rate_limit_auth_refresh (minutes 15)
        (route post_method "/refresh" auth_refresh)
    ∷ route get_method "/google" auth_google_login
    ∷ route get_method "/google/callback" auth_google_callback
    ∷ using (authenticated ∷ []) (route post_method "/logout" auth_logout ∷ [])

abbrev pub property_routes : List Route
property_routes = using (authenticated ∷ []) (
    route get_method "/nearby" prop_nearby
    ∷ route get_method "/" prop_list
    ∷ route post_method "/" prop_create
    ∷ route get_method "/{id}" prop_get
    ∷ route patch_method "/{id}" prop_update
    ∷ route delete_method "/{id}" prop_delete
    ∷ route post_method "/{id}/photos/presign" photo_presign
    ∷ route post_method "/{id}/photos/{photo_id}/confirm" photo_confirm
    ∷ route delete_method "/{id}/photos/{photo_id}" photo_delete
    ∷ route post_method "/{id}/photos/{photo_id}/ocr" ocr_scan
    ∷ route get_method "/{id}/photos/{photo_id}/ocr" ocr_get_result
    ∷ route post_method "/{id}/share" share_share
    ∷ [])

abbrev pub admins : Guard
admins = required (role_super_admin ∷ [])

abbrev pub tool_routes : List Route
tool_routes = using (authenticated ∷ []) (
    route post_method "/calculator" tools_calculator
    ∷ using (admins ∷ []) (route get_method "/export/csv" tools_export_csv ∷ []))

abbrev pub notification_routes : List Route
notification_routes =
    using (authenticated ∷ [])
      (route get_method "/" notif_list ∷ route get_method "/{job_id}" notif_get ∷ [])

abbrev pub admin_routes : List Route
admin_routes =
    using (authenticated ∷ admins ∷ [])
      (route post_method "/notifications/scan-stale" notif_trigger_stale_scan ∷ [])

abbrev pub api_routes : Config → List Route
api_routes cfg =
    (((((mount "/auth" (auth_routes cfg) ++ mount "/properties" property_routes)
            ++ route get_method "/tags" tags_autocomplete
              ∷ using (authenticated ∷ [])
                  (using (admins ∷ []) (route get_method "/users" users_list ∷ [])))
          ++ mount "/tools" tool_routes)
        ++ mount "/notifications" notification_routes)
      ++ mount "/admin" admin_routes)

unfoldable pub routes : Config → List Route
routes cfg = mount "/api" (api_routes cfg) ++ route get_method "/health" health_check ∷ []

-- The role in the request's context, "" where no Authenticate ran before.
abbrev pub role_of : Option Identity → String
role_of none = ""
role_of (some i) = i.role

module _ {B : Type 0} (lib : Libraries) (cfg : TokenConfig) where
  unfoldable pub guarded :
      List Guard → String → (Option Identity → Handler B) → Option Identity → Handler B
  guarded [] header h i = h i
  guarded (authenticated ∷ gs) header h i =
      authenticate lib cfg header (λ j. guarded gs header h (some j))
  guarded (required roles ∷ gs) header h i = require roles (role_of i) (guarded gs header h i)

  abbrev pub limited_by : Option RouteLimit → ClientAddress → Handler B → World → Limited B × World
  limited_by none client next w = unlimited (next w)
  limited_by (some l) client next w = rate_limit l.route_group l.limit l.window client next w

  unfoldable pub serve :
      Route
      → ClientAddress
      → (header : String) → (Option Identity → Handler B)
      → World
      → Limited B × World
  unfolding guarded
  serve r client header h = limited_by r.limited client (guarded r.guards header h none)

pub record HealthReport : Type 0 where
  pub code : ℕ
  pub status : String
  pub db : Text
  pub redis : Text
  pub version : String

abbrev pub ping_status : Option Text → Text
ping_status none = codes "ok"
ping_status (some message) = codes "error: " ++ message

-- The health check, by the errors of the two pings and BUILD_SHA.
unfoldable pub health : (db redis : Option Text) → (build_sha : String) → HealthReport
health db redis build_sha =
    let degraded =
      not (text_eq (ping_status db) (codes "ok"))
      || not (text_eq (ping_status redis) (codes "ok")) in
    record {
      code = if degraded then 503 else 200;
      status = if degraded then "degraded" else "ok";
      db = ping_status db;
      redis = ping_status redis;
      version = if str_eq build_sha "" then "unknown" else build_sha;
    }
