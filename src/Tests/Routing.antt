-- ===== src/Tests/Routing.antt =====
-- A request to one of the routes.
use realstate_allan.Router.Access.{Serves, signed_in, serve-Serves}
use realstate_allan.Router.{Route, post_method, authenticated, auth_logout, serve, routes}
use realstate_allan.Config.{Config}
use realstate_allan.Middleware.RateLimit.{ClientAddress}
use realstate_allan.Middleware.{Identity}
use realstate_allan.Respond.{Handler, json}
use realstate_allan.Tests.{libraries, config, world}
use realstate_allan.Common.Int.{pos}
use realstate_allan.Common.{codes, none, [], ◌∷◌, ℕ, false, refl, Option}
use mathlib.Core.List.{Memᴰ}

abbrev settings : Config
settings = record {
  db_host = "";
  db_port = "";
  db_name = "";
  db_user = "";
  db_password = "";
  redis_url = "";
  jwt_secret = "";
  jwt_access_ttl_minutes = pos 10;
  jwt_refresh_ttl_days = pos 10;
  google_client_id = "";
  google_client_secret = "";
  google_redirect_url = "";
  app_env = "";
  port = "";
  gcs_bucket = "";
  gcs_project = "";
  gcs_credentials_file = "";
  gcs_cdn_base_url = "";
  google_maps_api_key = "";
  twilio_account_sid = "";
  twilio_auth_token = "";
  twilio_whatsapp_from = "";
  twilio_sms_from = "";
  google_vision_enabled = false;
  rate_limit_auth_login = pos 10;
  rate_limit_auth_register = pos 10;
  rate_limit_auth_refresh = pos 10;
  rate_limit_ocr_scan = pos 10;
  rate_limit_global = pos 10;
}

abbrev client : ClientAddress
client = record { x_real_ip = codes "10.0.0.1"; x_forwarded_for = []; remote_addr = [] }

abbrev logout_route : Route
logout_route = record {
  method = post_method;
  pattern = codes "/api/auth/logout";
  limited = none;
  guards = authenticated ∷ [];
  endpoint = auth_logout;
}

abbrev answers : Option Identity → Handler ℕ
answers i w = (json 200 7 "done", w)

serve-Serves_example :
    Serves libraries config "Bearer signed" answers signed_in world
      (serve libraries config logout_route client "Bearer signed" answers world)
unfolding routes
serve-Serves_example =
    serve-Serves libraries config "Bearer signed" answers settings client logout_route world
      (Memᴰ.tail (Memᴰ.tail (Memᴰ.tail (Memᴰ.tail (Memᴰ.tail (Memᴰ.head refl))))))
