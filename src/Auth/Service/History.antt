-- ===== src/Auth/Service/History.antt =====
-- The calls of backend/internal/services/auth.go in any order and any number, and what they leave of
-- a refresh token that was used.
-- A call of the service, whatever its arguments.
use realstate_allan.Auth.Service.Steps.{
  register-Spent, login-Spent, refresh_tokens-Spent, logout-Spent, upsert_google_user-Spent,
}
use realstate_allan.Auth.Service.Spent.{Spent}
use realstate_allan.Auth.Service.{register, login, refresh_tokens, logout, upsert_google_user}
use realstate_allan.World.{World}
use realstate_allan.Auth.Tokens.{TokenConfig}
use realstate_allan.External.{Libraries}
use realstate_allan.Common.{String, ℕ}

pub data Call : Type 0 where
  register_call : (email password full_name : String) → Call
  login_call : (email password : String) → Call
  refresh_call : (raw : String) → Call
  logout_call : (jti raw : String) (ttl : ℕ) → Call
  google_call : (google_id email full_name : String) → Call

-- The world after a call, whether it ended well or not.
unfoldable pub after : Libraries → TokenConfig → Call → World → World
after lib cfg (register_call email password full_name) w =
    (register lib cfg email password full_name w).1
after lib cfg (login_call email password) w = (login lib cfg email password w).1
after lib cfg (refresh_call raw) w = (refresh_tokens lib cfg raw w).1
after lib cfg (logout_call jti raw ttl) w = (logout lib cfg jti raw ttl w).1
after lib cfg (google_call google_id email full_name) w =
    (upsert_google_user lib cfg google_id email full_name w).1

-- Worlds that a sequence of calls leads to.
pub data Reaches (lib : Libraries) (cfg : TokenConfig) (w : World) : World → Type 0 where
  here : Reaches lib cfg w w
  next : {v : World} → Reaches lib cfg w v → (c : Call) → Reaches lib cfg w (after lib cfg c v)

after-Spent :
    (h : String) (lib : Libraries) (cfg : TokenConfig) (c : Call) (w : World)
    → Spent h w
    → Spent h (after lib cfg c w)
unfolding after
after-Spent h lib cfg (register_call e p n) w s = (register-Spent h lib cfg e p n).keeps w s
after-Spent h lib cfg (login_call e p) w s = (login-Spent h lib cfg e p).keeps w s
after-Spent h lib cfg (refresh_call raw) w s = (refresh_tokens-Spent h lib cfg raw).keeps w s
after-Spent h lib cfg (logout_call j raw t) w s = (logout-Spent h lib cfg j raw t).keeps w s
after-Spent h lib cfg (google_call g e n) w s = (upsert_google_user-Spent h lib cfg g e n).keeps w s

pub Reaches-Spent :
    (h : String) {lib : Libraries} {cfg : TokenConfig} {w v : World}
    → Reaches lib cfg w v
    → Spent h w
    → Spent h v
Reaches-Spent h here s = s
Reaches-Spent h {lib = lib} {cfg = cfg} (next r c) s =
    after-Spent h lib cfg c _ (Reaches-Spent h r s)
