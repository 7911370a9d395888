-- ===== src/Tests/Auth.antt =====
-- Runs of the theorems on sessions: backend/internal/services/auth.go and backend/internal/middleware.
use realstate_allan.Auth.Service.RoundTrip.{register_then_login}
use realstate_allan.Handlers.Auth.Credentials.{login_handler_alike}
use realstate_allan.Handlers.Auth.{login_handler, refused}
use realstate_allan.Middleware.Logout.{logged_out}
use realstate_allan.Respond.{Handler, json}
use realstate_allan.Middleware.Guards.{Protects, protected, protected-Protects, TurnsAway}
use realstate_allan.Middleware.{Identity, authenticate, extract_bearer_token, split_first}
use realstate_allan.Auth.Service.Register.{Registers, register-Registers}
use realstate_allan.Auth.Service.Login.{Grants, login-Grants}
use realstate_allan.Auth.Service.Rotation.{refresh_once}
use realstate_allan.Common.{
  ◌≡◌, refl, ◌∷◌, Text, [], some, trim_space, arith, text_eq, is_space, trim_left, trim_right, true,
  inr, codes, none, eq_iff,
}
use realstate_allan.Auth.Service.History.{login_call, here, next, after}
use realstate_allan.Tests.{libraries, config, world, broker, claims}
use realstate_allan.World.{Error, err}
use realstate_allan.Auth.Service.{
  refresh_tokens, start_session, issue_token_pair, logout, login, register, normalise_email,
}
use realstate_allan.Auth.Rows.{
  check_refresh, revoke_token, load_user, insert_token, to_lower, new_user, insert_user,
}
use realstate_allan.Auth.Tokens.{
  issue_access_token, issue_refresh_token, claims_of, blacklist_token, refresh_ttl,
}

refresh_once_example :
    (e : Error) × ((refresh_tokens libraries config "old token" (
        after libraries config
          (login_call "ann@example.com" "correct horse")
          (refresh_tokens libraries config "old token" world).1)).0
      ≡ err e)
unfolding refresh_tokens check_refresh revoke_token load_user start_session issue_token_pair
    issue_access_token issue_refresh_token claims_of insert_token
refresh_once_example =
    refresh_once libraries config "old token" world refl
      (next here (login_call "ann@example.com" "correct horse"))

login-Grants_example :
    Grants libraries config " Ann@example.com" "correct horse" world
      (login libraries config " Ann@example.com" "correct horse" world)
login-Grants_example = login-Grants libraries config " Ann@example.com" "correct horse" world

register-Registers_example :
    Registers libraries config "new@example.com" "a long secret" world
      (register libraries config "new@example.com" "a long secret" "New" world)
register-Registers_example =
    register-Registers libraries config "new@example.com" "a long secret" "New" world

-- A handler behind the middleware.
abbrev whoami : Identity → Handler Text
whoami i w = (json 200 i.email "ok", w)

protected-Protects_example :
    Protects libraries config
      ("SUPER_ADMIN" ∷ [])
      "bearer signed"
      whoami
      world
      (protected libraries config ("SUPER_ADMIN" ∷ []) "bearer signed" whoami world)
protected-Protects_example =
    protected-Protects libraries config ("SUPER_ADMIN" ∷ []) "bearer signed" whoami world

logged_out_example :
    TurnsAway (401 ∷ 500 ∷ []) (logout libraries config "jti 1" "old token" 800 world).1 (
      authenticate libraries config "Bearer signed" whoami
        (logout libraries config "jti 1" "old token" 800 world).1)
unfolding logout blacklist_token revoke_token extract_bearer_token split_first trim_space text_eq
logged_out_example =
    logged_out libraries config "jti 1" "old token" "Bearer signed" 800 whoami world claims refl
      refl refl (omega arith)

login_handler_alike_example :
    login_handler libraries config true
      (some (record { email = "ann@example.com"; password = "guess" }))
      world
    ≡ (refused 401 "INVALID_CREDENTIALS" "invalid email or password", record world { tick = 1 })
unfolding normalise_email to_lower trim_space is_space trim_left trim_right text_eq
login_handler_alike_example =
    login_handler_alike libraries config true "ann@example.com" "guess" world refl refl
      (inr (broker, "correct horse", refl, refl, refl, refl))

register_then_login_example :
    login libraries config "new@example.com" "a long secret"
      (register libraries config "new@example.com" "a long secret" "New" world).1
    ≡ start_session libraries config
        (new_user 502 (codes "new@example.com") none none "New" 1_003)
        (record (register libraries config "new@example.com" "a long secret" "New" world).1 {
          tick = 12;
        })
unfolding register new_user insert_user text_eq normalise_email to_lower trim_space start_session
    issue_token_pair issue_access_token issue_refresh_token insert_token refresh_ttl login
register_then_login_example =
    register_then_login libraries config "new@example.com" "a long secret" "New" world
      (λ salt p h e. (eq_iff h p).1 (cc)) refl refl
