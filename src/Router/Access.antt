-- ===== src/Router/Access.antt =====
-- Who gets to which handler of backend/cmd/api/main.go.
use realstate_allan.Common.{
  List, ◌≡◌, All, String, [], Option, subst, none, ◌⊎◌, Text, ℕ, inr, sym, some, Bool-cases, Bool,
  ◌+◌, inl, refl, true, false,
}
use mathlib.Core.List.{Memᴰ, ◌∷◌}
use realstate_allan.Router.{
  users_list, tools_export_csv, notif_trigger_stale_scan, auth_register, auth_login, auth_refresh,
  auth_google_login, auth_google_callback, tags_autocomplete, health_check, Route, Endpoint, Guard,
  RouteLimit, routes, guarded, serve, limited_by, admins, auth_register, auth_login, authenticated,
  auth_refresh, auth_google_login, auth_google_callback, tags_autocomplete, health_check,
}
use realstate_allan.Middleware.RateLimit.{
  ClientAddress, Limited, rate_limit, unlimited, after_check, check_limit, limit_key, real_ip,
}
use realstate_allan.Middleware.Guards.{Guards, Protects, authenticate-Guards, protected-Protects}
use realstate_allan.Middleware.{Identity}
use realstate_allan.Respond.{Handler, Response, error}
use realstate_allan.Config.{Config}
use realstate_allan.Auth.Tokens.{TokenConfig}
use realstate_allan.External.{Libraries}
use realstate_allan.Models.{role_super_admin}
use realstate_allan.World.{World, Result, ok, err}
use realstate_allan.Common.Int.{ℤ}

-- Who may call an endpoint: anyone, the holder of a token, an administrator.
pub data Access : Type 0 where
  public : Access
  signed_in : Access
  admin_only : Access

abbrev pub access : Endpoint → Access
access auth_register = public
access auth_login = public
access auth_refresh = public
access auth_google_login = public
access auth_google_callback = public
access tags_autocomplete = public
access health_check = public
access users_list = admin_only
access tools_export_csv = admin_only
access notif_trigger_stale_scan = admin_only
access _ = signed_in

abbrev guards_of : Access → List Guard
guards_of public = []
guards_of signed_in = authenticated ∷ []
guards_of admin_only = authenticated ∷ admins ∷ []

abbrev IsGuarded : Route → Type 0
IsGuarded r = r.guards ≡ guards_of (access r.endpoint)

routes-IsGuarded : (cfg : Config) → All IsGuarded (routes cfg)
unfolding routes
routes-IsGuarded cfg = (
  refl,
  (
    refl,
    (
      refl,
      (
        refl,
        (
          refl,
          (
            refl,
            (
              refl,
              (
                refl,
                (
                  refl,
                  (
                    refl,
                    (
                      refl,
                      (
                        refl,
                        (
                          refl,
                          (
                            refl,
                            (
                              refl,
                              (
                                refl,
                                (
                                  refl,
                                  (
                                    refl,
                                    (
                                      refl,
                                      (refl, (refl, (refl, (refl, (refl, (refl, (refl, tt))))))),
                                    ),
                                  ),
                                ),
                              ),
                            ),
                          ),
                        ),
                      ),
                    ),
                  ),
                ),
              ),
            ),
          ),
        ),
      ),
    ),
  ),
)

All-Memᴰ : {A : Type 0} (P : A → Type 0) (x : A) (xs : List A) → Memᴰ x xs → All P xs → P x
All-Memᴰ P x [] m h = elim m [ ]
All-Memᴰ P x (y ∷ ys) (Memᴰ.head e) (a, h) = subst P (sym e) a
All-Memᴰ P x (y ∷ ys) (Memᴰ.tail m) (a, h) = All-Memᴰ P x ys m h

module _ {B : Type 0} (lib : Libraries) (tokens : TokenConfig) (header : String)
    (h : Option Identity → Handler B) where
  abbrev pub Obeys : Access → World → Response B × World → Type 0
  Obeys public w out = out ≡ h none w
  Obeys signed_in w out = Guards lib tokens header (λ i. h (some i)) w out
  Obeys admin_only w out =
      Protects lib tokens (role_super_admin ∷ []) header (λ i. h (some i)) w out

  -- The request is turned away by the limiter, or is served under the access of the route in a world
  -- where at most Redis's counters have changed.
  abbrev pub Serves : Access → World → Limited B × World → Type 0
  Serves a w out =
      ((code : String) × (message : String) × (out.0.response ≡ error 429 code message)
        × (out.1 ≡ record w { tick = out.1.tick; hits = out.1.hits }))
      ⊎ ((v : World) × (r : Response B × World) × (v ≡ record w { tick = v.tick; hits = v.hits })
          × (out ≡ unlimited r)
          × Obeys a v r)

  guards-Obeys :
      (a : Access) (w : World) → Obeys a w (guarded lib tokens (guards_of a) header h none w)
  unfolding guarded
  guards-Obeys public w = refl
  guards-Obeys signed_in w = authenticate-Guards lib tokens header (λ i. h (some i)) w
  guards-Obeys admin_only w =
      protected-Protects lib tokens (role_super_admin ∷ []) header (λ i. h (some i)) w

  check_limit_only :
      (key : Text) (limit : ℤ) (window : ℕ) (w : World)
      → (check_limit key limit window w).1 ≡ record w {
        tick = (check_limit key limit window w).1.tick;
        hits = (check_limit key limit window w).1.hits;
      }
  unfolding check_limit
  check_limit_only key limit window w = elim (Bool-cases (w.oracle.fault (w.tick + 1))) [
    | inl e ↦ rw e refl
    | inr e ↦ rw e refl
  ]

  after_check-Serves :
      (a : Access) (window : ℕ) (next : Handler B) (w : World)
      → ((v : World) → Obeys a v (next v))
      → (r : Result Bool × World) → r.1 ≡ record w { tick = r.1.tick; hits = r.1.hits }
      → Serves a w (after_check window next r)
  after_check-Serves a window next w obeys (err e, v) same = inr (v, next v, same, refl, obeys v)
  after_check-Serves a window next w obeys (ok true, v) same = inl (_, _, refl, same)
  after_check-Serves a window next w obeys (ok false, v) same = inr (v, next v, same, refl, obeys v)

  limited_by-Serves :
      (a : Access) (l : Option RouteLimit) (client : ClientAddress) (next : Handler B) (w : World)
      → ((v : World) → Obeys a v (next v))
      → Serves a w (limited_by lib tokens l client next w)
  unfolding rate_limit
  limited_by-Serves a none client next w obeys = inr (w, next w, refl, refl, obeys w)
  limited_by-Serves a (some l) client next w obeys =
      after_check-Serves a l.window next w obeys
        (check_limit (limit_key l.route_group (real_ip client)) l.limit l.window w)
        (check_limit_only _ _ _ w)

  -- Whatever the request, its header, the configuration and the handlers: a route of the router
  -- either answers 429 with no table changed but the limiter's counters, or serves the request,
  -- after at most a change of these counters, as the access of its endpoint says. A public
  -- endpoint's handler runs with no identity; registering, logging in, refreshing, signing in
  -- with Google, completing tags and the health check are public. An administrator's endpoint,
  -- which are the users, the export and the stale scan, runs under the identity of a verified
  -- token that is not blacklisted and has the role SUPER_ADMIN, or answers 401, 403 or 500 and
  -- changes no table. Every other endpoint runs under the identity of such a token of any role,
  -- or answers 401 or 500 and changes no table.
  pub serve-Serves :
      (cfg : Config) (client : ClientAddress) (r : Route) (w : World)
      → Memᴰ r (routes cfg)
      → Serves (access r.endpoint) w (serve lib tokens r client header h w)
  unfolding serve
  serve-Serves cfg client r w m =
      let e : r.guards ≡ guards_of (access r.endpoint) =
        All-Memᴰ IsGuarded r (routes cfg) m (routes-IsGuarded cfg) in
      subst
        (λ gs.
          Serves (access r.endpoint) w
            (limited_by lib tokens r.limited client (guarded lib tokens gs header h none) w))
        (sym e)
        (limited_by-Serves (access r.endpoint) r.limited client
          (guarded lib tokens (guards_of (access r.endpoint)) header h none) w
          (guards-Obeys (access r.endpoint)))
