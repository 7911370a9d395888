-- ===== src/Middleware/Logout.antt =====
-- A token whose session was closed: AuthService.Logout of backend/internal/services/auth.go, then
-- Authenticate of backend/internal/middleware/auth.go.
use realstate_allan.Middleware.Guards.{TurnsAway, authenticate-Guards}
use realstate_allan.World.{World, ok}
use realstate_allan.Respond.{Handler}
use realstate_allan.Middleware.{Identity, extract_bearer_token, authenticate}
use realstate_allan.Auth.Service.{logout}
use realstate_allan.Auth.Rows.{revoke_token}
use realstate_allan.Auth.Tokens.{TokenConfig, blacklist_token, exists_key, set_key}
use realstate_allan.External.{Libraries, Claims}
use realstate_allan.Common.{
  String, ℕ, List, ltb, ◌≡◌, true, ◌+◌, some, ◌<◌, ◌∷◌, [], inl, inr, str_eq, Bool-cases, arith,
  eq_iff, refl, lt→ltb,
}

str_eq_self : (s : String) → str_eq s s ≡ true
str_eq_self s = (eq_iff s s).1 refl

exists_key-set_key :
    (k : String) (v t : ℕ) (m : List (String × ℕ))
    → ltb t v ≡ true
    → exists_key k t (set_key k v m) ≡ true
exists_key-set_key k v t [] h = rw (str_eq_self k, h) refl
exists_key-set_key k v t ((j, u) ∷ m) h = elim (Bool-cases (str_eq j k)) [
  | inl e ↦ rw (e, str_eq_self k, h) refl
  | inr e ↦ rw (e, e) (exists_key-set_key k v t m h)
]

module _ (lib : Libraries) (cfg : TokenConfig) where
  -- Logout has put the token's id on the blacklist for the duration asked.
  logout-eq-ok :
      (jti raw : String) (ttl : ℕ) (w : World) {v : World}
      → logout lib cfg jti raw ttl w ≡ (ok tt, v)
      → v.blacklist ≡ set_key jti (w.oracle.clock (w.tick + 1) + ttl) w.blacklist
  unfolding logout blacklist_token revoke_token
  logout-eq-ok jti raw ttl w h = ground arith

  -- After a logout that ended well, a request with a token of the same jti is turned away with
  -- 401 or 500 and no table changed, provided the blacklist is read before the duration given
  -- to the logout has passed.
  pub logged_out :
      {B : Type 0} (jti raw header : String) (ttl : ℕ) (next : Identity → Handler B) (w : World)
      (c : Claims) {v : World}
      → logout lib cfg jti raw ttl w ≡ (ok tt, v)
      → lib.verify cfg.jwt_secret (v.oracle.clock v.tick) (extract_bearer_token header) ≡ some c
      → c.jti ≡ jti
      → v.oracle.clock (v.tick + 1 + 1) < w.oracle.clock (w.tick + 1) + ttl
      → TurnsAway (401 ∷ 500 ∷ []) v (authenticate lib cfg header next v)
  logged_out jti raw header ttl next w c {v = v} h ver same early =
      elim (authenticate-Guards lib cfg header next v) [
        | inl (d, (f, k), at) ↦
            let listed : exists_key jti (v.oracle.clock (v.tick + 1 + 1)) v.blacklist ≡ true =
              rw (logout-eq-ok jti raw ttl w h) (
                exists_key-set_key jti (w.oracle.clock (w.tick + 1) + ttl)
                  (v.oracle.clock (v.tick + 1 + 1)) w.blacklist (lt→ltb _ _ early)) in
            absurd (cc)
        | inr away ↦ away
      ]
