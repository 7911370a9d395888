-- ===== src/Middleware/Guards.antt =====
-- Who gets past Authenticate (auth.go) and Require (rbac.go) of backend/internal/middleware.
use mathlib.Core.List.{Memᴰ}
use realstate_allan.Respond.{Response, Handler, error}
use realstate_allan.Middleware.{
  authenticate, Identity, extract_bearer_token, identity, require, among,
}
use realstate_allan.World.{World}
use realstate_allan.Auth.Tokens.{TokenConfig, parse_access_token, is_blacklisted, exists_key}
use realstate_allan.External.{Libraries, Claims}
use realstate_allan.Common.{
  List, ℕ, String, ◌≡◌, some, Bool-cases, ◌+◌, str_eq, false, ◌⊎◌, inl, ◌∷◌, inr, [], Option-cases,
  true, subst, refl, sym,
}

-- The header's token verifies at the time of the request and is not on the blacklist.
abbrev pub Admits : Libraries → TokenConfig → String → World → Claims → Type 0
Admits lib cfg header w c =
    (lib.verify cfg.jwt_secret (w.oracle.clock w.tick) (extract_bearer_token header) ≡ some c)
    × (exists_key c.jti (w.oracle.clock (w.tick + 1 + 1)) w.blacklist ≡ false)

module _ {B : Type 0} where
  -- Turned away: an error response of one of these statuses, and no table touched.
  abbrev pub TurnsAway : List ℕ → World → Response B × World → Type 0
  TurnsAway statuses w out =
      (code : String) × (message : String) × (s : ℕ) × (out.0 ≡ error s code message)
      × Memᴰ s statuses
      × (out.1 ≡ record w { tick = out.1.tick })

  module _ (lib : Libraries) (cfg : TokenConfig) where
    abbrev pub Guards : String → (Identity → Handler B) → World → Response B × World → Type 0
    Guards header next w out =
        ((c : Claims) × Admits lib cfg header w c
          × (out ≡ next (identity lib c) (record w { tick = w.tick + 1 + 1 + 1 })))
        ⊎ TurnsAway (401 ∷ 500 ∷ []) w out

    -- Authenticate gives what the handler gives under the identity of a token that verified at
    -- that time and was not blacklisted, with no table changed before it; or it answers 401 or
    -- 500 and changes no table.
    pub authenticate-Guards :
        (header : String) (next : Identity → Handler B) (w : World)
        → Guards header next w (authenticate lib cfg header next w)
    unfolding authenticate parse_access_token is_blacklisted
    authenticate-Guards header next w =
        elim (Bool-cases (str_eq (extract_bearer_token header) "")) [
          | inl e ↦ rw e (inr (_, _, _, refl, (Memᴰ.head refl), refl))
          | inr e ↦
              rw e
                (elim (Option-cases (
                  lib.verify cfg.jwt_secret (w.oracle.clock w.tick)
                    (extract_bearer_token header))) [
                      | inl f ↦ rw f (inr (_, _, _, refl, (Memᴰ.head refl), refl))
                      | inr (c, f) ↦ rw f (elim (Bool-cases (w.oracle.fault (w.tick + 1))) [
                        | inl g ↦ rw g (inr (_, _, _, refl, Memᴰ.tail (Memᴰ.head refl), refl))
                        | inr g ↦
                            rw g
                              (elim (Bool-cases
                                (exists_key c.jti (w.oracle.clock (w.tick + 1 + 1)) w.blacklist)) [
                                  | inl k ↦ rw k (inr (_, _, _, refl, (Memᴰ.head refl), refl))
                                  | inr k ↦ rw k (inl (c, (refl, k), refl))
                                ])
                      ])
                    ])
        ]

    -- The two in the order of the router: the handler runs under the identity of a verified token
    -- whose role is allowed, or not at all.
    abbrev pub protected : List String → String → (Identity → Handler B) → Handler B
    protected roles header h = authenticate lib cfg header (λ i. require roles i.role (h i))

    abbrev pub Protects :
        List String → String → (Identity → Handler B) → World → Response B × World → Type 0
    Protects roles header h w out =
        ((c : Claims) × Admits lib cfg header w c
          × (among c.role roles ≡ true)
          × (out ≡ h (identity lib c) (record w { tick = w.tick + 1 + 1 + 1 })))
        ⊎ TurnsAway (401 ∷ 500 ∷ 403 ∷ []) w out

    required :
        (roles : List String) (header : String) (h : Identity → Handler B) (w : World) (c : Claims)
        → Admits lib cfg header w c
        → Protects roles header h w
            (require roles c.role (h (identity lib c)) (record w { tick = w.tick + 1 + 1 + 1 }))
    unfolding require
    required roles header h w c ad = elim (Bool-cases (str_eq c.role "")) [
      | inl e ↦ rw e (inr (_, _, _, refl, (Memᴰ.head refl), refl))
      | inr e ↦ rw e (elim (Bool-cases (among c.role roles)) [
        | inl f ↦ rw f (inl (c, ad, f, refl))
        | inr f ↦ rw f (inr (_, _, _, refl, Memᴰ.tail (Memᴰ.tail (Memᴰ.head refl)), refl))
      ])
    ]

    turned_away_more :
        (w : World) (out : Response B × World)
        → TurnsAway (401 ∷ 500 ∷ []) w out
        → TurnsAway (401 ∷ 500 ∷ 403 ∷ []) w out
    turned_away_more w out (code, message, s, at, Memᴰ.head e, same) =
        (code, message, s, at, Memᴰ.head e, same)
    turned_away_more w out (code, message, s, at, Memᴰ.tail (Memᴰ.head e), same) =
        (code, message, s, at, Memᴰ.tail (Memᴰ.head e), same)
    turned_away_more w out (code, message, s, at, Memᴰ.tail (Memᴰ.tail x), same) = elim x [ ]

    -- Behind Authenticate and Require, whatever the header, a handler either runs under the
    -- identity of a token that verified at that time, was not blacklisted and has an allowed
    -- role, with no table changed before it, or it does not run: the answer is an error of
    -- status 401, 403 or 500 and no table changes.
    pub protected-Protects :
        (roles : List String) (header : String) (h : Identity → Handler B) (w : World)
        → Protects roles header h w (protected roles header h w)
    unfolding identity
    protected-Protects roles header h w =
        elim (authenticate-Guards header (λ i. require roles i.role (h i)) w) [
          | inl (c, ad, at) ↦
              subst (Protects roles header h w) (sym at) (required roles header h w c ad)
          | inr away ↦ inr (turned_away_more w _ away)
        ]
