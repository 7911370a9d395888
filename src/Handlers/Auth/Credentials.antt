-- ===== src/Handlers/Auth/Credentials.antt =====
-- What Login of backend/internal/handlers/auth.go tells a caller without an account.
use realstate_allan.Models.{User}
use realstate_allan.World.{World, err, invalid_credentials}
use realstate_allan.Handlers.Auth.{login_handler, refused}
use realstate_allan.Auth.Service.{login, check_credentials, normalise_email}
use realstate_allan.Auth.Rows.{by_email}
use realstate_allan.Common.{
  Bool, String, find, ◌≡◌, str_eq, false, ◌||◌, some, none, ◌⊎◌, ◌+◌, inl, refl, true, inr,
}
use realstate_allan.Auth.Tokens.{TokenConfig}
use realstate_allan.External.{Libraries}

module _ (lib : Libraries) (cfg : TokenConfig) (production : Bool) where
  -- No account has the address, or an active one has it with another password.
  abbrev pub Unknown : String → String → World → Type 0
  Unknown email password w =
      (find (by_email (normalise_email lib cfg email)) w.users ≡ none)
      ⊎ ((u : User) × (hash : String) × (find (by_email (normalise_email lib cfg email)) w.users
            ≡ some u)
          × (u.is_active ≡ true)
          × (u.password_hash ≡ some hash)
          × (lib.bcrypt_matches hash password ≡ false))

  login_refused :
      (email password : String) (w : World)
      → w.oracle.fault w.tick ≡ false
      → Unknown email password w
      → login lib cfg email password w ≡ (err invalid_credentials, record w { tick = w.tick + 1 })
  unfolding login check_credentials
  login_refused email password w up (inl e) = rw (up, e) refl
  login_refused email password w up (inr (u, hash, e, active, has, wrong)) =
      rw (up, e, has, active, wrong) refl

  -- Where the database answers and both fields are given, the login endpoint gives the same 401
  -- for an address that no account has and for a wrong password of an active account, and
  -- changes no table.
  pub login_handler_alike :
      (email password : String) (w : World)
      → (str_eq email "" || str_eq password "") ≡ false
      → w.oracle.fault w.tick ≡ false
      → Unknown email password w
      → login_handler lib cfg production (some (record { email = email; password = password })) w
        ≡ (
          refused 401 "INVALID_CREDENTIALS" "invalid email or password",
          record w { tick = w.tick + 1 },
        )
  unfolding login_handler
  login_handler_alike email password w given up unknown =
      rw (given, login_refused email password w up unknown) refl
