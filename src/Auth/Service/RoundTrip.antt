-- ===== src/Auth/Service/RoundTrip.antt =====
-- Login after Register, in backend/internal/services/auth.go.
use realstate_allan.Auth.Service.Register.{Registers, register-Registers}
use realstate_allan.Auth.Rows.{Session, scanned, by_email}
use realstate_allan.World.{World, ok}
use realstate_allan.Models.{User}
use realstate_allan.Auth.Service.{
  check_credentials, login, register, normalise_email, start_session,
}
use realstate_allan.Auth.Tokens.{TokenConfig}
use realstate_allan.External.{Libraries}
use realstate_allan.Common.{
  Text, ◌≡◌, List, String, true, ◌∷◌, some, ◌++◌, false, [], find, ℕ, refl, none, find-append, ◌+◌,
  subst, Option-cases, inl, ◌∙◌, inr, text_eq_self,
}

module _ (lib : Libraries) (cfg : TokenConfig) where
  accepted :
      (row : User) (hash password : String) (w : World)
      → row.is_active ≡ true
      → row.password_hash ≡ some hash
      → lib.bcrypt_matches hash password ≡ true
      → check_credentials lib cfg (some row) password w ≡ (ok (scanned row), w)
  unfolding check_credentials
  accepted row hash password w active has matches = rw (has, active, matches) refl

  found_again :
      (before after : List User) (row : User) (email : Text)
      → after ≡ before ++ row ∷ []
      → find (by_email email) before ≡ none
      → row.email ≡ email
      → find (by_email email) after ≡ some row
  found_again before after row email grown fresh same =
      rw grown (find-append (by_email email) before row fresh (rw same (text_eq_self email)))

  login_goes_on :
      (email password : String) (w : World) (row : User) (hash : String)
      → w.oracle.fault w.tick ≡ false
      → find (by_email (normalise_email lib cfg email)) w.users ≡ some row
      → row.is_active ≡ true
      → row.password_hash ≡ some hash
      → lib.bcrypt_matches hash password ≡ true
      → login lib cfg email password w
        ≡ start_session lib cfg (scanned row) (record w { tick = w.tick + 1 })
  unfolding login
  login_goes_on email password w row hash up found active has matches =
      rw (up, found, accepted row hash password (record w { tick = w.tick + 1 }) active has matches)
        refl

  -- After a registration that ended well, where the next statement does not fail and bcrypt
  -- accepts the hashes that it makes, a login with the same address and password passes every
  -- check: what it does is to open a session for the account registered.
  pub register_then_login :
      (email password full_name : String) (w : World) {s : Session} {v : World}
      → ((salt : ℕ) (p h : String)
          → lib.bcrypt_hash salt p ≡ some h
          → lib.bcrypt_matches h p ≡ true)
      → register lib cfg email password full_name w ≡ (ok s, v)
      → v.oracle.fault v.tick ≡ false
      → login lib cfg email password v
        ≡ start_session lib cfg s.user (record v { tick = v.tick + 1 })
  register_then_login email password full_name w {s = s} {v = v} bcrypt h up =
      let (row, adds, same, stored) =
        subst (Registers lib cfg email password w) h
          (register-Registers lib cfg email password full_name w) in
      let (grown, fresh, address, role, active, salt, has, given) = adds in
      elim (Option-cases (lib.bcrypt_hash salt password)) [
        | inl none_made ↦ absurd (given (has ∙ none_made))
        | inr (hash, made) ↦ rw same (
            login_goes_on email password v row hash up
              (found_again w.users v.users row (normalise_email lib cfg email) grown fresh address)
              active (has ∙ made) (bcrypt salt password hash made))
      ]
