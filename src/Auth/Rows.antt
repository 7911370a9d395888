-- ===== src/Auth/Rows.antt =====
-- The statements of backend/internal/services/auth.go on users and refresh_tokens, and the checks on a row.
use realstate_allan.World.{
  World, Action, ◌>>◌, fail, err, token_invalid, statement, ◌>>=◌, email_taken, modify, internal,
  ok, now, gets, fail_if, or_fail, pure, inactive_user,
}
use realstate_allan.Models.{User, RefreshToken, role_broker}
use realstate_allan.Common.{
  String, ℕ, Text, List, Option, if◌then◌else◌, map, Bool, none, true, leb, ltb, text_eq, false,
  str_eq, is_some, ◌&&◌, find, ◌+◌, some, ◌||◌, not, ◌==◌, update, ◌++◌, ◌∷◌, [],
}

pub record TokenPair : Type 0 where
  pub access_token : String
  pub access_jti : String
  pub refresh_token : String
  pub expires_at : ℕ

pub record Session : Type 0 where
  pub user : User
  pub pair : TokenPair

abbrev pub ascii_lower : ℕ → ℕ
ascii_lower c = if leb b'A' c && leb c b'Z' then c + 32 else c

-- strings.ToLower, rune by rune.
unfoldable pub to_lower : (ℕ → ℕ) → Text → Text
to_lower lower = map λ c. if ltb c 128 then ascii_lower c else lower c

abbrev pub by_email : Text → User → Bool
by_email email u = text_eq u.email email

abbrev pub has_google : String → Option String → Bool
has_google g none = false
has_google g (some h) = str_eq h g

abbrev pub by_google : String → User → Bool
by_google g u = has_google g u.google_id

abbrev pub by_hash : String → RefreshToken → Bool
by_hash h r = str_eq r.token_hash h

abbrev pub put_users : List User → World → World
put_users users w = record w { users = users }

abbrev pub put_tokens : List RefreshToken → World → World
put_tokens tokens w = record w { refresh_tokens = tokens }

abbrev pub scanned : User → User
scanned u = record u { password_hash = none; google_id = none }

abbrev pub revoke : RefreshToken → RefreshToken
revoke r = record r { revoked = true }

-- INSERT INTO refresh_tokens: the hash is UNIQUE, the user must exist, and the id is the key.
unfoldable pub insert_token : RefreshToken → Action (Unit {0})
insert_token row w =
    if is_some (find (by_hash row.token_hash) w.refresh_tokens)
      || not (is_some (find (λ u. u.id == row.user_id) w.users))
    then (err internal, w)
    else if is_some (find (λ r. r.id == row.id) w.refresh_tokens)
    then (err internal, w)
    else (ok tt, put_tokens (w.refresh_tokens ++ row ∷ []) w)

-- INSERT INTO users: email is UNIQUE, as is the key; isUniqueViolation takes either refusal for
-- a taken address.
unfoldable pub insert_user : User → Action (Unit {0})
insert_user row w =
    if is_some (find (by_email row.email) w.users)
    then (err email_taken, w)
    else if is_some (find (λ u. u.id == row.id) w.users)
    then (err email_taken, w)
    else (ok tt, put_users (w.users ++ row ∷ []) w)

-- time.Now().After(expires_at)
unfoldable pub check_refresh : Option RefreshToken → Action RefreshToken
check_refresh none = fail token_invalid
check_refresh (some r) = do t ← now; fail_if (r.revoked || ltb r.expires_at t) token_invalid; pure r

unfoldable pub revoke_token : (RefreshToken → Bool) → Action (Unit {0})
revoke_token hit = do statement; modify (λ w. put_tokens (update hit revoke w.refresh_tokens) w)

unfoldable pub load_user : ℕ → Action User
load_user id = do
  statement
  row ← gets (λ w. find (λ u. u.id == id) w.users)
  user ← or_fail row internal
  fail_if (not user.is_active) inactive_user
  pure (scanned user)

-- The row of a new account: a BROKER, active.
unfoldable pub new_user : ℕ → Text → Option String → Option String → String → ℕ → User
new_user id email password_hash google_id full_name t = record {
  id = id;
  email = email;
  password_hash = password_hash;
  google_id = google_id;
  full_name = full_name;
  role = role_broker;
  is_active = true;
  created_at = t;
  updated_at = t;
}

-- The users of a row's id, and every other.
abbrev pub other_email : ℕ → Text → User → Bool
other_email id email u = by_email email u && not (u.id == id)

abbrev pub other_google : ℕ → String → User → Bool
other_google id g u = by_google g u && not (u.id == id)

-- INSERT … ON CONFLICT (google_id) DO UPDATE; `none` is a unique violation of the
-- e-mail or of the key.
unfoldable pub upsert_google : User → String → World → Option User × World
upsert_google row google_id w = elim (find (by_google google_id) w.users) [
  | some u ↦
      if is_some (find (other_email u.id row.email) w.users)
      then (none, w)
      else let change : User → User = λ v. record v {
        email = row.email;
        full_name = row.full_name;
        updated_at = row.updated_at;
      } in
        (some (change u), put_users (update (by_google google_id) change w.users) w)
  | none ↦
      if is_some (find (by_email row.email) w.users)
      then (none, w)
      else if is_some (find (λ u. u.id == row.id) w.users)
      then (none, w)
      else (some row, put_users (w.users ++ row ∷ []) w)
]

-- UPDATE users SET google_id = $1 WHERE email = $2, for an account that exists.
unfoldable pub link_google : String → Text → Action User
link_google google_id email = do
  statement
  t ← now
  users ← gets (λ w. w.users)
  u ← or_fail (find (by_email email) users) internal
  fail_if (is_some (find (other_google u.id google_id) users)) internal
  let change = λ (v : User). record v { google_id = some google_id; updated_at = t }
  modify (put_users (update (by_email email) change users))
  pure (change u)
