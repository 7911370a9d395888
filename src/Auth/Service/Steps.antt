-- ===== src/Auth/Service/Steps.antt =====
-- A revoked refresh token, step by step through backend/internal/services/auth.go.
use realstate_allan.Models.{User, RefreshToken}
use realstate_allan.Auth.Service.Spent.{Spent, insert_token-Spent, revoke_token-Spent}
use realstate_allan.External.{Libraries}
use realstate_allan.Auth.Tokens.{
  blacklist_token, TokenConfig, read_random, issue_access_token, issue_refresh_token, set_key,
}
use realstate_allan.Auth.Service.{
  issue_token_pair, start_session, register, check_credentials, login, refresh_tokens, logout,
  upserted, upsert_google_user, some,
}
use realstate_allan.Auth.Rows.{
  insert_user, check_refresh, load_user, link_google, by_email, put_users, upsert_google, by_hash,
}
use realstate_allan.World.Keeps.{Keeps, >>=-Keeps, or_fail-Keeps}
use realstate_allan.World.{
  Action, Error, World, statement, now, fresh_uuid, pure, fail, gets, fail_if, modify,
  token_invalid, internal, invalid_credentials,
}
use realstate_allan.Common.{
  String, Bool, ◌≡◌, ℕ, Option, Text, Bool-cases, is_some, refl, find, ◌+◌, none, inl, inr, List,
  arith, str_eq, some, ◌==◌,
}

module _ (h : String) where
  same :
      {A : Type 0} (m : Action A)
      → ((w : World) → (m w).1.refresh_tokens ≡ w.refresh_tokens)
      → Keeps (Spent h) m
  same m e = record { keeps = λ w s. rw (e w) s }

  statement-Spent : Keeps (Spent h) statement
  statement-Spent = same statement λ w. refl

  now-Spent : Keeps (Spent h) now
  now-Spent = same now λ w. refl

  fresh_uuid-Spent : Keeps (Spent h) fresh_uuid
  fresh_uuid-Spent = same fresh_uuid λ w. refl

  pure-Spent : {A : Type 0} (a : A) → Keeps (Spent h) (pure a)
  pure-Spent a = same (pure a) λ w. refl

  fail-Spent : {A : Type 0} (e : Error) → Keeps (Spent h) (fail {A = A} e)
  fail-Spent e = same (fail e) λ w. refl

  gets-Spent : {A : Type 0} (f : World → A) → Keeps (Spent h) (gets f)
  gets-Spent f = same (gets f) λ w. refl

  fail_if-Spent : (c : Bool) (e : Error) → Keeps (Spent h) (fail_if c e)
  fail_if-Spent c e = same (fail_if c e) λ w. refl

  read_random-Spent : Keeps (Spent h) read_random
  read_random-Spent = record {
    keeps = λ w s. (or_fail-Keeps {P = Spent h} (w.oracle.random w.tick) internal).keeps _ s;
  }

  insert_user-Spent : (u : User) → Keeps (Spent h) (insert_user u)
  unfolding insert_user
  insert_user-Spent u = record {
    keeps = λ w s. elim (Bool-cases (is_some (find (by_email u.email) w.users))) [
      | inl e ↦ rw e s
      | inr e ↦ rw e (elim (Bool-cases (is_some (find (λ v. v.id == u.id) w.users))) [
        | inl f ↦ rw f s
        | inr f ↦ rw f s
      ])
    ];
  }

  put_users-Spent : (us : List User) → Keeps (Spent h) (modify (put_users us))
  put_users-Spent us = same (modify (put_users us)) λ w. refl

  ruleset spent = (
    >>=-Keeps, statement-Spent, now-Spent, fresh_uuid-Spent, gets-Spent, or_fail-Keeps,
    fail_if-Spent, pure-Spent, fail-Spent, read_random-Spent, insert_user-Spent, put_users-Spent,
    insert_token-Spent, revoke_token-Spent,
  )

  blacklist_token-Spent : (jti : String) (ttl : ℕ) → Keeps (Spent h) (blacklist_token jti ttl)
  unfolding blacklist_token
  blacklist_token-Spent jti ttl = >>=-Keeps statement-Spent λ _.
      >>=-Keeps now-Spent λ t.
        same (modify (λ w. record w { blacklist = set_key jti (t + ttl) w.blacklist })) λ w. refl

  check_refresh-Spent : (row : Option RefreshToken) → Keeps (Spent h) (check_refresh row)
  unfolding check_refresh
  check_refresh-Spent none = fail-Spent token_invalid
  check_refresh-Spent (some r) = search spent

  pub load_user-Spent : (id : ℕ) → Keeps (Spent h) (load_user id)
  unfolding load_user
  load_user-Spent id = search spent

  upsert_google_same :
      (row : User) (g : String) (w : World)
      → (upsert_google row g w).1.refresh_tokens ≡ w.refresh_tokens
  unfolding upsert_google
  upsert_google_same row g w = ground arith

  link_google-Spent : (g : String) (email : Text) → Keeps (Spent h) (link_google g email)
  unfolding link_google
  link_google-Spent g email = search spent depth 12

  module _ (lib : Libraries) (cfg : TokenConfig) where
    issue_access_token-Spent : (user : User) → Keeps (Spent h) (issue_access_token lib cfg user)
    unfolding issue_access_token
    issue_access_token-Spent user = search spent

    issue_refresh_token-Spent : Keeps (Spent h) (issue_refresh_token lib cfg)
    unfolding issue_refresh_token
    issue_refresh_token-Spent = search spent

    issue_token_pair-Spent : (user : User) → Keeps (Spent h) (issue_token_pair lib cfg user)
    unfolding issue_token_pair
    issue_token_pair-Spent user =
        search (spent, issue_access_token-Spent, issue_refresh_token-Spent) depth 12

    pub start_session-Spent : (user : User) → Keeps (Spent h) (start_session lib cfg user)
    unfolding start_session
    start_session-Spent user = search (spent, issue_token_pair-Spent)

    pub register-Spent :
        (email password full_name : String)
        → Keeps (Spent h) (register lib cfg email password full_name)
    unfolding register
    register-Spent email password full_name = search (spent, start_session-Spent) depth 12

    check_credentials_same :
        (u : User) (password : String) (w : World)
        → (check_credentials lib cfg (some u) password w).1.refresh_tokens ≡ w.refresh_tokens
    unfolding check_credentials
    check_credentials_same u password w = ground arith

    check_credentials-Spent :
        (row : Option User) (password : String)
        → Keeps (Spent h) (check_credentials lib cfg row password)
    unfolding check_credentials
    check_credentials-Spent none password = fail-Spent invalid_credentials
    check_credentials-Spent (some u) password =
        same (check_credentials lib cfg (some u) password) λ w. check_credentials_same u password w

    pub login-Spent : (email password : String) → Keeps (Spent h) (login lib cfg email password)
    unfolding login
    login-Spent email password = search (spent, start_session-Spent, check_credentials-Spent)

    pub refresh_tokens-Spent : (raw : String) → Keeps (Spent h) (refresh_tokens lib cfg raw)
    unfolding refresh_tokens
    refresh_tokens-Spent raw =
        search (spent, start_session-Spent, check_refresh-Spent, load_user-Spent) depth 12

    pub logout-Spent : (jti raw : String) (ttl : ℕ) → Keeps (Spent h) (logout lib cfg jti raw ttl)
    unfolding logout
    logout-Spent jti raw ttl = >>=-Keeps (blacklist_token-Spent jti ttl) λ _. record {
      keeps = λ w s. elim (Bool-cases (str_eq raw "")) [
        | inl e ↦ rw e s
        | inr e ↦ rw e ((revoke_token-Spent h (by_hash (lib.sha256_hex raw))).keeps w s)
      ];
    }

    upserted_keeps :
        (g : String) (email : Text) (r : Option User × World)
        → Spent h r.1
        → Spent h (upserted lib cfg g email r).1
    unfolding upserted
    upserted_keeps g email (some u, w) s = s
    upserted_keeps g email (none, w) s = (link_google-Spent g email).keeps w s

    upserted-Spent :
        (row : User) (g : String) (email : Text)
        → Keeps (Spent h) (λ w. upserted lib cfg g email (upsert_google row g w))
    upserted-Spent row g email = record {
      keeps =
          λ w s. upserted_keeps g email (upsert_google row g w) (rw (upsert_google_same row g w) s);
    }

    pub upsert_google_user-Spent :
        (g email full_name : String)
        → Keeps (Spent h) (upsert_google_user lib cfg g email full_name)
    unfolding upsert_google_user
    upsert_google_user-Spent g email full_name =
        search (spent, start_session-Spent, upserted-Spent) depth 14
