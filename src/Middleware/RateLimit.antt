-- ===== src/Middleware/RateLimit.antt =====
-- backend/internal/middleware/ratelimit.go: the sliding window over a sorted set of Redis. The
-- commands of the pipeline count as one statement, and one that fails has changed nothing.
use realstate_allan.Auth.Tokens.{second}
use realstate_allan.Common.Int.{ℤ, ltb_ℤ, pos}
use realstate_allan.World.{
  World, Action, Result, ◌>>=◌, err, now, ok, ◌>>◌, statement, gets, modify, pure,
}
use realstate_allan.Float.{Float64, of_nat, le}
use realstate_allan.Respond.{Response, Handler, error}
use realstate_allan.Common.{
  Text, List, ℕ, String, Option, ◌∷◌, none, if◌then◌else◌, select, codes, ◌==◌, some, not, find,
  is_some, Bool, ◌++◌, [], text_eq, update, leb, or_else, ◌&&◌, ◌/◌, ◌-◌, true, ◌+◌, false, length,
}

pub record ClientAddress : Type 0 where
  pub x_real_ip : Text
  pub x_forwarded_for : Text
  pub remote_addr : Text

abbrev pub before_comma : Text → Text
before_comma [] = []
before_comma (c ∷ s) = if c == b',' then [] else c ∷ before_comma s

-- What stands before the last colon, where there is one.
abbrev pub before_last_colon : Text → Option Text
before_last_colon [] = none
before_last_colon (c ∷ s) = elim (before_last_colon s) [
  | some t ↦ some (c ∷ t)
  | none ↦ if c == b':' then some [] else none
]

unfoldable pub real_ip : ClientAddress → Text
real_ip r =
    if not (text_eq r.x_real_ip [])
    then r.x_real_ip
    else if not (text_eq r.x_forwarded_for [])
    then before_comma r.x_forwarded_for
    else or_else (before_last_colon r.remote_addr) r.remote_addr

-- A sorted set: members, which are times, with their scores.
abbrev pub SortedSet : Type 0
SortedSet = List (Float64 × ℕ)

-- The set under a key that has not expired.
unfoldable pub hits_of : Text → ℕ → World → SortedSet
hits_of key t w = elim (find (λ e. text_eq e.0 key) w.hits) [
  | none ↦ []
  | some e ↦ if leb e.2 t then [] else e.1
]

unfoldable pub zadd : ℕ → SortedSet → SortedSet
zadd t set =
    if is_some (find (λ h. h.1 == t) set)
    then update (λ h. h.1 == t) (λ h. (of_nat t, t)) set
    else set ++ (of_nat t, t) ∷ []

-- Scores from 0 to `now - window`, both as float64; none where the bound is below 0.
abbrev pub is_outside : (window t : ℕ) → Float64 × ℕ → Bool
is_outside window t h = leb window t && le h.0 (of_nat (t - window))

unfoldable pub zremrangebyscore : (window t : ℕ) → SortedSet → SortedSet
zremrangebyscore window t = select λ h. not (is_outside window t h)

abbrev pub put_hits : Text → SortedSet → ℕ → World → World
put_hits key set expires w = record w {
  hits = (key, set, expires) ∷ select (λ e. not (text_eq e.0 key)) w.hits;
}

abbrev pub counted : Text → (window t : ℕ) → World → SortedSet
counted key window t w = zremrangebyscore window t (zadd t (hits_of key t w))

unfoldable pub check_limit : Text → (limit : ℤ) → (window : ℕ) → Action Bool
check_limit key limit window = do
  t ← now
  statement
  set ← gets (counted key window t)
  modify (put_hits key set (t + (window + second)))
  pure (ltb_ℤ limit (pos (length set)))

abbrev pub limit_key : String → Text → Text
limit_key route_group ip = codes "ratelimit:" ++ codes route_group ++ b':' ∷ ip

-- What the middleware answers: the header Retry-After in seconds, where it is set, and the response.
pub record Limited (A : Type 0) : Type 0 where
  pub retry_after : Option ℕ
  pub response : Response A

abbrev pub unlimited : {A : Type 0} → Response A × World → Limited A × World
unlimited (r, w) = (record { retry_after = none; response = r }, w)

-- Where Redis fails the request is let through.
abbrev pub after_check :
    {A : Type 0} → (window : ℕ) → Handler A → Result Bool × World → Limited A × World
after_check window next (err e, w) = unlimited (next w)
after_check window next (ok true, w) = (
  record {
    retry_after = some (window / second);
    response = error 429 "RATE_LIMIT_EXCEEDED" "Too many requests. Try again later.";
  },
  w,
)
after_check window next (ok false, w) = unlimited (next w)

unfoldable pub rate_limit :
    {A : Type 0}
    → String
    → (limit : ℤ) → (window : ℕ) → ClientAddress
    → Handler A
    → World
    → Limited A × World
rate_limit route_group limit window r next w =
    after_check window next (check_limit (limit_key route_group (real_ip r)) limit window w)
