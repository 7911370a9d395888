-- ===== src/Middleware/Limit.antt =====
-- The rate limiter of backend/internal/middleware/ratelimit.go over a sequence of requests with one key.
use realstate_allan.Common.Int.{ℤ, ltb_ℤ, pos}
use realstate_allan.Middleware.Window.{scored, entry, recent, Holds, counted_lem}
use realstate_allan.World.{World, ok}
use realstate_allan.Middleware.RateLimit.{
  check_limit, put_hits, counted, zremrangebyscore, hits_of, SortedSet,
}
use realstate_allan.Auth.Tokens.{second}
use realstate_allan.Common.{
  ℕ, Text, List, ◌≤◌, All, map, ◌<◌, ◌+◌, ◌≡◌, ◌++◌, ◌^◌, ◌∷◌, false, [], inl, none, ap, refl, inr,
  arith, some, ◌∙◌, text_eq_self, length,
}

-- The worlds that requests with one key lead to, with the times of these requests: each one is later
-- than those before and Redis answers it. What else happens leaves the set of the key as it is.
pub data Logged (key : Text) (limit : ℤ) (window : ℕ) : List ℕ → World → Type 0 where
  untouched : (w : World) → entry key w ≡ none → Logged key limit window [] w
  checked :
      (log : List ℕ) (w : World)
      → Logged key limit window log w
      → All (λ x. x < w.oracle.clock w.tick) log
      → w.oracle.clock w.tick < 2 ^ 64
      → w.oracle.fault (w.tick + 1) ≡ false
      → Logged key limit window
          (log ++ w.oracle.clock w.tick ∷ [])
          (check_limit key limit window w).1
  elsewhere :
      (log : List ℕ) (w v : World)
      → Logged key limit window log w
      → entry key v ≡ entry key w
      → Logged key limit window log v

All-last : (t u : ℕ) (log : List ℕ) → All (λ x. x < u) (log ++ t ∷ []) → t < u
All-last t u [] (a, b) = a
All-last t u (x ∷ log) (a, b) = All-last t u log b

All-up_to : (t : ℕ) (log : List ℕ) → All (λ x. x < t) log → All (λ x. x ≤ t) (log ++ t ∷ [])
All-up_to t [] h = (omega arith, tt)
All-up_to t (x ∷ log) (a, b) = (omega (arith, a), All-up_to t log b)

Holds-elsewhere :
    (key : Text) (window t : ℕ) (log : List ℕ) (w v : World)
    → entry key v ≡ entry key w
    → Holds key window t log w
    → Holds key window t log v
Holds-elsewhere key window t log w v same (inl (e, f)) = inl (same ∙ e, f)
Holds-elsewhere key window t log w v same (inr (s, k, e, a, b)) = inr (s, k, same ∙ e, a, b)

put_hits-entry :
    (key : Text) (set : SortedSet) (expires : ℕ) (w : World)
    → entry key (put_hits key set expires w) ≡ some (key, set, expires)
put_hits-entry key set expires w = rw (text_eq_self key) refl

check_limit-runs :
    (key : Text) (limit : ℤ) (window : ℕ) (w : World)
    → w.oracle.fault (w.tick + 1) ≡ false
    → check_limit key limit window w ≡ (
        let t = w.oracle.clock w.tick in
        let set = counted key window t w in
        (
          ok (ltb_ℤ limit (pos (length set))),
          put_hits key set (t + (window + second)) (record w { tick = w.tick + 1 + 1 }),
        ))
unfolding check_limit zremrangebyscore hits_of
check_limit-runs key limit window w e = rw e refl

Logged-Holds :
    (key : Text) (limit : ℤ) (window : ℕ) (log : List ℕ) (w : World)
    → Logged key limit window log w
    → (t : ℕ) → All (λ x. x < t) log
    → Holds key window t log w
Logged-Holds key limit window log w (untouched _ e) t h = inl (e, refl)
Logged-Holds key limit window log w (elsewhere _ v _ l same) t h =
    Holds-elsewhere key window t log v w same (Logged-Holds key limit window log v l t h)
Logged-Holds key limit window log w (checked past_log v l below top safe) t h =
    let s = v.oracle.clock v.tick in
    let holds = Logged-Holds key limit window past_log v l s below in
    let set = counted_lem key window s past_log v holds below top in
    inr (
      s,
      key,
      ap (entry key) (ap (λ r. r.1) (check_limit-runs key limit window v safe))
          ∙ put_hits-entry key (counted key window s v) (s + (window + second))
              (record v { tick = v.tick + 1 + 1 })
          ∙ ap (λ set. some (key, set, s + (window + second))) set,
      All-up_to s past_log below,
      omega (arith, All-last s t past_log h),
    )

length-scored : (log : List ℕ) → length (map scored log) ≡ length log
length-scored [] = refl
length-scored (x ∷ log) = rw (length-scored log) refl

-- After any requests with one key, each later than those before and answered by Redis, with any
-- events between them that leave the set of the key as it is, a later request at time t < 2^64
-- that Redis answers is refused exactly where the requests so far that lie within the window at
-- t, itself included, are more than the limit. A request at x lies within the window unless t
-- is at least the window and x is at most t less the window, both as float64.
pub check_limit-recent :
    (key : Text) (limit : ℤ) (window : ℕ) (log : List ℕ) (w : World)
    → Logged key limit window log w
    → All (λ x. x < w.oracle.clock w.tick) log
    → w.oracle.clock w.tick < 2 ^ 64
    → w.oracle.fault (w.tick + 1) ≡ false
    → (check_limit key limit window w).0
      ≡ ok (
          ltb_ℤ limit (
            pos
              (length (recent window (w.oracle.clock w.tick) (log ++ w.oracle.clock w.tick ∷ [])))))
check_limit-recent key limit window log w l below top safe =
    let t = w.oracle.clock w.tick in
    ap (λ r. r.0) (check_limit-runs key limit window w safe)
    ∙ ap (λ set. ok (ltb_ℤ limit (pos (length set))))
        (counted_lem key window t log w (Logged-Holds key limit window log w l t below) below top)
    ∙ ap (λ n. ok (ltb_ℤ limit (pos n))) (length-scored (recent window t (log ++ t ∷ [])))
