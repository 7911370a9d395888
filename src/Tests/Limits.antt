-- ===== src/Tests/Limits.antt =====
-- The rate limiter on two requests of the same client.
use realstate_allan.Middleware.Limit.{Logged, untouched, checked, check_limit-recent}
use realstate_allan.Middleware.RateLimit.{check_limit}
use realstate_allan.Tests.{world}
use realstate_allan.World.{World, ok}
use realstate_allan.Auth.Tokens.{second}
use realstate_allan.Common.Int.{pos}
use realstate_allan.Common.{Text, ℕ, ◌*◌, ◌≡◌, true, refl, codes, arith, [], ◌∷◌}

abbrev key : Text
key = codes "ratelimit:global:10.0.0.1"

abbrev minute : ℕ
minute = 60 * second

abbrev once : World
once = (check_limit key (pos 1) minute world).1

once-Logged : Logged key (pos 1) minute (1_000 ∷ []) once
once-Logged = checked [] world (untouched world refl) tt (omega arith) refl

check_limit-recent_example : (check_limit key (pos 1) minute once).0 ≡ ok true
unfolding check_limit
check_limit-recent_example =
    check_limit-recent key (pos 1) minute (1_000 ∷ []) once once-Logged (omega arith, tt)
      (omega arith) refl
