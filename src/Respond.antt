-- ===== src/Respond.antt =====
-- backend/internal/respond/respond.go: the envelopes, by the type of the data that they carry. A
-- handler of the source writes exactly one of them.
use realstate_allan.Common.Int.{ℤ}
use realstate_allan.World.{World, Action, Error, ok, err, Result}
use realstate_allan.Common.{ℕ, String}

pub data Response (A : Type 0) : Type 0 where
  json : (status : ℕ) → A → (message : String) → Response A
  paginated : A → (message : String) → (limit offset : ℤ) → (count : ℕ) → Response A
  error : (status : ℕ) → (code message : String) → Response A

-- The status line that respond.JSON, respond.Paginated and respond.Error write.
unfoldable pub status : {A : Type 0} → Response A → ℕ
status (json s a m) = s
status (paginated a m l o c) = 200
status (error s c m) = s

-- A handler: the world after the request, and the response.
abbrev pub Handler : Type 0 → Type 0
Handler A = World → Response A × World

-- What a handler makes of a service call.
abbrev pub answer :
    {A B : Type 0} → (A → Response B) → (Error → Response B) → Result A × World → Response B × World
answer good bad (ok a, w) = (good a, w)
answer good bad (err e, w) = (bad e, w)

abbrev pub respond_to :
    {A B : Type 0} → Action A → (A → Response B) → (Error → Response B) → Handler B
respond_to m good bad w = answer good bad (m w)

abbrev pub reply : {B : Type 0} → Response B → Handler B
reply r w = (r, w)
