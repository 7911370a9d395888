-- ===== src/World.antt =====
-- What the services act on: the tables of PostgreSQL (backend/migrations), the keys in
-- Redis, the queue of the worker and the outside world as an oracle. The n-th use of the oracle answers a statement's
-- failure, the clock, a fresh uuid or 32 random bytes, so every interleaving of failures is a value
-- of `fault`. A statement is atomic; several statements of one request are not, since the source
-- opens no transaction.
pub mod Keeps
use realstate_allan.Common.{
  ℕ, ◌+◌, Bool, Option, none, some, List, String, if◌then◌else◌, Text, ◌≡◌, refl, ap, ◌∙◌,
}
use realstate_allan.Models.{
  User, RefreshToken, Property, PropertyPhoto, NotificationJob, OcrResult, Task,
}
use realstate_allan.Float.{Float64}

pub record Oracle : Type 0 where
  pub fault : ℕ → Bool
  pub clock : ℕ → ℕ
  pub fresh : ℕ → ℕ
  pub random : ℕ → Option String

pub record World : Type 0 where
  pub oracle : Oracle
  pub tick : ℕ
  pub users : List User
  pub refresh_tokens : List RefreshToken
  pub properties : List Property
  pub photos : List PropertyPhoto
  pub jobs : List NotificationJob
  -- jti and the time at which Redis drops the key
  pub blacklist : List (String × ℕ)
  pub ocr_results : List OcrResult
  pub app_config : List (String × String)
  -- the labels of places in Redis: key, label and the time at which Redis drops the key
  pub geocode_cache : List (Text × Text × ℕ)
  -- the sorted sets of the rate limiter: key, members with their scores, and expiry
  pub hits : List (Text × List (Float64 × ℕ) × ℕ)
  -- the tasks that were enqueued, in order
  pub queue : List Task

-- The sentinel errors of the services; any other error is `internal`.
pub data Error : Type 0 where
  property_not_found forbidden : Error
  email_taken invalid_credentials inactive_user token_invalid : Error
  photo_not_found gcs_not_configured unsupported_content_type : Error
  job_not_found : Error
  ocr_not_enabled ocr_result_not_found : Error
  internal : Error

pub data Result (A : Type 0) : Type 0 where
  ok : A → Result A
  err : Error → Result A

-- A call returns its result and the world that it leaves, after an error too.
abbrev pub Action : Type 0 → Type 0
Action A = World → Result A × World

module _ {A : Type 0} where
  abbrev pub pure : A → Action A
  pure a w = (ok a, w)

  abbrev pub fail : Error → Action A
  fail e w = (err e, w)

  abbrev pub gets : (World → A) → Action A
  gets f w = (ok (f w), w)

  abbrev pub or_fail : Option A → Error → Action A
  or_fail none e = fail e
  or_fail (some a) e = pure a

-- The rest of a sequence, on what its first step came to.
abbrev pub resume : {A B : Type 0} → (A → Action B) → Result A × World → Result B × World
resume f (ok a, w) = f a w
resume f (err e, w) = (err e, w)

infixl 5 ◌>>=◌ ◌>>◌
abbrev pub ◌>>=◌ : {A B : Type 0} → Action A → (A → Action B) → Action B
◌>>=◌ m f w = resume f (m w)

abbrev pub ◌>>◌ : {A B : Type 0} → Action A → Action B → Action B
m >> k = m >>= λ _. k

abbrev pub modify : (World → World) → Action (Unit {0})
modify f w = (ok tt, f w)

abbrev pub fail_if : Bool → Error → Action (Unit {0})
fail_if c e w = (if c then err e else ok tt, w)

-- One round trip to PostgreSQL, Redis or another service: the oracle may fail it.
abbrev pub statement : Action (Unit {0})
statement w =
    (if w.oracle.fault w.tick then err internal else ok tt, record w { tick = w.tick + 1 })

abbrev pub now : Action ℕ
now w = (ok (w.oracle.clock w.tick), record w { tick = w.tick + 1 })

abbrev pub fresh_uuid : Action ℕ
fresh_uuid w = (ok (w.oracle.fresh w.tick), record w { tick = w.tick + 1 })

-- Inversion of a sequence that ended well.
resume-eq-ok :
    {A B : Type 0} (f : A → Action B) (r : Result A × World) {b : B} {w' : World}
    → resume f r ≡ (ok b, w')
    → (a : A) × (v : World) × (r ≡ (ok a, v)) × (f a v ≡ (ok b, w'))
resume-eq-ok f (ok a, v) h = (a, v, refl, h)
resume-eq-ok f (err e, v) h = absurd (cc)

pub >>=-eq-ok :
    {A B : Type 0} (m : Action A) (f : A → Action B) (w : World) {b : B} {w' : World}
    → (m >>= f) w ≡ (ok b, w')
    → (a : A) × (v : World) × (m w ≡ (ok a, v)) × (f a v ≡ (ok b, w'))
>>=-eq-ok m f w h = resume-eq-ok f (m w) h

-- A step of a sequence, by how it ended.
pub >>=-err :
    {A B : Type 0} (m : Action A) (f : A → Action B) (w : World) {e : Error} {w' : World}
    → m w ≡ (err e, w')
    → (m >>= f) w ≡ (err e, w')
>>=-err m f w h = ap (resume f) h

pub >>=-ok :
    {A B : Type 0} (m : Action A) (f : A → Action B) (w : World) {a : A} {w' : World}
    → m w ≡ (ok a, w')
    → (m >>= f) w ≡ f a w'
>>=-ok m f w h = ap (resume f) h

-- A view of the world that both parts of a sequence leave alone.
resume_keeps {ℓ} :
    {A B : Type 0} {V : Type ℓ} (view : World → V) (f : A → Action B) (v : V) (r : Result A × World)
    → view r.1 ≡ v
    → ((a : A) (w : World) → view (f a w).1 ≡ view w)
    → view (resume f r).1 ≡ v
resume_keeps view f v (ok a, w) h k = k a w ∙ h
resume_keeps view f v (err e, w) h k = h

pub >>=_keeps {ℓ} :
    {A B : Type 0} {V : Type ℓ} (view : World → V) (m : Action A) (f : A → Action B) (w : World)
    → view (m w).1 ≡ view w
    → ((a : A) (w' : World) → view (f a w').1 ≡ view w')
    → view ((m >>= f) w).1 ≡ view w
>>=_keeps view m f w h k = resume_keeps view f (view w) (m w) h k
