-- ===== src/Worker/Delivery.antt =====
-- What HandleWhatsApp and HandleSMS of backend/internal/worker/dispatcher.go leave of a job.
use realstate_allan.World.{World, Result, err}
use realstate_allan.Models.{NotificationJob}
use realstate_allan.Worker.{ok}
use realstate_allan.Common.{String, Option, ℕ, ◌≡◌, some, update, ◌⊎◌, none, ◌==◌}
use realstate_allan.External.{Postgres}

module _ (pg : Postgres) where
  abbrev pub Written : String → (NotificationJob → NotificationJob) → World → World → Type 0
  Written job change w v =
      (id : ℕ) × (pg.parse_uuid job ≡ some id) × (v.jobs ≡ update (λ j. j.id == id) change w.jobs)

  abbrev Writes :
      String → (NotificationJob → NotificationJob) → World → Result (Unit {0}) × World → Type 0
  Writes job change w (ok _, v) = Written job change w v
  Writes job change w (err e, v) = v.jobs ≡ w.jobs

  -- By what Twilio answered: the SID, or an error.
  abbrev pub Marks : String → Option String → World → Result (Unit {0}) × World → Type 0
  Marks job (some sid) w (ok _, v) =
      Written job
        (λ j. record j {
          status = "SENT";
          twilio_sid = some sid;
          sent_at = some (w.oracle.clock w.tick);
        })
        w v
  Marks job (some sid) w (err e, v) = v.jobs ≡ w.jobs
  Marks job none w (ok _, v) = ⊥
  Marks job none w (err e, v) =
      (v.jobs ≡ w.jobs) ⊎ Written job (λ j. record j { status = "FAILED" }) w v
