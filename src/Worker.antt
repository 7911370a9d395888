-- ===== src/Worker.antt =====
-- backend/internal/worker/dispatcher.go: the tasks that send a message and mark its job, and the
-- normalisation of phone numbers. What Twilio answers is a parameter: the SID, or `none` on an error.
pub mod Arrival
pub mod Reminder
pub mod Tasks
use realstate_allan.Notifications.{put_jobs, is_job}
use realstate_allan.World.{Action, ◌>>◌, ◌>>=◌, ok, fail, statement, now, internal, or_fail, modify}
use realstate_allan.External.{Postgres}
use realstate_allan.Models.{NotificationJob, job_status_sent, job_status_failed}
use realstate_allan.Common.{
  Text, ℕ, String, Option, Bool, ◌∷◌, if◌then◌else◌, select, leb, true, length, codes, some, ◌&&◌,
  false, ◌==◌, ◌++◌, [], none, drop, update, is_digit, has_prefix,
}
pub mod Phone
pub mod Delivery

-- Twilio's Messages API: From, To and Body.
abbrev pub Post : Type 0
Post = (from to body : Text) → Option String

pub record TwilioSender : Type 0 where
  pub whatsapp_from : Text
  pub sms_from : Text
  pub post : Post

-- A task's payload; one that does not decode is `none` at the handler.
pub record MessagePayload : Type 0 where
  pub to : Text
  pub message : Text
  pub notification_job_id : String

-- "+91" and "+"
abbrev pub plus_91 : Text → Text
plus_91 s = b'+' ∷ b'9' ∷ b'1' ∷ s

abbrev pub plus : Text → Text
plus s = b'+' ∷ s

abbrev pub with_country : Text → Text
with_country digits =
    if length digits == 10
    then plus_91 digits
    else if has_prefix digits (b'9' ∷ b'1' ∷ []) && length digits == 12
    then plus digits
    else if has_prefix digits (b'0' ∷ []) && length digits == 11
    then plus_91 (drop 1 digits)
    else plus digits

unfoldable pub normalise_phone : Text → Text
normalise_phone contact = with_country (select is_digit contact)

unfoldable pub send_whatsapp : TwilioSender → (to message : Text) → Option String
send_whatsapp s to message =
    s.post s.whatsapp_from (codes "whatsapp:" ++ normalise_phone to) message

unfoldable pub send_sms : TwilioSender → (to message : Text) → Option String
send_sms s to message = s.post s.sms_from (normalise_phone to) message

abbrev pub sent : String → ℕ → NotificationJob → NotificationJob
sent sid t j = record j { status = job_status_sent; twilio_sid = some sid; sent_at = some t }

abbrev pub failed : NotificationJob → NotificationJob
failed j = record j { status = job_status_failed }

module _ (pg : Postgres) where
  -- UPDATE notification_jobs … WHERE id = $n::uuid
  unfoldable pub write_jobs : String → (NotificationJob → NotificationJob) → Action (Unit {0})
  write_jobs job change = do
    statement
    id ← or_fail (pg.parse_uuid job) internal
    modify (λ w. put_jobs (update (is_job id) change w.jobs) w)

  unfoldable pub mark_job_sent : (job sid : String) → Action (Unit {0})
  mark_job_sent job sid = do t ← now; write_jobs job (sent sid t)

  -- A database error is logged and not returned.
  unfoldable pub mark_job_failed : String → Action (Unit {0})
  mark_job_failed job w = (ok tt, (write_jobs job failed w).1)

  abbrev pub after_send : String → Option String → Action (Unit {0})
  after_send job none = mark_job_failed job >> fail internal
  after_send job (some sid) = mark_job_sent job sid

  -- HandleWhatsApp and HandleSMS; the sender is `none` without Twilio's credentials.
  unfoldable pub handle_message :
      (TwilioSender → (to message : Text) → Option String)
      → Option TwilioSender
      → Option MessagePayload
      → Action (Unit {0})
  handle_message send sender none = fail internal
  handle_message send none (some p) = mark_job_failed p.notification_job_id
  handle_message send (some s) (some p) = after_send p.notification_job_id (send s p.to p.message)

  unfoldable pub handle_whatsapp : Option TwilioSender → Option MessagePayload → Action (Unit {0})
  handle_whatsapp = handle_message send_whatsapp

  unfoldable pub handle_sms : Option TwilioSender → Option MessagePayload → Action (Unit {0})
  handle_sms = handle_message send_sms
