-- ===== src/Tests/Jobs.antt =====
-- Runs of the theorems on notification jobs: backend/internal/services/notification.go.
use realstate_allan.Worker.{TwilioSender, MessagePayload}
use realstate_allan.Notifications.{jobs_limit, jobs_offset, list_notifications}
use realstate_allan.Notifications.Stamps.{
  JobCall, IsStamped, create_call, after_job_calls, status_call, after_job_calls-IsStamped,
}
use realstate_allan.Tests.{world}
use realstate_allan.Notifications.Page.{PagesJobs, list_notifications-PagesJobs}
use realstate_allan.Common.{
  List, All, some, none, ◌∷◌, [], refl, codes, if◌then◌else◌, length, ◌==◌,
}
use realstate_allan.World.{World}
use realstate_allan.Models.{NotificationJob}

abbrev waiting : NotificationJob
waiting = record {
  id = 40;
  property_id = some 10;
  job_type = "STALE_LISTING";
  status = "PENDING";
  twilio_sid = none;
  scheduled_at = some 300;
  sent_at = none;
  created_at = 300;
}

abbrev queue : World
queue = record world { jobs = waiting ∷ [] }

abbrev calls : List JobCall
calls = create_call (some 10) "STALE_LISTING" ∷ status_call 40 "SENT" "SM1" ∷ []

after_job_calls-IsStamped_example : All IsStamped (after_job_calls calls queue).jobs
after_job_calls-IsStamped_example = after_job_calls-IsStamped calls queue (refl, tt)

list_notifications-PagesJobs_example :
    PagesJobs
      (jobs_limit (λ k. ""))
      (jobs_offset (λ k. ""))
      queue
      (list_notifications (λ k. "") queue)
list_notifications-PagesJobs_example = list_notifications-PagesJobs (λ k. "") queue

abbrev sender : TwilioSender
sender = record {
  whatsapp_from = codes "whatsapp:+1415";
  sms_from = codes "+1415";
  post = λ from to body. if length from == 5 then some "SM2" else none;
}

abbrev payload : MessagePayload
payload = record { to = codes "9876543210"; message = codes "Hi!"; notification_job_id = "10" }
