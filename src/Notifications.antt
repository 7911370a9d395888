-- ===== src/Notifications.antt =====
-- backend/internal/services/notification.go over the table notification_jobs, and the handlers List
-- and Get of backend/internal/handlers/notifications.go. A failed scan counts as a failed statement.
use realstate_allan.Properties.Service.{is_row}
use realstate_allan.Respond.{Handler, Response, respond_to, error, paginated, reply, json}
use realstate_allan.Handlers.{clamp_int, max0, parse_int_query}
use realstate_allan.External.{Postgres}
use realstate_allan.World.{
  Error, World, Action, ◌>>◌, ◌>>=◌, statement, job_not_found, fresh_uuid, ok, modify, fail_if,
  gets, now, or_fail, internal, pure, err,
}
use realstate_allan.Common.Int.{ℤ, pos, ltb_ℤ, to_nat}
use realstate_allan.Models.{NotificationJob, job_status_sent, job_status_pending}
use realstate_allan.Common.{
  ℕ, List, Option, String, Bool, if◌then◌else◌, ◌∷◌, ◌==◌, is_some, str_eq, ltb, false, true, [],
  find, none, some, ◌||◌, not, ◌+◌, update, holds_if_set, take, ◌++◌, drop, select, length, sort_by,
}
pub mod Stamps
pub mod Jobs
pub mod Page

abbrev pub is_job : ℕ → NotificationJob → Bool
is_job id j = j.id == id

abbrev pub put_jobs : List NotificationJob → World → World
put_jobs jobs w = record w { jobs = jobs }

-- INSERT INTO notification_jobs: the primary key, and a property that is given must exist.
unfoldable pub insert_job : NotificationJob → Action (Unit {0})
insert_job row w =
    if is_some (find (is_job row.id) w.jobs)
      || not (holds_if_set row.property_id λ i. is_some (find (is_row i) w.properties))
    then (err internal, w)
    else (ok tt, put_jobs (w.jobs ++ row ∷ []) w)

-- NOW() is one time within a statement.
unfoldable pub create_job : Option ℕ → String → Action ℕ
create_job property_id job_type = do
  statement
  id ← fresh_uuid
  t ← now
  insert_job (record {
    id = id;
    property_id = property_id;
    job_type = job_type;
    status = job_status_pending;
    twilio_sid = none;
    scheduled_at = some t;
    sent_at = none;
    created_at = t;
  })
  pure id

-- The time of sending, for SENT alone.
abbrev pub sent_time : String → Action (Option ℕ)
sent_time status w =
    if str_eq status job_status_sent
    then (ok (some (w.oracle.clock w.tick)), record w { tick = w.tick + 1 })
    else (ok none, w)

-- NULLIF(sid, '')
abbrev pub null_if_empty : String → Option String
null_if_empty s = if str_eq s "" then none else some s

abbrev pub mark : String → String → Option ℕ → NotificationJob → NotificationJob
mark status twilio_sid sent_at j = record j {
  status = status;
  twilio_sid = null_if_empty twilio_sid;
  sent_at = sent_at;
}

-- A job that does not exist is no error.
unfoldable pub update_job_status : ℕ → (status twilio_sid : String) → Action (Unit {0})
update_job_status id status twilio_sid = do
  sent_at ← sent_time status
  statement
  modify (λ w. put_jobs (update (is_job id) (mark status twilio_sid sent_at) w.jobs) w)

-- ORDER BY created_at DESC
unfoldable pub newest_jobs : List NotificationJob → List NotificationJob
newest_jobs = sort_by λ p q. ltb p.created_at q.created_at

pub record JobList : Type 0 where
  pub jobs : List NotificationJob
  pub total : ℕ

abbrev holds_some : Option ℕ → ℕ → Bool
holds_some none i = false
holds_some (some j) i = j == i

abbrev pub of_property : ℕ → NotificationJob → Bool
of_property property j = holds_some j.property_id property

-- PostgreSQL refuses a LIMIT or an OFFSET below 0.
unfoldable pub list_jobs : (NotificationJob → Bool) → (limit offset : ℤ) → Action JobList
list_jobs wanted limit offset = do
  statement
  fail_if (ltb_ℤ limit (pos 0) || ltb_ℤ offset (pos 0)) internal
  found ←
      gets (λ w. take (to_nat limit) (drop (to_nat offset) (newest_jobs (select wanted w.jobs))))
  statement
  total ← gets (λ w. length (select wanted w.jobs))
  pure (record { jobs = found; total = total })

unfoldable pub list_all : (limit offset : ℤ) → Action JobList
list_all = list_jobs λ j. true

unfoldable pub list_for_property : ℕ → (limit offset : ℤ) → Action JobList
list_for_property property = list_jobs (of_property property)

unfoldable pub get_job : ℕ → Action NotificationJob
get_job id = do statement; jobs ← gets (λ w. w.jobs); or_fail (find (is_job id) jobs) job_not_found

abbrev pub jobs_limit : (String → String) → ℤ
jobs_limit q = clamp_int (parse_int_query (q "limit") (pos 50)) (pos 1) (pos 200)

abbrev pub jobs_offset : (String → String) → ℤ
jobs_offset q = max0 (parse_int_query (q "offset") (pos 0))

unfoldable pub list_notifications : (String → String) → Handler (List NotificationJob)
list_notifications q =
    respond_to (list_all (jobs_limit q) (jobs_offset q))
      (λ r.
        paginated r.jobs "Notifications retrieved successfully" (jobs_limit q) (jobs_offset q)
          r.total)
      (λ e. error 500 "INTERNAL_ERROR" "failed to list notifications")

abbrev pub job_error : {A : Type 0} → Error → Response A
job_error job_not_found = error 404 "NOT_FOUND" "notification job not found"
job_error _ = error 500 "INTERNAL_ERROR" "failed to get notification job"

unfoldable pub get_notification : Postgres → String → Handler NotificationJob
get_notification pg param = elim (pg.parse_uuid param) [
  | none ↦ reply (error 400 "VALIDATION_FAILED" "invalid job ID")
  | some id ↦
      respond_to (get_job id) (λ j. json 200 j "Notification job retrieved successfully") job_error
]
