-- ===== src/Worker/Tasks.antt =====
-- backend/internal/worker/dispatcher.go: HandleStale and HandleOCR, the dispatcher's sender, and the
-- routing of NewMux in backend/internal/worker/server.go.
use realstate_allan.Ocr.{is_result_of, has_parents, put_results}
use realstate_allan.Models.{
  job_type_stale_listing, job_status_pending, OcrResult, ocr_status_done, Task, ocr_process_image,
  notify_stale, notify_whatsapp, notify_sms,
}
use realstate_allan.Notifications.{insert_job}
use realstate_allan.Stale.{enqueue_whatsapp, enqueue_sms}
use realstate_allan.External.{Postgres, Libraries}
use realstate_allan.World.{
  Action, ok, ◌>>◌, ◌>>=◌, statement, or_fail, pure, internal, fresh_uuid, now, err,
}
use realstate_allan.Worker.{Post, TwilioSender, normalise_phone, handle_whatsapp, handle_sms}
use realstate_allan.Common.{
  Text, ℕ, Option, codes, if◌then◌else◌, ◌++◌, not, String, text_eq, show_nat, [], ◌||◌, ◌&&◌, none,
  some, is_some, find, ◌∷◌,
}

pub record Dispatcher : Type 0 where
  pub twilio_sid : Text
  pub twilio_auth : Text
  pub whatsapp_from : Text
  pub sms_from : Text

-- A real sender only where both credentials are present.
unfoldable pub sender_of : Dispatcher → Post → Option TwilioSender
sender_of d post =
    if text_eq d.twilio_sid [] || text_eq d.twilio_auth []
    then none
    else some (record { whatsapp_from = d.whatsapp_from; sms_from = d.sms_from; post = post })

unfoldable pub format_stale_message : ℕ → Text
format_stale_message days_unsold =
    codes "Hi! Your property listing has been active for "
    ++ show_nat days_unsold
    ++ codes
        " days without an update. Please contact us to update your listing details or confirm it is still available. Listings are automatically marked inactive after 30 days of no activity."

-- A step whose error is logged and not returned.
abbrev pub attempt : Action (Unit {0}) → Action (Unit {0})
attempt m w = (ok tt, (m w).1)

-- `if d.twilioWAFrom != "" && p.OwnerContact != ""`
abbrev pub when_set : (from contact : Text) → Action (Unit {0}) → Action (Unit {0})
when_set from contact m =
    if not (text_eq from []) && not (text_eq contact []) then attempt m else pure tt

module _ (pg : Postgres) (lib : Libraries) (d : Dispatcher) where
  -- INSERT INTO notification_jobs … VALUES ($1::uuid, …, NOW()) RETURNING id
  unfoldable pub insert_stale_job : String → Action ℕ
  insert_stale_job property = do
    statement
    property_id ← or_fail (pg.parse_uuid property) internal
    id ← fresh_uuid
    t ← now
    insert_job (record {
      id = id;
      property_id = some property_id;
      job_type = job_type_stale_listing;
      status = job_status_pending;
      twilio_sid = none;
      scheduled_at = some t;
      sent_at = none;
      created_at = t;
    })
    pure id

  unfoldable pub notify_owner : (contact : Text) → (days : ℕ) → (job : String) → Action (Unit {0})
  notify_owner contact days job = do
    when_set d.whatsapp_from contact
        (enqueue_whatsapp (normalise_phone contact) (format_stale_message days) job)
    when_set d.sms_from contact
        (enqueue_sms (normalise_phone contact) (format_stale_message days) job)

  unfoldable pub handle_stale : (property_id : String) → Text → ℕ → Action (Unit {0})
  handle_stale property_id contact days = do
    id ← insert_stale_job property_id
    notify_owner contact days (lib.show_uuid id)

-- INSERT INTO ocr_results … ON CONFLICT (photo_id) DO NOTHING
unfoldable pub insert_if_absent : OcrResult → Action (Unit {0})
insert_if_absent row w =
    if is_some (find (is_result_of row.photo_id) w.ocr_results)
    then (ok tt, w)
    else if has_parents row w
    then (ok tt, put_results (w.ocr_results ++ row ∷ []) w)
    else (err internal, w)

module _ (pg : Postgres) where
  unfoldable pub insert_done : (photo_id property_id : String) → Action (Unit {0})
  insert_done photo_id property_id = do
    statement
    photo ← or_fail (pg.parse_uuid photo_id) internal
    property ← or_fail (pg.parse_uuid property_id) internal
    id ← fresh_uuid
    t ← now
    insert_if_absent (record {
      id = id;
      photo_id = photo;
      property_id = property;
      raw_text = none;
      suggestions = [];
      status = ocr_status_done;
      error = none;
      created_at = t;
      updated_at = t;
    })

  -- A failed insertion does not fail the task.
  unfoldable pub handle_ocr : (photo_id property_id : String) → Action (Unit {0})
  handle_ocr photo_id property_id = attempt (insert_done photo_id property_id)

module _ (pg : Postgres) (lib : Libraries) (d : Dispatcher) (post : Post) where
  -- The handler of a task's type.
  unfoldable pub run_task : Task → Action (Unit {0})
  run_task (ocr_process_image photo_id property_id gcs_key) = handle_ocr pg photo_id property_id
  run_task (notify_stale property_id contact days) = handle_stale pg lib d property_id contact days
  run_task (notify_whatsapp to message job) =
      handle_whatsapp pg (sender_of d post)
        (some (record { to = to; message = message; notification_job_id = job }))
  run_task (notify_sms to message job) =
      handle_sms pg (sender_of d post)
        (some (record { to = to; message = message; notification_job_id = job }))
