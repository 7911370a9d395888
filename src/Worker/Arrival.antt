-- ===== src/Worker/Arrival.antt =====
-- A reminder from HandleStale to its WhatsApp message, in backend/internal/worker/dispatcher.go, where nothing fails.
use realstate_allan.Common.{
  ℕ, ◌≡◌, List, Text, false, ◌+◌, ◌++◌, not, Bool-cases, find, ◌∷◌, text_eq, none, [], ◌&&◌, some,
  refl, true, inl, inr, sym, append-nil, String, ◌∙◌, is_some, ◌||◌, ap, codes, append_assoc,
  find-update_found, find-append, ==_self, subst, arith, ◌==◌,
}
use realstate_allan.Properties.Service.{is_row}
use realstate_allan.Notifications.{insert_job, is_job}
use realstate_allan.Worker.{
  normalise_phone, send_whatsapp, Post, sent, handle_whatsapp, handle_message, mark_job_sent,
  write_jobs,
}
use realstate_allan.Worker.Tasks.{
  attempt, when_set, Dispatcher, notify_owner, format_stale_message, insert_stale_job, run_task,
  sender_of, handle_stale,
}
use realstate_allan.World.{World, Result, ok, >>=-ok}
use realstate_allan.External.{Postgres, Libraries}
use realstate_allan.Stale.{enqueue, enqueue_whatsapp, enqueue_sms}
use realstate_allan.Models.{
  Task, notify_whatsapp, notify_sms, NotificationJob, job_type_stale_listing, job_status_pending,
}

abbrev pub IsQuiet : World → Type 0
IsQuiet w = (n : ℕ) → w.oracle.fault n ≡ false

attempt_runs :
    (t : Task) (w : World)
    → IsQuiet w
    → attempt (enqueue t) w ≡ (ok tt, record w { tick = w.tick + 1; queue = w.queue ++ t ∷ [] })
unfolding enqueue
attempt_runs t w q = rw (q w.tick) refl

-- A step after which nothing fails still and that has queued these tasks.
abbrev Queues : World → List Task → Result (Unit {0}) × World → Type 0
Queues w tasks r =
    (v : World) × (r ≡ (ok tt, v)) × IsQuiet v × (v.jobs ≡ w.jobs) × (v.queue ≡ w.queue ++ tasks)

when_set-Queues :
    (from contact : Text) (t : Task) (w : World)
    → IsQuiet w
    → (not (text_eq from []) && not (text_eq contact [])) ≡ true
    → Queues w (t ∷ []) (when_set from contact (enqueue t) w)
when_set-Queues from contact t w q e = rw (when_set, e) (_, attempt_runs t w q, q, refl, refl)

when_set-maybe :
    (from contact : Text) (t : Task) (w : World)
    → IsQuiet w
    → (rest : List Task) × Queues w rest (when_set from contact (enqueue t) w)
when_set-maybe from contact t w q =
    elim (Bool-cases (not (text_eq from []) && not (text_eq contact []))) [
      | inl e ↦ (t ∷ [], when_set-Queues from contact t w q e)
      | inr e ↦ ([], rw (when_set, e) (w, refl, q, refl, sym (append-nil w.queue)))
    ]

abbrev pub pending : (id property_id t : ℕ) → NotificationJob
pending id property_id t = record {
  id = id;
  property_id = some property_id;
  job_type = job_type_stale_listing;
  status = job_status_pending;
  twilio_sid = none;
  scheduled_at = some t;
  sent_at = none;
  created_at = t;
}

module _ (pg : Postgres) (lib : Libraries) (d : Dispatcher) where
  abbrev Notifies : Text → ℕ → String → World → Result (Unit {0}) × World → Type 0
  Notifies contact days job w r =
      (rest : List Task) × Queues w
        (notify_whatsapp (normalise_phone contact) (format_stale_message days) job ∷ rest) r

  notify_owner-Notifies :
      (contact : Text) (days : ℕ) (job : String) (w : World)
      → IsQuiet w
      → (not (text_eq d.whatsapp_from []) && not (text_eq contact [])) ≡ true
      → Notifies contact days job w (notify_owner pg lib d contact days job w)
  unfolding notify_owner enqueue_whatsapp enqueue_sms
  notify_owner-Notifies contact days job w q e =
      let a = notify_whatsapp (normalise_phone contact) (format_stale_message days) job in
      let b = notify_sms (normalise_phone contact) (format_stale_message days) job in
      let (u, h, quiet_u, jobs_u, queue_u) = when_set-Queues d.whatsapp_from contact a w q e in
      let (rest, (v, k, quiet_v, jobs_v, queue_v)) =
        when_set-maybe d.sms_from contact b u quiet_u in
      (
        rest,
        (
          v,
          >>=-ok (when_set d.whatsapp_from contact (enqueue a))
                (λ _. when_set d.sms_from contact (enqueue b)) w h
              ∙ k,
          quiet_v,
          jobs_v ∙ jobs_u,
          queue_v ∙ ap (λ l. l ++ rest) queue_u ∙ append_assoc w.queue (a ∷ []) rest,
        ),
      )

  insert_stale_job_runs :
      (property : String) (property_id : ℕ) (w : World)
      → IsQuiet w
      → pg.parse_uuid property ≡ some property_id
      → is_some (find (is_row property_id) w.properties) ≡ true
      → find (is_job (w.oracle.fresh (w.tick + 1))) w.jobs ≡ none
      → insert_stale_job pg lib d property w ≡ (
        ok (w.oracle.fresh (w.tick + 1)),
        record w {
          tick = w.tick + 1 + 1 + 1;
          jobs =
              w.jobs
              ++ pending (w.oracle.fresh (w.tick + 1)) property_id (w.oracle.clock (w.tick + 1 + 1))
                ∷ [];
        },
      )
  unfolding insert_stale_job insert_job
  insert_stale_job_runs property property_id w q f h g = rw (q w.tick, f, g, h) refl

  module _ (post : Post) where
    -- The job, created at t and sent at s.
    abbrev pub Sent : (id property_id t s : ℕ) → (sid : String) → Result (Unit {0}) × World → Type 0
    Sent id property_id t s sid r =
        (r.0 ≡ ok tt)
        × (find (λ j. j.id == id) r.1.jobs
            ≡ some (record {
              id = id;
              property_id = some property_id;
              job_type = "STALE_LISTING";
              status = "SENT";
              twilio_sid = some sid;
              scheduled_at = some t;
              sent_at = some s;
              created_at = t;
            }))

    run_task-Sent :
        (id property_id t : ℕ) (to message : Text) (sid : String) (jobs : List NotificationJob)
        (v : World)
        → IsQuiet v
        → v.jobs ≡ jobs ++ pending id property_id t ∷ []
        → find (is_job id) jobs ≡ none
        → pg.parse_uuid (lib.show_uuid id) ≡ some id
        → (text_eq d.twilio_sid [] || text_eq d.twilio_auth []) ≡ false
        → post d.whatsapp_from (codes "whatsapp:" ++ normalise_phone to) message ≡ some sid
        → Sent id property_id t
            (v.oracle.clock v.tick)
            sid
            (run_task pg lib d post (notify_whatsapp to message (lib.show_uuid id)) v)
    unfolding run_task handle_whatsapp handle_message sender_of send_whatsapp mark_job_sent
        write_jobs
    run_task-Sent id property_id t to message sid jobs v q same unused back credentials answers =
        rw (credentials, answers, q (v.tick + 1), back)
          (
            refl,
            find-update_found (is_job id) (sent sid (v.oracle.clock v.tick)) v.jobs (λ y e. e)
                (ap (find (is_job id)) same
                  ∙ find-append (is_job id) jobs (pending id property_id t) unused (==_self id)),
          )

    -- The reminder's task ends well, its WhatsApp message is the next in the queue, and working that off ends
    -- well with the job SENT.
    abbrev pub Arrives : String → (id property_id : ℕ) → Text → ℕ → (sid : String) → World → Type 0
    Arrives property id property_id contact days sid w =
        let (r, v) = handle_stale pg lib d property contact days w in
        let task =
          notify_whatsapp (normalise_phone contact) (format_stale_message days)
            (lib.show_uuid id) in
        (rest : List Task) × (r ≡ ok tt)
        × (v.queue ≡ w.queue ++ task ∷ rest)
        × Sent id property_id (w.oracle.clock (w.tick + 2)) (v.oracle.clock v.tick) sid
            (run_task pg lib d post task v)

    -- Where no statement fails, for a property of the table, an id that no job has and that
    -- reads back from its text, an owner with a contact, Twilio's credentials and number set
    -- and Twilio taking the message under a SID: the reminder's task ends well and the next
    -- thing in the queue is its WhatsApp message, and the worker's run of that message ends
    -- well with the reminder's job SENT under this SID and the clock's time, and else as it was
    -- inserted.
    pub handle_stale-Arrives :
        (property : String) (property_id : ℕ) (contact : Text) (days : ℕ) (sid : String) (w : World)
        → IsQuiet w
        → pg.parse_uuid property ≡ some property_id
        → is_some (find (is_row property_id) w.properties) ≡ true
        → find (is_job (w.oracle.fresh (w.tick + 1))) w.jobs ≡ none
        → pg.parse_uuid (lib.show_uuid (w.oracle.fresh (w.tick + 1)))
          ≡ some (w.oracle.fresh (w.tick + 1))
        → (not (text_eq d.whatsapp_from []) && not (text_eq contact [])) ≡ true
        → (text_eq d.twilio_sid [] || text_eq d.twilio_auth []) ≡ false
        → post d.whatsapp_from
            (codes "whatsapp:" ++ normalise_phone (normalise_phone contact))
            (format_stale_message days)
          ≡ some sid
        → Arrives property (w.oracle.fresh (w.tick + 1)) property_id contact days sid w
    unfolding handle_stale
    handle_stale-Arrives property property_id contact days sid w q f h g back can credentials
          answers =
        let id = w.oracle.fresh (w.tick + 1) in
        let row = pending id property_id (w.oracle.clock (w.tick + 1 + 1)) in
        let u : World = record w { tick = w.tick + 1 + 1 + 1; jobs = w.jobs ++ row ∷ [] } in
        let (rest, (v, e, quiet, jobs, queue)) =
          notify_owner-Notifies contact days (lib.show_uuid id) u q can in
        let runs : handle_stale pg lib d property contact days w ≡ (ok tt, v) =
          >>=-ok (insert_stale_job pg lib d property)
            (λ i. notify_owner pg lib d contact days (lib.show_uuid i)) w
            (insert_stale_job_runs property property_id w q f h g)
          ∙ e in
        let task =
          notify_whatsapp (normalise_phone contact) (format_stale_message days)
            (lib.show_uuid id) in
        subst
          (λ (r : Result (Unit {0}) × World).
            (rest : List Task) × (r.0 ≡ ok tt)
            × (r.1.queue ≡ w.queue ++ task ∷ rest)
            × Sent id property_id (w.oracle.clock (w.tick + 2)) (r.1.oracle.clock r.1.tick) sid
                (run_task pg lib d post task r.1))
          (sym runs)
          (
            rest,
            refl,
            queue,
            run_task-Sent id property_id (w.oracle.clock (w.tick + 2)) (normalise_phone contact)
                (format_stale_message days) sid w.jobs v quiet
                (jobs
                  ∙ ap (λ n. w.jobs ++ pending id property_id (w.oracle.clock n) ∷ [])
                      (omega arith))
                g back credentials answers,
          )
