-- ===== src/Worker/Reminder.antt =====
-- What HandleStale of backend/internal/worker/dispatcher.go leaves: a job and the messages in the queue.
use realstate_allan.Properties.Service.{is_row}
use realstate_allan.Notifications.{insert_job, is_job}
use realstate_allan.Worker.{normalise_phone}
use realstate_allan.Stale.Scan.{IsSublist, skip, done, keep}
use realstate_allan.Worker.Tasks.{
  attempt, when_set, Dispatcher, notify_owner, format_stale_message, insert_stale_job, handle_stale,
}
use realstate_allan.World.{World, Result, ok, >>=-ok, resume, err}
use realstate_allan.External.{Postgres, Libraries}
use realstate_allan.Common.{
  Text, List, ℕ, String, ◌≡◌, Bool-cases, ◌++◌, ◌⊎◌, ◌∷◌, inl, not, [], ◌+◌, text_eq, inr, ◌&&◌,
  refl, ◌∙◌, sym, append-nil, ap, append_assoc, some, find, Option-cases, subst, none, is_some,
}
use realstate_allan.Stale.{enqueue, enqueue_whatsapp, enqueue_sms}
use realstate_allan.Models.{
  Task, notify_whatsapp, notify_sms, NotificationJob, job_type_stale_listing, job_status_pending,
}

abbrev Steps : Task → World → Result (Unit {0}) × World → Type 0
Steps t w r =
    (v : World) × (r ≡ (ok tt, v))
    × (v.jobs ≡ w.jobs)
    × ((v.queue ≡ w.queue) ⊎ (v.queue ≡ w.queue ++ t ∷ []))

attempt-Steps : (t : Task) (w : World) → Steps t w (attempt (enqueue t) w)
unfolding enqueue
attempt-Steps t w = elim (Bool-cases (w.oracle.fault w.tick)) [
  | inl e ↦ (record w { tick = w.tick + 1 }, rw e refl, refl, inl refl)
  | inr e ↦ (record w { tick = w.tick + 1; queue = w.queue ++ t ∷ [] }, rw e refl, refl, inr refl)
]

when_set-Steps :
    (from contact : Text) (t : Task) (w : World) → Steps t w (when_set from contact (enqueue t) w)
when_set-Steps from contact t w =
    elim (Bool-cases (not (text_eq from []) && not (text_eq contact []))) [
      | inl e ↦ rw (when_set, e) (attempt-Steps t w)
      | inr e ↦ rw (when_set, e) (w, refl, refl, inl refl)
    ]

abbrev pub messages : Text → ℕ → String → List Task
messages contact days job =
    notify_whatsapp (normalise_phone contact) (format_stale_message days) job
    ∷ notify_sms (normalise_phone contact) (format_stale_message days) job
    ∷ []

abbrev pub Notified : List Task → World → World → Type 0
Notified tasks w v = (added : List Task) × IsSublist added tasks × (v.queue ≡ w.queue ++ added)

both :
    (a b : Task) (w u v : World)
    → (u.queue ≡ w.queue) ⊎ (u.queue ≡ w.queue ++ a ∷ [])
    → (v.queue ≡ u.queue) ⊎ (v.queue ≡ u.queue ++ b ∷ [])
    → Notified (a ∷ b ∷ []) w v
both a b w u v (inl e) (inl f) =
    ([], skip a [] (b ∷ []) (skip b [] [] done), f ∙ e ∙ sym (append-nil w.queue))
both a b w u v (inl e) (inr f) =
    (b ∷ [], skip a (b ∷ []) (b ∷ []) (keep b [] [] done), f ∙ ap (λ q. q ++ b ∷ []) e)
both a b w u v (inr e) (inl f) = (a ∷ [], keep a [] (b ∷ []) (skip b [] [] done), f ∙ e)
both a b w u v (inr e) (inr f) = (
  a ∷ b ∷ [],
  keep a (b ∷ []) (b ∷ []) (keep b [] [] done),
  f ∙ ap (λ q. q ++ b ∷ []) e ∙ append_assoc w.queue (a ∷ []) (b ∷ []),
)

module _ (pg : Postgres) (lib : Libraries) (d : Dispatcher) where
  abbrev Sends : Text → ℕ → String → World → Result (Unit {0}) × World → Type 0
  Sends contact days job w r =
      (v : World) × (r ≡ (ok tt, v)) × (v.jobs ≡ w.jobs) × Notified (messages contact days job) w v

  notify_owner-Sends :
      (contact : Text) (days : ℕ) (job : String) (w : World)
      → Sends contact days job w (notify_owner pg lib d contact days job w)
  unfolding notify_owner enqueue_whatsapp enqueue_sms
  notify_owner-Sends contact days job w =
      let a = notify_whatsapp (normalise_phone contact) (format_stale_message days) job in
      let b = notify_sms (normalise_phone contact) (format_stale_message days) job in
      let (u, e, j, p) = when_set-Steps d.whatsapp_from contact a w in
      let (v, f, k, q) = when_set-Steps d.sms_from contact b u in
      (
        v,
        >>=-ok (when_set d.whatsapp_from contact (enqueue a))
              (λ _. when_set d.sms_from contact (enqueue b)) w e
            ∙ f,
        k ∙ j,
        both a b w u v p q,
      )

  -- How the task may end.
  abbrev pub Reminds : String → Text → ℕ → World → Result (Unit {0}) × World → Type 0
  Reminds property contact days w (ok _, v) =
      (property_id : ℕ) × (id : ℕ) × (row : NotificationJob) × (pg.parse_uuid property
        ≡ some property_id)
      × (find (is_job id) w.jobs ≡ none)
      × (v.jobs ≡ w.jobs ++ row ∷ [])
      × (row.id ≡ id)
      × (row.property_id ≡ some property_id)
      × (row.job_type ≡ job_type_stale_listing)
      × (row.status ≡ job_status_pending)
      × Notified (messages contact days (lib.show_uuid id)) w v
  Reminds property contact days w (err e, v) = (v.jobs ≡ w.jobs) × (v.queue ≡ w.queue)

  stale_row : (id property_id t : ℕ) → NotificationJob
  stale_row id property_id t = record {
    id = id;
    property_id = some property_id;
    job_type = job_type_stale_listing;
    status = job_status_pending;
    twilio_sid = none;
    scheduled_at = some t;
    sent_at = none;
    created_at = t;
  }

  abbrev Inserts : String → World → Result ℕ × World → Type 0
  Inserts property w (ok id, v) =
      (property_id : ℕ) × (t : ℕ) × (pg.parse_uuid property ≡ some property_id)
      × (find (is_job id) w.jobs ≡ none)
      × (v.jobs ≡ w.jobs ++ stale_row id property_id t ∷ [])
      × (v.queue ≡ w.queue)
  Inserts property w (err e, v) = (v.jobs ≡ w.jobs) × (v.queue ≡ w.queue)

  insert_stale_job-Inserts :
      (property : String) (w : World) → Inserts property w (insert_stale_job pg lib d property w)
  unfolding insert_stale_job insert_job stale_row
  insert_stale_job-Inserts property w = elim (Bool-cases (w.oracle.fault w.tick)) [
    | inl e ↦ rw (Inserts, e) (refl, refl)
    | inr e ↦ elim (Option-cases (pg.parse_uuid property)) [
      | inl f ↦ rw (Inserts, e, f) (refl, refl)
      | inr (property_id, f) ↦
          elim (Option-cases (find (is_job (w.oracle.fresh (w.tick + 1))) w.jobs)) [
            | inr (j, g) ↦ rw (Inserts, e, f, g) (refl, refl)
            | inl g ↦ elim (Bool-cases (is_some (find (is_row property_id) w.properties))) [
              | inr h ↦ rw (Inserts, e, f, g, h) (refl, refl)
              | inl h ↦
                  rw (Inserts, e, f, g, h)
                    (property_id, w.oracle.clock (w.tick + 1 + 1), f, g, refl, refl)
            ]
          ]
    ]
  ]

  after_insert :
      (property : String) (contact : Text) (days : ℕ) (w : World) (r : Result ℕ × World)
      → Inserts property w r
      → Reminds property contact days w
          (resume (λ id. notify_owner pg lib d contact days (lib.show_uuid id)) r)
  unfolding stale_row
  after_insert property contact days w (err e, v) h = h
  after_insert property contact days w (ok id, v) (property_id, t, p, fresh, jobs, queue) =
      let (u, e, j, (added, s, q)) = notify_owner-Sends contact days (lib.show_uuid id) v in
      subst (Reminds property contact days w) (sym e) (
        property_id,
        id,
        stale_row id property_id t,
        p,
        fresh,
        j ∙ jobs,
        refl,
        refl,
        refl,
        refl,
        (added, s, q ∙ ap (λ t. t ++ added) queue),
      )

  -- A reminder that ends well has added one PENDING job for the property, under an id that no
  -- job had, and for the owner's contact a WhatsApp and an SMS message about that job to the
  -- queue, each at most once and in that order; one that fails has changed neither the jobs nor
  -- the queue.
  pub handle_stale-Reminds :
      (property : String) (contact : Text) (days : ℕ) (w : World)
      → Reminds property contact days w (handle_stale pg lib d property contact days w)
  unfolding handle_stale
  handle_stale-Reminds property contact days w =
      after_insert property contact days w (insert_stale_job pg lib d property w)
        (insert_stale_job-Inserts property w)
