-- ===== src/Notifications/Stamps.antt =====
-- The status and the sending time of a notification job.
use realstate_allan.Properties.Service.{is_row}
use realstate_allan.World.Keeps.{Keeps, >>=-Keeps}
use realstate_allan.Notifications.{create_job, update_job_status, insert_job, is_job}
use realstate_allan.Common.{
  List, is_some, All, Bool, ℕ, ◌≡◌, ◌++◌, update, Option, String, str_eq, ◌∷◌, [], Bool-cases, inl,
  inr, ◌+◌, find, sym, ◌||◌, not, none, holds_if_set, some, refl,
}
use realstate_allan.World.{World, statement, fresh_uuid, now, pure}
use realstate_allan.Models.{NotificationJob, job_status_sent, job_status_pending}

abbrev pub IsStamped : NotificationJob → Type 0
IsStamped j = is_some j.sent_at ≡ str_eq j.status job_status_sent

abbrev Stamped : World → Type 0
Stamped w = All IsStamped w.jobs

All-concat :
    (xs : List NotificationJob) (y : NotificationJob)
    → All IsStamped xs
    → IsStamped y
    → All IsStamped (xs ++ y ∷ [])
All-concat [] y h k = (k, tt)
All-concat (x ∷ xs) y (a, h) k = (a, All-concat xs y h k)

All-update :
    (hit : NotificationJob → Bool) (f : NotificationJob → NotificationJob)
    (xs : List NotificationJob)
    → ((x : NotificationJob) → IsStamped (f x))
    → All IsStamped xs
    → All IsStamped (update hit f xs)
All-update hit f [] k h = tt
All-update hit f (x ∷ xs) k (a, h) = elim (Bool-cases (hit x)) [
  | inl e ↦ rw e (k x, All-update hit f xs k h)
  | inr e ↦ rw e (a, All-update hit f xs k h)
]

statement-Stamped : Keeps Stamped statement
statement-Stamped = record { keeps = λ w h. h }

fresh_uuid-Stamped : Keeps Stamped fresh_uuid
fresh_uuid-Stamped = record { keeps = λ w h. h }

now-Stamped : Keeps Stamped now
now-Stamped = record { keeps = λ w h. h }

pure-Stamped : {A : Type 0} (a : A) → Keeps Stamped (pure a)
pure-Stamped a = record { keeps = λ w h. h }

insert_job-Stamped : (row : NotificationJob) → IsStamped row → Keeps Stamped (insert_job row)
unfolding insert_job
insert_job-Stamped row stamped = record {
  keeps = λ w h.
      elim (Bool-cases (
        is_some (find (is_job row.id) w.jobs)
        || not (holds_if_set row.property_id λ i. is_some (find (is_row i) w.properties)))) [
          | inl e ↦ rw e h
          | inr e ↦ rw e (All-concat w.jobs row h stamped)
        ];
}

create_job-Stamped :
    (property_id : Option ℕ) (job_type : String) → Keeps Stamped (create_job property_id job_type)
unfolding create_job
create_job-Stamped property_id job_type = >>=-Keeps statement-Stamped λ _.
    >>=-Keeps fresh_uuid-Stamped λ id. >>=-Keeps now-Stamped λ t.
      >>=-Keeps
        (insert_job-Stamped
          (record {
            id = id;
            property_id = property_id;
            job_type = job_type;
            status = job_status_pending;
            twilio_sid = none;
            scheduled_at = some t;
            sent_at = none;
            created_at = t;
          })
          refl)
        λ _. pure-Stamped id

update_job_status-Stamped :
    (id : ℕ) (status twilio_sid : String) → Keeps Stamped (update_job_status id status twilio_sid)
unfolding update_job_status
update_job_status-Stamped id status twilio_sid = record {
  keeps = λ w h. elim (Bool-cases (str_eq status job_status_sent)) [
    | inl e ↦ rw e (elim (Bool-cases (w.oracle.fault (w.tick + 1))) [
      | inl f ↦ rw f h
      | inr f ↦ rw f (All-update (is_job id) _ w.jobs (λ x. sym e) h)
    ])
    | inr e ↦ rw e (elim (Bool-cases (w.oracle.fault w.tick)) [
      | inl f ↦ rw f h
      | inr f ↦ rw f (All-update (is_job id) _ w.jobs (λ x. sym e) h)
    ])
  ];
}

-- A call that writes the table.
pub data JobCall : Type 0 where
  create_call : (property_id : Option ℕ) → (job_type : String) → JobCall
  status_call : (id : ℕ) → (status twilio_sid : String) → JobCall

unfoldable pub after_job_call : JobCall → World → World
after_job_call (create_call property_id job_type) w = (create_job property_id job_type w).1
after_job_call (status_call id status twilio_sid) w = (update_job_status id status twilio_sid w).1

-- The world after a sequence of calls.
abbrev pub after_job_calls : List JobCall → World → World
after_job_calls [] w = w
after_job_calls (c ∷ cs) w = after_job_calls cs (after_job_call c w)

after_job_call-Stamped : (c : JobCall) (w : World) → Stamped w → Stamped (after_job_call c w)
unfolding after_job_call
after_job_call-Stamped (create_call property_id job_type) w h =
    (create_job-Stamped property_id job_type).keeps w h
after_job_call-Stamped (status_call id status twilio_sid) w h =
    (update_job_status-Stamped id status twilio_sid).keeps w h

-- Where every job has a sending time exactly if its status is SENT, this holds after any
-- sequence of CreateJob and UpdateJobStatus, however they end.
pub after_job_calls-IsStamped :
    (cs : List JobCall) (w : World)
    → All IsStamped w.jobs
    → All IsStamped (after_job_calls cs w).jobs
after_job_calls-IsStamped [] w h = h
after_job_calls-IsStamped (c ∷ cs) w h =
    after_job_calls-IsStamped cs (after_job_call c w) (after_job_call-Stamped c w h)
