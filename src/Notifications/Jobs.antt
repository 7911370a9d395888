-- ===== src/Notifications/Jobs.antt =====
-- A job's way through CreateJob, UpdateJobStatus and GetJob of backend/internal/services/notification.go.
use realstate_allan.Properties.Service.{is_row}
use realstate_allan.World.{World, Result}
use realstate_allan.Models.{NotificationJob, job_status_pending}
use realstate_allan.Notifications.{create_job, insert_job, is_job, ok, err}
use realstate_allan.Common.{
  ℕ, Option, List, String, find, Bool-cases, inl, ◌≡◌, inr, none, ◌++◌, Option-cases, ◌∷◌, ◌+◌, [],
  holds_if_set, some, is_some, find-append, ==_self, refl,
}

find-append_new :
    (id : ℕ) (xs : List NotificationJob) (y : NotificationJob)
    → find (is_job id) xs ≡ none
    → y.id ≡ id
    → find (is_job id) (xs ++ y ∷ []) ≡ some y
find-append_new id xs y h e = find-append (is_job id) xs y h (rw e (==_self id))

-- How CreateJob may end.
abbrev pub CreatesJob : Option ℕ → String → World → Result ℕ × World → Type 0
CreatesJob property_id job_type w (ok id, v) =
    (row : NotificationJob) × (v.jobs ≡ w.jobs ++ row ∷ [])
    × (find (is_job id) w.jobs ≡ none)
    × (find (is_job id) v.jobs ≡ some row)
    × (row.property_id ≡ property_id)
    × (row.job_type ≡ job_type)
    × (row.status ≡ job_status_pending)
    × (row.sent_at ≡ none)
CreatesJob property_id job_type w (err e, v) = v.jobs ≡ w.jobs

-- A job that is created has an id that no job had, is PENDING and not sent, of the property and
-- the type given, and is what the table then holds under its id; the table is the old one with
-- that row at the end. A creation that fails changes no job.
pub create_job-CreatesJob :
    (property_id : Option ℕ) (job_type : String) (w : World)
    → CreatesJob property_id job_type w (create_job property_id job_type w)
unfolding create_job insert_job
create_job-CreatesJob property_id job_type w = elim (Bool-cases (w.oracle.fault w.tick)) [
  | inl e ↦ rw e refl
  | inr e ↦ rw e (elim (Option-cases (find (is_job (w.oracle.fresh (w.tick + 1))) w.jobs)) [
    | inr (j, f) ↦ rw f refl
    | inl f ↦
        rw f
          (elim (Bool-cases
            (holds_if_set property_id λ i. is_some (find (is_row i) w.properties))) [
              | inr g ↦ rw g refl
              | inl g ↦ rw g (
                _,
                refl,
                f,
                find-append_new (w.oracle.fresh (w.tick + 1)) w.jobs _ f refl,
                refl,
                refl,
                refl,
                refl,
              )
            ])
  ])
]
