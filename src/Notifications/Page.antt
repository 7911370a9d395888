-- ===== src/Notifications/Page.antt =====
-- The page that List of backend/internal/handlers/notifications.go answers with.
use realstate_allan.Handlers.Properties.Listing.{clamp_int_bounds}
use realstate_allan.Respond.{Response, respond_to, error}
use realstate_allan.World.{World}
use realstate_allan.Models.{NotificationJob}
use realstate_allan.Notifications.{
  list_all, list_notifications, list_jobs, jobs_limit, paginated, jobs_offset, newest_jobs, json,
}
use realstate_allan.Handlers.{clamp_int, max0, parse_int_query}
use realstate_allan.Common.Int.{ℤ, ltb_ℤ, pos, to_nat, negsuc}
use realstate_allan.Common.{
  List, String, select, true, ◌≡◌, ◌∷◌, take, false, ap, arith, drop, ◌≤◌, [], refl, length, ◌⊎◌,
  Bool-cases, ◌+◌, inl, inr, length-take-le, IsSortOf, sort_by-IsSortOf, ltb,
}

select-all : (xs : List NotificationJob) → select (λ j. true) xs ≡ xs
select-all [] = refl
select-all (x ∷ xs) = ap (λ ys. x ∷ ys) (select-all xs)

-- The jobs of the first list, none before a newer one.
abbrev pub IsNewestFirst : List NotificationJob → List NotificationJob → Type 0
IsNewestFirst = IsSortOf λ p q. q.created_at ≤ p.created_at

newest_jobs-IsNewestFirst : (jobs : List NotificationJob) → IsNewestFirst jobs (newest_jobs jobs)
unfolding newest_jobs
newest_jobs-IsNewestFirst =
    sort_by-IsSortOf (λ p q. ltb p.created_at q.created_at) (λ p q. q.created_at ≤ p.created_at)
      (λ p q h. ground arith) (λ p q h. ground arith) (λ p q r h k. omega (arith, h, k))

-- What List may answer, by the envelope.
abbrev pub PagesJobs : (limit offset : ℤ) → World → Response (List NotificationJob) × World → Type 0
PagesJobs limit offset w (paginated jobs m l o total, v) =
    ((ordered : List NotificationJob) × IsNewestFirst w.jobs ordered
      × (jobs ≡ take (to_nat limit) (drop (to_nat offset) ordered)))
    × (total ≡ length w.jobs)
    × (length jobs ≤ 200)
    × (l ≡ limit)
    × (o ≡ offset)
    × (v.jobs ≡ w.jobs)
PagesJobs limit offset w (error code c m, v) =
    (code ≡ 500)
    × ((w.oracle.fault w.tick ≡ true) ⊎ (w.oracle.fault (w.tick + 1) ≡ true))
    × (v.jobs ≡ w.jobs)
PagesJobs limit offset w (json code jobs m, v) = ⊥

clamp_int_not_negative : (v : ℤ) → ltb_ℤ (clamp_int v (pos 1) (pos 200)) (pos 0) ≡ false
unfolding clamp_int
clamp_int_not_negative (pos n) = ground arith
clamp_int_not_negative (negsuc n) = ground arith

max0_not_negative : (v : ℤ) → ltb_ℤ (max0 v) (pos 0) ≡ false
unfolding max0
max0_not_negative (pos n) = ground arith
max0_not_negative (negsuc n) = ground arith

paged :
    (limit offset : ℤ) (w : World)
    → ltb_ℤ limit (pos 0) ≡ false
    → ltb_ℤ offset (pos 0) ≡ false
    → to_nat limit ≤ 200
    → PagesJobs limit offset w (
        respond_to
          (list_all limit offset)
          (λ r. paginated r.jobs "Notifications retrieved successfully" limit offset r.total)
          (λ e. error 500 "INTERNAL_ERROR" "failed to list notifications")
          w)
unfolding list_all list_jobs
paged limit offset w hl ho bound = elim (Bool-cases (w.oracle.fault w.tick)) [
  | inl e ↦ rw e (refl, inl e, refl)
  | inr e ↦
      rw (e, hl, ho)
        (elim (Bool-cases (w.oracle.fault (w.tick + 1))) [
          | inl f ↦ rw f (refl, inr f, refl)
          | inr f ↦
              rw (f, select-all w.jobs)
                (
                  (newest_jobs w.jobs, newest_jobs-IsNewestFirst w.jobs, refl),
                  refl,
                  omega (
                    arith,
                    bound,
                    length-take-le (to_nat limit) (drop (to_nat offset) (newest_jobs w.jobs)),
                  ),
                  refl,
                  refl,
                  refl,
                )
        ])
]

-- The notification endpoint answers with the requested slice of the jobs, sorted so that none
-- comes before a newer one, at most 200 of them, with the limit and the offset in force and the
-- number of all jobs; or with 500, and then one of its two statements failed. The jobs do not
-- change.
pub list_notifications-PagesJobs :
    (q : String → String) (w : World)
    → PagesJobs (jobs_limit q) (jobs_offset q) w (list_notifications q w)
unfolding list_notifications
list_notifications-PagesJobs q w =
    let (low, high) = clamp_int_bounds (parse_int_query (q "limit") (pos 50)) 1 200 (omega arith) in
    paged (jobs_limit q) (jobs_offset q) w
      (clamp_int_not_negative (parse_int_query (q "limit") (pos 50)))
      (max0_not_negative (parse_int_query (q "offset") (pos 0))) high
