-- ===== src/Stale/Scan.antt =====
-- What TriggerStaleScan of backend/internal/handlers/notifications.go puts into the queue.
use realstate_allan.Respond.{Response, json, paginated, error}
use realstate_allan.World.{World, Result}
use realstate_allan.External.{Libraries}
use realstate_allan.Models.{Task, notify_stale}
use realstate_allan.Stale.{
  find_stale, StaleProperty, queue_stale, enqueue_stale_notification, enqueue, ok, err, reported,
  after_find, trigger_stale_scan, ScanReport,
}
use realstate_allan.Common.{
  ℕ, ◌≡◌, List, true, ◌∷◌, ◌+◌, Bool-cases, inl, inr, [], length, ◌∙◌, ap, map, ◌++◌, append_assoc,
  sym, refl, arith, append-nil, false, subst,
}
use realstate_allan.Stale.Finds.{Finds, FindsOrFails, find_stale-Finds}

-- A list with some of its elements left out.
pub data IsSublist : List Task → List Task → Type 0 where
  done : IsSublist [] []
  keep : (x : Task) (xs ys : List Task) → IsSublist xs ys → IsSublist (x ∷ xs) (x ∷ ys)
  skip : (x : Task) (xs ys : List Task) → IsSublist xs ys → IsSublist xs (x ∷ ys)

abbrev pub stale_task : StaleProperty → Task
stale_task p = notify_stale p.id p.owner_contact p.days_unsold

abbrev pub Queues : List StaleProperty → ℕ → World → ℕ × World → Type 0
Queues ps n w (m, v) =
    (added : List Task) × IsSublist added (map stale_task ps)
    × (v.queue ≡ w.queue ++ added)
    × (m ≡ n + length added)
    × (v.properties ≡ w.properties)

left_out :
    (p : StaleProperty) (ps : List StaleProperty) (n : ℕ) (w u : World) (r : ℕ × World)
    → u.queue ≡ w.queue
    → u.properties ≡ w.properties
    → Queues ps n u r
    → Queues (p ∷ ps) n w r
left_out p ps n w u (m, v) e f (added, s, q, c, g) =
    (added, skip (stale_task p) added (map stale_task ps) s, q ∙ ap (λ t. t ++ added) e, c, g ∙ f)

put_in :
    (p : StaleProperty) (ps : List StaleProperty) (n : ℕ) (w u : World) (r : ℕ × World)
    → u.queue ≡ w.queue ++ stale_task p ∷ []
    → u.properties ≡ w.properties
    → Queues ps (n + 1) u r
    → Queues (p ∷ ps) n w r
put_in p ps n w u (m, v) e f (added, s, q, c, g) = (
  stale_task p ∷ added,
  keep (stale_task p) added (map stale_task ps) s,
  q ∙ ap (λ t. t ++ added) e ∙ append_assoc w.queue (stale_task p ∷ []) added,
  omega (arith, c),
  g ∙ f,
)

abbrev after_tick : World → World
after_tick w = record w { tick = w.tick + 1 }

abbrev with_task : Task → World → World
with_task t w = record w { tick = w.tick + 1; queue = w.queue ++ t ∷ [] }

refused_step :
    (p : StaleProperty) (ps : List StaleProperty) (n : ℕ) (w : World)
    → w.oracle.fault w.tick ≡ true
    → queue_stale (p ∷ ps) n w ≡ queue_stale ps n (after_tick w)
unfolding queue_stale enqueue_stale_notification enqueue
refused_step p ps n w e = rw e refl

taken_step :
    (p : StaleProperty) (ps : List StaleProperty) (n : ℕ) (w : World)
    → w.oracle.fault w.tick ≡ false
    → queue_stale (p ∷ ps) n w ≡ queue_stale ps (n + 1) (with_task (stale_task p) w)
unfolding queue_stale enqueue_stale_notification enqueue
taken_step p ps n w e = rw e refl

queue_stale-Queues :
    (ps : List StaleProperty) (n : ℕ) (w : World) → Queues ps n w (queue_stale ps n w)
unfolding queue_stale
queue_stale-Queues [] n w = ([], done, sym (append-nil w.queue), omega arith, refl)
queue_stale-Queues (p ∷ ps) n w = elim (Bool-cases (w.oracle.fault w.tick)) [
  | inl e ↦ subst (Queues (p ∷ ps) n w) (sym (refused_step p ps n w e)) (
      left_out p ps n w (after_tick w) (queue_stale ps n (after_tick w)) refl refl
        (queue_stale-Queues ps n (after_tick w)))
  | inr e ↦
      let v = with_task (stale_task p) w in
      subst (Queues (p ∷ ps) n w) (sym (taken_step p ps n w e))
        (put_in p ps n w v (queue_stale ps (n + 1) v) refl refl (queue_stale-Queues ps (n + 1) v))
]

-- What the endpoint reports, against what the queue got.
abbrev pub ScanReports : Libraries → World → Response ScanReport × World → Type 0
ScanReports lib w (json status r m, v) =
    (status ≡ 202)
    × ((found : List StaleProperty) × Finds lib w found
        × (r.stale_found ≡ length found)
        × ((added : List Task) × IsSublist added (map stale_task found)
            × (v.queue ≡ w.queue ++ added)
            × (r.queued ≡ length added)))
    × (v.properties ≡ w.properties)
ScanReports lib w (paginated a m l o c, v) = ⊥
ScanReports lib w (error status c m, v) =
    (status ≡ 500)
    × (w.oracle.fault (w.tick + 2) ≡ true)
    × (v.queue ≡ w.queue)
    × (v.properties ≡ w.properties)

reports :
    (lib : Libraries) (w u : World) (found : List StaleProperty) (r : ℕ × World)
    → Finds lib w found
    → u.queue ≡ w.queue
    → u.properties ≡ w.properties
    → Queues found 0 u r
    → ScanReports lib w (reported (length found) r)
reports lib w u found (n, v) f e g (added, s, q, c, h) =
    (refl, (found, f, refl, (added, s, q ∙ ap (λ t. t ++ added) e, omega (arith, c))), h ∙ g)

after_find-Reports :
    (lib : Libraries) (w : World) (r : Result (List StaleProperty) × World)
    → FindsOrFails lib w r
    → ScanReports lib w (after_find r)
after_find-Reports lib w (err e, v) (f, a, b) = (refl, f, a, b)
after_find-Reports lib w (ok found, v) (f, a, b) =
    reports lib w v found (queue_stale found 0 v) f a b (queue_stale-Queues found 0 v)

-- The stale scan answers 202 with the number of listings found, which are all live SELLING
-- listings of the table that were last updated longer ago than the threshold, in the order of
-- their last update, and puts a task into the queue for some of them, each at most once and in
-- that order, as many as it reports; or it answers 500, where its second statement failed, and
-- queues nothing. The threshold is that of the configuration table, and 30 days only where that
-- could not be read or holds no number above 0. The listings do not change.
pub trigger_stale_scan-ScanReports :
    (lib : Libraries) (w : World) → ScanReports lib w (trigger_stale_scan lib w)
unfolding trigger_stale_scan
trigger_stale_scan-ScanReports lib w =
    after_find-Reports lib w (find_stale lib w) (find_stale-Finds lib w)
