-- ===== src/Stale.antt =====
-- backend/internal/services/stale.go, the enqueue methods of backend/internal/worker/client.go, and
-- TriggerStaleScan of backend/internal/handlers/notifications.go. Enqueueing in Redis may fail, as
-- a statement may.
pub mod Finds
pub mod Scan
use realstate_allan.Properties.Select.{is_live}
use realstate_allan.Auth.Tokens.{second}
use realstate_allan.Respond.{Handler, Response, json, error}
use realstate_allan.Common.Int.{ℤ, pos, negsuc}
use realstate_allan.External.{Libraries}
use realstate_allan.Models.{
  Property, Task, ocr_process_image, notify_stale, notify_whatsapp, notify_sms,
  listing_category_selling,
}
use realstate_allan.World.{
  Result, Action, ◌>>=◌, ◌>>◌, World, statement, ok, now, modify, err, gets,
}
use realstate_allan.Common.{
  String, ℕ, Option, List, Text, ◌*◌, and_then, some, Bool, ◌∷◌, codes, find, atoi, if◌then◌else◌,
  ◌-◌, [], str_eq, suc, ◌&&◌, ltb, ◌/◌, ◌++◌, ◌+◌, none, map, select, length, zero, sort_by,
}

pub record StaleProperty : Type 0 where
  pub id : String
  pub owner_contact : Text
  pub days_unsold : ℕ

abbrev pub day : ℕ
day = 24 * (3_600 * second)

abbrev pub lookup_config : String → List (String × String) → Option String
lookup_config key m = and_then (find (λ e. str_eq e.0 key) m) λ e. some e.1

abbrev pub days_or_default : Option ℤ → ℕ
days_or_default none = 30
days_or_default (some (pos zero)) = 30
days_or_default (some (pos (suc n))) = suc n
days_or_default (some (negsuc n)) = 30

-- The value of app_config, and 30 where it is missing, does not parse or is not above 0. Any failure of the query
-- counts as a missing key.
unfoldable pub threshold_days : Option String → ℕ
threshold_days none = 30
threshold_days (some raw) = days_or_default (atoi (codes raw))

abbrev pub stored_threshold : Result (Unit {0}) × World → Result ℕ × World
stored_threshold (ok _, w) =
    (ok (threshold_days (lookup_config "stale_listing_threshold_days" w.app_config)), w)
stored_threshold (err e, w) = (ok 30, w)

unfoldable pub load_threshold_days : Action ℕ
load_threshold_days w = stored_threshold (statement w)

-- `updated_at < now - days`
unfoldable pub is_stale : (days t : ℕ) → Property → Bool
is_stale days t p =
    is_live p
    && str_eq p.listing_category listing_category_selling
    && ltb (p.updated_at + days * day) t

-- ORDER BY updated_at ASC
unfoldable pub oldest_first : List Property → List Property
oldest_first = sort_by λ p q. ltb q.updated_at p.updated_at

module _ (lib : Libraries) where
  -- EXTRACT(DAY FROM NOW() - updated_at) at the time of the query.
  abbrev pub stale_property : (t : ℕ) → Property → StaleProperty
  stale_property t p = record {
    id = lib.show_uuid p.id;
    owner_contact = codes p.owner_contact;
    days_unsold = (t - p.updated_at) / day;
  }

  unfoldable pub find_stale : Action (List StaleProperty)
  find_stale = do
    days ← load_threshold_days
    t ← now
    statement
    u ← now
    gets (λ w. map (stale_property u) (oldest_first (select (is_stale days t) w.properties)))

-- The queue, by the client's methods.
unfoldable pub enqueue : Task → Action (Unit {0})
enqueue task = do statement; modify (λ w. record w { queue = w.queue ++ task ∷ [] })

unfoldable pub enqueue_ocr : (photo_id property_id gcs_key : String) → Action (Unit {0})
enqueue_ocr photo_id property_id gcs_key = enqueue (ocr_process_image photo_id property_id gcs_key)

unfoldable pub enqueue_stale_notification : String → Text → ℕ → Action (Unit {0})
enqueue_stale_notification property_id owner_contact days_unsold =
    enqueue (notify_stale property_id owner_contact days_unsold)

unfoldable pub enqueue_whatsapp : (to message : Text) → String → Action (Unit {0})
enqueue_whatsapp to message job = enqueue (notify_whatsapp to message job)

unfoldable pub enqueue_sms : (to message : Text) → String → Action (Unit {0})
enqueue_sms to message job = enqueue (notify_sms to message job)

-- `queued++` unless the step failed.
abbrev pub count_ok : Result (Unit {0}) × World → ℕ → ℕ × World
count_ok (ok _, w) n = (n + 1, w)
count_ok (err e, w) n = (n, w)

-- The loop of TriggerStaleScan, with what was queued so far.
unfoldable pub queue_stale : List StaleProperty → ℕ → World → ℕ × World
queue_stale [] queued w = (queued, w)
queue_stale (p ∷ ps) queued w =
    let (n, v) =
      count_ok (enqueue_stale_notification p.id p.owner_contact p.days_unsold w) queued in
    queue_stale ps n v

pub record ScanReport : Type 0 where
  pub stale_found : ℕ
  pub queued : ℕ

abbrev pub reported : ℕ → ℕ × World → Response ScanReport × World
reported found (n, w) =
    (json 202 (record { stale_found = found; queued = n }) "Stale scan complete", w)

abbrev pub after_find : Result (List StaleProperty) × World → Response ScanReport × World
after_find (err e, w) = (error 500 "INTERNAL_ERROR" "stale scan failed", w)
after_find (ok stale, w) = reported (length stale) (queue_stale stale 0 w)

unfoldable pub trigger_stale_scan : Libraries → Handler ScanReport
trigger_stale_scan lib w = after_find (find_stale lib w)
