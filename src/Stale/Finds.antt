-- ===== src/Stale/Finds.antt =====
-- What FindStale of backend/internal/services/stale.go finds.
use realstate_allan.World.{World, Result}
use realstate_allan.External.{Libraries}
use realstate_allan.Models.{Property, listing_category_selling}
use realstate_allan.Stale.{
  is_stale, day, oldest_first, find_stale, StaleProperty, load_threshold_days, threshold_days,
  lookup_config, ok, stale_property, err, days_or_default,
}
use realstate_allan.Common.Int.{ℤ, pos, negsuc}
use mathlib.Core.Option.{some-injective}
use realstate_allan.Common.{
  ℕ, ◌≡◌, List, none, true, and-true, select, ◌+◌, not_some, Bool-cases, ◌*◌, eq_iff, inl, ltb,
  ltb→lt, inr, ◌<◌, suc, ◌∙◌, ap, ◌⊎◌, map, sym, refl, arith, false, lt→ltb, String, Filters,
  IsSortOf, select-Filters, find, ◌≤◌, str_eq, codes, sort_by-IsSortOf, some, ◌-◌, atoi, ◌/◌,
  Option-cases, zero,
}

-- A live listing to sell that was last updated more than so many days, of 86,400 seconds, before t.
abbrev pub IsOverdue : (days t : ℕ) → Property → Type 0
IsOverdue days t p =
    (p.deleted_at ≡ none)
    × (p.listing_category ≡ "SELLING")
    × (p.updated_at + days * 86_400_000_000_000 < t)

overdue : (days t : ℕ) (p : Property) → is_stale days t p ≡ true → IsOverdue days t p
unfolding is_stale
overdue days t p h =
    let (front, late) = and-true h in
    let (live, selling) = and-true front in
    (
      not_some p.deleted_at live,
      (eq_iff p.listing_category listing_category_selling).0 selling,
      ltb→lt (p.updated_at + days * day) t late,
    )

not-IsOverdue : (days t : ℕ) (p : Property) → is_stale days t p ≡ false → ¬ IsOverdue days t p
unfolding is_stale
not-IsOverdue days t p h (live, selling, late) =
    let e : (ltb (p.updated_at + days * day) t) ≡ true =
      lt→ltb (p.updated_at + days * day) t late in
    let wrong : true ≡ false =
      rw (live, (eq_iff p.listing_category listing_category_selling).1 selling, e) at h in
    absurd (cc)

-- The configuration table sets the threshold to a number of days above 0.
abbrev pub SetTo : World → ℕ → Type 0
SetTo w days =
    (n : ℕ) × (row : String × String) × (find (λ e. str_eq e.0 "stale_listing_threshold_days")
        w.app_config
      ≡ some row)
    × (atoi (codes row.1) ≡ some (pos (suc n)))
    × (days ≡ suc n)

-- The threshold of the table, or 30 where it could not be read or holds none.
abbrev pub Threshold : World → ℕ → Type 0
Threshold w days =
    ((w.oracle.fault w.tick ≡ false) × SetTo w days)
    ⊎ ((days ≡ 30) × ((w.oracle.fault w.tick ≡ true) ⊎ (¬ ((n : ℕ) × SetTo w n))))

configured :
    (w : World)
    → (days : ℕ) → threshold_days (lookup_config "stale_listing_threshold_days" w.app_config) ≡ days
    → SetTo w days ⊎ ((days ≡ 30) × (¬ ((n : ℕ) × SetTo w n)))
unfolding threshold_days
configured w days h =
    elim (Option-cases (find (λ e. str_eq e.0 "stale_listing_threshold_days") w.app_config)) [
      | inl e ↦ inr (
        sym (rw e at h),
        λ (n, (k, row', f, g, _)). let wrong : none ≡ some row' = sym e ∙ f in absurd (cc),
      )
      | inr (row, e) ↦ elim (Option-cases (atoi (codes row.1))) [
        | inl f ↦ inr (
          sym (rw (e, f) at h),
          λ (n, (k, row', g, a, _)).
              let same = some-injective row row' (sym e ∙ g) in
              let wrong : none ≡ some (pos (suc k)) = sym f ∙ ap (λ r. atoi (codes r.1)) same ∙ a in
              absurd (cc),
        )
        | inr (v, f) ↦ by_value v row e f (rw (e, f) at h)
      ]
    ]
  where
    by_value :
        (v : ℤ) (row : String × String)
        → find (λ e. str_eq e.0 "stale_listing_threshold_days") w.app_config ≡ some row
        → atoi (codes row.1) ≡ some v
        → days_or_default (some v) ≡ days
        → SetTo w days ⊎ ((days ≡ 30) × (¬ ((n : ℕ) × SetTo w n)))
    by_value (pos (suc n)) row e f g = inl (n, row, e, f, sym g)
    by_value (pos zero) row e f g = inr (
      sym g,
      λ (n, (k, row', r, a, _)).
          let same = some-injective row row' (sym e ∙ r) in
          let wrong : some (pos zero) ≡ some (pos (suc k)) =
            sym f ∙ ap (λ r. atoi (codes r.1)) same ∙ a in
          absurd (cc),
    )
    by_value (negsuc m) row e f g = inr (
      sym g,
      λ (n, (k, row', r, a, _)).
          let same = some-injective row row' (sym e ∙ r) in
          let wrong : some (negsuc m) ≡ some (pos (suc k)) =
            sym f ∙ ap (λ r. atoi (codes r.1)) same ∙ a in
          absurd (cc),
    )

-- The listings of the table that are overdue, the longest untouched first, at the clock's times.
abbrev pub Finds : Libraries → World → List StaleProperty → Type 0
Finds lib w found =
    (days : ℕ) × (hits : List Property) × (qs : List Property) × Threshold w days
    × Filters (IsOverdue days (w.oracle.clock (w.tick + 1))) w.properties hits
    × IsSortOf (λ p q. p.updated_at ≤ q.updated_at) hits qs
    × (found
        ≡ map
            (λ p. record {
              id = lib.show_uuid p.id;
              owner_contact = codes p.owner_contact;
              days_unsold = (w.oracle.clock (w.tick + 3) - p.updated_at) / 86_400_000_000_000;
            })
            qs)

abbrev pub FindsOrFails : Libraries → World → Result (List StaleProperty) × World → Type 0
FindsOrFails lib w (ok found, v) =
    Finds lib w found × (v.queue ≡ w.queue) × (v.properties ≡ w.properties)
FindsOrFails lib w (err e, v) =
    (w.oracle.fault (w.tick + 2) ≡ true) × (v.queue ≡ w.queue) × (v.properties ≡ w.properties)

oldest_first-IsSortOf :
    (ps : List Property) → IsSortOf (λ p q. p.updated_at ≤ q.updated_at) ps (oldest_first ps)
unfolding oldest_first
oldest_first-IsSortOf =
    sort_by-IsSortOf (λ p q. ltb q.updated_at p.updated_at) (λ p q. p.updated_at ≤ q.updated_at)
      (λ p q h. ground arith) (λ p q h. ground arith) (λ p q r h k. omega (arith, h, k))

found_with :
    (lib : Libraries) (w : World) (days t u : ℕ)
    → w.oracle.clock (w.tick + 1) ≡ t
    → w.oracle.clock (w.tick + 3) ≡ u
    → Threshold w days
    → Finds lib w
        (map (stale_property lib u) (oldest_first (select (is_stale days t) w.properties)))
found_with lib w days t u at_t at_u h =
    let qs = select (is_stale days t) w.properties in
    (
      days,
      qs,
      oldest_first qs,
      h,
      rw at_t (
          select-Filters (IsOverdue days t) (is_stale days t) (overdue days t)
            (not-IsOverdue days t) w.properties),
      oldest_first-IsSortOf qs,
      rw at_u refl,
    )

pub find_stale-Finds : (lib : Libraries) (w : World) → FindsOrFails lib w (find_stale lib w)
unfolding find_stale load_threshold_days
find_stale-Finds lib w =
    let days = threshold_days (lookup_config "stale_listing_threshold_days" w.app_config) in
    let t = w.oracle.clock (w.tick + 1) in
    let u = w.oracle.clock (w.tick + 1 + 1 + 1) in
    let late : w.tick + 1 + 1 ≡ w.tick + 2 = omega arith in
    let later : w.oracle.clock (w.tick + 3) ≡ u = ap w.oracle.clock (omega arith) in
    elim (Bool-cases (w.oracle.fault w.tick)) [
      | inl e ↦ elim (Bool-cases (w.oracle.fault (w.tick + 1 + 1))) [
        | inl f ↦ rw (FindsOrFails, e, f) (ap w.oracle.fault (sym late) ∙ f, refl, refl)
        | inr f ↦
            let found = found_with lib w 30 t u refl later (inr (refl, inl e)) in
            rw (FindsOrFails, e, f) (found, refl, refl)
      ]
      | inr e ↦ elim (Bool-cases (w.oracle.fault (w.tick + 1 + 1))) [
        | inl f ↦ rw (FindsOrFails, e, f) (ap w.oracle.fault (sym late) ∙ f, refl, refl)
        | inr f ↦
            let found =
              found_with lib w days t u refl later (threshold w days e (configured w days refl)) in
            rw (FindsOrFails, e, f) (found, refl, refl)
      ]
    ]
  where
    threshold :
        (w : World) (days : ℕ)
        → w.oracle.fault w.tick ≡ false
        → SetTo w days ⊎ ((days ≡ 30) × (¬ ((n : ℕ) × SetTo w n)))
        → Threshold w days
    threshold w days e (inl s) = inl (e, s)
    threshold w days e (inr (d, n)) = inr (d, inr n)
