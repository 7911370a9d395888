-- ===== src/Properties/Nearby/Answers.antt =====
-- What Nearby of backend/internal/handlers/properties.go answers.
use realstate_allan.Handlers.Properties.Listing.{clamp_int_bounds}
use realstate_allan.Respond.{Response, respond_to, error, paginated}
use realstate_allan.World.{World}
use realstate_allan.Common.{
  String, ◌≡◌, none, false, if◌then◌else◌, true, str_eq, arith, List, map, some, Option-cases,
  Filters, and-true, ◌∷◌, IsSortOf, take, inl, refl, Each, ◌≤◌, not_some, ap, sort_by-IsSortOf,
  select, inr, ◌⊎◌, select-Filters, Bool-cases, [], subst, sym, map-Each,
}
use realstate_allan.Models.{Property}
use realstate_allan.Properties.Nearby.{
  PropertyWithDistance, nearest_first, is_within, with_distance, nearby, scrub_nearby, nearby_limit,
  nearby_properties, json,
}
use realstate_allan.Properties.Service.{scrub_for_role}
use realstate_allan.Float.{Float64, mul, of_nat, div, sql_lt}
use realstate_allan.Float.Sql.{sql_lt-not, sql_lt_chain}
use realstate_allan.Handlers.{ParseFloat, Caller, clamp_int, parse_int_query}
use realstate_allan.External.{Postgres}
use realstate_allan.Common.Int.{ℤ, pos, negsuc, ltb_ℤ, to_nat}

-- A live listing within so many metres of the point.
abbrev pub IsNear : Postgres → (lat lng metres : Float64) → Property → Type 0
IsNear pg lat lng metres p =
    (p.deleted_at ≡ none) × (pg.within_metres p.location_lng p.location_lat lng lat metres ≡ true)

-- The second listing is not nearer on the sphere than the first.
abbrev pub NotNearer : Postgres → (lat lng : Float64) → Property → Property → Type 0
NotNearer pg lat lng p q =
    sql_lt (pg.sphere_metres q.location_lng q.location_lat lng lat)
      (pg.sphere_metres p.location_lng p.location_lat lng lat)
    ≡ false

-- A listing as a role sees it, with its distance on the spheroid in kilometres.
abbrev pub ShownAs :
    Postgres → String → (lat lng : Float64) → Property → PropertyWithDistance → Type 0
ShownAs pg role lat lng p r =
    (r.property
      ≡ (if str_eq role "SUPER_ADMIN" then p else record p { owner_name = ""; owner_contact = "" }))
    × (r.distance_km
        ≡ div (pg.distance_metres p.location_lng p.location_lat lng lat) (of_nat 1_000))

clamped_not_negative : (v : ℤ) → ltb_ℤ (clamp_int v (pos 1) (pos 100)) (pos 0) ≡ false
unfolding clamp_int
clamped_not_negative (pos n) = ground arith
clamped_not_negative (negsuc n) = ground arith

module _ (pg : Postgres) (caller : Caller) (parse : ParseFloat) (q : String → String)
    (w : World) where
  -- What the rows are, for a point and a radius that were read from the query.
  abbrev pub Lists : (lat lng radius_km : Float64) → List PropertyWithDistance → Type 0
  Lists lat lng radius_km ps =
      (hits : List Property) × (ordered : List Property) × Filters
        (IsNear pg lat lng (mul radius_km (of_nat 1_000))) w.properties hits
      × IsSortOf (NotNearer pg lat lng) hits ordered
      × Each (ShownAs pg caller.role lat lng) (take (to_nat (nearby_limit pg q)) ordered) ps

  abbrev pub AnswersNearby : Response (List PropertyWithDistance) → Type 0
  AnswersNearby (json code ps m) =
      (code ≡ 200)
      × ((lat : Float64) × (lng : Float64) × (radius_km : Float64) × (parse (q "lat") ≡ some lat)
          × (parse (q "lng") ≡ some lng)
          × (parse (q "radius_km") ≡ some radius_km)
          × Lists lat lng radius_km ps)
      × (to_nat (nearby_limit pg q) ≤ 100)
  AnswersNearby (error code c m) =
      ((code ≡ 400)
        × ((parse (q "lat") ≡ none) ⊎ (parse (q "lng") ≡ none) ⊎ (parse (q "radius_km") ≡ none)))
      ⊎ ((code ≡ 500) × (w.oracle.fault w.tick ≡ true))
  AnswersNearby (paginated ps m limit offset total) = ⊥

  within-IsNear :
      (lat lng metres : Float64) (p : Property)
      → is_within pg lat lng metres p ≡ true
      → IsNear pg lat lng metres p
  within-IsNear lat lng metres p h =
      let (live, near) = and-true h in (not_some p.deleted_at live, near)

  not_within :
      (lat lng metres : Float64) (p : Property)
      → is_within pg lat lng metres p ≡ false
      → ¬ IsNear pg lat lng metres p
  not_within lat lng metres p h (live, near) =
      let wrong : true ≡ false = rw (live, near) at h in absurd (cc)

  shown-ShownAs :
      (lat lng : Float64) (p : Property)
      → ShownAs pg caller.role lat lng p (scrub_nearby pg caller.role (with_distance pg lat lng p))
  unfolding scrub_for_role
  shown-ShownAs lat lng p = (refl, refl)

  map-map :
      (lat lng : Float64) (ps : List Property)
      → map (scrub_nearby pg caller.role) (map (with_distance pg lat lng) ps)
        ≡ map (λ p. scrub_nearby pg caller.role (with_distance pg lat lng p)) ps
  map-map lat lng [] = refl
  map-map lat lng (p ∷ ps) =
      ap (λ rs. scrub_nearby pg caller.role (with_distance pg lat lng p) ∷ rs) (map-map lat lng ps)

  nearest_first-IsSortOf :
      (lat lng : Float64) (ps : List Property)
      → IsSortOf (NotNearer pg lat lng) ps (nearest_first pg lat lng ps)
  unfolding nearest_first
  nearest_first-IsSortOf lat lng =
      let far : Property → Float64 = λ p. pg.sphere_metres p.location_lng p.location_lat lng lat in
      sort_by-IsSortOf (λ p q. sql_lt (far q) (far p)) (NotNearer pg lat lng)
        (λ p q h. sql_lt-not (far q) (far p) h) (λ p q h. h)
        (λ p q r h k. sql_lt_chain (far p) (far q) (far r) h k)

  rows-Lists :
      (lat lng radius_km : Float64)
      → Lists lat lng radius_km (
          map (scrub_nearby pg caller.role) (
            map (with_distance pg lat lng) (
              take (to_nat (nearby_limit pg q)) (
                nearest_first pg lat lng
                  (select (is_within pg lat lng (mul radius_km (of_nat 1_000))) w.properties)))))
  rows-Lists lat lng radius_km =
      let metres = mul radius_km (of_nat 1_000) in
      let hits = select (is_within pg lat lng metres) w.properties in
      let page = take (to_nat (nearby_limit pg q)) (nearest_first pg lat lng hits) in
      (
        hits,
        nearest_first pg lat lng hits,
        select-Filters (IsNear pg lat lng metres) (is_within pg lat lng metres)
            (within-IsNear lat lng metres) (not_within lat lng metres) w.properties,
        nearest_first-IsSortOf lat lng hits,
        subst (Each (ShownAs pg caller.role lat lng) page) (sym (map-map lat lng page)) (
            map-Each (ShownAs pg caller.role lat lng)
              (λ p. scrub_nearby pg caller.role (with_distance pg lat lng p)) page
              (shown-ShownAs lat lng)),
      )

  located :
      (lat lng radius_km : Float64)
      → parse (q "lat") ≡ some lat
      → parse (q "lng") ≡ some lng
      → parse (q "radius_km") ≡ some radius_km
      → AnswersNearby
          (respond_to
            (nearby pg lat lng radius_km (nearby_limit pg q))
            (λ ps.
              json 200
                (map (scrub_nearby pg caller.role) ps)
                "Nearby properties retrieved successfully")
            (λ e. error 500 "INTERNAL_ERROR" "failed to query nearby properties")
            w).0
  unfolding nearby
  located lat lng radius_km a b c = elim (Bool-cases (w.oracle.fault w.tick)) [
    | inl e ↦ rw e (inr (refl, e))
    | inr e ↦
        rw (e, clamped_not_negative (parse_int_query (q "limit") (pos 20)))
          (
            refl,
            (lat, lng, radius_km, a, b, c, rows-Lists lat lng radius_km),
            (clamp_int_bounds (parse_int_query (q "limit") (pos 20)) 1 100 (omega arith)).1,
          )
  ]

  -- Whatever the request and the table: an answer with rows is 200, and its rows are, of all
  -- live listings within the radius of the point that was asked for, sorted so that none comes
  -- before one that is nearer on the sphere, the first ones up to the limit, which is at most
  -- 100; each with its distance in kilometres, and with a blank name and contact of the owner
  -- unless the caller is SUPER_ADMIN. An error is 400 and one of the three parameters does not
  -- parse, or 500 and the statement failed. The handler never answers with pages.
  pub nearby_properties-AnswersNearby : AnswersNearby (nearby_properties pg parse caller q w).0
  unfolding nearby_properties
  nearby_properties-AnswersNearby = elim (Option-cases (parse (q "lat"))) [
    | inl a ↦ rw (a, nearby_properties) (inl (refl, inl a))
    | inr (lat, a) ↦ elim (Option-cases (parse (q "lng"))) [
      | inl b ↦ rw (a, nearby_properties) (rw (b, nearby_properties) (inl (refl, inr (inl b))))
      | inr (lng, b) ↦ elim (Option-cases (parse (q "radius_km"))) [
        | inl c ↦
            rw (a, nearby_properties)
              (rw (b, nearby_properties) (rw (c, nearby_properties) (inl (refl, inr (inr c)))))
        | inr (radius_km, c) ↦
            rw (a, nearby_properties)
              (rw (b, nearby_properties)
                (rw (c, nearby_properties) (located lat lng radius_km a b c)))
      ]
    ]
  ]
