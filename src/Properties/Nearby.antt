-- ===== src/Properties/Nearby.antt =====
-- Nearby of backend/internal/services/properties.go and of backend/internal/handlers/properties.go. The
-- distances are PostGIS's.
pub mod Answers
use realstate_allan.Handlers.Properties.{invalid}
use realstate_allan.Respond.{Handler, reply, respond_to, json, error}
use realstate_allan.World.{Action, ◌>>◌, statement, fail_if, internal, gets}
use realstate_allan.Properties.Select.{is_live}
use realstate_allan.Properties.Service.{scrub_for_role}
use realstate_allan.Common.Int.{ℤ, pos, ltb_ℤ, to_nat}
use realstate_allan.Handlers.{ParseFloat, Caller, clamp_int, parse_int_query}
use realstate_allan.Float.{Float64, div, lt, of_nat, mul, sql_lt}
use realstate_allan.External.{Postgres}
use realstate_allan.Common.{
  List, ◌∷◌, String, if◌then◌else◌, Bool, [], ◌&&◌, none, some, take, map, select, sort_by,
}
use realstate_allan.Models.{Property}

-- PropertyWithDistance
pub record PropertyWithDistance : Type 0 where
  pub property : Property
  pub distance_km : Float64

module _ (pg : Postgres) where
  abbrev pub is_within : (lat lng metres : Float64) → Property → Bool
  is_within lat lng metres p =
      is_live p && pg.within_metres p.location_lng p.location_lat lng lat metres

  abbrev pub with_distance : (lat lng : Float64) → Property → PropertyWithDistance
  with_distance lat lng p = record {
    property = p;
    distance_km = div (pg.distance_metres p.location_lng p.location_lat lng lat) (of_nat 1_000);
  }

  -- ORDER BY geom::geography <-> point, which is the distance on the sphere
  unfoldable pub nearest_first : (lat lng : Float64) → List Property → List Property
  nearest_first lat lng = sort_by λ p q.
      sql_lt (pg.sphere_metres q.location_lng q.location_lat lng lat)
        (pg.sphere_metres p.location_lng p.location_lat lng lat)

  unfoldable pub nearby :
      (lat lng radius_km : Float64) → (limit : ℤ) → Action (List PropertyWithDistance)
  nearby lat lng radius_km limit = do
    statement
    fail_if (ltb_ℤ limit (pos 0)) internal
    gets λ w. map (with_distance lat lng) (
        take (to_nat limit) (
          nearest_first lat lng
            (select (is_within lat lng (mul radius_km (of_nat 1_000))) w.properties)))

  abbrev pub scrub_nearby : String → PropertyWithDistance → PropertyWithDistance
  scrub_nearby role p = record p { property = scrub_for_role role p.property }

  abbrev pub nearby_limit : (String → String) → ℤ
  nearby_limit q = clamp_int (parse_int_query (q "limit") (pos 20)) (pos 1) (pos 100)

  unfoldable pub nearby_properties :
      ParseFloat → Caller → (String → String) → Handler (List PropertyWithDistance)
  nearby_properties parse caller q = elim (parse (q "lat")) [
    | none ↦ reply (invalid "lat, lng, and radius_km are required")
    | some lat ↦ elim (parse (q "lng")) [
      | none ↦ reply (invalid "lat, lng, and radius_km are required")
      | some lng ↦ elim (parse (q "radius_km")) [
        | none ↦ reply (invalid "lat, lng, and radius_km are required")
        | some radius_km ↦
            respond_to (nearby lat lng radius_km (nearby_limit q))
              (λ ps.
                json 200 (map (scrub_nearby caller.role) ps)
                  "Nearby properties retrieved successfully")
              (λ e. error 500 "INTERNAL_ERROR" "failed to query nearby properties")
      ]
    ]
  ]
