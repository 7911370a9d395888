-- ===== src/Handlers/Properties/Listing.antt =====
-- The listing handlers of backend/internal/handlers/properties.go: paging, and what a caller sees.
use realstate_allan.Models.{Property}
use realstate_allan.Respond.{Response, answer, error}
use realstate_allan.Properties.Select.Page.{selected, list_queries, IsNewestFirst}
use realstate_allan.Properties.Select.{run_list_query}
use realstate_allan.World.{World, ok, Result, err}
use realstate_allan.Properties.ListQuery.{ListFilter, build_list_query}
use realstate_allan.Common.{
  ℕ, String, ◌≤◌, arith, ◌≡◌, take, drop, length, List, map, ap, refl, ◌∙◌, length-map,
  length-take-le, true, ◌⊎◌, false, ◌+◌, some, Bool-cases, inl, inr,
}
use realstate_allan.Properties.Service.{list, ListResult, scrub_for_role}
use realstate_allan.Common.Int.{ℤ, pos, to_nat, negsuc, ltb_ℤ}
use realstate_allan.External.{Postgres}
use realstate_allan.Handlers.Properties.{list_filter, list_properties, paginated, error, json}
use realstate_allan.Handlers.{clamp_int, ParseFloat, Caller, max0, parse_int_query}

pub clamp_int_bounds :
    (v : ℤ) (lo hi : ℕ)
    → lo ≤ hi
    → let n = clamp_int v (pos lo) (pos hi) in (lo ≤ to_nat n) × (to_nat n ≤ hi)
unfolding clamp_int
clamp_int_bounds (pos n) lo hi h = ground arith
clamp_int_bounds (negsuc n) lo hi h = ground arith

limit-list_filter :
    (pg : Postgres) (parse : ParseFloat) (q : String → String)
    → (1 ≤ to_nat (list_filter pg parse q).limit) × (to_nat (list_filter pg parse q).limit ≤ 100)
unfolding list_filter
limit-list_filter pg parse q = clamp_int_bounds _ 1 100 (omega arith)

-- A slice of a list.
abbrev pub slice : (limit offset : ℤ) → List Property → List Property
slice limit offset ps = take (to_nat limit) (drop (to_nat offset) ps)

-- What List may answer, by the envelope.
abbrev pub Pages :
    Postgres → ListFilter → String → World → Response (List Property) × World → Type 0
Pages pg f role w (paginated props m limit offset total, w') =
    ((ordered : List Property) × IsNewestFirst (selected pg f w.properties) ordered
      × (props ≡ map (scrub_for_role role) (slice f.limit f.offset ordered)))
    × (total ≡ length (selected pg f w.properties))
    × (length props ≤ 100)
    × (limit ≡ f.limit)
    × (offset ≡ f.offset)
    × (w'.properties ≡ w.properties)
Pages pg f role w (error code c m, w') =
    (code ≡ 500)
    × ((w.oracle.fault w.tick ≡ true) ⊎ (w.oracle.fault (w.tick + 1) ≡ true))
    × (w'.properties ≡ w.properties)
Pages pg f role w (json code props m, w') = ⊥

module _ (pg : Postgres) where
  -- What the service gives for a page that the database does not refuse.
  abbrev Lists : ListFilter → World → Result ListResult × World → Type 0
  Lists f w (ok r, v) =
      ((ordered : List Property) × IsNewestFirst (selected pg f w.properties) ordered
        × (r.properties ≡ slice f.limit f.offset ordered))
      × (r.total ≡ length (selected pg f w.properties))
      × (v.properties ≡ w.properties)
  Lists f w (err e, v) =
      ((w.oracle.fault w.tick ≡ true) ⊎ (w.oracle.fault (w.tick + 1) ≡ true))
      × (v.properties ≡ w.properties)

  list-Lists :
      (f : ListFilter) (w : World)
      → ltb_ℤ f.limit (pos 0) ≡ false
      → ltb_ℤ f.offset (pos 0) ≡ false
      → Lists f w (list pg f w)
  unfolding list
  list-Lists f w hl ho =
      let ((ordered, sorted, page), count) = list_queries pg f w.properties in
      let given : run_list_query pg (build_list_query f) w.properties
          ≡ some (slice f.limit f.offset ordered) =
        page ∙ rw (hl, ho) refl in
      elim (Bool-cases (w.oracle.fault w.tick)) [
        | inl e ↦ rw (Lists, e) (inl e, refl)
        | inr e ↦ elim (Bool-cases (w.oracle.fault (w.tick + 1))) [
          | inl g ↦ rw (Lists, e, given, g) (inr g, refl)
          | inr g ↦ rw (Lists, e, given, g) ((ordered, sorted, refl), count, refl)
        ]
      ]

  limit_not_negative : (v : ℤ) → ltb_ℤ (clamp_int v (pos 1) (pos 100)) (pos 0) ≡ false
  unfolding clamp_int
  limit_not_negative (pos n) = ground arith
  limit_not_negative (negsuc n) = ground arith

  offset_not_negative : (v : ℤ) → ltb_ℤ (max0 v) (pos 0) ≡ false
  unfolding max0
  offset_not_negative (pos n) = ground arith
  offset_not_negative (negsuc n) = ground arith

  module _ (parse : ParseFloat) (caller : Caller) (q : String → String) where
    answer-Pages :
        (w : World) (r : Result ListResult × World)
        → Lists (list_filter pg parse q) w r
        → Pages pg (list_filter pg parse q) caller.role w (
            answer
              (λ (result : ListResult).
                paginated
                  (map (scrub_for_role caller.role) result.properties)
                  "Properties retrieved successfully"
                  (list_filter pg parse q).limit
                  (list_filter pg parse q).offset
                  result.total)
              (λ e. error 500 "INTERNAL_ERROR" "failed to list properties")
              r)
    answer-Pages w (ok r, w') ((ordered, sorted, page), total, kept) =
        let f = list_filter pg parse q in
        (
          (ordered, sorted, ap (map (scrub_for_role caller.role)) page),
          total,
          omega (
            arith,
            length-map (scrub_for_role caller.role) r.properties,
            ap length page,
            length-take-le (to_nat f.limit) (drop (to_nat f.offset) ordered),
            (limit-list_filter pg parse q).1,
          ),
          refl,
          refl,
          kept,
        )
    answer-Pages w (err x, w') (why, kept) = (refl, why, kept)

    -- The list endpoint answers with the requested slice of the live listings that meet every
    -- filter, sorted so that none comes before a newer one, at most 100 of them, each as the
    -- caller's role may see it, with the limit and the offset in force and the number of all
    -- such listings; or else with status 500, and then one of its two statements failed. The
    -- listings do not change.
    pub list_properties-Pages :
        (w : World)
        → Pages pg (list_filter pg parse q) caller.role w (list_properties pg parse caller q w)
    unfolding list_properties list_filter
    list_properties-Pages w = answer-Pages w (list pg (list_filter pg parse q) w) (
        list-Lists (list_filter pg parse q) w
          (limit_not_negative (parse_int_query (q "limit") (pos 20)))
          (offset_not_negative (parse_int_query (q "offset") (pos 0))))
