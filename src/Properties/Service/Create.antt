-- ===== src/Properties/Service/Create.antt =====
-- PropertyService.Create of backend/internal/services/properties.go, and what Get then reads.
use realstate_allan.Properties.Service.Rows.{checked-ok}
use realstate_allan.Models.{Property}
use realstate_allan.World.{World, Result, err}
use realstate_allan.Common.{
  ℕ, List, ◌≡◌, find, ◌+◌, some, Option-cases, none, and_then, ◌++◌, true, ◌∷◌, [], arith, inl, inr,
  refl, Option, Bool-cases, and_then-eq-some, ◌∙◌, find-append, ap, subst, sym,
}
use realstate_allan.Properties.Service.{
  CreatePropertyInput, new_row, create, ok, is_row, is_live_row, checked, insert_row, put_row,
  nullable,
}
use realstate_allan.External.{Postgres}
use mathlib.Core.Option.{some-injective}

-- A row of the table for an input: what its columns make of the numbers, and the rest as it is.
pub record IsRowOf (pg : Postgres) (new t : ℕ) (in' : CreatePropertyInput) (row : Property)
    : Type 0 where
  pub id : row.id ≡ new
  pub listing_category : row.listing_category ≡ in'.listing_category
  pub property_type : row.property_type ≡ in'.property_type
  pub owner_name : row.owner_name ≡ in'.owner_name
  pub owner_contact : row.owner_contact ≡ in'.owner_contact
  pub price : some row.price ≡ pg.price_column in'.price
  pub plot_area : some row.plot_area ≡ nullable pg.area_column in'.plot_area
  pub built_up_area : some row.built_up_area ≡ nullable pg.area_column in'.built_up_area
  pub location_lat : row.location_lat ≡ in'.location_lat
  pub location_lng : row.location_lng ≡ in'.location_lng
  pub description : row.description ≡ in'.description
  pub tags : row.tags ≡ in'.tags
  pub is_direct_owner : row.is_direct_owner ≡ in'.is_direct_owner
  pub assigned_broker_id : row.assigned_broker_id ≡ in'.assigned_broker_id
  pub created_by : row.created_by ≡ in'.created_by
  pub created_at : row.created_at ≡ t
  pub updated_at : row.updated_at ≡ t
  pub deleted_at : row.deleted_at ≡ none

module _ (pg : Postgres) where
  -- How Create may end: `row` is the new listing.
  abbrev pub Creates : CreatePropertyInput → World → Result ℕ × World → Type 0
  Creates in' w (ok id, v) =
      (find (is_row id) w.properties ≡ none)
      × ((row : Property) × IsRowOf pg id (w.oracle.clock (w.tick + 1 + 1)) in' row
          × (v.properties ≡ w.properties ++ row ∷ [])
          × (find (is_live_row id) v.properties ≡ some row))
  Creates in' w (err e, v) = v.properties ≡ w.properties

  new_row-live :
      (id t : ℕ) (in' : CreatePropertyInput) {row : Property}
      → new_row pg id t in' ≡ some row
      → is_live_row id row ≡ true
  unfolding new_row
  new_row-live id t in' h = ground arith

  new_row-IsRowOf :
      (id t : ℕ) (in' : CreatePropertyInput) (row : Property)
      → new_row pg id t in' ≡ some row
      → IsRowOf pg id t in' row
  unfolding new_row
  new_row-IsRowOf id t in' row h =
      let (price, ep, h1) = and_then-eq-some (pg.price_column in'.price) _ h in
      let (plot, ea, h2) = and_then-eq-some (nullable pg.area_column in'.plot_area) _ h1 in
      let (built, eb, h3) = and_then-eq-some (nullable pg.area_column in'.built_up_area) _ h2 in
      subst (IsRowOf pg id t in') (some-injective _ row h3) (record {
        id = refl;
        listing_category = refl;
        property_type = refl;
        owner_name = refl;
        owner_contact = refl;
        price = sym ep;
        plot_area = sym ea;
        built_up_area = sym eb;
        location_lat = refl;
        location_lng = refl;
        description = refl;
        tags = refl;
        is_direct_owner = refl;
        assigned_broker_id = refl;
        created_by = refl;
        created_at = refl;
        updated_at = refl;
        deleted_at = refl;
      })

  find-live_none :
      (id : ℕ) (table : List Property)
      → find (is_row id) table ≡ none
      → find (is_live_row id) table ≡ none
  find-live_none id [] h = refl
  find-live_none id (p ∷ ps) h = ground (arith, find-live_none id ps)

  -- The same at a time that is given.
  abbrev CreatesAt : ℕ → CreatePropertyInput → World → Result ℕ × World → Type 0
  CreatesAt t in' w (ok id, v) =
      (find (is_row id) w.properties ≡ none)
      × ((row : Property) × IsRowOf pg id t in' row
          × (v.properties ≡ w.properties ++ row ∷ [])
          × (find (is_live_row id) v.properties ≡ some row))
  CreatesAt t in' w (err e, v) = v.properties ≡ w.properties

  put_row-Creates :
      (id t : ℕ) (in' : CreatePropertyInput) (w : World) (o : Option Property)
      → and_then (new_row pg id t in') (checked w.users) ≡ o
      → find (is_row id) w.properties ≡ none
      → CreatesAt t in' w (put_row id o w)
  put_row-Creates id t in' w none e fresh = refl
  put_row-Creates id t in' w (some row) e fresh =
      let (r, new, c) = and_then-eq-some (new_row pg id t in') (checked w.users) e in
      let made : new_row pg id t in' ≡ some row = new ∙ checked-ok w.users r c in
      (
        fresh,
        (
          row,
          new_row-IsRowOf id t in' row made,
          refl,
          find-append (is_live_row id) w.properties row (find-live_none id w.properties fresh)
              (new_row-live id t in' made),
        ),
      )

  insert_row-Creates :
      (id t : ℕ) (in' : CreatePropertyInput) (w : World)
      → CreatesAt t in' w (insert_row pg id t in' w)
  unfolding insert_row
  insert_row-Creates id t in' w = elim (Option-cases (find (is_row id) w.properties)) [
    | inr (p, old) ↦ rw old refl
    | inl fresh ↦ rw fresh (put_row-Creates id t in' w _ refl fresh)
  ]

  from_insert :
      (t : ℕ) (in' : CreatePropertyInput) (w u : World) (r : Result ℕ × World)
      → w.oracle.clock (w.tick + 1 + 1) ≡ t
      → u.properties ≡ w.properties
      → CreatesAt t in' u r
      → Creates in' w r
  from_insert t in' w u (ok id, v) at same (fresh, (row, is, table, live)) = (
    ap (find (is_row id)) (sym same) ∙ fresh,
    (row, rw at is, table ∙ ap (λ ps. ps ++ row ∷ []) same, live),
  )
  from_insert t in' w u (err e, v) at same h = h ∙ same

  -- A listing that is created has an id that no row had, holds each field of the input in its
  -- column, with the price and the areas as NUMERIC keeps them, is of the time of the
  -- insertion, and is live under its id; the table is the old one with that row at the end. A
  -- creation that fails changes no listing.
  pub create-Creates : (in' : CreatePropertyInput) (w : World) → Creates in' w (create pg in' w)
  unfolding create
  create-Creates in' w = elim (Bool-cases (w.oracle.fault w.tick)) [
    | inl down ↦ rw down refl
    | inr up ↦
        let id = w.oracle.fresh (w.tick + 1) in
        let t = w.oracle.clock (w.tick + 1 + 1) in
        let u : World = record w { tick = w.tick + 1 + 1 + 1 } in
        rw up (
          from_insert t in' w u (insert_row pg id t in' u) refl refl
            (insert_row-Creates id t in' u))
  ]
