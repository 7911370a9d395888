-- ===== src/Properties/Service.antt =====
-- backend/internal/services/properties.go: the methods of PropertyService on the table, and
-- backend/internal/services/scrubber.go. A failed scan of a row counts as a failed statement.
pub mod Delete
pub mod Scrub
pub mod Update
pub mod Ownership
pub mod Patch
pub mod Create
pub mod Rows
use realstate_allan.Properties.Select.{is_live, arg_at, run_list_query, run_count_query}
use realstate_allan.Properties.ListQuery.{
  Arg, ListFilter, uuid, time, text, build_list_query, build_count_query,
}
use realstate_allan.World.{
  World, Action, ok, ◌>>◌, ◌>>=◌, statement, fail_if, now, fresh_uuid, gets, internal, or_fail,
  property_not_found, modify, forbidden, pure, err,
}
use realstate_allan.External.{Postgres}
use realstate_allan.Properties.SetClauses.{
  Column, SetBuilder, SetClause, PatchPropertyInput, assign, updated_at, build_set_clauses,
  apply_clauses,
}
use realstate_allan.Models.{Property, User, role_super_admin}
use realstate_allan.Float.{Float64}
use realstate_allan.Common.{
  String, List, ℕ, Option, Bool, some, if◌then◌else◌, ◌++◌, and_then, ◌==◌, ◌&&◌, is_some, none,
  ◌∷◌, str_eq, true, find, holds_if_set, false, [], ◌+◌, not, update, ◌/◌, ◌*◌,
}

pub record CreatePropertyInput : Type 0 where
  pub listing_category : String
  pub property_type : String
  pub owner_name : String
  pub owner_contact : String
  pub price : Float64
  pub plot_area : Option Float64
  pub built_up_area : Option Float64
  pub location_lat : Float64
  pub location_lng : Float64
  pub description : Option String
  pub is_direct_owner : Bool
  pub tags : List String
  pub assigned_broker_id : Option ℕ
  pub created_by : ℕ

pub record ListResult : Type 0 where
  pub properties : List Property
  pub total : ℕ

abbrev pub is_row : ℕ → Property → Bool
is_row id p = p.id == id

-- `WHERE id = $1 AND deleted_at IS NULL`
abbrev pub is_live_row : ℕ → Property → Bool
is_live_row id p = is_row id p && is_live p

abbrev pub user_exists : List User → ℕ → Bool
user_exists users i = is_some (find (λ u. u.id == i) users)

-- The foreign keys of a row: created_by and assigned_broker_id reference users.
abbrev pub foreign_keys : List User → Property → Bool
foreign_keys users p =
    user_exists users p.created_by && holds_if_set p.assigned_broker_id (user_exists users)

abbrev pub checked : List User → Property → Option Property
checked users p = if foreign_keys users p then some p else none

-- A nullable column stores NULL as it is.
abbrev pub nullable : (Float64 → Option Float64) → Option Float64 → Option (Option Float64)
nullable column none = some none
nullable column (some v) = and_then (column v) λ w. some (some w)

-- The rows that `hit` selects are replaced, all of them or, after a refused value, none.
unfoldable pub update_rows :
    (Property → Bool) → (Property → Option Property) → List Property → Option (List Property)
update_rows hit set [] = some []
update_rows hit set (p ∷ ps) =
    and_then (if hit p then set p else some p)
      λ q. and_then (update_rows hit set ps) λ qs. some (q ∷ qs)

abbrev pub put_properties : List Property → World → World
put_properties table w = record w { properties = table }

unfoldable pub scrub_for_role : String → Property → Property
scrub_for_role role p =
    if str_eq role role_super_admin then p else record p { owner_name = ""; owner_contact = "" }

-- UPDATE properties SET … WHERE id = $id_at AND deleted_at IS NULL
pub record UpdateQuery : Type 0 where
  pub clauses : List SetClause
  pub id_at : ℕ
  pub args : List Arg

-- The end of Patch's builder: updated_at, then the id.
unfoldable pub update_query : SetBuilder → (t id : ℕ) → UpdateQuery
update_query b t id = record {
  clauses = b.clauses ++ assign updated_at b.n ∷ [];
  id_at = b.n + 1;
  args = (b.args ++ time t ∷ []) ++ uuid id ∷ [];
}

abbrev pub is_arg : Option Arg → Property → Bool
is_arg (some (uuid i)) p = is_live_row i p
is_arg _ p = false

unfoldable pub get : ℕ → Action Property
get id = do
  statement
  table ← gets (λ w. w.properties)
  or_fail (find (is_live_row id) table) property_not_found

-- BROKERs, and every role but SUPER_ADMIN, may patch only what they created.
unfoldable pub check_ownership : ℕ → ℕ → String → Action (Unit {0})
check_ownership id caller role w =
    if str_eq role role_super_admin
    then (ok tt, w)
    else (do
      statement
      table ← gets (λ w. w.properties)
      p ← or_fail (find (is_live_row id) table) property_not_found
      fail_if (not (p.created_by == caller)) forbidden)
        w

unfoldable pub is_empty : List SetClause → Bool
is_empty [] = true
is_empty (_ ∷ _) = false

unfoldable pub delete : ℕ → Action (Unit {0})
delete id = do
  statement
  t ← now
  table ← gets (λ w. w.properties)
  fail_if (not (is_some (find (is_live_row id) table))) property_not_found
  modify (put_properties (update (is_live_row id) (λ p. record p { deleted_at = some t }) table))

-- TIMESTAMPTZ keeps microseconds.
abbrev pub micros : ℕ → ℕ
micros t = t / 1_000 * 1_000

abbrev pub put_row : ℕ → Option Property → Action ℕ
put_row id none w = (err internal, w)
put_row id (some row) w = (ok id, put_properties (w.properties ++ row ∷ []) w)

module _ (pg : Postgres) where
  unfoldable pub new_row : ℕ → ℕ → CreatePropertyInput → Option Property
  new_row id t in' = and_then (pg.price_column in'.price) λ price.
      and_then (nullable pg.area_column in'.plot_area) λ plot_area.
        and_then (nullable pg.area_column in'.built_up_area) λ built_up_area. some (record {
          id = id;
          listing_category = in'.listing_category;
          property_type = in'.property_type;
          owner_name = in'.owner_name;
          owner_contact = in'.owner_contact;
          price = price;
          plot_area = plot_area;
          built_up_area = built_up_area;
          location_lat = in'.location_lat;
          location_lng = in'.location_lng;
          description = in'.description;
          tags = in'.tags;
          is_direct_owner = in'.is_direct_owner;
          assigned_broker_id = in'.assigned_broker_id;
          created_by = in'.created_by;
          created_at = t;
          updated_at = t;
          deleted_at = none;
        })

  -- INSERT checks the primary key and the foreign keys.
  unfoldable pub insert_row : ℕ → ℕ → CreatePropertyInput → Action ℕ
  insert_row id t in' w =
      if is_some (find (is_row id) w.properties)
      then (err internal, w)
      else put_row id (and_then (new_row id t in') (checked w.users)) w

  unfoldable pub create : CreatePropertyInput → Action ℕ
  create in' = do statement; id ← fresh_uuid; t ← now; insert_row id t in'

  unfoldable pub list : ListFilter → Action ListResult
  list f = do
    statement
    page ← gets (λ w. run_list_query pg (build_list_query f) w.properties)
    found ← or_fail page internal
    statement
    total ← gets (λ w. run_count_query pg (build_count_query f) w.properties)
    pure (record { properties = found; total = total })

  abbrev broker_of : Arg → Option ℕ
  broker_of (text s) = pg.parse_uuid s
  broker_of _ = none

  -- The driver encodes every argument before it sends: a broker that is no uuid is an error.
  unfoldable pub encodes : List Arg → List SetClause → Bool
  encodes args [] = true
  encodes args (assign Column.assigned_broker_id n ∷ cs) =
      is_some (and_then (arg_at args n) λ a. broker_of a) && encodes args cs
  encodes args (_ ∷ cs) = encodes args cs

  -- RowsAffected() is 0 where no row is live under the id.
  unfoldable pub exec_update : UpdateQuery → Action (Unit {0})
  exec_update q = do
    fail_if (not (encodes q.args q.clauses)) internal
    statement
    w ← gets (λ w. w)
    fail_if (not (is_some (find (is_arg (arg_at q.args q.id_at)) w.properties))) property_not_found
    table ←
        or_fail
          (update_rows (is_arg (arg_at q.args q.id_at))
            (λ p. and_then (apply_clauses pg q.args q.clauses p) (checked w.users)) w.properties)
          internal
    modify (put_properties table)

  unfoldable pub write_patch : ℕ → SetBuilder → Action (Unit {0})
  write_patch id b = do t ← now; exec_update (update_query b (micros t) id)

  -- With nothing to update, the current state.
  unfoldable pub save : ℕ → SetBuilder → Action Property
  save id b w = if is_empty b.clauses then get id w else (write_patch id b >> get id) w

  unfoldable pub patch : ℕ → ℕ → String → PatchPropertyInput → Action Property
  patch id caller role in' = do check_ownership id caller role; save id (build_set_clauses in')
