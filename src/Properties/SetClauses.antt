-- ===== src/Properties/SetClauses.antt =====
-- backend/internal/services/properties.go: PatchPropertyInput, buildSetClauses, and what
-- PostgreSQL does with the assignments of an UPDATE.
use realstate_allan.Properties.Select.{arg_at}
use realstate_allan.Models.{Property}
use realstate_allan.Float.{Float64}
use realstate_allan.Properties.ListQuery.{Arg}
use realstate_allan.External.{Postgres}
use realstate_allan.Common.{
  Option, ℕ, List, [], String, some, Bool, ◌++◌, if◌then◌else◌, and_then, ◌∷◌, ◌+◌, str_eq, none,
}
pub mod Denotes

pub record PatchPropertyInput : Type 0 where
  pub listing_category : Option String
  pub property_type : Option String
  pub owner_name : Option String
  pub owner_contact : Option String
  pub price : Option Float64
  pub plot_area : Option Float64
  pub built_up_area : Option Float64
  pub location_lat : Option Float64
  pub location_lng : Option Float64
  pub description : Option String
  pub is_direct_owner : Option Bool
  pub tags : Option (List String)
  -- the empty string sets NULL
  pub assigned_broker_id : Option String

pub data Column : Type 0 where
  listing_category property_type owner_name owner_contact : Column
  price plot_area built_up_area location_lat location_lng : Column
  description is_direct_owner tags assigned_broker_id updated_at : Column

-- `column = $n` and `column = NULL`.
pub data SetClause : Type 0 where
  assign : Column → ℕ → SetClause
  set_null : Column → SetClause

-- The locals of buildSetClauses.
pub record SetBuilder : Type 0 where
  pub clauses : List SetClause
  pub args : List Arg
  pub n : ℕ

abbrev pub no_clauses : SetBuilder
no_clauses = record { clauses = []; args = []; n = 1 }

-- `if in.X != nil { clauses = append(…, n); args = append(args, *in.X); n++ }`
unfoldable pub set_to {ℓ} : {A : Type ℓ} → Option A → Column → (A → Arg) → SetBuilder → SetBuilder
set_to none c arg b = b
set_to (some a) c arg b = record {
  clauses = b.clauses ++ assign c b.n ∷ [];
  args = b.args ++ arg a ∷ [];
  n = b.n + 1;
}

unfoldable pub set_broker : Option String → SetBuilder → SetBuilder
set_broker none b = b
set_broker (some s) b =
    if str_eq s ""
    then record b { clauses = b.clauses ++ set_null Column.assigned_broker_id ∷ [] }
    else record {
      clauses = b.clauses ++ assign Column.assigned_broker_id b.n ∷ [];
      args = b.args ++ Arg.text s ∷ [];
      n = b.n + 1;
    }

unfoldable pub build_set_clauses : PatchPropertyInput → SetBuilder
unfolding set_to set_broker
build_set_clauses in' =
    let b1 = set_to in'.listing_category Column.listing_category Arg.text no_clauses in
    let b2 = set_to in'.property_type Column.property_type Arg.text b1 in
    let b3 = set_to in'.owner_name Column.owner_name Arg.text b2 in
    let b4 = set_to in'.owner_contact Column.owner_contact Arg.text b3 in
    let b5 = set_to in'.price Column.price Arg.float b4 in
    let b6 = set_to in'.plot_area Column.plot_area Arg.float b5 in
    let b7 = set_to in'.built_up_area Column.built_up_area Arg.float b6 in
    let b8 = set_to in'.location_lat Column.location_lat Arg.float b7 in
    let b9 = set_to in'.location_lng Column.location_lng Arg.float b8 in
    let b10 = set_to in'.description Column.description Arg.text b9 in
    let b11 = set_to in'.is_direct_owner Column.is_direct_owner Arg.bool b10 in
    let b12 = set_to in'.tags Column.tags Arg.tags b11 in set_broker in'.assigned_broker_id b12

module _ (pg : Postgres) where
  -- The value of an argument in a column; `none` is PostgreSQL's refusal of it.
  unfoldable pub store : Column → Arg → Property → Option Property
  store Column.listing_category (Arg.text s) p = some (record p { listing_category = s })
  store Column.property_type (Arg.text s) p = some (record p { property_type = s })
  store Column.owner_name (Arg.text s) p = some (record p { owner_name = s })
  store Column.owner_contact (Arg.text s) p = some (record p { owner_contact = s })
  store Column.price (Arg.float v) p =
      and_then (pg.price_column v) λ w. some (record p { price = w })
  store Column.plot_area (Arg.float v) p =
      and_then (pg.area_column v) λ w. some (record p { plot_area = some w })
  store Column.built_up_area (Arg.float v) p =
      and_then (pg.area_column v) λ w. some (record p { built_up_area = some w })
  store Column.location_lat (Arg.float v) p = some (record p { location_lat = v })
  store Column.location_lng (Arg.float v) p = some (record p { location_lng = v })
  store Column.description (Arg.text s) p = some (record p { description = some s })
  store Column.is_direct_owner (Arg.bool v) p = some (record p { is_direct_owner = v })
  store Column.tags (Arg.tags ts) p = some (record p { tags = ts })
  store Column.assigned_broker_id (Arg.text s) p =
      and_then (pg.parse_uuid s) λ i. some (record p { assigned_broker_id = some i })
  store Column.updated_at (Arg.time t) p = some (record p { updated_at = t })
  store _ _ _ = none

  unfoldable pub apply_clause : List Arg → SetClause → Property → Option Property
  unfolding store
  apply_clause args (assign c n) p = and_then (arg_at args n) λ a. store c a p
  apply_clause args (set_null Column.assigned_broker_id) p =
      some (record p { assigned_broker_id = none })
  apply_clause args (set_null _) p = none

  -- All assignments of one UPDATE, on one row.
  unfoldable pub apply_clauses : List Arg → List SetClause → Property → Option Property
  unfolding apply_clause
  apply_clauses args [] p = some p
  apply_clauses args (c ∷ cs) p = and_then (apply_clause args c p) λ q. apply_clauses args cs q
