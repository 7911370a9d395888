-- ===== src/Properties/ListQuery.antt =====
-- backend/internal/services/properties.go: ListFilter, buildListQuery and buildCountQuery. A WHERE
-- fragment is a constructor that holds its `$n` placeholders.
use realstate_allan.Common.{ℕ, ◌+◌, Bool, Option, none, some, List, [], ◌∷◌, ◌++◌, String}
use realstate_allan.Common.Int.{ℤ}
use realstate_allan.Float.{Float64}

pub data Arg : Type 0 where
  text : String → Arg
  float : Float64 → Arg
  bool : Bool → Arg
  tags : List String → Arg
  uuid : ℕ → Arg
  int : ℤ → Arg
  time : ℕ → Arg

-- ` AND listing_category = $n`, ` AND property_type = $n`, ` AND price >= $n`, ` AND price <= $n`,
-- ` AND (built_up_area >= $n OR plot_area >= $n)`, ` AND is_direct_owner = $n`,
-- ` AND ST_Within(geom, ST_MakeEnvelope($a, $b, $c, $d, 4326))`, ` AND tags @> $n`,
-- ` AND assigned_broker_id = $n`
pub data Cond : Type 0 where
  category_eq type_eq price_ge price_le area_ge owner_eq : ℕ → Cond
  within : (a b c d : ℕ) → Cond
  tags_contain broker_eq : ℕ → Cond

-- [lat_sw, lng_sw, lat_ne, lng_ne]
pub record Bounds : Type 0 where
  pub lat_sw : Float64
  pub lng_sw : Float64
  pub lat_ne : Float64
  pub lng_ne : Float64

pub record ListFilter : Type 0 where
  pub category : Option String
  pub property_type : Option String
  pub min_price : Option Float64
  pub max_price : Option Float64
  pub min_area : Option Float64
  pub is_direct_owner : Option Bool
  pub bounds : Option Bounds
  pub tags : List String
  pub assigned_broker_id : Option ℕ
  pub limit : ℤ
  pub offset : ℤ

-- The builder's locals: the fragments written, `args`, and `n`.
pub record Builder : Type 0 where
  pub conds : List Cond
  pub args : List Arg
  pub n : ℕ

abbrev pub start : Builder
start = record { conds = []; args = []; n = 1 }

-- `if f.X != nil { Fprintf(…, n); args = append(args, *f.X); n++ }`
unfoldable pub add {ℓ} : {A : Type ℓ} → Option A → (ℕ → Cond) → (A → Arg) → Builder → Builder
add none cond arg b = b
add (some a) cond arg b = record {
  conds = b.conds ++ cond b.n ∷ [];
  args = b.args ++ arg a ∷ [];
  n = b.n + 1;
}

-- The envelope takes longitude first.
unfoldable pub add_bounds : Option Bounds → Builder → Builder
add_bounds none b = b
add_bounds (some v) b = record {
  conds = b.conds ++ within b.n (b.n + 1) (b.n + 2) (b.n + 3) ∷ [];
  args = b.args ++ float v.lng_sw ∷ float v.lat_sw ∷ float v.lng_ne ∷ float v.lat_ne ∷ [];
  n = b.n + 4;
}

-- `len(f.Tags) > 0`
unfoldable pub non_empty : List String → Option (List String)
non_empty [] = none
non_empty (t ∷ ts) = some (t ∷ ts)

-- `SELECT … WHERE deleted_at IS NULL` with these conditions, then
-- ` ORDER BY created_at DESC LIMIT $limit OFFSET $offset`.
pub record ListQuery : Type 0 where
  pub conds : List Cond
  pub limit : ℕ
  pub offset : ℕ
  pub args : List Arg

unfoldable pub build_list_query : ListFilter → ListQuery
unfolding add add_bounds non_empty
build_list_query f =
    let b1 = add f.category category_eq text start in
    let b2 = add f.property_type type_eq text b1 in
    let b3 = add f.min_price price_ge float b2 in
    let b4 = add f.max_price price_le float b3 in
    let b5 = add f.min_area area_ge float b4 in
    let b6 = add f.is_direct_owner owner_eq bool b5 in
    let b7 = add_bounds f.bounds b6 in
    let b8 = add (non_empty f.tags) tags_contain tags b7 in
    let b9 = add f.assigned_broker_id broker_eq uuid b8 in
    record {
      conds = b9.conds;
      limit = b9.n;
      offset = b9.n + 1;
      args = b9.args ++ int f.limit ∷ int f.offset ∷ [];
    }

-- `SELECT COUNT(*) … WHERE deleted_at IS NULL` with these conditions.
pub record CountQuery : Type 0 where
  pub conds : List Cond
  pub args : List Arg

-- The source repeats the chain, and leaves out the last `n++`, which nothing reads.
unfoldable pub build_count_query : ListFilter → CountQuery
unfolding add add_bounds non_empty
build_count_query f =
    let c1 = add f.category category_eq text start in
    let c2 = add f.property_type type_eq text c1 in
    let c3 = add f.min_price price_ge float c2 in
    let c4 = add f.max_price price_le float c3 in
    let c5 = add f.min_area area_ge float c4 in
    let c6 = add f.is_direct_owner owner_eq bool c5 in
    let c7 = add_bounds f.bounds c6 in
    let c8 = add (non_empty f.tags) tags_contain tags c7 in
    let c9 = add f.assigned_broker_id broker_eq uuid c8 in
    record { conds = c9.conds; args = c9.args }
