-- ===== src/Properties/Select.antt =====
-- What PostgreSQL answers to the queries of backend/internal/services/properties.go: a fragment
-- reads its placeholders from the argument list, rows come newest first, and OFFSET and LIMIT cut
-- the page. Rows of one creation time keep the order of the table. Prices and areas are compared in
-- PostgreSQL's order, in which NaN is above all numbers.
pub mod Denotes
pub mod Page
use realstate_allan.Common.{
  ℕ, ◌-◌, Bool, true, false, ◌&&◌, ◌||◌, Option, none, some, List, [], ◌∷◌, String, str_eq, ltb,
  ◌==◌, get_elem?, take, drop, length, all, select, holds_if_set, is_some, if◌then◌else◌, not,
  sort_by, and_then,
}
use realstate_allan.Common.Int.{to_nat, ltb_ℤ, pos}
use realstate_allan.Float.{Float64, sql_le}
use realstate_allan.Models.{Property}
use realstate_allan.External.{Postgres}
use realstate_allan.Properties.ListQuery.{
  Arg, text, float, bool, tags, uuid, int, Cond, category_eq, type_eq, price_ge, price_le, area_ge,
  owner_eq, within, tags_contain, broker_eq, ListFilter, ListQuery, CountQuery,
}

-- `$n`, counted from 1.
abbrev pub arg_at : List Arg → ℕ → Option Arg
arg_at args n = get_elem? args (n - 1)

abbrev pub contains : List String → String → Bool
contains [] t = false
contains (s ∷ ss) t = str_eq s t || contains ss t

abbrev pub bool_eq : Bool → Bool → Bool
bool_eq true b = b
bool_eq false b = not b

-- A comparison with NULL is not true.
abbrev pub at_least : Option Float64 → Float64 → Bool
at_least none v = false
at_least (some a) v = sql_le v a

abbrev pub is_id : Option ℕ → ℕ → Bool
is_id none i = false
is_id (some j) i = j == i

-- A comparison of a column with an argument; an argument of another type selects nothing.
abbrev text_arg : Option Arg → (String → Bool) → Bool
text_arg (some (text s)) test = test s
text_arg _ test = false

abbrev float_arg : Option Arg → (Float64 → Bool) → Bool
float_arg (some (float v)) test = test v
float_arg _ test = false

abbrev bool_arg : Option Arg → (Bool → Bool) → Bool
bool_arg (some (bool v)) test = test v
bool_arg _ test = false

abbrev tags_arg : Option Arg → (List String → Bool) → Bool
tags_arg (some (tags v)) test = test v
tags_arg _ test = false

abbrev uuid_arg : Option Arg → (ℕ → Bool) → Bool
uuid_arg (some (uuid v)) test = test v
uuid_arg _ test = false

-- A LIMIT or an OFFSET; PostgreSQL refuses one below 0.
abbrev pub count_arg : Option Arg → Option ℕ
count_arg (some (int v)) = if ltb_ℤ v (pos 0) then none else some (to_nat v)
count_arg _ = none

-- ORDER BY created_at DESC
unfoldable pub newest_first : List Property → List Property
newest_first = sort_by λ p q. ltb p.created_at q.created_at

abbrev pub is_live : Property → Bool
is_live p = not (is_some p.deleted_at)

module _ (pg : Postgres) where
  unfoldable pub holds : List Arg → Cond → Property → Bool
  holds args (category_eq n) p = text_arg (arg_at args n) λ s. str_eq p.listing_category s
  holds args (type_eq n) p = text_arg (arg_at args n) λ s. str_eq p.property_type s
  holds args (price_ge n) p = float_arg (arg_at args n) λ v. sql_le v p.price
  holds args (price_le n) p = float_arg (arg_at args n) λ v. sql_le p.price v
  holds args (area_ge n) p =
      float_arg (arg_at args n) (at_least p.built_up_area)
      || float_arg (arg_at args n) (at_least p.plot_area)
  holds args (owner_eq n) p = bool_arg (arg_at args n) (bool_eq p.is_direct_owner)
  holds args (within a b c d) p = float_arg (arg_at args a) λ xmin.
      float_arg (arg_at args b) λ ymin. float_arg (arg_at args c) λ xmax.
        float_arg (arg_at args d)
          λ ymax. pg.within_envelope xmin ymin xmax ymax p.location_lng p.location_lat
  holds args (tags_contain n) p = tags_arg (arg_at args n) (all (contains p.tags))
  holds args (broker_eq n) p = uuid_arg (arg_at args n) (is_id p.assigned_broker_id)

  abbrev pub holds_all : List Arg → List Cond → Property → Bool
  holds_all args conds p = all (λ c. holds args c p) conds

  -- The rows that the WHERE clause keeps.
  abbrev pub rows : List Arg → List Cond → List Property → List Property
  rows args conds = select λ p. is_live p && holds_all args conds p

  unfoldable pub run_list_query : ListQuery → List Property → Option (List Property)
  unfolding newest_first holds
  run_list_query q table = and_then (count_arg (arg_at q.args q.limit)) λ limit.
      and_then (count_arg (arg_at q.args q.offset))
        λ offset. some (take limit (drop offset (newest_first (rows q.args q.conds table))))

  unfoldable pub run_count_query : CountQuery → List Property → ℕ
  unfolding holds
  run_count_query q table = length (rows q.args q.conds table)

  -- What a filter asks of a listing, without a query: each field that is set is a requirement.
  unfoldable pub matches : ListFilter → Property → Bool
  matches f p =
      holds_if_set f.category (str_eq p.listing_category)
      && holds_if_set f.property_type (str_eq p.property_type)
      && holds_if_set f.min_price (λ v. sql_le v p.price)
      && holds_if_set f.max_price (λ v. sql_le p.price v)
      && holds_if_set f.min_area (λ v. at_least p.built_up_area v || at_least p.plot_area v)
      && holds_if_set f.is_direct_owner (bool_eq p.is_direct_owner)
      && holds_if_set f.bounds (λ v.
        pg.within_envelope v.lng_sw v.lat_sw v.lng_ne v.lat_ne p.location_lng p.location_lat)
      && all (contains p.tags) f.tags
      && holds_if_set f.assigned_broker_id (is_id p.assigned_broker_id)
