-- ===== src/Handlers/Properties.antt =====
-- backend/internal/handlers/properties.go.
use realstate_allan.Common.Int.{pos}
use realstate_allan.Properties.SetClauses.{PatchPropertyInput}
use realstate_allan.Models.{
  Property, listing_category_buying, property_type_plot, listing_category_selling,
  property_type_shop, property_type_flat, property_type_other,
}
use realstate_allan.World.{Action, Error, property_not_found, forbidden}
use realstate_allan.Properties.ListQuery.{ListFilter, Bounds}
use realstate_allan.Properties.Service.{
  CreatePropertyInput, list, create, patch, get, scrub_for_role, delete,
}
use realstate_allan.Respond.{Response, Handler, error, respond_to, reply, json, paginated}
use realstate_allan.Float.{Float64, le, zero_float, eq}
use realstate_allan.External.{Postgres}
use realstate_allan.Handlers.{
  ParseFloat, Caller, JsonField, into_string, clamp_int, into_float, parse_int_query, into_bool,
  into_strings, max0,
}
use realstate_allan.Common.{
  ◌∷◌, String, Option, ℕ, Bool, if◌then◌else◌, List, some, str_eq, not, or_else, trim_space, [],
  none, and_then, ◌||◌, split_on, map,
}
pub mod Listing
pub mod Privacy

-- The body of POST /api/properties; a decoding error is `none` at the handler.
pub record CreateBody : Type 0 where
  pub listing_category : String
  pub property_type : String
  pub owner_name : String
  pub owner_contact : String
  pub price : Float64
  pub plot_area : Option Float64
  pub built_up_area : Option Float64
  pub location_lat : Float64
  pub location_lng : Float64
  pub description : Option String
  pub is_direct_owner : Bool
  pub tags : Option (List String)
  pub assigned_broker_id : Option String

abbrev pub invalid : {A : Type 0} → String → Response A
invalid message = error 400 "VALIDATION_FAILED" message

abbrev pub is_category : String → Bool
is_category s = str_eq s listing_category_buying || str_eq s listing_category_selling

abbrev pub is_property_type : String → Bool
is_property_type s =
    str_eq s property_type_plot
    || str_eq s property_type_shop
    || str_eq s property_type_flat
    || str_eq s property_type_other

-- The `switch` of Create: the message of the first rule that the body breaks.
unfoldable pub broken_rule : CreateBody → Option String
broken_rule b =
    if not (is_category b.listing_category)
    then some "listing_category must be BUYING or SELLING"
    else if not (is_property_type b.property_type)
    then some "property_type must be PLOT, SHOP, FLAT, or OTHER"
    else if str_eq (trim_space b.owner_name) ""
    then some "owner_name is required"
    else if str_eq (trim_space b.owner_contact) ""
    then some "owner_contact is required"
    else if le b.price zero_float
    then some "price must be greater than 0"
    else if eq b.location_lat zero_float || eq b.location_lng zero_float
    then some "location_lat and location_lng are required"
    else none

unfoldable pub create_input : CreateBody → ℕ → Option ℕ → CreatePropertyInput
create_input b caller broker = record {
  listing_category = b.listing_category;
  property_type = b.property_type;
  owner_name = b.owner_name;
  owner_contact = b.owner_contact;
  price = b.price;
  plot_area = b.plot_area;
  built_up_area = b.built_up_area;
  location_lat = b.location_lat;
  location_lng = b.location_lng;
  description = b.description;
  is_direct_owner = b.is_direct_owner;
  tags = or_else b.tags [];
  assigned_broker_id = broker;
  created_by = caller;
}

-- `if f64, err := strconv.ParseFloat(v, 64); err == nil`, for a parameter that is not empty.
abbrev pub float_param : ParseFloat → String → Option Float64
float_param parse v = if str_eq v "" then none else parse v

abbrev pub text_param : String → Option String
text_param v = if str_eq v "" then none else some v

-- lat_sw,lng_sw,lat_ne,lng_ne: four numbers, or the parameter is ignored.
unfoldable pub parse_bounds : ParseFloat → List String → Option Bounds
parse_bounds parse (a ∷ b ∷ c ∷ d ∷ []) = and_then (parse (trim_space a)) λ lat_sw.
    and_then (parse (trim_space b)) λ lng_sw. and_then (parse (trim_space c)) λ lat_ne.
      and_then (parse (trim_space d)) λ lng_ne.
        some (record { lat_sw = lat_sw; lng_sw = lng_sw; lat_ne = lat_ne; lng_ne = lng_ne })
parse_bounds parse _ = none

module _ (pg : Postgres) (parse : ParseFloat) where
  -- The filter of List, from the query parameters.
  unfoldable pub list_filter : (String → String) → ListFilter
  list_filter q = record {
    category = text_param (q "category");
    property_type = text_param (q "type");
    min_price = float_param parse (q "min_price");
    max_price = float_param parse (q "max_price");
    min_area = float_param parse (q "min_area");
    is_direct_owner =
        if str_eq (q "is_direct_owner") ""
        then none
        else some (str_eq (q "is_direct_owner") "true");
    bounds =
        if str_eq (q "bounds") "" then none else parse_bounds parse (split_on b',' (q "bounds"));
    tags = if str_eq (q "tags") "" then [] else split_on b',' (q "tags");
    assigned_broker_id =
        if str_eq (q "assigned_broker_id") "" then none else pg.parse_uuid (q "assigned_broker_id");
    limit = clamp_int (parse_int_query (q "limit") (pos 20)) (pos 1) (pos 100);
    offset = max0 (parse_int_query (q "offset") (pos 0));
  }

  unfoldable pub list_properties : Caller → (String → String) → Handler (List Property)
  list_properties caller q =
      respond_to (list pg (list_filter q))
        (λ result.
          paginated (map (scrub_for_role caller.role) result.properties)
            "Properties retrieved successfully" (list_filter q).limit (list_filter q).offset
            result.total)
        (λ e. error 500 "INTERNAL_ERROR" "failed to list properties")

-- `raw[key]`, then json.Unmarshal: a key that is absent or of another type is left alone.
unfoldable pub patch_input : (String → Option JsonField) → PatchPropertyInput
patch_input raw = record {
  listing_category = and_then (raw "listing_category") into_string;
  property_type = and_then (raw "property_type") into_string;
  owner_name = and_then (raw "owner_name") into_string;
  owner_contact = and_then (raw "owner_contact") into_string;
  price = and_then (raw "price") into_float;
  plot_area = and_then (raw "plot_area") into_float;
  built_up_area = and_then (raw "built_up_area") into_float;
  location_lat = and_then (raw "location_lat") into_float;
  location_lng = and_then (raw "location_lng") into_float;
  description = and_then (raw "description") into_string;
  is_direct_owner = and_then (raw "is_direct_owner") into_bool;
  tags = and_then (raw "tags") into_strings;
  assigned_broker_id = and_then (raw "assigned_broker_id") into_string;
}

abbrev pub get_error : {A : Type 0} → Error → Response A
get_error property_not_found = error 404 "PROPERTY_NOT_FOUND" "property not found"
get_error _ = error 500 "INTERNAL_ERROR" "failed to get property"

abbrev pub update_error : {A : Type 0} → Error → Response A
update_error property_not_found = error 404 "PROPERTY_NOT_FOUND" "property not found"
update_error forbidden = error 403 "FORBIDDEN" "you do not have permission to update this property"
update_error _ = error 500 "INTERNAL_ERROR" "failed to update property"

abbrev pub delete_error : {A : Type 0} → Error → Response A
delete_error property_not_found = error 404 "PROPERTY_NOT_FOUND" "property not found"
delete_error _ = error 500 "INTERNAL_ERROR" "failed to delete property"

-- A broker that is given and not empty must be a uuid.
abbrev pub broker_param : Postgres → Option String → Option (Option ℕ)
broker_param pg none = some none
broker_param pg (some s) =
    if str_eq s "" then some none else and_then (pg.parse_uuid s) λ i. some (some i)

module _ (pg : Postgres) where
  abbrev created : Action ℕ → Handler ℕ
  created m =
      respond_to m (λ id. json 201 id "Property listing created successfully")
        (λ e. error 500 "INTERNAL_ERROR" "failed to create property")

  abbrev with_broker : CreateBody → ℕ → Option (Option ℕ) → Handler ℕ
  with_broker b caller none = reply (invalid "assigned_broker_id must be a valid UUID")
  with_broker b caller (some broker) = created (create pg (create_input b caller broker))

  abbrev with_caller : CreateBody → Option ℕ → Handler ℕ
  with_caller b none = reply (error 401 "UNAUTHORIZED" "invalid user identity")
  with_caller b (some caller) = with_broker b caller (broker_param pg b.assigned_broker_id)

  abbrev with_rules : Caller → CreateBody → Option String → Handler ℕ
  with_rules caller b (some message) = reply (invalid message)
  with_rules caller b none = with_caller b (pg.parse_uuid caller.user_id)

  unfoldable pub create_property : Caller → Option CreateBody → Handler ℕ
  create_property caller none = reply (invalid "invalid request body")
  create_property caller (some b) = with_rules caller b (broken_rule b)

  -- The path parameter is a text.
  unfoldable pub get_property : Caller → String → Handler Property
  get_property caller param = elim (pg.parse_uuid param) [
    | none ↦ reply (invalid "invalid property ID")
    | some id ↦
        respond_to (get id)
          (λ p. json 200 (scrub_for_role caller.role p) "Property retrieved successfully") get_error
  ]

  abbrev pub with_raw : ℕ → ℕ → String → Option (String → Option JsonField) → Handler Property
  with_raw id user role none = reply (invalid "invalid request body")
  with_raw id user role (some raw) =
      respond_to (patch pg id user role (patch_input raw))
        (λ p. json 200 (scrub_for_role role p) "Property updated successfully") update_error

  unfoldable pub update_property :
      Caller → String → Option (String → Option JsonField) → Handler Property
  update_property caller param body = elim (pg.parse_uuid caller.user_id) [
    | none ↦ reply (error 401 "UNAUTHORIZED" "invalid user identity")
    | some user ↦ elim (pg.parse_uuid param) [
      | none ↦ reply (invalid "invalid property ID")
      | some id ↦ with_raw id user caller.role body
    ]
  ]

  unfoldable pub delete_property : String → Handler (Unit {0})
  delete_property param = elim (pg.parse_uuid param) [
    | none ↦ reply (invalid "invalid property ID")
    | some id ↦
        respond_to (delete id) (λ _. json 200 tt "Property listing deleted successfully")
          delete_error
  ]
