-- ===== src/Tests/Listings.antt =====
-- Runs of the theorems on listings: backend/internal/services/properties.go and the handlers above it.
use realstate_allan.Properties.Service.{
  delete, is_empty, check_ownership, save, write_patch, exec_update, encodes, update_rows, get,
}
use realstate_allan.Properties.Service.Update.{update_query_lem}
use realstate_allan.Properties.SetClauses.Denotes.{patched}
use realstate_allan.Properties.Select.Page.{selected, list_queries, IsNewestFirst}
use realstate_allan.Properties.Service.Patch.{patch_others, patch_denied, patch_writes}
use realstate_allan.Common.Int.{pos}
use realstate_allan.World.{err, forbidden}
use realstate_allan.Models.{Property}
use realstate_allan.Handlers.Properties.{
  list_properties, list_filter, get_property, update_property,
}
use realstate_allan.Properties.Service.Ownership.{Owns}
use realstate_allan.Tests.{postgres, world, shop, flat}
use realstate_allan.Float.{of_nat}
use realstate_allan.Handlers.Properties.Privacy.{HidesAll, HidesOwner, responses_hide_owner}
use realstate_allan.Properties.Service.Delete.{Deletes, delete-Deletes}
use realstate_allan.Properties.Service.Create.{Creates, create-Creates}
use realstate_allan.Handlers.Properties.Listing.{Pages, list_properties-Pages}
use realstate_allan.Properties.Select.{run_list_query, run_count_query, arg_at}
use realstate_allan.Properties.Service.{
  CreatePropertyInput, patch, is_row, create, update_query, is_live_row,
}
use realstate_allan.Properties.SetClauses.{PatchPropertyInput, apply_clauses, build_set_clauses}
use realstate_allan.Common.{
  String, find, none, some, if◌then◌else◌, true, str_eq, false, ◌≡◌, ◌∷◌, [], take, drop, and_then,
  arith, refl, length, List,
}
use realstate_allan.Properties.ListQuery.{ListFilter, build_list_query, build_count_query, uuid}
use realstate_allan.Handlers.{ParseFloat, Caller}

abbrev unparsed : ParseFloat
unparsed s = none

abbrev buying : ListFilter
buying = record {
  category = some "BUYING";
  property_type = none;
  min_price = some (of_nat 100);
  max_price = none;
  min_area = none;
  is_direct_owner = some true;
  bounds = none;
  tags = "sea" ∷ [];
  assigned_broker_id = none;
  limit = pos 20;
  offset = pos 1;
}

abbrev ann : Caller
ann = record { user_id = "1"; role = "BROKER" }

abbrev query : String → String
query s = if str_eq s "category" then "BUYING" else if str_eq s "limit" then "1" else ""

abbrev no_fields : PatchPropertyInput
no_fields = record {
  listing_category = none;
  property_type = none;
  owner_name = none;
  owner_contact = none;
  price = none;
  plot_area = none;
  built_up_area = none;
  location_lat = none;
  location_lng = none;
  description = none;
  is_direct_owner = none;
  tags = none;
  assigned_broker_id = none;
}

abbrev new_price : PatchPropertyInput
new_price = record no_fields { price = some (of_nat 950); property_type = some "OTHER" }

abbrev input : CreatePropertyInput
input = record {
  listing_category = "SELLING";
  property_type = "PLOT";
  owner_name = "Paul";
  owner_contact = "556";
  price = of_nat 10;
  plot_area = some (of_nat 40);
  built_up_area = none;
  location_lat = of_nat 12;
  location_lng = of_nat 77;
  description = none;
  is_direct_owner = false;
  tags = [];
  assigned_broker_id = some 2;
  created_by = 1;
}

list_queries_example :
    ((ordered : List Property) × IsNewestFirst (selected postgres buying world.properties) ordered
      × (run_list_query postgres (build_list_query buying) world.properties
          ≡ some (take 20 (drop 1 ordered))))
    × (run_count_query postgres (build_count_query buying) world.properties
        ≡ length (selected postgres buying world.properties))
list_queries_example = list_queries postgres buying world.properties

list_properties-Pages_example :
    Pages postgres
      (list_filter postgres unparsed query)
      "BROKER"
      world
      (list_properties postgres unparsed ann query world)
list_properties-Pages_example = list_properties-Pages postgres unparsed ann query world

create-Creates_example : Creates postgres input world (create postgres input world)
create-Creates_example = create-Creates postgres input world

update_query_lem_example :
    (apply_clauses postgres
        (update_query (build_set_clauses new_price) 900 10).args
        (update_query (build_set_clauses new_price) 900 10).clauses
        flat
      ≡ and_then (patched postgres new_price flat) (λ r. some (record r { updated_at = 900 })))
    × (arg_at
          (update_query (build_set_clauses new_price) 900 10).args
          (update_query (build_set_clauses new_price) 900 10).id_at
        ≡ some (uuid 10))
update_query_lem_example = update_query_lem postgres new_price 900 10 flat

patch_denied_example :
    patch postgres 11 1 "BROKER" new_price world ≡ (err forbidden, record world { tick = 1 })
patch_denied_example = patch_denied postgres 11 1 "BROKER" new_price world {p = shop} refl refl refl

patch_others_example :
    find (is_row 11) (patch postgres 10 1 "BROKER" new_price world).1.properties ≡ some shop
patch_others_example =
    patch_others postgres 10 1 "BROKER" new_price 11 world (λ h. omega (arith, h))

patch_writes_example :
    Owns 10 1 "BROKER" world
    × ((p : Property) × (find (is_live_row 10) world.properties ≡ some p)
        × (and_then (patched postgres new_price p) (λ r. some (record r { updated_at = 1_000 }))
            ≡ some
                (record flat { price = of_nat 950; property_type = "OTHER"; updated_at = 1_000 }))
        × (find (is_live_row 10) (patch postgres 10 1 "BROKER" new_price world).1.properties
            ≡ some
                (record flat { price = of_nat 950; property_type = "OTHER"; updated_at = 1_000 })))
unfolding patch is_empty build_set_clauses check_ownership save write_patch exec_update encodes
    update_query update_rows apply_clauses get
patch_writes_example = patch_writes postgres 10 1 "BROKER" new_price world refl refl

delete-Deletes_example : Deletes 10 world (delete 10 world)
delete-Deletes_example = delete-Deletes 10 world

responses_hide_owner_example :
    HidesAll (list_properties postgres unparsed ann query world).0
    × HidesOwner (get_property postgres ann "10" world).0
    × HidesOwner (update_property postgres ann "10" (some (λ k. none)) world).0
responses_hide_owner_example =
    responses_hide_owner postgres ann refl unparsed query "10" (some (λ k. none)) world
