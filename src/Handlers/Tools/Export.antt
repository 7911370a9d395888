-- ===== src/Handlers/Tools/Export.antt =====
-- What ExportCSV of backend/internal/handlers/tools.go writes.
use realstate_allan.Float.{Float64}
use realstate_allan.World.{World}
use realstate_allan.Properties.Select.Page.{IsNewestFirst}
use realstate_allan.Float.Convert.{show_fixed}
use realstate_allan.Handlers.Tools.{
  Cell, cell, instant, nullable_float, deref_str, bool_str, join_tags,
}
use realstate_allan.Handlers.Tools.{CsvRow, csv_record}
use realstate_allan.Models.{Property}
use realstate_allan.Common.{
  Text, List, ◌≡◌, ◌+◌, map, ◌∷◌, ◌⊎◌, ℕ, true, [], refl, length, take, ◌++◌, String, codes, ap₂,
  ◌≤◌, Filters, if◌then◌else◌, none, str_eq, false, Option, or_else, Bool, some,
}
use realstate_allan.External.{Libraries}

-- The columns, by their headings.
abbrev pub columns : List String
columns =
    "id" ∷ "listing_category" ∷ "property_type" ∷ "owner_name" ∷ "owner_contact" ∷ "price"
    ∷ "plot_area" ∷ "built_up_area" ∷ "location_lat" ∷ "location_lng" ∷ "is_direct_owner" ∷ "tags"
    ∷ "description" ∷ "created_at" ∷ []

-- A number with two decimals, and nothing where there is none.
abbrev two_decimals : Option Float64 → Text
two_decimals o = elim o [ none ↦ [] | some v ↦ show_fixed 2 v ]

-- What stands under a heading for a listing.
unfoldable pub under : Libraries → Property → String → Cell
under lib p heading =
    if str_eq heading "id"
    then cell (codes (lib.show_uuid p.id))
    else if str_eq heading "listing_category"
    then cell (codes p.listing_category)
    else if str_eq heading "property_type"
    then cell (codes p.property_type)
    else if str_eq heading "owner_name"
    then cell (codes p.owner_name)
    else if str_eq heading "owner_contact"
    then cell (codes p.owner_contact)
    else if str_eq heading "price"
    then cell (show_fixed 2 p.price)
    else if str_eq heading "plot_area"
    then cell (two_decimals p.plot_area)
    else if str_eq heading "built_up_area"
    then cell (two_decimals p.built_up_area)
    else if str_eq heading "location_lat"
    then cell (show_fixed 6 p.location_lat)
    else if str_eq heading "location_lng"
    then cell (show_fixed 6 p.location_lng)
    else if str_eq heading "is_direct_owner"
    then cell (if p.is_direct_owner then codes "true" else codes "false")
    else if str_eq heading "tags"
    then cell (join_tags p.tags)
    else if str_eq heading "description"
    then cell (codes (or_else p.description ""))
    else instant p.created_at

bool_str-shown : (b : Bool) → bool_str b ≡ (if b then codes "true" else codes "false")
unfolding bool_str
bool_str-shown true = refl
bool_str-shown false = refl

deref_str-shown : (s : Option String) → deref_str s ≡ codes (or_else s "")
unfolding deref_str
deref_str-shown none = refl
deref_str-shown (some s) = refl

csv_record-under : (lib : Libraries) (p : Property) → csv_record lib p ≡ map (under lib p) columns
unfolding csv_record under nullable_float
csv_record-under lib p =
    ap₂
      (λ b d.
        cell (codes (lib.show_uuid p.id))
        ∷ cell (codes p.listing_category)
        ∷ cell (codes p.property_type)
        ∷ cell (codes p.owner_name)
        ∷ cell (codes p.owner_contact)
        ∷ cell (show_fixed 2 p.price)
        ∷ cell (two_decimals p.plot_area)
        ∷ cell (two_decimals p.built_up_area)
        ∷ cell (show_fixed 6 p.location_lat)
        ∷ cell (show_fixed 6 p.location_lng)
        ∷ cell b
        ∷ cell (join_tags p.tags)
        ∷ cell d
        ∷ instant p.created_at
        ∷ [])
      (bool_str-shown p.is_direct_owner) (deref_str-shown p.description)

csv_records-under :
    (lib : Libraries) (ps : List Property)
    → map (csv_record lib) ps ≡ map (λ p. map (under lib p) columns) ps
csv_records-under lib [] = refl
csv_records-under lib (p ∷ ps) =
    ap₂ (λ r rs. r ∷ rs) (csv_record-under lib p) (csv_records-under lib ps)

module _ (lib : Libraries) (message : Text) where
  -- All rows; or the first k of them and the sentinel, where reading failed after those.
  abbrev pub Streams : ℕ → World → List Property → List CsvRow → Type 0
  Streams tick w ps rows =
      (rows ≡ map (λ p. map (under lib p) columns) ps)
      ⊎ ((k : ℕ) × (k ≤ length ps)
          × (w.oracle.fault (tick + k) ≡ true)
          × (rows
              ≡ map (λ p. map (under lib p) columns) (take k ps)
                ++ (cell (codes "ERROR") ∷ cell (codes "stream interrupted") ∷ cell message ∷ [])
                  ∷ []))

  -- The header, then the rows of the live listings, or the sentinel of a failed query.
  abbrev pub Exports : World → List CsvRow × World → Type 0
  Exports w (rows, v) =
      (((body : List CsvRow) × (hits : List Property) × (ordered : List Property) × (rows
            ≡ map (λ s. cell (codes s)) columns ∷ body)
          × Filters (λ p. p.deleted_at ≡ none) w.properties hits
          × IsNewestFirst hits ordered
          × Streams (w.tick + 1) w ordered body)
        ⊎ ((w.oracle.fault w.tick ≡ true)
            × (rows
                ≡ map (λ s. cell (codes s)) columns
                  ∷ (cell (codes "ERROR")
                      ∷ cell (codes "failed to query properties")
                      ∷ cell message
                      ∷ [])
                  ∷ [])))
      × (v.properties ≡ w.properties)
