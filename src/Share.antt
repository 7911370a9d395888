-- ===== src/Share.antt =====
-- backend/internal/services/share.go: what is shared of a listing, the two message texts, and the label
-- of its place, kept in Redis for a day. What Google Maps replies is a parameter.
pub mod Answers
pub mod Privacy
use realstate_allan.Float.Convert.{show_fixed}
use realstate_allan.Format.{format_indian_number, format_price_per_sqm}
use realstate_allan.Float.{Float64, lt, zero_float}
use realstate_allan.Models.{
  Property, property_type_plot, listing_category_buying, property_type_shop, property_type_flat,
}
use realstate_allan.Common.{
  ℕ, Text, Option, String, Bool, List, some, if◌then◌else◌, codes, ◌∷◌, ◌++◌, none, or_else, str_eq,
  [], map,
}
pub mod Generate

pub record ShareableProperty : Type 0 where
  pub id : ℕ
  pub listing_category : String
  pub property_type : String
  pub price : Float64
  pub price_formatted : Text
  pub plot_area : Option Float64
  pub built_up_area : Option Float64
  pub location_label : Text
  pub description : Option String
  pub tags : List String
  pub is_direct_owner : Bool
  pub photo_urls : List Text
  pub price_per_sqm : Float64
  pub price_per_sqm_formatted : Text
  pub created_at : ℕ

pub record ShareResult : Type 0 where
  pub property : ShareableProperty
  pub plain_text : Text
  pub whatsapp_message : Text

abbrev positive : Option Float64 → Option Float64
positive none = none
positive (some a) = if lt zero_float a then some a else none

unfoldable pub effective_area : Property → Float64
effective_area p = elim (positive p.built_up_area) [
  | some a ↦ a
  | none ↦ or_else (positive p.plot_area) zero_float
]

abbrev pub rate_text : Float64 → Text
rate_text rate = if lt zero_float rate then format_indian_number rate ++ codes "/sqm" else []

unfoldable pub to_shareable :
    Property → (photo_urls : List Text) → (location_label : Text) → ShareableProperty
to_shareable p photo_urls location_label = record {
  id = p.id;
  listing_category = p.listing_category;
  property_type = p.property_type;
  price = p.price;
  price_formatted = format_indian_number p.price;
  plot_area = p.plot_area;
  built_up_area = p.built_up_area;
  location_label = location_label;
  description = p.description;
  tags = p.tags;
  is_direct_owner = p.is_direct_owner;
  photo_urls = photo_urls;
  price_per_sqm = format_price_per_sqm p.price (effective_area p);
  price_per_sqm_formatted = rate_text (format_price_per_sqm p.price (effective_area p));
  created_at = p.created_at;
}

unfoldable pub property_type_label : String → Text
property_type_label t =
    if str_eq t property_type_plot
    then codes "Plot"
    else if str_eq t property_type_shop
    then codes "Shop"
    else if str_eq t property_type_flat
    then codes "Flat"
    else codes "Property"

-- strings.Join
unfoldable pub join : Text → List Text → Text
join sep [] = []
join sep (s ∷ []) = s
join sep (s ∷ t ∷ ts) = s ++ (sep ++ join sep (t ∷ ts))

abbrev area_part : Option Float64 → Text → List Text
area_part none what = []
area_part (some a) what = (show_fixed 0 a ++ what) ∷ []

unfoldable pub format_area_line : ShareableProperty → Text
format_area_line p = join (codes " / ") (
    area_part (positive p.plot_area) (codes " sqm plot")
    ++ area_part (positive p.built_up_area) (codes " sqm built-up"))

abbrev pub action : ShareableProperty → Text
action p =
    if str_eq p.listing_category listing_category_buying
    then codes "Wanted to Buy"
    else codes "For Sale"

abbrev pub newline : Text
newline = 10 ∷ []

-- `before`, a text and `after`, where the text is not empty.
abbrev pub unless_empty : (before text after : Text) → Text
unless_empty before [] after = []
unless_empty before (c ∷ s) after = before ++ ((c ∷ s) ++ after)

abbrev pub description_of : ShareableProperty → Text
description_of p = elim p.description [ none ↦ [] | some d ↦ codes d ]

abbrev pub tag_line : (before sep : Text) → List String → Text
tag_line before sep [] = []
tag_line before sep (t ∷ ts) = before ++ (join sep (map codes (t ∷ ts)) ++ newline)

abbrev pub if_direct : Bool → Text → Text
if_direct direct t = if direct then t else []

unfoldable pub build_plain_text : ShareableProperty → Text
build_plain_text p =
    (action p ++ (codes " - " ++ (property_type_label p.property_type ++ newline)))
    ++ ((codes "Price: " ++ (p.price_formatted ++ newline))
        ++ ((codes "Location: " ++ (p.location_label ++ newline))
            ++ (unless_empty (codes "Price per sqm: ") p.price_per_sqm_formatted newline
                ++ (unless_empty (codes "Area: ") (format_area_line p) newline
                    ++ (unless_empty newline (description_of p) newline
                        ++ (tag_line (codes "\nTags: ") (codes ", ") p.tags
                            ++ (if_direct p.is_direct_owner
                                  (codes "\nDirect owner listing — no brokerage from owner side.\n")
                                ++ codes "\nContact us for more details.")))))))

unfoldable pub build_whatsapp : ShareableProperty → Text
build_whatsapp p =
    (codes "*"
      ++ (action p ++ (codes " - " ++ (property_type_label p.property_type ++ codes "*\n\n"))))
    ++ ((codes "💰 *Price:* " ++ (p.price_formatted ++ newline))
        ++ ((codes "📍 *Location:* " ++ (p.location_label ++ newline))
            ++ (unless_empty (codes "📊 *Rate:* ") p.price_per_sqm_formatted newline
                ++ (unless_empty (codes "📐 *Area:* ") (format_area_line p) newline
                    ++ (unless_empty (codes "\n_") (description_of p) (codes "_\n")
                        ++ (tag_line (codes "\n🏷" ++ 0xFE0F ∷ codes " ") (codes " · ") p.tags
                            ++ (if_direct p.is_direct_owner
                                  (codes "\n✅ _Direct owner — no brokerage from owner side._\n")
                                ++ codes "\n_Contact us for more details._")))))))
