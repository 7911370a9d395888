-- ===== src/Share/Generate.antt =====
-- ShareService of backend/internal/services/share.go, and the handler of backend/internal/handlers/share.go.
use realstate_allan.Properties.Service.{is_live_row}
use realstate_allan.Handlers.Properties.{invalid}
use realstate_allan.Auth.Tokens.{second}
use realstate_allan.Respond.{Response, Handler, error, reply, respond_to, json}
use realstate_allan.Float.Convert.{show_fixed}
use realstate_allan.External.{Postgres}
use realstate_allan.Share.{
  ShareableProperty, ShareResult, build_plain_text, build_whatsapp, to_shareable,
}
use realstate_allan.Models.{PropertyPhoto, Property, photo_status_confirmed}
use realstate_allan.World.{
  Result, Action, Error, ◌>>◌, World, pure, ◌>>=◌, statement, ok, now, err, gets,
  property_not_found, modify, or_fail,
}
use realstate_allan.Float.{Float64}
use realstate_allan.Common.{
  String, List, Text, ℕ, ◌∷◌, [], codes, ◌*◌, Bool, Option, if◌then◌else◌, map, str_eq, ◌++◌,
  text_eq, and_then, some, ltb, ◌==◌, select, none, find, ◌&&◌, ◌+◌, not,
}

-- The reply of the geocoding API: a failed request or an undecodable body, or a status with the
-- formatted addresses.
pub data GeocodeReply : Type 0 where
  geocode_failed : GeocodeReply
  geocoded : (status : String) → (addresses : List Text) → GeocodeReply

abbrev pub first_address : List Text → Text
first_address [] = []
first_address (a ∷ as') = a

unfoldable pub call_geocode_api : GeocodeReply → Text
call_geocode_api geocode_failed = []
call_geocode_api (geocoded status addresses) =
    if str_eq status "OK" then first_address addresses else []

-- The API key, and the API by the pair "lat,lng".
pub record ShareService : Type 0 where
  pub maps_api_key : Text
  pub maps : (latlng : Text) → GeocodeReply

abbrev pub fallback : Text
fallback = codes "Location available on request"

abbrev pub geocode_cache_ttl : ℕ
geocode_cache_ttl = 24 * (3_600 * second)

unfoldable pub cache_key : (lat lng : Float64) → Text
cache_key lat lng = codes "geocode:" ++ (show_fixed 4 lat ++ b':' ∷ show_fixed 4 lng)

unfoldable pub latlng : (lat lng : Float64) → Text
latlng lat lng = show_fixed 6 lat ++ b',' ∷ show_fixed 6 lng

abbrev pub is_key : Text → Text × Text × ℕ → Bool
is_key key e = text_eq e.0 key

abbrev pub cached : Text → ℕ → List (Text × Text × ℕ) → Option Text
cached key t m = and_then (find (is_key key) m) λ e. if ltb t e.2 then some e.1 else none

unfoldable pub get_cached : Text → Action (Option Text)
get_cached key = do statement; t ← now; gets (λ w. cached key t w.geocode_cache)

abbrev pub put_label : Text → Text → ℕ → World → World
put_label key label t w = record w {
  geocode_cache =
      (key, label, t + geocode_cache_ttl) ∷ select (λ e. not (is_key key e)) w.geocode_cache;
}

unfoldable pub set_cached : Text → Text → Action (Unit {0})
set_cached key label = do statement; t ← now; modify (put_label key label t)

-- A value in place of an error.
abbrev pub or_default : {A : Type 0} → A → Result A × World → Result A × World
or_default d (ok a, w) = (ok a, w)
or_default d (err e, w) = (ok d, w)

abbrev pub default_on_error : {A : Type 0} → A → Action A → Action A
default_on_error d m w = or_default d (m w)

-- Storing is best effort.
abbrev pub remember : Text → Text → Action Text
remember key [] = pure fallback
remember key (c ∷ label) = do default_on_error tt (set_cached key (c ∷ label)); pure (c ∷ label)

abbrev pub cached_or_asked : (key : Text) → (asked : Text) → Option Text → Action Text
cached_or_asked key asked (some label) = pure label
cached_or_asked key asked none = remember key asked

unfoldable pub reverse_geocode : ShareService → (lat lng : Float64) → Action Text
reverse_geocode s lat lng w =
    if text_eq s.maps_api_key []
    then (ok fallback, w)
    else (do
      hit ← default_on_error none (get_cached (cache_key lat lng))
      cached_or_asked (cache_key lat lng) (call_geocode_api (s.maps (latlng lat lng))) hit)
        w

unfoldable pub fetch_property : ℕ → Action Property
fetch_property id = do
  statement
  table ← gets (λ w. w.properties)
  or_fail (find (is_live_row id) table) property_not_found

insert_by_order : PropertyPhoto → List PropertyPhoto → List PropertyPhoto
insert_by_order p [] = p ∷ []
insert_by_order p (q ∷ qs) =
    if ltb q.display_order p.display_order then q ∷ insert_by_order p qs else p ∷ q ∷ qs

-- ORDER BY display_order ASC
unfoldable pub by_order : List PropertyPhoto → List PropertyPhoto
unfolding insert_by_order
by_order [] = []
by_order (p ∷ ps) = insert_by_order p (by_order ps)

abbrev pub is_shown : ℕ → PropertyPhoto → Bool
is_shown property p = p.property_id == property && str_eq p.status photo_status_confirmed

abbrev pub confirmed_urls : ℕ → List PropertyPhoto → List Text
confirmed_urls property photos = map (λ p. p.cdn_url) (by_order (select (is_shown property) photos))

unfoldable pub fetch_confirmed_photos : ℕ → Action (List Text)
fetch_confirmed_photos property = do statement; gets (λ w. confirmed_urls property w.photos)

abbrev pub share_result : ShareableProperty → ShareResult
share_result p = record {
  property = p;
  plain_text = build_plain_text p;
  whatsapp_message = build_whatsapp p;
}

unfoldable pub generate : ShareService → ℕ → Action ShareResult
generate s id = do
  p ← fetch_property id
  photos ← default_on_error [] (fetch_confirmed_photos id)
  label ← reverse_geocode s p.location_lat p.location_lng
  pure (share_result (to_shareable p photos label))

abbrev pub share_error : {A : Type 0} → Error → Response A
share_error property_not_found = error 404 "PROPERTY_NOT_FOUND" "property not found"
share_error _ = error 500 "INTERNAL_ERROR" "failed to generate share content"

unfoldable pub share_handler : Postgres → ShareService → String → Handler ShareResult
share_handler pg s param = elim (pg.parse_uuid param) [
  | none ↦ reply (invalid "invalid property ID")
  | some id ↦
      respond_to (generate s id) (λ r. json 200 r "Share content generated successfully")
        share_error
]
