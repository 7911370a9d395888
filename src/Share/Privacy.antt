-- ===== src/Share/Privacy.antt =====
-- The owner does not show in what backend/internal/services/share.go generates.
use realstate_allan.Properties.Service.{is_live_row}
use realstate_allan.Share.{to_shareable, ShareResult, effective_area, ShareableProperty}
use realstate_allan.Float.{Float64}
use realstate_allan.Common.{
  Text, map, ◌≡◌, Option, ℕ, ap, ◌∷◌, none, Bool-cases, [], refl, ◌∙◌, some, text_eq, inl, inr,
  List, find, fun_ext, Option-cases, ◌+◌,
}
use realstate_allan.Share.Generate.{
  get_cached, set_cached, ShareService, reverse_geocode, fetch_confirmed_photos, or_default,
  default_on_error, remember, cached_or_asked, cache_key, share_result, call_geocode_api, latlng,
  cached, put_label, confirmed_urls, generate, fetch_property,
}
use realstate_allan.World.{
  World, Result, Action, statement, now, pure, resume, ◌>>=◌, ok, err, gets, modify,
}
use realstate_allan.Models.{Property}

abbrev pub without_owner : Property → Property
without_owner p = record p { owner_name = ""; owner_contact = "" }

-- The world in which no listing has an owner's name or contact.
abbrev pub hide_owners : World → World
hide_owners w = record w { properties = map without_owner w.properties }

abbrev hidden : {A : Type 0} → Result A × World → Result A × World
hidden (r, w) = (r, hide_owners w)

-- A call that neither reads nor writes what is hidden.
record Blind {A : Type 0} (m : Action A) : Type 0 where
  same : (w : World) → m (hide_owners w) ≡ hidden (m w)

resume-Blind :
    {A B : Type 0} (f : A → Action B) (r : Result A × World)
    → ((a : A) → Blind (f a))
    → resume f (hidden r) ≡ hidden (resume f r)
resume-Blind f (ok a, w) k = (k a).same w
resume-Blind f (err e, w) k = refl

>>=-Blind :
    {A B : Type 0} {m : Action A} {f : A → Action B}
    → Blind m
    → ((a : A) → Blind (f a))
    → Blind (m >>= f)
>>=-Blind {m = m} {f = f} h k = record {
  same = λ w. ap (resume f) (h.same w) ∙ resume-Blind f (m w) k;
}

statement-Blind : Blind statement
statement-Blind = record { same = λ w. refl }

now-Blind : Blind now
now-Blind = record { same = λ w. refl }

pure-Blind : {A : Type 0} (a : A) → Blind (pure a)
pure-Blind a = record { same = λ w. refl }

gets-Blind : {A : Type 0} (f : World → A) → ((w : World) → f (hide_owners w) ≡ f w) → Blind (gets f)
gets-Blind f h = record { same = λ w. ap (λ a. (ok a, hide_owners w)) (h w) }

modify-Blind :
    (f : World → World) → ((w : World) → f (hide_owners w) ≡ hide_owners (f w)) → Blind (modify f)
modify-Blind f h = record { same = λ w. ap (λ v. (ok tt, v)) (h w) }

defaulted :
    {A : Type 0} (d : A) (r : Result A × World) → or_default d (hidden r) ≡ hidden (or_default d r)
defaulted d (ok a, w) = refl
defaulted d (err e, w) = refl

default-Blind : {A : Type 0} (d : A) (m : Action A) → Blind m → Blind (default_on_error d m)
default-Blind d m h = record { same = λ w. ap (or_default d) (h.same w) ∙ defaulted d (m w) }

get_cached-Blind : (key : Text) → Blind (get_cached key)
unfolding get_cached
get_cached-Blind key =
    >>=-Blind statement-Blind
      λ _. >>=-Blind now-Blind λ t. gets-Blind (λ w. cached key t w.geocode_cache) (λ w. refl)

set_cached-Blind : (key label : Text) → Blind (set_cached key label)
unfolding set_cached
set_cached-Blind key label =
    >>=-Blind statement-Blind
      λ _. >>=-Blind now-Blind λ t. modify-Blind (put_label key label t) (λ w. refl)

remember-Blind : (key label : Text) → Blind (remember key label)
remember-Blind key [] = record { same = λ w. refl }
remember-Blind key (c ∷ s) =
    >>=-Blind (default-Blind tt (set_cached key (c ∷ s)) (set_cached-Blind key (c ∷ s)))
      λ _. pure-Blind (c ∷ s)

asked-Blind : (key asked : Text) (o : Option Text) → Blind (cached_or_asked key asked o)
asked-Blind key asked none = remember-Blind key asked
asked-Blind key asked (some t) = record { same = λ w. refl }

asking-Blind :
    (s : ShareService) (lat lng : Float64)
    → Blind (
        default_on_error none (get_cached (cache_key lat lng))
        >>= cached_or_asked (cache_key lat lng) (call_geocode_api (s.maps (latlng lat lng))))
asking-Blind s lat lng =
    >>=-Blind
      (default-Blind none (get_cached (cache_key lat lng)) (get_cached-Blind (cache_key lat lng)))
      λ hit. asked-Blind (cache_key lat lng) (call_geocode_api (s.maps (latlng lat lng))) hit

geocode-Blind : (s : ShareService) (lat lng : Float64) → Blind (reverse_geocode s lat lng)
unfolding reverse_geocode
geocode-Blind s lat lng = record {
  same = λ w. elim (Bool-cases (text_eq s.maps_api_key [])) [
    | inl e ↦ rw e refl
    | inr e ↦ rw e ((asking-Blind s lat lng).same w)
  ];
}

photos-Blind : (id : ℕ) → Blind (fetch_confirmed_photos id)
unfolding fetch_confirmed_photos
photos-Blind id =
    >>=-Blind statement-Blind λ _. gets-Blind (λ w. confirmed_urls id w.photos) (λ w. refl)

abbrev after_fetch :
    ShareService → ℕ → Property → (List Text → Text → ShareableProperty) → Action ShareResult
after_fetch s id p f = default_on_error [] (fetch_confirmed_photos id) >>= λ photos.
    reverse_geocode s p.location_lat p.location_lng >>= λ label.
    pure (share_result (f photos label))

abbrev share_rest : ShareService → ℕ → Property → Action ShareResult
share_rest s id p = after_fetch s id p (to_shareable p)

rest-Blind : (s : ShareService) (id : ℕ) (p : Property) → Blind (share_rest s id p)
rest-Blind s id p =
    >>=-Blind (default-Blind [] (fetch_confirmed_photos id) (photos-Blind id)) λ photos.
      >>=-Blind (geocode-Blind s p.location_lat p.location_lng)
        λ label. pure-Blind (share_result (to_shareable p photos label))

abbrev blanked : Option Property → Option Property
blanked none = none
blanked (some p) = some (without_owner p)

hidden_find :
    (id : ℕ) (ps : List Property)
    → find (is_live_row id) (map without_owner ps) ≡ blanked (find (is_live_row id) ps)
hidden_find id [] = refl
hidden_find id (p ∷ ps) = elim (Bool-cases (is_live_row id p)) [
  | inl e ↦ rw e refl
  | inr e ↦ rw e (hidden_find id ps)
]

unhidden :
    (p : Property) (urls : List Text) (label : Text)
    → to_shareable (without_owner p) urls label ≡ to_shareable p urls label
unfolding to_shareable effective_area
unhidden p urls label = refl

same_rest :
    (s : ShareService) (id : ℕ) (p : Property)
    → share_rest s id (without_owner p) ≡ share_rest s id p
same_rest s id p =
    ap (λ (f : List Text → Text → ShareableProperty). after_fetch s id p f)
      (fun_ext λ urls. fun_ext λ label. unhidden p urls label)

generate-Blind :
    (s : ShareService) (id : ℕ) (w : World)
    → generate s id (hide_owners w) ≡ hidden (generate s id w)
unfolding generate fetch_property
generate-Blind s id w = elim (Bool-cases (w.oracle.fault w.tick)) [
  | inl e ↦ rw e refl
  | inr e ↦ elim (Option-cases (find (is_live_row id) w.properties)) [
    | inl f ↦ rw (e, hidden_find id w.properties, f) refl
    | inr (p, f) ↦
        rw (e, hidden_find id w.properties, f)
          (ap (λ m. m (record (hide_owners w) { tick = w.tick + 1 })) (same_rest s id p)
            ∙ (rest-Blind s id p).same (record w { tick = w.tick + 1 }))
  ]
]

-- What is shared of a listing does not depend on the names and contacts of owners: with all of
-- them removed from the database, the outcome of Generate is the same. Nor does the view depend
-- on the coordinates, but through the label of the place.
pub generate_hides_owner :
    (s : ShareService) (id : ℕ) (w : World) (p : Property) (lat lng : Float64) (urls : List Text)
    (label : Text)
    → ((generate s id (hide_owners w)).0 ≡ (generate s id w).0)
      × (to_shareable
            (record p {
              owner_name = "";
              owner_contact = "";
              location_lat = lat;
              location_lng = lng;
            })
            urls
            label
          ≡ to_shareable p urls label)
unfolding to_shareable effective_area
generate_hides_owner s id w p lat lng urls label = (ap (λ r. r.0) (generate-Blind s id w), refl)
