-- ===== src/Share/Answers.antt =====
-- Generate of backend/internal/services/share.go answers for every live listing.
use realstate_allan.Models.{Property}
use realstate_allan.Share.{to_shareable, ShareResult, build_plain_text, build_whatsapp}
use realstate_allan.Share.Generate.{confirmed_urls}
use realstate_allan.Common.{Text, ℕ, List, [], ◌≡◌, ◌⊎◌}
use realstate_allan.World.{Result, Action, World, ok, err}

abbrev Ends : {A : Type 0} → (A → Type 0) → Result A × World → Type 0
Ends P (ok a, v) = P a
Ends P (err e, v) = ⊥

-- A call that never ends in an error, with what its result satisfies.
record Total {A : Type 0} (P : A → Type 0) (m : Action A) : Type 0 where
  ends : (w : World) → Ends P (m w)

-- The confirmed photos of the listing, or none where they could not be read.
abbrev pub ShownPhotos : ℕ → World → List Text → Type 0
ShownPhotos id w urls = (urls ≡ confirmed_urls id w.photos) ⊎ (urls ≡ [])

abbrev pub IsShareOf : ℕ → World → Property → ShareResult → Type 0
IsShareOf id w p r =
    ShownPhotos id w r.property.photo_urls
    × (r.property ≡ to_shareable p r.property.photo_urls r.property.location_label)
    × (r.plain_text ≡ build_plain_text r.property)
    × (r.whatsapp_message ≡ build_whatsapp r.property)
