-- ===== src/Photos.antt =====
-- backend/internal/services/photos.go and the part of backend/internal/gcs/gcs.go that it calls.
use realstate_allan.Auth.Tokens.{second}
use realstate_allan.Properties.Service.{is_row, is_live_row}
use realstate_allan.Auth.Rows.{to_lower}
use realstate_allan.World.{
  World, Action, ◌>>◌, statement, fail_if, ◌>>=◌, ok, internal, gcs_not_configured, gets, err, now,
  unsupported_content_type, or_fail, photo_not_found, fresh_uuid, modify, property_not_found, pure,
}
use realstate_allan.External.{Libraries}
use realstate_allan.Models.{
  PropertyPhoto, photo_status_confirmed, role_super_admin, photo_status_pending,
}
use realstate_allan.Common.{
  Text, ℕ, String, List, Bool, if◌then◌else◌, map, ◌++◌, codes, str_eq, leb, ◌==◌, select, is_some,
  ◌∷◌, ◌||◌, ◌&&◌, not, find, true, [], ◌+◌, ◌*◌, update,
}
pub mod Filename
pub mod Lifecycle
pub mod Effects

pub record GcsClient : Type 0 where
  pub bucket : Text
  pub cdn_base : Text
  pub configured : Bool

pub record PresignResult : Type 0 where
  pub photo_id : ℕ
  pub upload_url : String
  pub cdn_url : Text

unfoldable pub allowed_content_types : String → Bool
allowed_content_types s = str_eq s "image/jpeg" || str_eq s "image/png" || str_eq s "image/webp"

-- The class [a-z0-9.\-] of nonAlphanumRe.
abbrev pub is_safe : ℕ → Bool
is_safe c = (leb b'a' c && leb c b'z') || (leb b'0' c && leb c b'9') || c == b'.' || c == b'-'

abbrev pub replace_unsafe : ℕ → ℕ
replace_unsafe c = if is_safe c then c else b'_'

unfoldable pub sanitise_filename : (ℕ → ℕ) → String → Text
sanitise_filename lower name = map replace_unsafe (to_lower lower (codes name))

abbrev pub is_photo : ℕ → ℕ → PropertyPhoto → Bool
is_photo property id p = p.id == id && p.property_id == property

abbrev pub put_photos : List PropertyPhoto → World → World
put_photos photos w = record w { photos = photos }

-- ON DELETE CASCADE of ocr_results.
abbrev pub drop_results : ℕ → World → World
drop_results photo w = record w {
  ocr_results = select (λ r. not (r.photo_id == photo)) w.ocr_results;
}

abbrev pub confirmed : PropertyPhoto → PropertyPhoto
confirmed p = record p { status = photo_status_confirmed }

-- DELETE FROM: the rows that pass a test go.
abbrev pub remove : (PropertyPhoto → Bool) → List PropertyPhoto → List PropertyPhoto
remove hit = select λ p. not (hit p)

unfoldable pub confirm : (property id : ℕ) → Action PropertyPhoto
confirm property id = do
  statement
  photos ← gets (λ w. w.photos)
  p ← or_fail (find (is_photo property id) photos) photo_not_found
  modify (put_photos (update (is_photo property id) confirmed photos))
  pure (confirmed p)

unfoldable pub delete : (property id : ℕ) → Action (Unit {0})
delete property id = do
  statement
  photos ← gets (λ w. w.photos)
  fail_if (not (is_some (find (is_photo property id) photos))) photo_not_found
  modify (λ w. drop_results id (put_photos (remove (is_photo property id) photos) w))

unfoldable pub is_owner_or_admin : (property caller : ℕ) → String → Action Bool
is_owner_or_admin property caller role w =
    if str_eq role role_super_admin
    then (ok true, w)
    else (do
      statement
      table ← gets (λ w. w.properties)
      p ← or_fail (find (is_live_row property) table) property_not_found
      pure (p.created_by == caller))
        w

-- INSERT INTO property_photos: the primary key, and the foreign key, which a soft-deleted property
-- still meets.
unfoldable pub insert_photo : PropertyPhoto → Action (Unit {0})
insert_photo row w =
    if is_some (find (λ p. p.id == row.id) w.photos)
      || not (is_some (find (is_row row.property_id) w.properties))
    then (err internal, w)
    else (ok tt, put_photos (w.photos ++ row ∷ []) w)

module _ (lib : Libraries) (gcs : GcsClient) where
  unfoldable pub cdn_url : Text → Text
  cdn_url key = gcs.cdn_base ++ b'/' ∷ key

  unfoldable pub presign_put : Text → String → (ttl : ℕ) → Action String
  presign_put key content_type ttl = do
    fail_if (not gcs.configured) internal
    t ← now
    or_fail (lib.signed_url gcs.bucket key content_type (t + ttl)) internal

  unfoldable pub object_key : (property id : ℕ) → String → Text
  object_key property id filename =
      codes "properties/"
      ++ codes (lib.show_uuid property)
      ++ b'/' ∷ codes (lib.show_uuid id)
      ++ b'-' ∷ sanitise_filename lib.lower_rune filename

  unfoldable pub presign : (property : ℕ) → (filename content_type : String) → Action PresignResult
  presign property filename content_type = do
    fail_if (not gcs.configured) gcs_not_configured
    fail_if (not (allowed_content_types content_type)) unsupported_content_type
    id ← fresh_uuid
    upload_url ← presign_put (object_key property id filename) content_type (15 * (60 * second))
    statement
    t ← now
    insert_photo (record {
      id = id;
      property_id = property;
      cdn_url = cdn_url (object_key property id filename);
      gcs_key = object_key property id filename;
      display_order = 0;
      status = photo_status_pending;
      created_at = t;
    })
    pure (record {
      photo_id = id;
      upload_url = upload_url;
      cdn_url = cdn_url (object_key property id filename);
    })
