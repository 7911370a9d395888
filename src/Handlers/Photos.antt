-- ===== src/Handlers/Photos.antt =====
-- backend/internal/handlers/photos.go.
use realstate_allan.Handlers.Properties.{invalid}
use realstate_allan.Models.{PropertyPhoto}
use realstate_allan.Handlers.{Caller}
use realstate_allan.Photos.{GcsClient, PresignResult, presign, is_owner_or_admin, delete, confirm}
use realstate_allan.Respond.{Response, Handler, error, reply, respond_to, json}
use realstate_allan.External.{Postgres, Libraries}
use realstate_allan.World.{
  Error, Result, gcs_not_configured, photo_not_found, property_not_found, World,
  unsupported_content_type, err, ok,
}
use realstate_allan.Common.{
  String, Bool, ℕ, Option, false, some, true, if◌then◌else◌, str_eq, trim_space, none, not,
}
pub mod Access
pub mod Deletion
pub mod Upload

pub record PresignBody : Type 0 where
  pub filename : String
  pub content_type : String

abbrev pub presign_error : {A : Type 0} → Error → Response A
presign_error gcs_not_configured = error 503 "GCS_NOT_CONFIGURED" "Media storage is not configured"
presign_error unsupported_content_type = error 400 "VALIDATION_FAILED" "unsupported content type"
presign_error _ = error 500 "INTERNAL_ERROR" "failed to generate upload URL"

abbrev pub confirm_error : {A : Type 0} → Error → Response A
confirm_error photo_not_found = error 404 "PHOTO_NOT_FOUND" "photo not found"
confirm_error _ = error 500 "INTERNAL_ERROR" "failed to confirm photo"

abbrev pub delete_error : {A : Type 0} → Error → Response A
delete_error photo_not_found = error 404 "PHOTO_NOT_FOUND" "photo not found"
delete_error _ = error 500 "INTERNAL_ERROR" "failed to delete photo"

abbrev pub owner_error : {A : Type 0} → Error → Response A
owner_error property_not_found = error 404 "PROPERTY_NOT_FOUND" "property not found"
owner_error _ = error 500 "INTERNAL_ERROR" "ownership check failed"

-- What comes after IsOwnerOrAdmin.
abbrev pub for_owner : {A : Type 0} → String → Handler A → Result Bool × World → Response A × World
for_owner message next (err e, w) = (owner_error e, w)
for_owner message next (ok false, w) = (error 403 "FORBIDDEN" message, w)
for_owner message next (ok true, w) = next w

module _ (pg : Postgres) (lib : Libraries) (gcs : GcsClient) where
  -- A body that does not decode is `none`.
  abbrev pub with_body : ℕ → Option PresignBody → Handler PresignResult
  with_body property none = reply (invalid "invalid request body")
  with_body property (some b) =
      if str_eq (trim_space b.filename) ""
      then reply (invalid "filename is required")
      else if str_eq (trim_space b.content_type) ""
      then reply (invalid "content_type is required")
      else respond_to (presign lib gcs property b.filename b.content_type)
          (λ r. json 200 r "Upload URL generated successfully") presign_error

  unfoldable pub presign_photo : Caller → String → Option PresignBody → Handler PresignResult
  presign_photo caller param body w = elim (pg.parse_uuid caller.user_id) [
    | none ↦ (error 401 "UNAUTHORIZED" "invalid user identity", w)
    | some user ↦ elim (pg.parse_uuid param) [
      | none ↦ (invalid "invalid property ID", w)
      | some property ↦
          for_owner "you do not have permission to upload photos for this property"
            (with_body property body) (is_owner_or_admin property user caller.role w)
    ]
  ]

  unfoldable pub confirm_photo : (property_param photo_param : String) → Handler PropertyPhoto
  confirm_photo property_param photo_param = elim (pg.parse_uuid property_param) [
    | none ↦ reply (invalid "invalid property ID")
    | some property ↦ elim (pg.parse_uuid photo_param) [
      | none ↦ reply (invalid "invalid photo ID")
      | some id ↦
          if not gcs.configured
          then reply (error 503 "GCS_NOT_CONFIGURED" "Media storage is not configured")
          else respond_to (confirm property id) (λ p. json 200 p "Photo confirmed successfully")
              confirm_error
    ]
  ]

  unfoldable pub delete_photo : Caller → (property_param photo_param : String) → Handler (Unit {0})
  delete_photo caller property_param photo_param w = elim (pg.parse_uuid caller.user_id) [
    | none ↦ (error 401 "UNAUTHORIZED" "invalid user identity", w)
    | some user ↦ elim (pg.parse_uuid property_param) [
      | none ↦ (invalid "invalid property ID", w)
      | some property ↦ elim (pg.parse_uuid photo_param) [
        | none ↦ (invalid "invalid photo ID", w)
        | some id ↦
            for_owner "you do not have permission to delete photos for this property"
              (respond_to (delete property id) (λ _. json 200 tt "Photo deleted successfully")
                delete_error)
              (is_owner_or_admin property user caller.role w)
      ]
    ]
  ]
