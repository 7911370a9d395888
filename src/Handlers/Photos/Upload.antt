-- ===== src/Handlers/Photos/Upload.antt =====
-- Who adds photos to a property: Presign of backend/internal/handlers/photos.go.
use realstate_allan.Respond.{json}
use realstate_allan.Photos.Effects.{AddsPending, presign_effect}
use realstate_allan.Handlers.Photos.Access.{ChangesBy, respond_world, guarded}
use realstate_allan.World.{World}
use realstate_allan.Handlers.{Caller}
use realstate_allan.Handlers.Photos.{
  presign_photo, PresignBody, with_body, for_owner, presign_error,
}
use realstate_allan.Common.{
  ℕ, Option, String, ◌≡◌, ◌⊎◌, Option-cases, inl, some, inr, Bool-cases, str_eq, trim_space, subst,
  sym, none, refl,
}
use realstate_allan.Photos.{GcsClient, is_owner_or_admin, PresignResult, presign}
use realstate_allan.External.{Postgres, Libraries}

module _ (pg : Postgres) (lib : Libraries) (gcs : GcsClient) where
  presigned :
      (property : ℕ) (body : Option PresignBody) (w v : World)
      → v.photos ≡ w.photos
      → ((with_body pg lib gcs property body v).1.photos ≡ w.photos)
        ⊎ AddsPending property w.photos (with_body pg lib gcs property body v).1.photos
  presigned property none w v same = inl same
  presigned property (some b) w v same = elim (Bool-cases (str_eq (trim_space b.filename) "")) [
    | inl e ↦ rw e (inl same)
    | inr e ↦ elim (Bool-cases (str_eq (trim_space b.content_type) "")) [
      | inl f ↦ rw (e, f) (inl same)
      | inr f ↦
          rw
            (
              e,
              f,
              respond_world pg
                  (λ (r : PresignResult). json 200 r "Upload URL generated successfully")
                  presign_error (presign lib gcs property b.filename b.content_type v),
              ← same,
            )
            (presign_effect lib gcs property b.filename b.content_type v)
    ]
  ]

  -- A request for an upload leaves the photos as they are, or adds one PENDING photo of the
  -- property that it names, and then the caller is a SUPER_ADMIN or created that property,
  -- which is live.
  pub presign_photo-ChangesBy :
      (caller : Caller) (param : String) (body : Option PresignBody) (w : World)
      → ChangesBy pg caller param
          (λ property after. AddsPending property w.photos after)
          w
          (presign_photo pg lib gcs caller param body w).1.photos
  unfolding presign_photo
  presign_photo-ChangesBy caller param body w = elim (Option-cases (pg.parse_uuid caller.user_id)) [
    | inl e ↦ rw (presign_photo, e) (inl refl)
    | inr (user, e) ↦ elim (Option-cases (pg.parse_uuid param)) [
      | inl f ↦ rw (presign_photo, e, f) (inl refl)
      | inr (property, f) ↦
          let message : String = "you do not have permission to upload photos for this property" in
          let same : presign_photo pg lib gcs caller param body w
              ≡ for_owner message (with_body pg lib gcs property body)
                  (is_owner_or_admin property user caller.role w) =
            rw (presign_photo, e, f) refl in
          subst
            (λ q. ChangesBy pg caller param (λ p after. AddsPending p w.photos after) w q.1.photos)
            (sym same)
            (guarded pg caller param message (λ p after. AddsPending p w.photos after)
              (with_body pg lib gcs property body) property user w e f
              (λ v. presigned property body w v))
    ]
  ]
