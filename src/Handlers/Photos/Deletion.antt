-- ===== src/Handlers/Photos/Deletion.antt =====
-- Who deletes the photos of a property: Delete of backend/internal/handlers/photos.go.
use realstate_allan.Photos.Effects.{delete_effect}
use realstate_allan.Respond.{respond_to, json, Handler}
use realstate_allan.Models.{PropertyPhoto}
use realstate_allan.Handlers.Photos.Access.{ChangesBy, respond_world, guarded}
use realstate_allan.Handlers.{Caller}
use realstate_allan.World.{World}
use realstate_allan.Handlers.Photos.{delete_photo, delete_error, for_owner}
use realstate_allan.Common.{
  String, ℕ, List, ◌≡◌, some, Option-cases, inl, inr, ◌⊎◌, subst, sym, refl,
}
use realstate_allan.Photos.{GcsClient, remove, is_photo, delete, is_owner_or_admin}
use realstate_allan.External.{Postgres, Libraries}

module _ (pg : Postgres) (lib : Libraries) (gcs : GcsClient) where
  -- One photo of the property is gone.
  abbrev pub Deleted : String → World → ℕ → List PropertyPhoto → Type 0
  Deleted photo_param w property after =
      (id : ℕ) × (pg.parse_uuid photo_param ≡ some id)
      × (after ≡ remove (is_photo property id) w.photos)

  deleted :
      (photo_param : String) (property id : ℕ) (w v : World)
      → pg.parse_uuid photo_param ≡ some id
      → v.photos ≡ w.photos
      → ((respond_to
            (delete property id)
            (λ _. json 200 tt "Photo deleted successfully")
            delete_error
            v).1.photos
          ≡ w.photos)
        ⊎ Deleted photo_param w property
            (respond_to
              (delete property id)
              (λ _. json 200 tt "Photo deleted successfully")
              delete_error
              v).1.photos
  deleted photo_param property id w v pi same =
      rw
        (
          respond_world pg {B = Unit {0}} (λ _. json 200 tt "Photo deleted successfully")
              delete_error (delete property id v),
          ← same,
        )
        (elim (delete_effect property id v) [
          | inl keep ↦ inl keep
          | inr change ↦ inr (id, pi, change)
        ])

  -- A request to delete a photo leaves the photos as they are, or removes those of the id and
  -- the property that it names, and then the caller is a SUPER_ADMIN or created that property,
  -- which is live.
  pub delete_photo-ChangesBy :
      (caller : Caller) (property_param photo_param : String) (w : World)
      → ChangesBy pg caller property_param
          (Deleted photo_param w)
          w
          (delete_photo pg lib gcs caller property_param photo_param w).1.photos
  unfolding delete_photo
  delete_photo-ChangesBy caller property_param photo_param w =
      elim (Option-cases (pg.parse_uuid caller.user_id)) [
        | inl e ↦ rw (delete_photo, e) (inl refl)
        | inr (user, e) ↦ elim (Option-cases (pg.parse_uuid property_param)) [
          | inl f ↦ rw (delete_photo, e, f) (inl refl)
          | inr (property, f) ↦ elim (Option-cases (pg.parse_uuid photo_param)) [
            | inl g ↦ rw (delete_photo, e, f, g) (inl refl)
            | inr (id, g) ↦
                let next : Handler (Unit {0}) =
                  respond_to (delete property id) (λ _. json 200 tt "Photo deleted successfully")
                    delete_error in
                let message : String =
                  "you do not have permission to delete photos for this property" in
                let same : delete_photo pg lib gcs caller property_param photo_param w
                    ≡ for_owner message next (is_owner_or_admin property user caller.role w) =
                  rw (delete_photo, e, f, g) refl in
                subst (λ q. ChangesBy pg caller property_param (Deleted photo_param w) w q.1.photos)
                  (sym same)
                  (guarded pg caller property_param message (Deleted photo_param w) next property
                    user w e f (λ v. deleted photo_param property id w v g))
          ]
        ]
      ]
