-- ===== src/Photos/Effects.antt =====
-- What Presign and Delete of backend/internal/services/photos.go do to property_photos.
use realstate_allan.Auth.Tokens.{second}
use realstate_allan.World.Keeps.{Keeps, Leads, >>=-Keeps, >>=-Leads, or_fail-Keeps, >>=-Leads_first}
use realstate_allan.Properties.Service.{is_row}
use realstate_allan.External.{Libraries}
use realstate_allan.Models.{PropertyPhoto, photo_status_pending}
use realstate_allan.World.{
  World, pure, statement, now, fresh_uuid, Error, fail_if, gcs_not_configured,
  unsupported_content_type,
}
use realstate_allan.Common.{
  ℕ, List, ◌≡◌, ◌⊎◌, ◌++◌, ◌∷◌, Bool-cases, String, [], is_some, inr, inl, find, refl, ◌==◌, ◌||◌,
  not, Bool, Text, ◌*◌,
}
use realstate_allan.Photos.{
  delete, insert_photo, presign, presign_put, GcsClient, remove, is_photo, allowed_content_types,
  object_key, cdn_url,
}

pub delete_effect :
    (property id : ℕ) (w : World)
    → ((delete property id w).1.photos ≡ w.photos)
      ⊎ ((delete property id w).1.photos ≡ remove (is_photo property id) w.photos)
unfolding delete
delete_effect property id w = elim (Bool-cases (w.oracle.fault w.tick)) [
  | inl e ↦ rw e (inl refl)
  | inr e ↦ rw e (elim (Bool-cases (is_some (find (is_photo property id) w.photos))) [
    | inl f ↦ rw f (inr refl)
    | inr f ↦ rw f (inl refl)
  ])
]

-- One more row, pending, of this property.
abbrev pub AddsPending : ℕ → (before after : List PropertyPhoto) → Type 0
AddsPending property before after =
    (row : PropertyPhoto) × (after ≡ before ++ row ∷ [])
    × (row.property_id ≡ property)
    × (row.status ≡ photo_status_pending)

module _ (property : ℕ) (before : List PropertyPhoto) where
  abbrev Same : World → Type 0
  Same w = w.photos ≡ before

  abbrev Adds : World → Type 0
  Adds w = (w.photos ≡ before) ⊎ AddsPending property before w.photos

  weaken : (w : World) → Same w → Adds w
  weaken w h = inl h

  statement-Same : Keeps Same statement
  statement-Same = record { keeps = λ w h. h }

  now-Same : Keeps Same now
  now-Same = record { keeps = λ w h. h }

  fresh_uuid-Same : Keeps Same fresh_uuid
  fresh_uuid-Same = record { keeps = λ w h. h }

  fail_if-Same : (c : Bool) (e : Error) → Keeps Same (fail_if c e)
  fail_if-Same c e = record { keeps = λ w h. h }

  pure-Adds : {A : Type 0} (a : A) → Keeps Adds (pure a)
  pure-Adds a = record { keeps = λ w h. h }

  insert_photo-Adds :
      (row : PropertyPhoto)
      → row.property_id ≡ property
      → row.status ≡ photo_status_pending
      → Leads Same Adds (insert_photo row)
  unfolding insert_photo
  insert_photo-Adds row own pending = record {
    leads = λ w h.
        elim (Bool-cases (
          is_some (find (λ p. p.id == row.id) w.photos)
          || not (is_some (find (is_row row.property_id) w.properties)))) [
            | inl e ↦ rw e (inl h)
            | inr e ↦ rw (e, h) (inr (row, refl, own, pending))
          ];
  }

  presign_put-Same :
      (lib : Libraries) (gcs : GcsClient) (key : Text) (content_type : String) (ttl : ℕ)
      → Keeps Same (presign_put lib gcs key content_type ttl)
  unfolding presign_put
  presign_put-Same lib gcs key content_type ttl =
      search (>>=-Keeps, fail_if-Same, now-Same, or_fail-Keeps) depth 8

  presign-Adds :
      (lib : Libraries) (gcs : GcsClient) (filename content_type : String)
      → Leads Same Adds (presign lib gcs property filename content_type)
  unfolding presign
  presign-Adds lib gcs filename content_type =
      >>=-Leads weaken (fail_if-Same (not gcs.configured) gcs_not_configured) λ _.
        >>=-Leads weaken
          (fail_if-Same (not (allowed_content_types content_type)) unsupported_content_type)
          λ _. >>=-Leads weaken fresh_uuid-Same λ id.
            >>=-Leads weaken
              (presign_put-Same lib gcs (object_key lib gcs property id filename) content_type
                (15 * (60 * second)))
              λ url. >>=-Leads weaken statement-Same λ _. >>=-Leads weaken now-Same λ t.
                >>=-Leads_first
                  (insert_photo-Adds
                    (record {
                      id = id;
                      property_id = property;
                      cdn_url = cdn_url lib gcs (object_key lib gcs property id filename);
                      gcs_key = object_key lib gcs property id filename;
                      display_order = 0;
                      status = photo_status_pending;
                      created_at = t;
                    })
                    refl refl)
                  λ _. pure-Adds (record {
                    photo_id = id;
                    upload_url = url;
                    cdn_url = cdn_url lib gcs (object_key lib gcs property id filename);
                  })

pub presign_effect :
    (lib : Libraries) (gcs : GcsClient) (property : ℕ) (filename content_type : String) (w : World)
    → ((presign lib gcs property filename content_type w).1.photos ≡ w.photos)
      ⊎ AddsPending property w.photos (presign lib gcs property filename content_type w).1.photos
presign_effect lib gcs property filename content_type w =
    (presign-Adds property w.photos lib gcs filename content_type).leads w refl
