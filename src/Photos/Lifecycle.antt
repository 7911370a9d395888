-- ===== src/Photos/Lifecycle.antt =====
-- The rows of property_photos under Presign, Confirm and Delete of backend/internal/services/photos.go.
-- What may become of a row: it stays, it is confirmed, or it goes.
use realstate_allan.World.Keeps.{Keeps, >>=-Keeps, or_fail-Keeps}
use realstate_allan.Properties.Service.{is_row}
use realstate_allan.World.{World, Error, statement, now, fresh_uuid, fail_if, pure}
use realstate_allan.Photos.{
  GcsClient, is_photo, presign, remove, confirm, confirmed, delete, insert_photo, presign_put,
}
use realstate_allan.External.{Libraries}
use realstate_allan.Common.{
  ℕ, Option, Bool, List, String, some, find, ◌≡◌, ◌⊎◌, ◌++◌, update, ◌∷◌, if◌then◌else◌, arith,
  ◌==◌, none, ◌&&◌, [], Bool-cases, inl, is_some, inr, ◌||◌, Option-cases, not, refl,
}
use realstate_allan.Models.{PropertyPhoto}

abbrev pub Advances : PropertyPhoto → Option PropertyPhoto → Type 0
Advances p none = Unit {0}
Advances p (some q) = (q ≡ p) ⊎ (q ≡ record p { status = "CONFIRMED" })

find-append_some :
    (f : PropertyPhoto → Bool) (xs ys : List PropertyPhoto) (r : PropertyPhoto)
    → find f xs ≡ some r
    → find f (xs ++ ys) ≡ some r
find-append_some f [] ys r h = absurd (cc)
find-append_some f (x ∷ xs) ys r h = ground (arith, find-append_some f xs ys r)

find-update-confirmed :
    (property id : ℕ) (hit : PropertyPhoto → Bool) (xs : List PropertyPhoto) (r : PropertyPhoto)
    → find (is_photo property id) xs ≡ some r
    → find (is_photo property id) (update hit confirmed xs)
      ≡ some (if hit r then confirmed r else r)
find-update-confirmed property id hit [] r e = absurd (cc)
find-update-confirmed property id hit (x ∷ xs) r e =
    ground (arith, find-update-confirmed property id hit xs r)

-- Of the rows of one key, a removal takes all or none.
find-remove :
    (property id property' id' : ℕ) (xs : List PropertyPhoto)
    → find (is_photo property id) (remove (is_photo property' id') xs)
      ≡ (if property == property' && id == id' then none else find (is_photo property id) xs)
find-remove property id property' id' [] = ground arith
find-remove property id property' id' (x ∷ xs) =
    ground (arith, find-remove property id property' id' xs)

pub data PhotoCall : Type 0 where
  presign_call : (property : ℕ) → (filename content_type : String) → PhotoCall
  confirm_call : (property id : ℕ) → PhotoCall
  delete_call : (property id : ℕ) → PhotoCall

unfoldable pub after_photo_call : Libraries → GcsClient → PhotoCall → World → World
after_photo_call lib gcs (presign_call property filename content_type) w =
    (presign lib gcs property filename content_type w).1
after_photo_call lib gcs (confirm_call property id) w = (confirm property id w).1
after_photo_call lib gcs (delete_call property id) w = (delete property id w).1

confirm-Advances :
    (property id property' id' : ℕ) (w : World) (r : PropertyPhoto)
    → find (is_photo property id) w.photos ≡ some r
    → Advances r (find (is_photo property id) (confirm property' id' w).1.photos)
unfolding confirm
confirm-Advances property id property' id' w r h = elim (Bool-cases (w.oracle.fault w.tick)) [
  | inl e ↦ rw (e, h) (inl refl)
  | inr e ↦ elim (Option-cases (find (is_photo property' id') w.photos)) [
    | inl f ↦ rw (e, f, h) (inl refl)
    | inr (q, f) ↦
        rw (e, f, find-update-confirmed property id (is_photo property' id') w.photos r h)
          (elim (Bool-cases (is_photo property' id' r)) [
            | inl g ↦ rw g (inr refl)
            | inr g ↦ rw g (inl refl)
          ])
  ]
]

delete-Advances :
    (property id property' id' : ℕ) (w : World) (r : PropertyPhoto)
    → find (is_photo property id) w.photos ≡ some r
    → Advances r (find (is_photo property id) (delete property' id' w).1.photos)
unfolding delete
delete-Advances property id property' id' w r h = elim (Bool-cases (w.oracle.fault w.tick)) [
  | inl e ↦ rw (e, h) (inl refl)
  | inr e ↦ elim (Bool-cases (is_some (find (is_photo property' id') w.photos))) [
    | inr f ↦ rw (e, f, h) (inl refl)
    | inl f ↦
        rw (e, f, find-remove property id property' id' w.photos, h)
          (elim (Bool-cases (property == property' && id == id')) [
            | inl g ↦ rw g tt
            | inr g ↦ rw g (inl refl)
          ])
  ]
]

module _ (property id : ℕ) (r : PropertyPhoto) where
  abbrev Held : World → Type 0
  Held w = find (is_photo property id) w.photos ≡ some r

  statement-Held : Keeps Held statement
  statement-Held = record { keeps = λ w h. h }

  now-Held : Keeps Held now
  now-Held = record { keeps = λ w h. h }

  fresh_uuid-Held : Keeps Held fresh_uuid
  fresh_uuid-Held = record { keeps = λ w h. h }

  fail_if-Held : (c : Bool) (e : Error) → Keeps Held (fail_if c e)
  fail_if-Held c e = record { keeps = λ w h. h }

  pure-Held : {A : Type 0} (a : A) → Keeps Held (pure a)
  pure-Held a = record { keeps = λ w h. h }

  insert_photo-Held : (row : PropertyPhoto) → Keeps Held (insert_photo row)
  unfolding insert_photo
  insert_photo-Held row = record {
    keeps = λ w h.
        elim (Bool-cases (
          is_some (find (λ p. p.id == row.id) w.photos)
          || not (is_some (find (is_row row.property_id) w.properties)))) [
            | inl e ↦ rw (e, h) refl
            | inr e ↦ rw (e, find-append_some (is_photo property id) w.photos (row ∷ []) r h) refl
          ];
  }

  ruleset held = (
    >>=-Keeps, statement-Held, now-Held, fresh_uuid-Held, fail_if-Held, pure-Held,
    insert_photo-Held, or_fail-Keeps,
  )

  presign-Held :
      (lib : Libraries) (gcs : GcsClient) (property' : ℕ) (filename content_type : String)
      → Keeps Held (presign lib gcs property' filename content_type)
  unfolding presign presign_put
  presign-Held lib gcs property' filename content_type = search held depth 16

  -- Whatever call of Presign, Confirm or Delete comes and however it ends, the row of a photo
  -- stays as it is, or is changed only in its status, to CONFIRMED, or is gone.
  pub after_photo_call-Advances :
      (lib : Libraries) (gcs : GcsClient) (c : PhotoCall) (w : World)
      → find (is_photo property id) w.photos ≡ some r
      → Advances r (find (is_photo property id) (after_photo_call lib gcs c w).photos)
  unfolding after_photo_call
  after_photo_call-Advances lib gcs (presign_call property' filename content_type) w h =
      rw ((presign-Held lib gcs property' filename content_type).keeps w h) (inl refl)
  after_photo_call-Advances lib gcs (confirm_call property' id') w h =
      confirm-Advances property id property' id' w r h
  after_photo_call-Advances lib gcs (delete_call property' id') w h =
      delete-Advances property id property' id' w r h
