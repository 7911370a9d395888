-- ===== src/Tests/Photos.antt =====
-- Runs of the theorems on photos: backend/internal/services/photos.go and backend/internal/handlers/photos.go.
use realstate_allan.Handlers.Photos.Upload.{presign_photo-ChangesBy}
use realstate_allan.Handlers.Photos.Deletion.{Deleted, delete_photo-ChangesBy}
use realstate_allan.Handlers.Photos.Access.{ChangesBy}
use realstate_allan.Photos.{sanitise_filename, is_photo}
use realstate_allan.Photos.Effects.{AddsPending}
use realstate_allan.Photos.Filename.{Stored, sanitise_filename-Stored}
use realstate_allan.Auth.Rows.{to_lower}
use realstate_allan.Tests.{postgres, front, libraries, world, storage}
use realstate_allan.Handlers.Photos.{PresignBody, presign_photo, delete_photo}
use realstate_allan.Photos.Lifecycle.{
  Advances, after_photo_call, confirm_call, after_photo_call-Advances,
}
use realstate_allan.Common.{Option, some, find, refl, Each, codes}
use realstate_allan.Handlers.{Caller}

abbrev owner : Caller
owner = record { user_id = "1"; role = "BROKER" }

abbrev body : Option PresignBody
body = some (record { filename = "Front Door.JPG"; content_type = "image/jpeg" })

delete_photo-ChangesBy_example :
    ChangesBy postgres owner "10"
      (Deleted postgres libraries storage "30" world)
      world
      (delete_photo postgres libraries storage owner "10" "30" world).1.photos
delete_photo-ChangesBy_example =
    delete_photo-ChangesBy postgres libraries storage owner "10" "30" world

presign_photo-ChangesBy_example :
    ChangesBy postgres owner "10"
      (λ property after. AddsPending property world.photos after)
      world
      (presign_photo postgres libraries storage owner "10" body world).1.photos
presign_photo-ChangesBy_example =
    presign_photo-ChangesBy postgres libraries storage owner "10" body world

after_photo_call-Advances_example :
    Advances front
      (find (is_photo 10 30) (after_photo_call libraries storage (confirm_call 10 30) world).photos)
after_photo_call-Advances_example =
    after_photo_call-Advances 10 30 front libraries storage (confirm_call 10 30) world refl

sanitise_filename-Stored_example :
    Each Stored
      (to_lower (λ c. c) (codes "Front Door.JPG"))
      (sanitise_filename (λ c. c) "Front Door.JPG")
sanitise_filename-Stored_example = sanitise_filename-Stored (λ c. c) "Front Door.JPG"
