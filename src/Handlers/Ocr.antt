-- ===== src/Handlers/Ocr.antt =====
-- backend/internal/handlers/ocr.go. The message of a scan that failed ends with the error's text, which
-- is left out.
use realstate_allan.Handlers.Properties.{invalid}
use realstate_allan.Stale.{enqueue_ocr}
use realstate_allan.Models.{OcrResult}
use realstate_allan.Ocr.{OcrService, scan_photo, get_result}
use realstate_allan.Common.{ℕ, String, if◌then◌else◌, not, none, some}
use realstate_allan.Respond.{Response, error, Handler, json, reply, respond_to}
use realstate_allan.External.{Postgres, Libraries}
use realstate_allan.World.{
  Error, Result, photo_not_found, ocr_result_not_found, ocr_not_enabled, World, err, ok,
}

abbrev pub scan_error : {A : Type 0} → Error → Response A
scan_error photo_not_found = error 404 "PHOTO_NOT_FOUND" "photo not found or not yet confirmed"
scan_error ocr_not_enabled = error 503 "OCR_NOT_ENABLED" "Vision API not configured"
scan_error _ = error 500 "INTERNAL_ERROR" "OCR scan failed"

abbrev pub result_error : {A : Type 0} → Error → Response A
result_error ocr_result_not_found =
    error 404 "OCR_RESULT_NOT_FOUND" "no OCR result found for this photo"
result_error _ = error 500 "INTERNAL_ERROR" "failed to retrieve OCR result"

module _ (pg : Postgres) (lib : Libraries) where
  -- The background task is best effort.
  abbrev pub after_scan :
      (photo property : ℕ) → Result OcrResult × World → Response OcrResult × World
  after_scan photo property (err e, w) = (scan_error e, w)
  after_scan photo property (ok r, w) = (
    json 200 r "OCR scan completed successfully",
    (enqueue_ocr (lib.show_uuid photo) (lib.show_uuid property) "" w).1,
  )

  unfoldable pub scan_handler :
      OcrService → (property_param photo_param : String) → Handler OcrResult
  scan_handler s property_param photo_param w =
      if not s.enabled
      then (
        error 503 "OCR_NOT_ENABLED"
            "OCR is not enabled on this server — set GOOGLE_VISION_ENABLED=true",
        w,
      )
      else elim (pg.parse_uuid property_param) [
        | none ↦ (invalid "invalid property ID", w)
        | some property ↦ elim (pg.parse_uuid photo_param) [
          | none ↦ (invalid "invalid photo ID", w)
          | some photo ↦ after_scan photo property (scan_photo lib.lower_rune s photo property w)
        ]
      ]

  unfoldable pub result_handler : (photo_param : String) → Handler OcrResult
  result_handler photo_param = elim (pg.parse_uuid photo_param) [
    | none ↦ reply (invalid "invalid photo ID")
    | some photo ↦
        respond_to (get_result photo) (λ r. json 200 r "OCR result retrieved successfully")
          result_error
  ]
