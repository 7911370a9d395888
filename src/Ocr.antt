-- ===== src/Ocr.antt =====
-- backend/internal/services/ocr.go: the text parser (Parser), and below ScanPhoto, GetResult and
-- upsertResult on the table ocr_results. What the Vision API replies is a parameter; a token, a request
-- or a reply that fails before it is decoded is `unreachable`.
pub mod Scan
use realstate_allan.Ocr.Parser.{parse_ocr_text}
use realstate_allan.Properties.Service.{is_row}
use realstate_allan.World.{
  World, Action, Result, ◌>>◌, ok, statement, err, fail_if, ◌>>=◌, fail, internal, fresh_uuid,
  ocr_not_enabled, gets, now, or_fail, photo_not_found, ocr_result_not_found,
}
use realstate_allan.Models.{
  OcrResult, OcrSuggestions, PropertyPhoto, ocr_status_failed, photo_status_confirmed,
  ocr_status_done,
}
use realstate_allan.Common.{
  Option, Text, codes, ℕ, List, Bool, some, ◌∷◌, ◌==◌, ◌++◌, is_some, find, String, ◌&&◌, [],
  or_else, update, str_eq, if◌then◌else◌, not, none,
}
pub mod Parser
pub mod Contact
pub mod Price

pub record VisionEntry : Type 0 where
  pub full_text : Option Text
  pub error : Option Text

pub data VisionReply : Type 0 where
  unreachable : (message : Text) → VisionReply
  responses : List VisionEntry → VisionReply

pub data VisionResult : Type 0 where
  recognised : Text → VisionResult
  vision_error : (message : Text) → VisionResult

-- No text detected is no error.
abbrev pub entry_result : VisionEntry → VisionResult
entry_result e = elim e.error [
  | some m ↦ vision_error (codes "ocr: Vision API error: " ++ m)
  | none ↦ recognised (or_else e.full_text [])
]

unfoldable pub call_vision_api : VisionReply → VisionResult
call_vision_api (unreachable m) = vision_error m
call_vision_api (responses []) = vision_error (codes "ocr: empty response from Vision API")
call_vision_api (responses (e ∷ es)) = entry_result e

abbrev pub is_result_of : ℕ → OcrResult → Bool
is_result_of photo r = r.photo_id == photo

abbrev pub put_results : List OcrResult → World → World
put_results results w = record w { ocr_results = results }

-- The foreign keys of a row.
abbrev pub has_parents : OcrResult → World → Bool
has_parents row w =
    is_some (find (λ p. p.id == row.photo_id) w.photos)
    && is_some (find (is_row row.property_id) w.properties)

-- DO UPDATE SET …: the id, the property and the time of creation stay.
abbrev pub overwritten : OcrResult → OcrResult → OcrResult
overwritten row old = record old {
  raw_text = row.raw_text;
  suggestions = row.suggestions;
  status = row.status;
  error = row.error;
  updated_at = row.updated_at;
}

-- INSERT … ON CONFLICT (photo_id) DO UPDATE … RETURNING
unfoldable pub put_result : OcrResult → Action OcrResult
put_result row w = elim (find (is_result_of row.photo_id) w.ocr_results) [
  | some old ↦ (
    ok (overwritten row old),
    put_results (update (is_result_of row.photo_id) (overwritten row) w.ocr_results) w,
  )
  | none ↦
      if has_parents row w
      then (ok row, put_results (w.ocr_results ++ row ∷ []) w)
      else (err internal, w)
]

-- What a scan came to, before it has an id and its times.
abbrev pub unsaved :
    (photo property : ℕ) → Text → OcrSuggestions → (status : String) → Option Text → OcrResult
unsaved photo property raw_text suggestions status error = record {
  id = 0;
  photo_id = photo;
  property_id = property;
  raw_text = some raw_text;
  suggestions = suggestions;
  status = status;
  error = error;
  created_at = 0;
  updated_at = 0;
}

unfoldable pub store_result : OcrResult → Action OcrResult
store_result row = do
  statement
  id ← fresh_uuid
  t ← now
  put_result (record row { id = id; created_at = t; updated_at = t })

-- After an error the row is returned as it was to be stored.
abbrev pub or_unsaved : OcrResult → Result OcrResult × World → Result OcrResult × World
or_unsaved row (ok r, w) = (ok r, w)
or_unsaved row (err e, w) = (ok row, w)

unfoldable pub upsert_result : OcrResult → Action OcrResult
upsert_result row w = or_unsaved row (store_result row w)

abbrev pub is_confirmed : ℕ → PropertyPhoto → Bool
is_confirmed id p = p.id == id && str_eq p.status photo_status_confirmed

-- OCRService: GOOGLE_VISION_ENABLED, the bucket, and the Vision API by bucket and object key.
pub record OcrService : Type 0 where
  pub enabled : Bool
  pub bucket : Text
  pub vision : (bucket key : Text) → VisionReply

unfoldable pub record_scan : (ℕ → ℕ) → (photo property : ℕ) → VisionResult → Action OcrResult
record_scan lower photo property (vision_error m) =
    upsert_result (unsaved photo property [] [] ocr_status_failed (some m)) >> fail internal
record_scan lower photo property (recognised raw_text) =
    upsert_result
      (unsaved photo property raw_text (parse_ocr_text lower raw_text) ocr_status_done none)

unfoldable pub scan_photo : (ℕ → ℕ) → OcrService → (photo property : ℕ) → Action OcrResult
scan_photo lower s photo property = do
  fail_if (not s.enabled) ocr_not_enabled
  statement
  photos ← gets (λ w. w.photos)
  p ← or_fail (find (is_confirmed photo) photos) photo_not_found
  record_scan lower photo property (call_vision_api (s.vision s.bucket p.gcs_key))

-- raw_text is scanned into a string, which refuses NULL.
abbrev pub readable : OcrResult → Option OcrResult
readable r = elim r.raw_text [ none ↦ none | some t ↦ some r ]

unfoldable pub get_result : ℕ → Action OcrResult
get_result photo = do
  statement
  results ← gets (λ w. w.ocr_results)
  r ← or_fail (find (is_result_of photo) results) ocr_result_not_found
  or_fail (readable r) internal
