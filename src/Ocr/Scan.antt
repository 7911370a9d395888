-- ===== src/Ocr/Scan.antt =====
-- What ScanPhoto of backend/internal/services/ocr.go returns and stores.
use realstate_allan.Ocr.Parser.{parse_ocr_text}
use realstate_allan.Common.{
  Option-cases, find, ◌≡◌, some, inr, ◌⊎◌, find-update_found, inl, Bool-cases, find-append, ==_self,
  refl, ℕ, ◌+◌, Text, ◌∙◌, List, none, [],
}
use realstate_allan.World.{World, Result, resume, fail, internal}
use realstate_allan.Ocr.{
  put_result, err, ok, is_result_of, overwritten, has_parents, store_result, or_unsaved,
  upsert_result, OcrService, is_confirmed, call_vision_api, recognised, unsaved, record_scan,
  scan_photo, VisionResult, vision_error,
}
use realstate_allan.Models.{OcrResult, ocr_status_failed, PropertyPhoto, ocr_status_done}

-- The result carries what was to be stored; it is what the table then holds for the photo, or the
-- table is as it was.
abbrev Upserts : OcrResult → World → Result OcrResult × World → Type 0
Upserts u w (err e, v) = ⊥
Upserts u w (ok r, v) =
    (r.raw_text ≡ u.raw_text)
    × (r.suggestions ≡ u.suggestions)
    × (r.status ≡ u.status)
    × (r.error ≡ u.error)
    × ((find (is_result_of u.photo_id) v.ocr_results ≡ some r) ⊎ (v.ocr_results ≡ w.ocr_results))

abbrev Puts : OcrResult → World → Result OcrResult × World → Type 0
Puts u w (err e, v) = v.ocr_results ≡ w.ocr_results
Puts u w (ok r, v) =
    (r.raw_text ≡ u.raw_text)
    × (r.suggestions ≡ u.suggestions)
    × (r.status ≡ u.status)
    × (r.error ≡ u.error)
    × (find (is_result_of u.photo_id) v.ocr_results ≡ some r)

put_result-Puts : (u : OcrResult) (w : World) → Puts u w (put_result u w)
unfolding put_result
put_result-Puts u w = elim (Option-cases (find (is_result_of u.photo_id) w.ocr_results)) [
  | inr (old, e) ↦
      rw (Puts, put_result, e)
        (
          refl,
          refl,
          refl,
          refl,
          find-update_found (is_result_of u.photo_id) (overwritten u) w.ocr_results (λ y h. h) e,
        )
  | inl e ↦ elim (Bool-cases (has_parents u w)) [
    | inl f ↦
        rw (Puts, put_result, e, f)
          (
            refl,
            refl,
            refl,
            refl,
            find-append (is_result_of u.photo_id) w.ocr_results u e (==_self u.photo_id),
          )
    | inr f ↦ rw (Puts, put_result, e, f) refl
  ]
]

store_result-Puts : (u : OcrResult) (w : World) → Puts u w (store_result u w)
unfolding store_result
store_result-Puts u w = elim (Bool-cases (w.oracle.fault w.tick)) [
  | inl e ↦ rw (Puts, e) refl
  | inr e ↦
      let v : World = record w { tick = w.tick + 1 + 1 + 1 } in
      let row : OcrResult = record u {
        id = w.oracle.fresh (w.tick + 1);
        created_at = w.oracle.clock (w.tick + 1 + 1);
        updated_at = w.oracle.clock (w.tick + 1 + 1);
      } in
      rw (Puts, e) (put_result-Puts row v)
]

unsaved-Upserts :
    (u : OcrResult) (w : World) (r : Result OcrResult × World)
    → Puts u w r
    → Upserts u w (or_unsaved u r)
unsaved-Upserts u w (ok r, v) (a, b, c, d, e) = (a, b, c, d, inl e)
unsaved-Upserts u w (err x, v) h = (refl, refl, refl, refl, inr h)

upsert_result-Upserts : (u : OcrResult) (w : World) → Upserts u w (upsert_result u w)
unfolding upsert_result
upsert_result-Upserts u w = unsaved-Upserts u w (store_result u w) (store_result-Puts u w)

-- The row that a scan stores, where it stores one.
abbrev pub HoldsFailure : ℕ → World → Type 0
HoldsFailure photo v =
    (r : OcrResult) × (find (is_result_of photo) v.ocr_results ≡ some r)
    × (r.status ≡ ocr_status_failed)

abbrev pub Scans : (ℕ → ℕ) → OcrService → ℕ → World → Result OcrResult × World → Type 0
Scans lower s photo w (ok r, v) =
    (p : PropertyPhoto) × (raw_text : Text) × (find (is_confirmed photo) w.photos ≡ some p)
    × (call_vision_api (s.vision s.bucket p.gcs_key) ≡ recognised raw_text)
    × (r.raw_text ≡ some raw_text)
    × (r.suggestions ≡ parse_ocr_text lower raw_text)
    × (r.status ≡ ocr_status_done)
    × ((find (is_result_of photo) v.ocr_results ≡ some r) ⊎ (v.ocr_results ≡ w.ocr_results))
Scans lower s photo w (err e, v) = (v.ocr_results ≡ w.ocr_results) ⊎ HoldsFailure photo v

or_unchanged : {P : Type 0} (rs ss ts : List OcrResult) → ss ≡ ts → P ⊎ (rs ≡ ss) → P ⊎ (rs ≡ ts)
or_unchanged rs ss ts e (inl p) = inl p
or_unchanged rs ss ts e (inr h) = inr (h ∙ e)

module _ (lower : ℕ → ℕ) (s : OcrService) (photo property : ℕ) (w u : World)
    (same : u.ocr_results ≡ w.ocr_results) where
  succeeded :
      (p : PropertyPhoto) (raw_text : Text)
      → find (is_confirmed photo) w.photos ≡ some p
      → call_vision_api (s.vision s.bucket p.gcs_key) ≡ recognised raw_text
      → (q : Result OcrResult × World)
      → Upserts
          (unsaved photo property raw_text (parse_ocr_text lower raw_text) ocr_status_done none)
          u
          q
      → Scans lower s photo w q
  succeeded p raw_text f c (err e, v) h = absurd h
  succeeded p raw_text f c (ok r, v) (a, b, x, _, o) =
      (p, raw_text, f, c, a, b, x, or_unchanged v.ocr_results u.ocr_results w.ocr_results same o)

  refused :
      (message : Text) (q : Result OcrResult × World)
      → Upserts (unsaved photo property [] [] ocr_status_failed (some message)) u q
      → Scans lower s photo w (resume (λ _. fail internal) q)
  refused message (err e, v) h = absurd h
  refused message (ok r, v) (_, _, x, _, inl o) = inr (r, o, x)
  refused message (ok r, v) (_, _, x, _, inr o) = inl (o ∙ same)

  record_scan-Scans :
      (p : PropertyPhoto) (answer : VisionResult)
      → find (is_confirmed photo) w.photos ≡ some p
      → call_vision_api (s.vision s.bucket p.gcs_key) ≡ answer
      → Scans lower s photo w (record_scan lower photo property answer u)
  unfolding record_scan
  record_scan-Scans p (recognised t) f c =
      let row = unsaved photo property t (parse_ocr_text lower t) ocr_status_done none in
      succeeded p t f c (upsert_result row u) (upsert_result-Upserts row u)
  record_scan-Scans p (vision_error m) f c =
      let row = unsaved photo property [] [] ocr_status_failed (some m) in
      refused m (upsert_result row u) (upsert_result-Upserts row u)

-- A scan that ends well found a CONFIRMED photo under the id, whose text the Vision API
-- recognised; its result is DONE, with that text and the fields parsed from it, and is what the
-- table then holds for the photo, or the table is as it was. A scan that ends in an error
-- leaves the table as it was or a FAILED row for the photo.
pub scan_photo-Scans :
    (lower : ℕ → ℕ) (s : OcrService) (photo property : ℕ) (w : World)
    → Scans lower s photo w (scan_photo lower s photo property w)
unfolding scan_photo
scan_photo-Scans lower s photo property w = elim (Bool-cases s.enabled) [
  | inr e ↦ rw (Scans, e) (inl refl)
  | inl e ↦ elim (Bool-cases (w.oracle.fault w.tick)) [
    | inl f ↦ rw (Scans, e, f) (inl refl)
    | inr f ↦ elim (Option-cases (find (is_confirmed photo) w.photos)) [
      | inl g ↦ rw (Scans, e, f, g) (inl refl)
      | inr (p, g) ↦
          rw (e, f, g)
            (record_scan-Scans lower s photo property w (record w { tick = w.tick + 1 }) refl p
              (call_vision_api (s.vision s.bucket p.gcs_key)) g refl)
    ]
  ]
]
