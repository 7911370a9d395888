-- ===== src/Tests/Recognition.antt =====
-- The recognition of texts on concrete inputs.
use realstate_allan.Ocr.Parser.{parse_ocr_text}
use realstate_allan.Tests.{front, world}
use realstate_allan.Ocr.Contact.{suggested, IsMobile, parse_ocr_text-Contact}
use realstate_allan.Ocr.Scan.{Scans, scan_photo-Scans}
use realstate_allan.Ocr.{OcrService, scan_photo, responses}
use realstate_allan.World.{World}
use realstate_allan.Models.{PropertyPhoto}
use realstate_allan.Ocr.Price.{PriceSays, price_hits, parse_ocr_text-PriceSays}
use realstate_allan.Common.{Text, codes, true, ◌∷◌, ◌≡◌, [], some, arith, none, ◌++◌}

abbrev card : Text
card = codes "Flat 50 lakh, 9876543210"

parse_ocr_text-Contact_example :
    ((d : Text)
      → suggested "owner_contact" (parse_ocr_text (λ c. c) card) ≡ some d
      → IsMobile d × ((before : Text) × (after : Text) × (card ≡ before ++ (d ++ after))))
    × ((before mobile after : Text)
        → card ≡ before ++ (mobile ++ after)
        → IsMobile mobile
        → (d : Text) × (suggested "owner_contact" (parse_ocr_text (λ c. c) card) ≡ some d))
parse_ocr_text-Contact_example = parse_ocr_text-Contact (λ c. c) card

parse_ocr_text-PriceSays_example :
    PriceSays (λ c. c) card (price_hits 24 card) (suggested "price" (parse_ocr_text (λ c. c) card))
parse_ocr_text-PriceSays_example = parse_ocr_text-PriceSays (λ c. c) card 24 (omega arith)

abbrev stored_front : PropertyPhoto
stored_front = record front { status = "CONFIRMED" }

abbrev scans : World
scans = record world { photos = stored_front ∷ [] }

abbrev ocr : OcrService
ocr = record {
  enabled = true;
  bucket = codes "photos";
  vision = λ bucket key. responses (record { full_text = some card; error = none } ∷ []);
}

scan_photo-Scans_example : Scans (λ c. c) ocr 30 scans (scan_photo (λ c. c) ocr 30 10 scans)
scan_photo-Scans_example = scan_photo-Scans (λ c. c) ocr 30 10 scans
