-- ===== src/Tests/Sharing.antt =====
-- Shared listings, reminders and the export on concrete inputs.
use realstate_allan.Float.{of_nat}
use realstate_allan.Stale.{trigger_stale_scan}
use realstate_allan.Tests.{world, libraries, postgres, quiet, flat}
use realstate_allan.Share.Privacy.{hide_owners, generate_hides_owner}
use realstate_allan.Common.{codes, ◌≡◌, ◌∷◌, ◌+◌, []}
use realstate_allan.Worker.Reminder.{Reminds, handle_stale-Reminds}
use realstate_allan.Worker.Tasks.{Dispatcher, handle_stale}
use realstate_allan.Stale.Scan.{ScanReports, trigger_stale_scan-ScanReports}
use realstate_allan.World.{World}
use realstate_allan.Share.{to_shareable}
use realstate_allan.Share.Generate.{ShareService, generate, geocoded}

abbrev maps : ShareService
maps = record { maps_api_key = codes "key"; maps = λ latlng. geocoded "OK" (codes "MG Road" ∷ []) }

generate_hides_owner_example :
    ((generate maps 10 (hide_owners world)).0 ≡ (generate maps 10 world).0)
    × (to_shareable
          (record flat {
            owner_name = "";
            owner_contact = "";
            location_lat = of_nat 1;
            location_lng = of_nat 2;
          })
          []
          (codes "MG Road")
        ≡ to_shareable flat [] (codes "MG Road"))
generate_hides_owner_example =
    generate_hides_owner maps 10 world flat (of_nat 1) (of_nat 2) [] (codes "MG Road")

abbrev selling : World
selling = record world {
  oracle = record quiet { clock = λ n. 9_000_000_000_000_000 + n };
  properties = record flat { listing_category = "SELLING" } ∷ [];
}

trigger_stale_scan-ScanReports_example :
    ScanReports libraries selling (trigger_stale_scan libraries selling)
trigger_stale_scan-ScanReports_example = trigger_stale_scan-ScanReports libraries selling

abbrev dispatcher : Dispatcher
dispatcher = record {
  twilio_sid = codes "sid";
  twilio_auth = codes "auth";
  whatsapp_from = codes "whatsapp:+1";
  sms_from = codes "+1";
}

handle_stale-Reminds_example :
    Reminds postgres libraries dispatcher "10"
      (codes "9876543210")
      40
      selling
      (handle_stale postgres libraries dispatcher "10" (codes "9876543210") 40 selling)
handle_stale-Reminds_example =
    handle_stale-Reminds postgres libraries dispatcher "10" (codes "9876543210") 40 selling
