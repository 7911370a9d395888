-- ===== src/Tests/Nearby.antt =====
-- Nearby on the small table.
use realstate_allan.Properties.Nearby.Answers.{AnswersNearby, nearby_properties-AnswersNearby}
use realstate_allan.Properties.Nearby.{nearby_properties}
use realstate_allan.Handlers.{ParseFloat, Caller}
use realstate_allan.Float.{of_nat}
use realstate_allan.Tests.{postgres, world}
use realstate_allan.Common.{String, some, str_eq, if◌then◌else◌}

abbrev ann : Caller
ann = record { user_id = "1"; role = "BROKER" }

abbrev parse : ParseFloat
parse s = some (if str_eq s "12.5" then of_nat 12 else of_nat 77)

abbrev query : String → String
query s = if str_eq s "limit" then "1" else if str_eq s "lat" then "12.5" else "77"

nearby_properties-AnswersNearby_example :
    AnswersNearby postgres ann parse query world
      (nearby_properties postgres parse ann query world).0
nearby_properties-AnswersNearby_example =
    nearby_properties-AnswersNearby postgres ann parse query world
