-- ===== src/Tests/Reminders.antt =====
-- A reminder about a listing of the small table, sent.
use realstate_allan.Worker.Arrival.{Arrives, handle_stale-Arrives}
use realstate_allan.Worker.Tasks.{Dispatcher}
use realstate_allan.Worker.{Post}
use realstate_allan.External.{Libraries, Postgres}
use realstate_allan.Tests.{libraries, postgres, world}
use realstate_allan.Common.{codes, str_eq, if◌then◌else◌, some, none, refl}

abbrev numbered : Libraries
numbered = record libraries { show_uuid = λ n. "job" }

abbrev reading : Postgres
reading = record postgres {
  parse_uuid = λ s. if str_eq s "job" then some 501 else if str_eq s "10" then some 10 else none;
}

abbrev dispatcher : Dispatcher
dispatcher = record {
  twilio_sid = codes "AC1";
  twilio_auth = codes "key";
  whatsapp_from = codes "whatsapp:+1";
  sms_from = codes "+1";
}

abbrev taking : Post
taking from to body = some "SM1"

handle_stale-Arrives_example :
    Arrives reading numbered dispatcher taking "10" 501 10 (codes "98765 43210") 45 "SM1" world
unfolding realstate_allan.Common.text_eq
handle_stale-Arrives_example =
    handle_stale-Arrives reading numbered dispatcher taking "10" 10 (codes "98765 43210") 45 "SM1"
      world (λ n. refl) refl refl refl refl refl refl refl
