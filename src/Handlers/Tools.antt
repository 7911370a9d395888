-- ===== src/Handlers/Tools.antt =====
-- backend/internal/handlers/tools.go. The rows of the export are those given to csv.Writer; the column of
-- times holds the instant that time.RFC3339 writes.
pub mod Export
use realstate_allan.Properties.Select.{newest_first, is_live}
use realstate_allan.Handlers.Properties.{invalid}
use realstate_allan.Respond.{Response, Handler, reply, json}
use realstate_allan.World.{Result, Action, World, ◌>>◌, err, ok, statement, gets}
use realstate_allan.Models.{Property}
use realstate_allan.Float.{Float64}
use realstate_allan.Float.Convert.{show_int, show_fixed}
use realstate_allan.External.{Libraries}
use realstate_allan.Calculator.{
  CalculatorError, Calculated, bad_sum, CalculatorResult, CalculatorInput, good,
  property_value_not_positive, monthly_rent_not_positive, bad, calculate, unknown_mode,
  commission_rate_out_of_range, not_a_pair, bad_a, bad_b, zero_part,
}
use realstate_allan.Common.Int.{ℤ}
use realstate_allan.Common.{
  ℕ, Text, Option, List, Bool, map, String, ◌∷◌, [], codes, if◌then◌else◌, append, some, ◌++◌, ◌+◌,
  true, ◌==◌, none, false, select, ◌-◌,
}
use Prim.Native.Char.{Char}

abbrev digit_char : ℕ → Char
digit_char d =
    if d == 0
    then "0"
    else if d == 1
    then "1"
    else if d == 2
    then "2"
    else if d == 3
    then "3"
    else if d == 4
    then "4"
    else if d == 5
    then "5"
    else if d == 6
    then "6"
    else if d == 7
    then "7"
    else if d == 8
    then "8"
    else "9"

-- %d
abbrev digits_string : Text → String
digits_string [] = ""
digits_string (c ∷ s) =
    if c == b'-'
    then String.◌∷◌ "-" (digits_string s)
    else String.◌∷◌ (digit_char (c - 48)) (digits_string s)

abbrev pub shown_int : ℤ → String
shown_int n = digits_string (show_int n)

-- err.Error()
unfoldable pub message_of : CalculatorError → String
message_of property_value_not_positive = "property_value must be positive for SALE mode"
message_of monthly_rent_not_positive = "monthly_rent must be positive for RENTAL mode"
message_of unknown_mode = "mode must be \"SALE\" or \"RENTAL\""
message_of commission_rate_out_of_range =
    "commission_rate must be between 0 (exclusive) and 10 (inclusive)"
message_of not_a_pair = "split_ratio must be in the format \"A:B\" (e.g. \"60:40\")"
message_of bad_a = "split_ratio: A must be a non-negative integer"
message_of bad_b = "split_ratio: B must be a non-negative integer"
message_of zero_part = "split_ratio: neither A nor B may be zero"
message_of (bad_sum a b sum) =
    append "split_ratio: A + B must equal 100, got "
      (append (shown_int a) (append " + " (append (shown_int b) (append " = " (shown_int sum)))))

abbrev pub calculated : Calculated CalculatorResult → Response CalculatorResult
calculated (good r) = json 200 r "Brokerage calculated successfully"
calculated (bad e) = invalid (message_of e)

-- A body that does not decode is `none`.
unfoldable pub calculator_handler : Option CalculatorInput → Handler CalculatorResult
calculator_handler none = reply (invalid "invalid request body")
calculator_handler (some i) = reply (calculated (calculate i))

pub data Cell : Type 0 where
  cell : Text → Cell
  instant : ℕ → Cell

abbrev pub CsvRow : Type 0
CsvRow = List Cell

unfoldable pub nullable_float : Option Float64 → Text
nullable_float none = []
nullable_float (some f) = show_fixed 2 f

unfoldable pub deref_str : Option String → Text
deref_str none = []
deref_str (some s) = codes s

unfoldable pub bool_str : Bool → Text
bool_str true = codes "true"
bool_str false = codes "false"

unfoldable pub join_tags : List String → Text
join_tags [] = []
join_tags (t ∷ []) = codes t
join_tags (t ∷ u ∷ ts) = codes t ++ b'|' ∷ join_tags (u ∷ ts)

unfoldable pub csv_header : CsvRow
csv_header =
    map (λ s. cell (codes s))
      ("id" ∷ "listing_category" ∷ "property_type" ∷ "owner_name" ∷ "owner_contact" ∷ "price"
        ∷ "plot_area" ∷ "built_up_area" ∷ "location_lat" ∷ "location_lng" ∷ "is_direct_owner"
        ∷ "tags" ∷ "description" ∷ "created_at" ∷ [])

unfoldable pub csv_record : Libraries → Property → CsvRow
csv_record lib p =
    cell (codes (lib.show_uuid p.id))
    ∷ cell (codes p.listing_category)
    ∷ cell (codes p.property_type)
    ∷ cell (codes p.owner_name)
    ∷ cell (codes p.owner_contact)
    ∷ cell (show_fixed 2 p.price)
    ∷ cell (nullable_float p.plot_area)
    ∷ cell (nullable_float p.built_up_area)
    ∷ cell (show_fixed 6 p.location_lat)
    ∷ cell (show_fixed 6 p.location_lng)
    ∷ cell (bool_str p.is_direct_owner)
    ∷ cell (join_tags p.tags)
    ∷ cell (deref_str p.description)
    ∷ instant p.created_at
    ∷ []

-- `message` is the text of the driver's error.
abbrev pub error_row : String → (message : Text) → CsvRow
error_row what message = cell (codes "ERROR") ∷ cell (codes what) ∷ cell message ∷ []

module _ (lib : Libraries) (message : Text) where
  -- Reading may fail before a row and after the last one, which ends the loop; rows.Err tells so.
  unfoldable pub stream_rows : List Property → World → List CsvRow × World
  stream_rows [] w = (
    if w.oracle.fault w.tick then error_row "stream interrupted" message ∷ [] else [],
    record w { tick = w.tick + 1 },
  )
  stream_rows (p ∷ ps) w =
      let v : World = record w { tick = w.tick + 1 } in
      let (rows, u) = stream_rows ps v in
      if w.oracle.fault w.tick
      then (error_row "stream interrupted" message ∷ [], v)
      else (csv_record lib p ∷ rows, u)

  abbrev pub after_query : Result (List Property) × World → List CsvRow × World
  after_query (err e, w) = (csv_header ∷ error_row "failed to query properties" message ∷ [], w)
  after_query (ok ps, w) = let (rows, v) = stream_rows ps w in (csv_header ∷ rows, v)

  abbrev pub query_export : Action (List Property)
  query_export = do statement; gets λ w. newest_first (select is_live w.properties)

  -- The status is 200, which is written first.
  unfoldable pub export_csv : World → List CsvRow × World
  export_csv w = after_query (query_export w)
