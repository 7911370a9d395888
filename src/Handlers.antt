-- ===== src/Handlers.antt =====
-- backend/internal/handlers: what a request carries once the router and encoding/json have read
-- it, and the handlers by resource.
pub mod Tools
pub mod Lists
pub mod Ocr
use realstate_allan.Float.{Float64, zero_float}
use realstate_allan.Common.Int.{ℤ, ltb_ℤ, pos}
use realstate_allan.Common.{
  String, Option, some, Bool, List, if◌then◌else◌, none, false, str_eq, or_else, atoi, codes,
}
pub mod Properties
pub mod Photos
pub mod Auth

-- A field of a JSON object, as json.Unmarshal sees it.
pub data JsonField : Type 0 where
  null : JsonField
  str : String → JsonField
  num : Float64 → JsonField
  bool : Bool → JsonField
  strings : List String → JsonField
  other : JsonField

-- json.Unmarshal into a string, a float64, a bool and a []string: null leaves the zero value, and
-- another type is an error. A nil slice is `none`.
unfoldable pub into_string : JsonField → Option String
into_string null = some ""
into_string (str s) = some s
into_string _ = none

unfoldable pub into_float : JsonField → Option Float64
into_float null = some zero_float
into_float (num v) = some v
into_float _ = none

unfoldable pub into_bool : JsonField → Option Bool
into_bool null = some false
into_bool (bool b) = some b
into_bool _ = none

unfoldable pub into_strings : JsonField → Option (List String)
into_strings (strings ss) = some ss
into_strings _ = none

-- What the authentication middleware has put into the context: the user's id and the role.
pub record Caller : Type 0 where
  pub user_id : String
  pub role : String

-- strconv.ParseFloat
abbrev pub ParseFloat : Type 0
ParseFloat = String → Option Float64

unfoldable pub parse_int_query : String → ℤ → ℤ
parse_int_query s def = if str_eq s "" then def else or_else (atoi (codes s)) def

unfoldable pub clamp_int : ℤ → ℤ → ℤ → ℤ
clamp_int v min max = if ltb_ℤ v min then min else if ltb_ℤ max v then max else v

unfoldable pub max0 : ℤ → ℤ
max0 v = if ltb_ℤ v (pos 0) then pos 0 else v
