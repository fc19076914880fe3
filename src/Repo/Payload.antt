-- ===== src/Repo/Payload.antt =====
-- `map[string]any` values of jobs and events with their dynamic types. A float64 is given by the
-- int64 that Go's conversion makes of it; json.Number is a text.
use Prim.Native.String.{String}
use package.text.Mathlib.Text.{◌==◌ as str_eq}
use fetch_bilibili.Prelude.{List, [], ◌∷◌, Option, none, some, if◌then◌else◌}
use fetch_bilibili.Prelude.Int.{ℤ}

pub data Value : Type 0 where
  int64 : ℤ → Value
  int : ℤ → Value
  float64 : ℤ → Value
  json_number : String → Value
  string : String → Value
  null : Value

abbrev pub Payload : Type 0
Payload = List (String × Value)

-- `data[key]` and whether the key is there.
abbrev pub lookup : String → Payload → Option Value
lookup key [] = none
lookup key ((k, v) ∷ rest) = let later = lookup key rest in if str_eq k key then some v else later

-- payloadInt64 of a job: `parse` is strconv.ParseInt in base 10, with `none` for its error.
abbrev pub as_int64 : (String → Option ℤ) → Option Value → Option ℤ
as_int64 parse none = none
as_int64 parse (some (int64 z)) = some z
as_int64 parse (some (int z)) = some z
as_int64 parse (some (float64 z)) = some z
as_int64 parse (some (json_number s)) = parse s
as_int64 parse (some (string s)) = parse s
as_int64 parse (some null) = none

unfoldable pub payload_int64 : (String → Option ℤ) → Payload → String → Option ℤ
payload_int64 parse payload key = as_int64 parse (lookup key payload)
