-- ===== src/TimeUtil.antt =====
-- pkg/timeutil/time.go. A time is the count of nanoseconds since the epoch, the current time and
-- time.ParseDuration are arguments, and an error is a constructor with what its message names.
pub mod Units
pub mod Days
pub mod Window
pub mod Explicit
mod Tests
use Prim.Native.String.{[]}
use Prim.Native.String
use signoz_mcp_server.Base.{
  ℕ, ◌-◌, ◌/◌, ◌^◌, String, Char, code, Bool, true, false, not, ◌&&◌, ◌||◌, Option, none, some,
  ◌==◌, ltb, leb, eqb, if◌then◌else◌,
}
use mathlib.Core.Option
use signoz_mcp_server.Base.Int.{ℤ, pos, negsuc, ◌+ℤ◌, ◌-ℤ◌, ◌*ℤ◌, leb_ℤ, ltb_ℤ, quo}
use signoz_mcp_server.Base.Word.{wrap64, max_int64}
use signoz_mcp_server.Base.Decimal.{parse_int, format_int}
use signoz_mcp_server.Base.Any.{Any, Fields, nil, integer, float, number, string, finite, get, get?}

abbrev pub unit_nanos : String
unit_nanos = "ns"

-- Nanoseconds in a second, a millisecond, a microsecond and an hour.
abbrev pub second : ℕ
second = 10 ^ 9

abbrev pub millisecond : ℕ
millisecond = 10 ^ 6

abbrev pub microsecond : ℕ
microsecond = 10 ^ 3

abbrev pub hour : ℤ
hour = pos 3600000000000

abbrev pub seconds_upper_bound : ℤ
seconds_upper_bound = pos (10 ^ 11)

abbrev pub millis_upper_bound : ℤ
millis_upper_bound = pos (10 ^ 14)

abbrev pub micros_upper_bound : ℤ
micros_upper_bound = pos (10 ^ 17)

abbrev strip_from : Char → Option String → Option String
strip_from c (some s) = some (String.◌∷◌ c s)
strip_from c none = none

-- timeRange[:len(timeRange)-1], where the last byte is 'd'.
strip_days : String → Option String
strip_days [] = none
strip_days (String.◌∷◌ c []) = if eqb (code c) b'd' then some [] else none
strip_days (String.◌∷◌ c (String.◌∷◌ d s)) = strip_from c (strip_days (String.◌∷◌ d s))

-- The days in front of a final 'd', where there is anything in front.
days_text : String → Option String
unfolding strip_days
days_text s = elim (strip_days s) [
  | none ↦ none
  | some days ↦ if days == "" then none else some days
]

-- time.Duration(numDays) * 24 * time.Hour
days_duration : ℤ → ℤ
days_duration days = wrap64 (wrap64 (days *ℤ pos 24) *ℤ hour)

pub parse_days : String → Option ℤ
unfolding days_text days_duration
parse_days s = elim (days_text s) [
  | none ↦ none
  | some days ↦ Option.map days_duration (parse_int days)
]

-- How many nanoseconds one unit of the source is, by the magnitude of the value.
pub source_unit_nanos : ℤ → ℕ
source_unit_nanos raw =
    if ltb_ℤ raw seconds_upper_bound
    then second
    else if ltb_ℤ raw millis_upper_bound
    then millisecond
    else if ltb_ℤ raw micros_upper_bound
    then microsecond
    else 1

-- raw * factor, or the largest int64.
clamped_mul : ℤ → ℕ → ℤ
clamped_mul raw factor =
    if leb_ℤ raw (quo (pos max_int64) factor) then wrap64 (raw *ℤ pos factor) else pos max_int64

pub normalize_epoch_to_unit : ℤ → String → ℤ
unfolding clamped_mul
normalize_epoch_to_unit raw unit =
    let nanos = source_unit_nanos raw in
    if leb_ℤ raw (pos 0)
    then raw
    else if unit == unit_nanos
    then clamped_mul raw nanos
    else if leb millisecond nanos
    then clamped_mul raw (nanos / millisecond)
    else quo raw (millisecond / nanos)

-- `absent` is (0, false, false), `malformed` is (0, true, false).
pub data Epoch : Type 0 where
  absent malformed : Epoch
  given : ℤ → Epoch

abbrev or_malformed : Option ℤ → Epoch
or_malformed none = malformed
or_malformed (some n) = given n

abbrev pub max_exact_float : ℕ
max_exact_float = 2 ^ 53 - 1

-- A float is negative if its sign is set and it is not a negative zero.
pub parse_epoch_arg : Any → Epoch
parse_epoch_arg nil = absent
parse_epoch_arg (string s) = if s == "" then absent else or_malformed (parse_int s)
parse_epoch_arg (number s) = or_malformed (parse_int s)
parse_epoch_arg (integer type n) = given (wrap64 n)
parse_epoch_arg (float (finite negative whole integral)) =
    if (negative && (ltb 0 whole || not integral)) || ltb max_exact_float whole || not integral
    then malformed
    else given (pos whole)
parse_epoch_arg _ = malformed

abbrev given_value : Epoch → Option ℤ
given_value (given n) = some n
given_value _ = none

-- The two results (n, true) and (0, false).
pub timestamp_arg_int : Fields → String → Option ℤ
timestamp_arg_int args key = elim (get? args key) [
  | none ↦ none
  | some v ↦ given_value (parse_epoch_arg v)
]

pub has_usable_timestamp : Fields → String → Bool
has_usable_timestamp args key = elim (get? args key) [
  | none ↦ false
  | some v ↦ elim (parse_epoch_arg v) [ given n ↦ true | _ ↦ false ]
]

-- t.UnixMilli, which rounds down.
unfoldable pub unix_milli : ℤ → ℤ
unix_milli (pos n) = pos (n / millisecond)
unix_milli (negsuc n) = negsuc (n / millisecond)

unfoldable pub to_unix : String → ℤ → ℤ
unfolding unix_milli
to_unix unit t = if unit == unit_nanos then wrap64 t else unix_milli t

pub data TimestampError : Type 0 where
  invalid_timestamp : (key : String) (value : Any) → TimestampError
  time_range_not_string : (value : Any) → TimestampError
  invalid_time_range : (time_range : String) → TimestampError

-- args["timeRange"].(string), where it is not empty.
pub time_range_of : Any → Option String
time_range_of (string s) = if s == "" then none else some s
time_range_of _ = none

abbrev in_unit : String → ℤ → String
in_unit unit raw = format_int (normalize_epoch_to_unit raw unit)

abbrev or_default : String → Option ℤ → ℤ → String
or_default unit (some raw) default = in_unit unit raw
or_default unit none default = format_int default

-- The answer where one of the two timestamps, or both, and the time range are missing.
pub default_window : (now : ℤ) (unit : String) → Option ℤ → Option ℤ → String × String
unfolding to_unix
default_window now unit start end = (
  or_default unit start (to_unix unit (now -ℤ pos 6 *ℤ hour)),
  or_default unit end (to_unix unit now),
)

-- One round of the loop over "start" and "end": an error, or whether the timestamp is valid.
pub check_timestamp : Fields → String → Option TimestampError × Bool
check_timestamp args key = elim (get? args key) [
  | none ↦ (none, false)
  | some v ↦ elim (parse_epoch_arg v) [
    | malformed ↦ (some (invalid_timestamp key v), false)
    | absent ↦ (none, false)
    | given n ↦ (none, true)
  ]
]

module _ (parse_duration : String → Option ℤ) where
  pub parse_time_range : String → Option ℤ
  parse_time_range s = elim (parse_duration s) [
    | some duration ↦ some duration
    | none ↦ parse_days s
  ]

  pub relative_window : (now : ℤ) (unit : String) → Option String → Option (String × String)
  unfolding to_unix
  relative_window now unit none = none
  relative_window now unit (some s) = elim (parse_time_range s) [
    | none ↦ none
    | some duration ↦ some (
      format_int (to_unix unit (now +ℤ wrap64 (pos 0 -ℤ duration))),
      format_int (to_unix unit now),
    )
  ]

  -- A pair of explicit timestamps, or else the time range, or else the defaults.
  choose_window : (now : ℤ) (unit : String) → Any → Option ℤ → Option ℤ → String × String
  choose_window now unit time_range (some start) (some end) = (in_unit unit start, in_unit unit end)
  choose_window now unit time_range start end =
      elim (relative_window now unit (time_range_of time_range)) [
        | some window ↦ window
        | none ↦ default_window now unit start end
      ]

  pub get_timestamps_with_defaults : (now : ℤ) → Fields → (unit : String) → String × String
  unfolding choose_window
  get_timestamps_with_defaults now args unit =
      choose_window now unit (get args "timeRange") (timestamp_arg_int args "start")
        (timestamp_arg_int args "end")

  -- A missing key reads as nil here, which is accepted as well.
  pub check_time_range : Any → Option TimestampError
  check_time_range nil = none
  check_time_range (string s) =
      if s == ""
      then none
      else elim (parse_time_range s) [ some d ↦ none | none ↦ some (invalid_time_range s) ]
  check_time_range v = some (time_range_not_string v)

  pub validate_explicit_timestamps : Fields → Option TimestampError
  validate_explicit_timestamps args =
      let (start_error, start_valid) = check_timestamp args "start" in
      let (end_error, end_valid) = check_timestamp args "end" in
      elim start_error [
        | some e ↦ some e
        | none ↦ elim end_error [
          | some e ↦ some e
          | none ↦
              if start_valid && end_valid then none else check_time_range (get args "timeRange")
        ]
      ]
