-- ===== src/TimeUtil/Tests.antt =====
-- Runs of the time functions, and the theorems at concrete arguments. No text is a standard
-- duration for the `no_duration` of the runs.
use signoz_mcp_server.Base.{
  ◌*◌, ◌^◌, String, ◌≡◌, refl, ◌↔◌, ◌⊎◌, true, false, ◌&&◌, ◌==◌, Option, none, some, arith,
  if◌then◌else◌,
}
use signoz_mcp_server.Base.Int.{ℤ, pos, ◌<ℤ◌}
use signoz_mcp_server.Base.Decimal.{parse_int}
use signoz_mcp_server.Base.Any.{Fields, string, field, done, get, get?}
use signoz_mcp_server.TimeUtil.{
  unit_nanos, normalize_epoch_to_unit, parse_time_range, timestamp_arg_int, parse_epoch_arg,
  validate_explicit_timestamps, check_timestamp, check_time_range,
}
use signoz_mcp_server.TimeUtil.Units.{min_max, in_nanos, in_millis, normalize_epoch_to_unit_exact}
use signoz_mcp_server.TimeUtil.Days.{parse_time_range_days, parse_time_range_wraps}
use signoz_mcp_server.TimeUtil.Explicit.{
  epoch_of, is_given, is_malformed, IsTimeRange, validate_explicit_timestamps_iff,
}

abbrev no_duration : String → Option ℤ
no_duration s = none

abbrev now : ℤ
now = pos (1764000000 * 10 ^ 9)

abbrev pair_args : Fields
pair_args = field "start" (string "1764000000") (field "end" (string "1764003600000") done)

abbrev week_args : Fields
week_args = field "timeRange" (string "7d") done

week_reads : parse_time_range no_duration "7d" ≡ some (pos (7 * 86400000000000))
week_reads = parse_time_range_days no_duration "7" 7 refl (unfold parse_int in refl) (omega arith)

normalize_epoch_to_unit_exact_example :
    normalize_epoch_to_unit (pos 1764000000) "ms"
    ≡ (if "ms" == unit_nanos then min_max (in_nanos 1764000000) else pos (in_millis 1764000000))
normalize_epoch_to_unit_exact_example =
    normalize_epoch_to_unit_exact 1764000000 "ms" (omega arith) (omega arith)

parse_time_range_wraps_example :
    (d : ℤ) × (parse_time_range no_duration "106752d" ≡ some d) × (d <ℤ pos 0)
parse_time_range_wraps_example =
    parse_time_range_wraps no_duration "106752" 106752 refl (unfold parse_int in refl) (omega arith)
      (omega arith)

start_reads : timestamp_arg_int pair_args "start" ≡ some (pos 1764000000)
unfolding timestamp_arg_int parse_epoch_arg parse_int get?
start_reads = refl

end_reads : timestamp_arg_int pair_args "end" ≡ some (pos 1764003600000)
unfolding timestamp_arg_int parse_epoch_arg parse_int get?
end_reads = refl

validate_explicit_timestamps_iff_example :
    (validate_explicit_timestamps no_duration pair_args ≡ none) ↔ (
      (is_malformed (epoch_of pair_args "start") ≡ false)
      × (is_malformed (epoch_of pair_args "end") ≡ false)
      × ((is_given (epoch_of pair_args "start") && is_given (epoch_of pair_args "end") ≡ true)
          ⊎ IsTimeRange no_duration (get pair_args "timeRange")))
validate_explicit_timestamps_iff_example = validate_explicit_timestamps_iff no_duration pair_args

week_is_valid : validate_explicit_timestamps no_duration week_args ≡ none
unfolding validate_explicit_timestamps check_timestamp check_time_range get get?
week_is_valid = rw (week_reads, check_time_range) refl

not_a_pair : is_given (epoch_of week_args "start") && is_given (epoch_of week_args "end") ≡ false
unfolding epoch_of get?
not_a_pair = refl
