-- ===== src/TimeUtil/Window.antt =====
-- The window of a request: explicit timestamps, a time range, or the defaults.
use signoz_mcp_server.Base.{ℕ, ◌≤◌, ◌^◌, String, ◌≡◌, refl, ◌∙◌, false, Option, some, ◌==◌}
use mathlib.Core.Path.{ap₂}
use signoz_mcp_server.Base.Int.{ℤ, pos}
use signoz_mcp_server.Base.Word.{IsInt64, max_int64}
use signoz_mcp_server.Base.Decimal.{format_int, parse_int-format_int, parse_int-nonempty}
use signoz_mcp_server.Base.Any.{Any, Fields, string, field, done, get?-field_self, get?-field_next}
use signoz_mcp_server.TimeUtil.{
  normalize_epoch_to_unit, timestamp_arg_int, parse_epoch_arg, get_timestamps_with_defaults,
}
use signoz_mcp_server.TimeUtil.Units.{
  normalize_epoch_to_unit_idempotent, normalize_epoch_to_unit-IsInt64,
}

module _ (parse_duration : String → Option ℤ) (now : ℤ) (unit : String) where
  -- A complete pair of explicit timestamps is the window, whatever the time range and the current time are.
  explicit_window :
      (args : Fields) (start end : ℤ)
      → timestamp_arg_int args "start" ≡ some start
      → timestamp_arg_int args "end" ≡ some end
      → get_timestamps_with_defaults parse_duration now args unit ≡ (
        format_int (normalize_epoch_to_unit start unit),
        format_int (normalize_epoch_to_unit end unit),
      )
  unfolding get_timestamps_with_defaults
  explicit_window args start end hs he = rw (hs, he)

timestamp_arg_int-format :
    (rest : Fields) (key : String) (a : ℤ)
    → IsInt64 a
    → timestamp_arg_int (field key (string (format_int a)) rest) key ≡ some a
unfolding timestamp_arg_int parse_epoch_arg
timestamp_arg_int-format rest key a h =
    let printed = parse_int-format_int a h in
    rw (
      get?-field_self key (string (format_int a)) rest,
      timestamp_arg_int,
      parse_int-nonempty (format_int a) a printed,
      printed,
    )

timestamp_arg_int-next :
    (rest : Fields) (key other : String) (v : Any)
    → (other == key) ≡ false
    → timestamp_arg_int (field other v rest) key ≡ timestamp_arg_int rest key
unfolding timestamp_arg_int
timestamp_arg_int-next rest key other v h =
    rw (get?-field_next key other v rest h, timestamp_arg_int)

-- The window of a pair of timestamps after March 1973 that fit an int64 is a fixed point: asking
-- for it again by its printed bounds, in the same unit, gives the same texts at any time.
pub window_again :
    (parse_duration : String → Option ℤ) (now later : ℤ) (unit : String) (args : Fields)
    (start end : ℕ)
    → timestamp_arg_int args "start" ≡ some (pos start)
    → timestamp_arg_int args "end" ≡ some (pos end)
    → 10 ^ 8 ≤ start
    → start ≤ max_int64
    → 10 ^ 8 ≤ end
    → end ≤ max_int64
    → get_timestamps_with_defaults parse_duration later
        (field "start"
          (string (get_timestamps_with_defaults parse_duration now args unit).0)
          (field "end" (string (get_timestamps_with_defaults parse_duration now args unit).1) done))
        unit
      ≡ get_timestamps_with_defaults parse_duration now args unit
window_again parse_duration now later unit args start end hs he ls fs le fe =
    let s = normalize_epoch_to_unit (pos start) unit in
    let e = normalize_epoch_to_unit (pos end) unit in
    let s_fits = normalize_epoch_to_unit-IsInt64 start unit ls fs in
    let e_fits = normalize_epoch_to_unit-IsInt64 end unit le fe in
    rw (explicit_window parse_duration now unit args (pos start) (pos end) hs he) (
      explicit_window parse_duration later unit _ s e (timestamp_arg_int-format _ "start" s s_fits)
        (timestamp_arg_int-next _ "end" "start" _ refl
          ∙ timestamp_arg_int-format done "end" e e_fits)
      ∙ ap₂ (λ a b. (format_int a, format_int b))
          (normalize_epoch_to_unit_idempotent start unit ls fs)
          (normalize_epoch_to_unit_idempotent end unit le fe))
