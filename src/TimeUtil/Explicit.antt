-- ===== src/TimeUtil/Explicit.antt =====
-- ValidateExplicitTimestamps: what it accepts, and the window of what it accepts.
use signoz_mcp_server.Base.{
  String, ◌≡◌, ◌≢◌, refl, ◌↔◌, ◌⊎◌, inl, inr, true, false, Bool, ◌&&◌, Option, none, some, arith,
  ◌==◌, eq_iff, Bool-cases, Option-cases,
}
use signoz_mcp_server.Base.Int.{ℤ, pos, ◌+ℤ◌, ◌-ℤ◌}
use signoz_mcp_server.Base.Word.{wrap64}
use signoz_mcp_server.Base.Decimal.{format_int}
use signoz_mcp_server.Base.Any.{Any, Fields, nil, string, get, get?}
use signoz_mcp_server.TimeUtil.{
  Epoch, absent, malformed, given, parse_epoch_arg, parse_time_range, check_timestamp,
  check_time_range, validate_explicit_timestamps, timestamp_arg_int, get_timestamps_with_defaults,
  choose_window, relative_window, to_unix, time_range_of,
}

-- A missing key is an absent timestamp.
unfoldable pub epoch_of : Fields → String → Epoch
epoch_of args key = elim (get? args key) [ none ↦ absent | some v ↦ parse_epoch_arg v ]

-- A time range that is left out, or that is a text that reads as a duration.
pub data IsTimeRange (parse_duration : String → Option ℤ) : Any → Type 0 where
  unset : IsTimeRange parse_duration nil
  empty : (s : String) → s ≡ "" → IsTimeRange parse_duration (string s)
  relative :
      (s : String) (d : ℤ)
      → parse_time_range parse_duration s ≡ some d
      → IsTimeRange parse_duration (string s)

abbrev pub is_given : Epoch → Bool
is_given (given n) = true
is_given _ = false

abbrev pub is_malformed : Epoch → Bool
is_malformed malformed = true
is_malformed _ = false

check_timestamp_lem :
    (args : Fields) (key : String)
    → ((check_timestamp args key).1 ≡ is_given (epoch_of args key))
      × (((check_timestamp args key).0 ≡ none) ↔ (is_malformed (epoch_of args key) ≡ false))
unfolding check_timestamp epoch_of
check_timestamp_lem args key = (ground arith, (λ h. ground arith, λ h. ground arith))

timestamps_missing :
    (args : Fields)
    → is_given (epoch_of args "start") && is_given (epoch_of args "end") ≡ false
    → (timestamp_arg_int args "start" ≡ none) ⊎ (timestamp_arg_int args "end" ≡ none)
unfolding timestamp_arg_int epoch_of
timestamps_missing args h = ground arith

left_or : {A B C : Type 0} → A ⊎ B → (B → C) → A ⊎ C
left_or (inl a) f = inl a
left_or (inr b) f = inr (f b)

module _ (parse_duration : String → Option ℤ) where
  check_time_range_sound :
      (v : Any) → check_time_range parse_duration v ≡ none → IsTimeRange parse_duration v
  unfolding check_time_range
  check_time_range_sound nil h = unset
  check_time_range_sound (string s) h = elim (Bool-cases (s == "")) [
    | inl blank ↦ empty s ((eq_iff s "").0 blank)
    | inr text ↦ elim (Option-cases (parse_time_range parse_duration s)) [
      | inr (d, reads) ↦ relative s d reads
      | inl fails ↦ absurd (ground arith)
    ]
  ]
  check_time_range_sound _ h = cc

  check_time_range_complete :
      (v : Any) → IsTimeRange parse_duration v → check_time_range parse_duration v ≡ none
  unfolding check_time_range
  check_time_range_complete _ unset = refl
  check_time_range_complete _ (empty s e) = rw e
  check_time_range_complete _ (relative s d e) = ground arith

  validate_explicit_timestamps-checks :
      (args : Fields)
      → (validate_explicit_timestamps parse_duration args ≡ none) ↔ (
          (is_malformed (epoch_of args "start") ≡ false)
          × (is_malformed (epoch_of args "end") ≡ false)
          × ((is_given (epoch_of args "start") && is_given (epoch_of args "end") ≡ true)
              ⊎ (check_time_range parse_duration (get args "timeRange") ≡ none)))
  unfolding validate_explicit_timestamps
  validate_explicit_timestamps-checks args =
      let s = check_timestamp_lem args "start" in
      let e = check_timestamp_lem args "end" in
      (λ h. ground (arith, s, e), λ h. ground (arith, s, e))

  -- The arguments are accepted exactly when no timestamp is malformed, and the two timestamps are both
  -- given or else the time range is left out or reads as a duration.
  pub validate_explicit_timestamps_iff :
      (args : Fields)
      → (validate_explicit_timestamps parse_duration args ≡ none) ↔ (
          (is_malformed (epoch_of args "start") ≡ false)
          × (is_malformed (epoch_of args "end") ≡ false)
          × ((is_given (epoch_of args "start") && is_given (epoch_of args "end") ≡ true)
              ⊎ IsTimeRange parse_duration (get args "timeRange")))
  validate_explicit_timestamps_iff args =
      let (to, from) = validate_explicit_timestamps-checks args in
      (
        λ h.
            let (start, end, range) = to h in
            (start, end, left_or range (check_time_range_sound _)),
        λ (start, end, range). from (start, end, left_or range (check_time_range_complete _)),
      )

  range_reads :
      (v : Any) (s : String)
      → s ≢ ""
      → v ≡ string s
      → IsTimeRange parse_duration v
      → (d : ℤ) × (parse_time_range parse_duration s ≡ some d)
  range_reads _ s text e unset = absurd cc
  range_reads _ s text e (empty t blank) = absurd (text (ground arith))
  range_reads _ s text e (relative t d reads) = (d, ground arith)

  relative_window_lem :
      (now : ℤ) (unit s : String) (d : ℤ)
      → s ≢ ""
      → parse_time_range parse_duration s ≡ some d
      → relative_window parse_duration now unit (time_range_of (string s))
        ≡ some
            (format_int (to_unix unit (now +ℤ wrap64 (pos 0 -ℤ d))), format_int (to_unix unit now))
  unfolding relative_window time_range_of
  relative_window_lem now unit s d text reads = elim (Bool-cases (s == "")) [
    | inl blank ↦ absurd (text ((eq_iff s "").0 blank))
    | inr filled ↦ rw (filled, relative_window, reads)
  ]

  choose_window_lem :
      (now : ℤ) (unit s : String) (w : String × String) (a b : Option ℤ)
      → (a ≡ none) ⊎ (b ≡ none)
      → relative_window parse_duration now unit (time_range_of (string s)) ≡ some w
      → choose_window parse_duration now unit (string s) a b ≡ w
  unfolding choose_window
  choose_window_lem now unit s w none b h e = rw (e, choose_window)
  choose_window_lem now unit s w (some a) none h e = rw (e, choose_window)
  choose_window_lem now unit s w (some a) (some b) h e = absurd (ground arith)

  -- Where the arguments are accepted with a time range that is not empty, and without the pair of
  -- timestamps, the range reads as a duration and the window ends now and starts that duration
  -- before: no default is put in its place.
  pub validated_time_range :
      (now : ℤ) (args : Fields) (unit s : String)
      → validate_explicit_timestamps parse_duration args ≡ none
      → get args "timeRange" ≡ string s
      → s ≢ ""
      → is_given (epoch_of args "start") && is_given (epoch_of args "end") ≡ false
      → (d : ℤ) × (parse_time_range parse_duration s ≡ some d)
        × (get_timestamps_with_defaults parse_duration now args unit ≡ (
          format_int (to_unix unit (now +ℤ wrap64 (pos 0 -ℤ d))),
          format_int (to_unix unit now),
        ))
  unfolding get_timestamps_with_defaults
  validated_time_range now args unit s ok range text pair =
      let (start, end, either) = (validate_explicit_timestamps_iff args).0 ok in
      let (d, reads) =
        range_reads _ s text range (elim either [ inl both ↦ absurd cc | inr reads ↦ reads ]) in
      (
        d,
        reads,
        rw (range) (
            choose_window_lem now unit s _ _ _ (timestamps_missing args pair)
              (relative_window_lem now unit s d text reads)),
      )
