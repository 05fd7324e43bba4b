-- ===== src/TimeUtil/Days.antt =====
-- The days of a time range.
use signoz_mcp_server.Base.{
  ℕ, ◌*◌, ◌≤◌, String, ◌≡◌, refl, ◌∙◌, ap, false, Option, none, some, arith, ◌==◌, ◌<>◌,
}
use text.Mathlib.TextLemmas.{cons-append}
use signoz_mcp_server.Base.Int.{ℤ, pos, ◌<ℤ◌}
use signoz_mcp_server.Base.Word.{wrap64}
use signoz_mcp_server.Base.Decimal.{parse_int, parse_int-nonempty}
use signoz_mcp_server.TimeUtil.{
  strip_days, strip_from, days_text, days_duration, parse_days, parse_time_range,
}
use signoz_mcp_server.TimeUtil.Units.{mul_pos, wrap64_pos}

days_mul : (n : ℕ) → n ≤ 106751 → days_duration (pos n) ≡ pos (n * 86400000000000)
unfolding days_duration
days_mul n h =
    rw (mul_pos n 24, wrap64_pos (n * 24) (omega arith), mul_pos (n * 24) 3600000000000)
      (wrap64_pos (n * 24 * 3600000000000) (omega arith) ∙ ap pos (omega arith))

days_wrap : (n : ℕ) → 106752 ≤ n → n ≤ 213503 → days_duration (pos n) <ℤ pos 0
unfolding days_duration
days_wrap n low high =
    rw (mul_pos n 24, wrap64_pos (n * 24) (omega arith), mul_pos (n * 24) 3600000000000)
      (unfold wrap64 in ground arith)

strip_days-append : (days : String) → strip_days (days <> "d") ≡ some days
unfolding strip_days
strip_days-append String.[] = refl
strip_days-append (String.◌∷◌ c String.[]) = rw cons-append
strip_days-append (String.◌∷◌ c (String.◌∷◌ d s)) =
    rw (cons-append, cons-append)
      (ap (strip_from c) (rw cons-append at (strip_days-append (String.◌∷◌ d s))))

days_text-append : (days : String) → (days == "") ≡ false → days_text (days <> "d") ≡ some days
unfolding days_text
days_text-append days h = rw (strip_days-append days, days_text, h)

-- Where time.ParseDuration does not read a text, and the text is a number of days with a final "d",
-- the time range is that many days exactly, up to 106751 days.
pub parse_time_range_days :
    (parse_duration : String → Option ℤ) (days : String) (n : ℕ)
    → parse_duration (days <> "d") ≡ none
    → parse_int days ≡ some (pos n)
    → n ≤ 106751
    → parse_time_range parse_duration (days <> "d") ≡ some (pos (n * 86400000000000))
unfolding parse_time_range parse_days
parse_time_range_days parse_duration days n not_std number few =
    rw
      (
        not_std,
        parse_time_range,
        days_text-append days (parse_int-nonempty days (pos n) number),
        parse_days,
        number,
      )
      (ap some (days_mul n few))

-- Where time.ParseDuration does not read a text, and the text is a number of days from 106752 to
-- 213503 with a final "d", the product wraps: the time range is accepted, and it is negative.
pub parse_time_range_wraps :
    (parse_duration : String → Option ℤ) (days : String) (n : ℕ)
    → parse_duration (days <> "d") ≡ none
    → parse_int days ≡ some (pos n)
    → 106752 ≤ n
    → n ≤ 213503
    → (d : ℤ) × (parse_time_range parse_duration (days <> "d") ≡ some d) × (d <ℤ pos 0)
unfolding parse_time_range parse_days
parse_time_range_wraps parse_duration days n not_std number low high = (
  days_duration (pos n),
  rw (
    not_std,
    parse_time_range,
    days_text-append days (parse_int-nonempty days (pos n) number),
    parse_days,
    number,
  ),
  days_wrap n low high,
)
