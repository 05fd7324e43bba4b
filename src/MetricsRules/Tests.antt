-- ===== src/MetricsRules/Tests.antt =====
-- Runs of the aggregation rules, and the theorems at concrete requests.
use signoz_mcp_server.Base.{
  String, ◌≡◌, ◌≢◌, refl, false, [], ◌∷◌, ◌↔◌, ◌⊎◌, true, none, some, to_lower,
}
use text.Mathlib.TextLemmas.{cons-ne-nil}
use signoz_mcp_server.MetricsRules.{
  MetricQueryParams, apply_defaults, validate_aggregation, has, valid_reduce_to, invalid_time_agg,
  invalid_reduce_to, counter_time_aggs, apply_counter_defaults, finish, validate_resolved,
  check_time, check_space, apply_reduce_to_defaults, set_reduce_to, rejects, validate_reduce_to,
}
use signoz_mcp_server.MetricsRules.Agreement.{validate_aggregation_iff}
use signoz_mcp_server.MetricsRules.Resolution.{Kind, kind_of, IsResolved, apply_defaults-IsResolved}
use signoz_mcp_server.MetricsRules.Overrides.{apply_defaults-any_reduce}

abbrev requests_total : MetricQueryParams
requests_total = record {
  metric_type = "Sum";
  is_monotonic = true;
  temporality = "cumulative";
  time_aggregation = "";
  space_aggregation = "max";
  reduce_to = "";
}

abbrev averaged : MetricQueryParams
averaged = record requests_total { time_aggregation = "avg" }

resolve_counter : (apply_defaults requests_total "scalar").1 ≡ none
unfolding apply_defaults to_lower finish apply_counter_defaults validate_resolved check_time
    check_space has
resolve_counter = refl

resolve_counter_values :
    ◌≡◌ {A = String × String × String}
      (
        (apply_defaults requests_total "scalar").0.time_aggregation,
        (apply_defaults requests_total "scalar").0.space_aggregation,
        (apply_defaults requests_total "scalar").0.reduce_to,
      )
      ("rate", "max", "sum")
unfolding apply_defaults to_lower finish apply_counter_defaults validate_resolved check_time
    check_space has apply_reduce_to_defaults set_reduce_to
resolve_counter_values = refl

reject_average :
    (apply_defaults averaged "time_series").1
    ≡ some (invalid_time_agg "avg" "monotonic counter" counter_time_aggs)
unfolding apply_defaults to_lower finish apply_counter_defaults validate_resolved check_time
    check_space has
reject_average = refl

reject_reduction :
    validate_aggregation (record requests_total { reduce_to = "p99" })
    ≡ some (invalid_reduce_to "p99" valid_reduce_to)
unfolding validate_aggregation validate_reduce_to rejects to_lower has
reject_reduction = refl

validate_aggregation_example : (validate_aggregation averaged ≡ none) ↔ (
    ((apply_defaults averaged "scalar").1 ≡ none)
    × ((averaged.reduce_to ≡ "") ⊎ (has valid_reduce_to averaged.reduce_to ≡ true)))
validate_aggregation_example = validate_aggregation_iff averaged "scalar"

apply_defaults-IsResolved_example :
    (k : Kind) × (kind_of (to_lower requests_total.metric_type) requests_total.is_monotonic
      ≡ some k)
    × IsResolved k requests_total "scalar" (apply_defaults requests_total "scalar").0
apply_defaults-IsResolved_example =
    apply_defaults-IsResolved requests_total "scalar" resolve_counter

p99_unknown : has ("sum" ∷ "count" ∷ "avg" ∷ "min" ∷ "max" ∷ "last" ∷ "median" ∷ []) "p99" ≡ false
unfolding has
p99_unknown = refl

apply_defaults-any_reduce_example :
    ((apply_defaults (record requests_total { reduce_to = "p99" }) "scalar").1 ≡ none)
    × ((apply_defaults (record requests_total { reduce_to = "p99" }) "scalar").0.reduce_to ≡ "p99")
    × (validate_aggregation (record requests_total { reduce_to = "p99" }) ≢ none)
apply_defaults-any_reduce_example =
    apply_defaults-any_reduce requests_total "p99" resolve_counter (cons-ne-nil "p" "99")
      p99_unknown

abbrev plain : MetricQueryParams
plain = record requests_total { space_aggregation = "" }
