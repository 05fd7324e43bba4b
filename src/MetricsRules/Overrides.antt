-- ===== src/MetricsRules/Overrides.antt =====
-- Which of the caller's choices ApplyDefaults can fail on.
use signoz_mcp_server.Base.{
  String, ◌≡◌, ◌≢◌, inl, inr, false, refl, [], ◌∷◌, sym, ◌∙◌, Option, none, some, arith, ◌==◌, ◌||◌,
  if◌then◌else◌, to_lower, eq_refl, eq_iff,
}
use signoz_mcp_server.MetricsRules.{
  MetricQueryParams, AggregationError, unknown_metric_type, apply_defaults, apply_gauge_defaults,
  apply_counter_defaults, apply_non_monotonic_sum_defaults, apply_histogram_defaults,
  validate_resolved, empty_aggregation, has, validate_aggregation, rejects, validate_reduce_to,
}
use signoz_mcp_server.MetricsRules.Agreement.{finish-error, validate_aggregation_iff}
use signoz_mcp_server.MetricsRules.Resolution.{
  Kind, gauge, counter, non_monotonic_sum, histogram, kind_of, reduce_of, apply_defaults-IsResolved,
}

abbrev error_of : MetricQueryParams → Option AggregationError
error_of p =
    let metric_type = to_lower p.metric_type in
    let error = validate_resolved metric_type p.is_monotonic in
    if metric_type == "gauge"
    then error (apply_gauge_defaults p empty_aggregation)
    else if metric_type == "sum"
    then (if p.is_monotonic
        then error (apply_counter_defaults p empty_aggregation)
        else error (apply_non_monotonic_sum_defaults p empty_aggregation))
    else if metric_type == "histogram" || metric_type == "exponential_histogram"
    then error (apply_histogram_defaults p metric_type empty_aggregation)
    else some (unknown_metric_type p.metric_type)

apply_defaults-error :
    (p : MetricQueryParams) (request_type : String) → (apply_defaults p request_type).1 ≡ error_of p
unfolding apply_defaults
apply_defaults-error p request_type =
    let mt = to_lower p.metric_type in
    ground (
      arith,
      finish-error p mt request_type (apply_gauge_defaults p empty_aggregation),
      finish-error p mt request_type (apply_counter_defaults p empty_aggregation),
      finish-error p mt request_type (apply_non_monotonic_sum_defaults p empty_aggregation),
      finish-error p mt request_type (apply_histogram_defaults p mt empty_aggregation),
    )

-- The error of ApplyDefaults does not depend on reduceTo.
apply_defaults-ignores_reduce :
    (p : MetricQueryParams) (request_type reduction : String)
    → (apply_defaults (record p { reduce_to = reduction }) request_type).1
      ≡ (apply_defaults p request_type).1
unfolding apply_gauge_defaults apply_counter_defaults apply_non_monotonic_sum_defaults
    apply_histogram_defaults
apply_defaults-ignores_reduce p request_type reduction =
    apply_defaults-error (record p { reduce_to = reduction }) request_type
    ∙ same_error
    ∙ sym (apply_defaults-error p request_type)
  where
    same_error : error_of (record p { reduce_to = reduction }) ≡ error_of p
    same_error = refl

given_reduction :
    (k : Kind) (reduction : String) → reduction ≢ "" → reduce_of k reduction ≡ reduction
given_reduction gauge reduction h = ground (arith, eq_iff reduction "")
given_reduction counter reduction h = ground (arith, eq_iff reduction "")
given_reduction non_monotonic_sum reduction h = ground (arith, eq_iff reduction "")
given_reduction histogram reduction h = ground (arith, eq_iff reduction "")

-- Where ApplyDefaults gives no error for a scalar, it gives none either with a reduction that the
-- caller names and that is none of sum, count, avg, min, max, last and median, and it resolves to
-- that reduction; ValidateAggregation refuses the same request.
pub apply_defaults-any_reduce :
    (p : MetricQueryParams) (reduction : String)
    → (apply_defaults p "scalar").1 ≡ none
    → reduction ≢ ""
    → has ("sum" ∷ "count" ∷ "avg" ∷ "min" ∷ "max" ∷ "last" ∷ "median" ∷ []) reduction ≡ false
    → ((apply_defaults (record p { reduce_to = reduction }) "scalar").1 ≡ none)
      × ((apply_defaults (record p { reduce_to = reduction }) "scalar").0.reduce_to ≡ reduction)
      × (validate_aggregation (record p { reduce_to = reduction }) ≢ none)
apply_defaults-any_reduce p reduction resolved named invalid =
    let reduced : MetricQueryParams = record p { reduce_to = reduction } in
    let passes = apply_defaults-ignores_reduce p "scalar" reduction ∙ resolved in
    let (k, known, chosen) = apply_defaults-IsResolved reduced "scalar" passes in
    (
      passes,
      chosen.reduce ∙ given_reduction k reduction named,
      λ accepted. elim ((validate_aggregation_iff reduced "scalar").0 accepted).1 [
        | inl empty ↦ named empty
        | inr valid ↦ absurd (ground arith)
      ],
    )

-- A metric of a known kind with no aggregation chosen by the caller never gives an error.
pub apply_defaults_of_unset :
    (p : MetricQueryParams) (request_type : String) (k : Kind)
    → kind_of (to_lower p.metric_type) p.is_monotonic ≡ some k
    → p.time_aggregation ≡ ""
    → p.space_aggregation ≡ ""
    → (apply_defaults p request_type).1 ≡ none
unfolding validate_aggregation validate_reduce_to rejects
apply_defaults_of_unset p request_type k known no_time no_space =
    sym (apply_defaults-ignores_reduce p request_type "")
    ∙ ((validate_aggregation_iff (record p { reduce_to = "" }) request_type).0 passes).0
  where
    passes : validate_aggregation (record p { reduce_to = "" }) ≡ none
    passes = ground (arith, eq_refl "", eq_iff p.time_aggregation "", eq_iff p.space_aggregation "")
