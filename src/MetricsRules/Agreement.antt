-- ===== src/MetricsRules/Agreement.antt =====
-- The requests that ValidateAggregation and ApplyDefaults accept.
use signoz_mcp_server.Base.{
  String, ◌≡◌, refl, ◌↔◌, ◌⊎◌, inl, inr, true, false, Bool-cases, none, arith, ◌==◌, eq_iff,
  to_lower, not, ◌||◌, if◌then◌else◌,
}
use signoz_mcp_server.MetricsRules.{
  MetricQueryParams, ResolvedAggregation, has, valid_reduce_to, gauge_time_aggs, gauge_space_aggs,
  counter_time_aggs, counter_space_aggs, non_monotonic_sum_time_aggs, non_monotonic_sum_space_aggs,
  histogram_space_aggs, apply_defaults, validate_aggregation, rejects, validate_reduce_to, finish,
  validate_resolved, check_time, check_space, apply_gauge_defaults, apply_counter_defaults,
  apply_non_monotonic_sum_defaults, apply_histogram_defaults, empty_aggregation,
}

-- The defaults are members of the sets that they are checked against.
default_members :
    (has gauge_time_aggs "avg" ≡ true)
    × (has gauge_space_aggs "sum" ≡ true)
    × (has counter_time_aggs "rate" ≡ true)
    × (has histogram_space_aggs "p99" ≡ true)
    × (has non_monotonic_sum_time_aggs "avg" ≡ true)
unfolding has
default_members = (refl, refl, refl, refl, refl)

-- An error of ApplyDefaults is one of the validation, or an unknown metric type.
pub finish-error :
    (p : MetricQueryParams) (metric_type request_type : String) (r : ResolvedAggregation)
    → (finish p metric_type request_type r).1 ≡ validate_resolved metric_type p.is_monotonic r
unfolding finish
finish-error p metric_type request_type r = ground arith

validate_reduce_to_iff :
    (p : MetricQueryParams)
    → (validate_reduce_to p ≡ none)
      ↔ ((p.reduce_to ≡ "") ⊎ (has valid_reduce_to p.reduce_to ≡ true))
unfolding validate_reduce_to rejects
validate_reduce_to_iff p =
    (λ h. ground (arith, eq_iff p.reduce_to ""), λ h. ground (arith, eq_iff p.reduce_to ""))

-- The values that are resolved pass the validation exactly when the given ones are not rejected.
gauge_checked :
    (p : MetricQueryParams) (metric_type : String)
    → (metric_type == "gauge") ≡ true
    → (validate_resolved metric_type p.is_monotonic (apply_gauge_defaults p empty_aggregation)
        ≡ none)
      ↔ ((rejects p.time_aggregation gauge_time_aggs ≡ false)
          × (rejects p.space_aggregation gauge_space_aggs ≡ false))
unfolding validate_resolved apply_gauge_defaults check_time check_space rejects
gauge_checked p metric_type g =
    (λ h. ground (arith, default_members), λ h. ground (arith, default_members))

counter_checked :
    (p : MetricQueryParams) (metric_type : String)
    → (metric_type == "gauge") ≡ false
    → (metric_type == "sum") ≡ true
    → (validate_resolved metric_type true (apply_counter_defaults p empty_aggregation) ≡ none) ↔ (
        (rejects p.time_aggregation counter_time_aggs ≡ false)
        × (rejects p.space_aggregation counter_space_aggs ≡ false))
unfolding validate_resolved apply_counter_defaults check_time check_space rejects
counter_checked p metric_type g s =
    (λ h. ground (arith, default_members), λ h. ground (arith, default_members))

non_monotonic_sum_checked :
    (p : MetricQueryParams) (metric_type : String)
    → (metric_type == "gauge") ≡ false
    → (metric_type == "sum") ≡ true
    → (validate_resolved metric_type false (apply_non_monotonic_sum_defaults p empty_aggregation)
        ≡ none)
      ↔ ((rejects p.time_aggregation non_monotonic_sum_time_aggs ≡ false)
          × (rejects p.space_aggregation non_monotonic_sum_space_aggs ≡ false))
unfolding validate_resolved apply_non_monotonic_sum_defaults check_time check_space rejects
non_monotonic_sum_checked p metric_type g s =
    (λ h. ground (arith, default_members), λ h. ground (arith, default_members))

histogram_space :
    (p : MetricQueryParams) (metric_type : String) (r : ResolvedAggregation)
    → (apply_histogram_defaults p metric_type r).space_aggregation
      ≡ (if not (p.space_aggregation == "") then p.space_aggregation else "p99")
unfolding apply_histogram_defaults
histogram_space p metric_type r = elim (Bool-cases (p.space_aggregation == "")) [
  | inl empty ↦ rw empty
  | inr given ↦ rw given
]

histogram_checked :
    (p : MetricQueryParams) (metric_type : String)
    → (metric_type == "gauge") ≡ false
    → (metric_type == "sum") ≡ false
    → (metric_type == "histogram" || metric_type == "exponential_histogram") ≡ true
    → (validate_resolved metric_type p.is_monotonic
          (apply_histogram_defaults p metric_type empty_aggregation)
        ≡ none)
      ↔ (rejects p.space_aggregation histogram_space_aggs ≡ false)
unfolding validate_resolved check_space rejects
histogram_checked p metric_type g s h =
    let space = histogram_space p metric_type empty_aggregation in
    (λ e. ground (arith, default_members, space), λ e. ground (arith, default_members, space))

-- A request passes ValidateAggregation exactly when ApplyDefaults resolves it without an error and
-- its reduceTo is empty or valid, whatever the request type is.
pub validate_aggregation_iff :
    (p : MetricQueryParams) (request_type : String)
    → (validate_aggregation p ≡ none) ↔ (
        ((apply_defaults p request_type).1 ≡ none)
        × ((p.reduce_to ≡ "") ⊎ (has valid_reduce_to p.reduce_to ≡ true)))
unfolding apply_defaults validate_aggregation
validate_aggregation_iff p request_type =
    let mt = to_lower p.metric_type in
    elim (Bool-cases (mt == "gauge")) [
      | inl gauge ↦
          let error = finish-error p mt request_type (apply_gauge_defaults p empty_aggregation) in
          let checked = gauge_checked p mt gauge in
          (
            λ h. ground (arith, error, checked, validate_reduce_to_iff p),
            λ h. ground (arith, error, checked, validate_reduce_to_iff p),
          )
      | inr not_gauge ↦ elim (Bool-cases (mt == "sum")) [
        | inl sum ↦ elim (Bool-cases p.is_monotonic) [
          | inl monotonic ↦
              let error =
                finish-error p mt request_type (apply_counter_defaults p empty_aggregation) in
              let checked = counter_checked p mt not_gauge sum in
              (
                λ h. ground (arith, error, checked, validate_reduce_to_iff p),
                λ h. ground (arith, error, checked, validate_reduce_to_iff p),
              )
          | inr not_monotonic ↦
              let error =
                finish-error p mt request_type
                  (apply_non_monotonic_sum_defaults p empty_aggregation) in
              let checked = non_monotonic_sum_checked p mt not_gauge sum in
              (
                λ h. ground (arith, error, checked, validate_reduce_to_iff p),
                λ h. ground (arith, error, checked, validate_reduce_to_iff p),
              )
        ]
        | inr not_sum ↦
            let error =
              finish-error p mt request_type (apply_histogram_defaults p mt empty_aggregation) in
            let checked = histogram_checked p mt not_gauge not_sum in
            (
              λ h. ground (arith, error, checked, validate_reduce_to_iff p),
              λ h. ground (arith, error, checked, validate_reduce_to_iff p),
            )
      ]
    ]
