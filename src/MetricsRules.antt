-- ===== src/MetricsRules.antt =====
-- pkg/metricsrules/rules.go. A set is the list of its members; an error is a constructor with what
-- its message names. Where a message lists a set, the source lists it in the order of a map.
pub mod Agreement
pub mod Resolution
pub mod Overrides
mod Tests
use signoz_mcp_server.Base.{
  String, Bool, true, false, not, ◌&&◌, ◌||◌, Option, none, some, List, [], ◌∷◌, ◌++◌, ◌==◌, ◌<>◌,
  if◌then◌else◌, to_lower,
}

pub record MetricQueryParams : Type 0 where
  pub metric_type : String
  pub is_monotonic : Bool
  pub temporality : String
  pub time_aggregation : String
  pub space_aggregation : String
  pub reduce_to : String

-- timeAggregation %q ignored for %s
pub data Warning : Type 0 where
  time_aggregation_ignored : (value metric_type : String) → Warning

pub record ResolvedAggregation : Type 0 where
  pub time_aggregation : String
  pub space_aggregation : String
  pub reduce_to : String
  pub decisions : List String
  pub warnings : List Warning

pub data AggregationError : Type 0 where
  unknown_metric_type : (metric_type : String) → AggregationError
  invalid_time_agg invalid_space_agg :
      (value metric_type : String) (valid : List String) → AggregationError
  invalid_counter_time_agg : (value : String) (valid : List String) → AggregationError
  invalid_histogram_space_agg :
      (value metric_type : String) (valid : List String) → AggregationError
  invalid_reduce_to : (value : String) (valid : List String) → AggregationError

abbrev pub gauge_time_aggs : List String
gauge_time_aggs = "latest" ∷ "sum" ∷ "avg" ∷ "min" ∷ "max" ∷ "count" ∷ "count_distinct" ∷ []

abbrev pub gauge_space_aggs : List String
gauge_space_aggs = "sum" ∷ "avg" ∷ "min" ∷ "max" ∷ "count" ∷ []

abbrev pub counter_time_aggs : List String
counter_time_aggs = "rate" ∷ "increase" ∷ []

abbrev pub counter_space_aggs : List String
counter_space_aggs = "sum" ∷ "avg" ∷ "min" ∷ "max" ∷ "count" ∷ []

abbrev pub non_monotonic_sum_time_aggs : List String
non_monotonic_sum_time_aggs = "avg" ∷ "sum" ∷ "min" ∷ "max" ∷ "count" ∷ "count_distinct" ∷ []

abbrev pub non_monotonic_sum_space_aggs : List String
non_monotonic_sum_space_aggs = "sum" ∷ "avg" ∷ "min" ∷ "max" ∷ "count" ∷ []

abbrev pub histogram_space_aggs : List String
histogram_space_aggs = "p50" ∷ "p75" ∷ "p90" ∷ "p95" ∷ "p99" ∷ []

abbrev pub valid_reduce_to : List String
valid_reduce_to = "sum" ∷ "count" ∷ "avg" ∷ "min" ∷ "max" ∷ "last" ∷ "median" ∷ []

pub has : List String → String → Bool
has [] v = false
has (x ∷ xs) v = x == v || has xs v

set_time : ResolvedAggregation → String → String → ResolvedAggregation
set_time r value decision = record r {
  time_aggregation = value;
  decisions = r.decisions ++ decision ∷ [];
}

set_space : ResolvedAggregation → String → String → ResolvedAggregation
set_space r value decision = record r {
  space_aggregation = value;
  decisions = r.decisions ++ decision ∷ [];
}

set_reduce_to : ResolvedAggregation → String → String → ResolvedAggregation
set_reduce_to r value decision = record r {
  reduce_to = value;
  decisions = r.decisions ++ decision ∷ [];
}

-- The value that the caller gave, or else the default of the metric type.
choose_time :
    MetricQueryParams → (value decision : String) → ResolvedAggregation → ResolvedAggregation
unfolding set_time
choose_time p value decision r =
    if not (p.time_aggregation == "")
    then set_time r p.time_aggregation
        ("timeAggregation: " <> p.time_aggregation <> " (caller-provided)")
    else set_time r value decision

choose_space :
    MetricQueryParams → (value decision : String) → ResolvedAggregation → ResolvedAggregation
unfolding set_space
choose_space p value decision r =
    if not (p.space_aggregation == "")
    then set_space r p.space_aggregation
        ("spaceAggregation: " <> p.space_aggregation <> " (caller-provided)")
    else set_space r value decision

pub apply_gauge_defaults : MetricQueryParams → ResolvedAggregation → ResolvedAggregation
unfolding choose_time choose_space
apply_gauge_defaults p r =
    choose_space p "sum" "spaceAggregation: sum (default for gauge — sums across series/dimensions)"
      (choose_time p "avg"
        "timeAggregation: avg (default for gauge — averages samples within each time bucket)" r)

pub apply_counter_defaults : MetricQueryParams → ResolvedAggregation → ResolvedAggregation
unfolding choose_time choose_space
apply_counter_defaults p r =
    choose_space p "sum" "spaceAggregation: sum (default for counter — sums rates across series)" (
      choose_time p "rate"
        "timeAggregation: rate (default for monotonic counter — per-second rate of change)" r)

pub apply_non_monotonic_sum_defaults : MetricQueryParams → ResolvedAggregation → ResolvedAggregation
unfolding choose_time choose_space
apply_non_monotonic_sum_defaults p r =
    choose_space p "sum" "spaceAggregation: sum (default for non-monotonic sum)"
      (choose_time p "avg" "timeAggregation: avg (default for non-monotonic sum)" r)

pub apply_histogram_defaults :
    MetricQueryParams → String → ResolvedAggregation → ResolvedAggregation
unfolding set_time choose_space
apply_histogram_defaults p metric_type r =
    let warned =
      if not (p.time_aggregation == "")
      then record r {
        warnings = r.warnings ++ time_aggregation_ignored p.time_aggregation metric_type ∷ [];
      }
      else r in
    choose_space p "p99"
      ("spaceAggregation: p99 (default for " <> metric_type <> " — 99th percentile)")
      (set_time warned "" ("timeAggregation: (empty) — automatic for " <> metric_type))

apply_reduce_to_defaults :
    (metric_type : String) (is_monotonic : Bool) (user_reduce_to : String)
    → ResolvedAggregation
    → ResolvedAggregation
apply_reduce_to_defaults metric_type is_monotonic user_reduce_to r =
    if not (user_reduce_to == "")
    then set_reduce_to r user_reduce_to ("reduceTo: " <> user_reduce_to <> " (caller-provided)")
    else if metric_type == "gauge"
    then set_reduce_to r "avg" "reduceTo: avg (default for gauge scalar)"
    else if metric_type == "sum"
    then (if is_monotonic
        then set_reduce_to r "sum" "reduceTo: sum (default for counter scalar)"
        else set_reduce_to r "avg" "reduceTo: avg (default for non-monotonic sum scalar)")
    else if metric_type == "histogram" || metric_type == "exponential_histogram"
    then set_reduce_to r "avg" "reduceTo: avg (default for histogram scalar)"
    else r

-- What a metric type allows, with the error of a value that it does not allow.
check_time :
    (time : String) (valid : List String)
    → AggregationError
    → Option AggregationError
    → Option AggregationError
check_time time valid error next =
    if not (time == "") && not (has valid time) then some error else next

check_space : (space : String) (valid : List String) → AggregationError → Option AggregationError
check_space space valid error = if not (has valid space) then some error else none

pub validate_resolved :
    (metric_type : String) (is_monotonic : Bool) → ResolvedAggregation → Option AggregationError
validate_resolved metric_type is_monotonic r =
    let time = r.time_aggregation in
    let space = r.space_aggregation in
    if metric_type == "gauge"
    then check_time time gauge_time_aggs (invalid_time_agg time metric_type gauge_time_aggs)
        (check_space space gauge_space_aggs (invalid_space_agg space metric_type gauge_space_aggs))
    else if metric_type == "sum"
    then (if is_monotonic
        then check_time time counter_time_aggs
            (invalid_time_agg time "monotonic counter" counter_time_aggs)
            (check_space space counter_space_aggs
              (invalid_space_agg space "monotonic counter" counter_space_aggs))
        else check_time time non_monotonic_sum_time_aggs
            (invalid_time_agg time "non-monotonic sum" non_monotonic_sum_time_aggs)
            (check_space space non_monotonic_sum_space_aggs
              (invalid_space_agg space "non-monotonic sum" non_monotonic_sum_space_aggs)))
    else if metric_type == "histogram" || metric_type == "exponential_histogram"
    then check_space space histogram_space_aggs
        (invalid_histogram_space_agg space metric_type histogram_space_aggs)
    else none

abbrev empty_aggregation : ResolvedAggregation
empty_aggregation = record {
  time_aggregation = "";
  space_aggregation = "";
  reduce_to = "";
  decisions = [];
  warnings = [];
}

-- Validation of what was resolved, and the reduction of a scalar.
pub finish :
    MetricQueryParams
    → (metric_type request_type : String) → ResolvedAggregation
    → ResolvedAggregation × Option AggregationError
finish p metric_type request_type r = elim (validate_resolved metric_type p.is_monotonic r) [
  | some error ↦ (r, some error)
  | none ↦
      if request_type == "scalar"
      then (apply_reduce_to_defaults metric_type p.is_monotonic p.reduce_to r, none)
      else (r, none)
]

-- The resolved values come back beside an error too.
pub apply_defaults : MetricQueryParams → String → ResolvedAggregation × Option AggregationError
apply_defaults p request_type =
    let metric_type = to_lower p.metric_type in
    if metric_type == "gauge"
    then finish p metric_type request_type (apply_gauge_defaults p empty_aggregation)
    else if metric_type == "sum"
    then (if p.is_monotonic
        then finish p metric_type request_type (apply_counter_defaults p empty_aggregation)
        else finish p metric_type request_type
            (apply_non_monotonic_sum_defaults p empty_aggregation))
    else if metric_type == "histogram" || metric_type == "exponential_histogram"
    then finish p metric_type request_type
        (apply_histogram_defaults p metric_type empty_aggregation)
    else (empty_aggregation, some (unknown_metric_type p.metric_type))

-- An optional value that a set must hold.
rejects : String → List String → Bool
rejects value valid = not (value == "") && not (has valid value)

validate_reduce_to : MetricQueryParams → Option AggregationError
unfolding rejects
validate_reduce_to p =
    if rejects p.reduce_to valid_reduce_to
    then some (invalid_reduce_to p.reduce_to valid_reduce_to)
    else none

pub validate_aggregation : MetricQueryParams → Option AggregationError
validate_aggregation p =
    let metric_type = to_lower p.metric_type in
    let time = p.time_aggregation in
    let space = p.space_aggregation in
    if metric_type == "gauge"
    then (if rejects time gauge_time_aggs
        then some (invalid_time_agg time metric_type gauge_time_aggs)
        else if rejects space gauge_space_aggs
        then some (invalid_space_agg space metric_type gauge_space_aggs)
        else validate_reduce_to p)
    else if metric_type == "sum"
    then (if p.is_monotonic
        then (if rejects time counter_time_aggs
            then some (invalid_counter_time_agg time counter_time_aggs)
            else if rejects space counter_space_aggs
            then some (invalid_space_agg space "monotonic counter" counter_space_aggs)
            else validate_reduce_to p)
        else (if rejects time non_monotonic_sum_time_aggs
            then some (invalid_time_agg time "non-monotonic sum" non_monotonic_sum_time_aggs)
            else if rejects space non_monotonic_sum_space_aggs
            then some (invalid_space_agg space "non-monotonic sum" non_monotonic_sum_space_aggs)
            else validate_reduce_to p))
    else if metric_type == "histogram" || metric_type == "exponential_histogram"
    then (if rejects space histogram_space_aggs
        then some (invalid_histogram_space_agg space metric_type histogram_space_aggs)
        else validate_reduce_to p)
    else some (unknown_metric_type p.metric_type)
