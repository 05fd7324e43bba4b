-- ===== src/MetricsRules/Resolution.antt =====
-- What ApplyDefaults resolves a request to: the choices of the caller, and else the defaults of
-- the kind of the metric.
use signoz_mcp_server.Base.{
  String, ◌≡◌, refl, inl, inr, true, false, Bool, Bool-cases, Option-cases, ◌∙◌, Option, none, some,
  arith, ◌==◌, ◌||◌, not, if◌then◌else◌, to_lower, length, ◌+◌, [], ◌∷◌, length-append,
}
use signoz_mcp_server.MetricsRules.{
  MetricQueryParams, ResolvedAggregation, apply_defaults, finish, apply_gauge_defaults,
  apply_counter_defaults, apply_non_monotonic_sum_defaults, apply_histogram_defaults,
  apply_reduce_to_defaults, set_reduce_to, validate_resolved, empty_aggregation,
}

pub data Kind : Type 0 where
  gauge counter non_monotonic_sum histogram : Kind

abbrev pub kind_of : (metric_type : String) (is_monotonic : Bool) → Option Kind
kind_of metric_type is_monotonic =
    if metric_type == "gauge"
    then some gauge
    else if metric_type == "sum"
    then some (if is_monotonic then counter else non_monotonic_sum)
    else if metric_type == "histogram" || metric_type == "exponential_histogram"
    then some histogram
    else none

abbrev pub given_or : String → String → String
given_or given default = if not (given == "") then given else default

-- The time aggregation of a histogram is automatic, whatever the caller gives.
abbrev pub time_of : Kind → String → String
time_of gauge given = given_or given "avg"
time_of counter given = given_or given "rate"
time_of non_monotonic_sum given = given_or given "avg"
time_of histogram given = ""

abbrev pub space_of : Kind → String → String
space_of histogram given = given_or given "p99"
space_of _ given = given_or given "sum"

abbrev pub reduce_of : Kind → String → String
reduce_of counter given = given_or given "sum"
reduce_of _ given = given_or given "avg"

-- The resolved values for a kind, with a decision for each of them.
pub record IsResolved (k : Kind) (p : MetricQueryParams) (request_type : String)
    (r : ResolvedAggregation) : Type 0 where
  pub time : r.time_aggregation ≡ time_of k p.time_aggregation
  pub space : r.space_aggregation ≡ space_of k p.space_aggregation
  pub reduce : r.reduce_to ≡ (if request_type == "scalar" then reduce_of k p.reduce_to else "")
  pub decided : length r.decisions ≡ (if request_type == "scalar" then 3 else 2)

-- The values before the reduction, which has not been chosen.
record IsChosen (k : Kind) (p : MetricQueryParams) (r : ResolvedAggregation) : Type 0 where
  time : r.time_aggregation ≡ time_of k p.time_aggregation
  space : r.space_aggregation ≡ space_of k p.space_aggregation
  reduce : r.reduce_to ≡ ""
  decided : length r.decisions ≡ 2

gauge-IsChosen :
    (p : MetricQueryParams) → IsChosen gauge p (apply_gauge_defaults p empty_aggregation)
unfolding apply_gauge_defaults
gauge-IsChosen p = ground arith

counter-IsChosen :
    (p : MetricQueryParams) → IsChosen counter p (apply_counter_defaults p empty_aggregation)
unfolding apply_counter_defaults
counter-IsChosen p = ground arith

non_monotonic_sum-IsChosen :
    (p : MetricQueryParams)
    → IsChosen non_monotonic_sum p (apply_non_monotonic_sum_defaults p empty_aggregation)
unfolding apply_non_monotonic_sum_defaults
non_monotonic_sum-IsChosen p = ground arith

histogram-IsChosen :
    (p : MetricQueryParams) (metric_type : String)
    → IsChosen histogram p (apply_histogram_defaults p metric_type empty_aggregation)
unfolding apply_histogram_defaults
histogram-IsChosen p metric_type = ground arith

record IsReduced (k : Kind) (given : String) (r s : ResolvedAggregation) : Type 0 where
  time : s.time_aggregation ≡ r.time_aggregation
  space : s.space_aggregation ≡ r.space_aggregation
  reduce : s.reduce_to ≡ reduce_of k given
  decided : length s.decisions ≡ length r.decisions + 1

set_reduce_to-IsReduced :
    (k : Kind) (given : String) (r : ResolvedAggregation) (value decision : String)
    → value ≡ reduce_of k given
    → IsReduced k given r (set_reduce_to r value decision)
unfolding set_reduce_to
set_reduce_to-IsReduced k given r value decision h = record {
  time = refl;
  space = refl;
  reduce = h;
  decided = length-append r.decisions (decision ∷ []);
}

module _ {k : Kind} {given : String} {r : ResolvedAggregation} where
  IsReduced-if :
      (b : Bool) {s t : ResolvedAggregation}
      → (b ≡ true → IsReduced k given r s)
      → (b ≡ false → IsReduced k given r t)
      → IsReduced k given r (if b then s else t)
  IsReduced-if true hs ht = hs refl
  IsReduced-if false hs ht = ht refl

apply_reduce_to-IsReduced :
    (k : Kind) (metric_type : String) (is_monotonic : Bool) (given : String)
    (r : ResolvedAggregation)
    → kind_of metric_type is_monotonic ≡ some k
    → IsReduced k given r (apply_reduce_to_defaults metric_type is_monotonic given r)
unfolding apply_reduce_to_defaults
apply_reduce_to-IsReduced k metric_type is_monotonic given r known =
    IsReduced-if (not (given == "")) (λ g. set_reduce_to-IsReduced k given r given _ (ground arith))
      λ g.
        IsReduced-if (metric_type == "gauge")
          (λ c. set_reduce_to-IsReduced k given r "avg" _ (ground arith))
          λ c.
            IsReduced-if (metric_type == "sum")
              (λ d.
                IsReduced-if is_monotonic
                  (λ m. set_reduce_to-IsReduced k given r "sum" _ (ground arith))
                  (λ m. set_reduce_to-IsReduced k given r "avg" _ (ground arith)))
              (λ d.
                IsReduced-if (metric_type == "histogram" || metric_type == "exponential_histogram")
                  (λ h. set_reduce_to-IsReduced k given r "avg" _ (ground arith))
                  (λ h. absurd (ground arith)))

finish-IsResolved :
    (k : Kind) (p : MetricQueryParams) (metric_type request_type : String) (r : ResolvedAggregation)
    → kind_of metric_type p.is_monotonic ≡ some k
    → IsChosen k p r
    → (finish p metric_type request_type r).1 ≡ none
    → IsResolved k p request_type (finish p metric_type request_type r).0
unfolding finish
finish-IsResolved k p metric_type request_type r known chosen e =
    let reduced = apply_reduce_to-IsReduced k metric_type p.is_monotonic p.reduce_to r known in
    elim (Option-cases (validate_resolved metric_type p.is_monotonic r)) [
      | inr (error, found) ↦ absurd (ground arith)
      | inl passed ↦ elim (Bool-cases (request_type == "scalar")) [
        | inl scalar ↦
            rw (passed, finish, scalar)
              (record {
                time = reduced.time ∙ chosen.time;
                space = reduced.space ∙ chosen.space;
                reduce = rw scalar reduced.reduce;
                decided = rw scalar (omega (arith, reduced.decided, chosen.decided));
              })
        | inr other ↦
            rw (passed, finish, other)
              (record {
                time = chosen.time;
                space = chosen.space;
                reduce = rw other chosen.reduce;
                decided = rw other chosen.decided;
              })
      ]
    ]

-- Where ApplyDefaults gives no error, the metric has one of the four kinds, each value is the
-- caller's or else the default of the kind (a histogram's time aggregation is empty), only a scalar
-- has a reduction, and there is one decision for each value.
pub apply_defaults-IsResolved :
    (p : MetricQueryParams) (request_type : String)
    → (apply_defaults p request_type).1 ≡ none
    → (k : Kind) × (kind_of (to_lower p.metric_type) p.is_monotonic ≡ some k)
      × IsResolved k p request_type (apply_defaults p request_type).0
unfolding apply_defaults
apply_defaults-IsResolved p request_type e =
    let mt = to_lower p.metric_type in
    elim (Bool-cases (mt == "gauge")) [
      | inl is_gauge ↦
          let known : kind_of mt p.is_monotonic ≡ some gauge = rw is_gauge in
          (
            gauge,
            known,
            rw is_gauge (
                finish-IsResolved gauge p mt request_type _ known (gauge-IsChosen p)
                  (rw is_gauge at e)),
          )
      | inr not_gauge ↦ elim (Bool-cases (mt == "sum")) [
        | inl is_sum ↦ elim (Bool-cases p.is_monotonic) [
          | inl mono ↦
              let known : kind_of mt p.is_monotonic ≡ some counter =
                simp (not_gauge, is_sum, mono) in
              (
                counter,
                known,
                simp (not_gauge, is_sum, mono)
                    (finish-IsResolved counter p mt request_type _ known (counter-IsChosen p)
                      (simp (not_gauge, is_sum, mono) at e)),
              )
          | inr not_mono ↦
              let known : kind_of mt p.is_monotonic ≡ some non_monotonic_sum =
                simp (not_gauge, is_sum, not_mono) in
              (
                non_monotonic_sum,
                known,
                simp (not_gauge, is_sum, not_mono)
                    (finish-IsResolved non_monotonic_sum p mt request_type _ known
                      (non_monotonic_sum-IsChosen p) (simp (not_gauge, is_sum, not_mono) at e)),
              )
        ]
        | inr not_sum ↦ elim (Bool-cases (mt == "histogram" || mt == "exponential_histogram")) [
          | inl hist ↦
              let known : kind_of mt p.is_monotonic ≡ some histogram =
                rw (not_gauge, not_sum, hist) in
              (
                histogram,
                known,
                rw (not_gauge, not_sum, hist)
                    (finish-IsResolved histogram p mt request_type _ known (histogram-IsChosen p mt)
                      (rw (not_gauge, not_sum, hist) at e)),
              )
          | inr unknown ↦ absurd (ground arith)
        ]
      ]
    ]
