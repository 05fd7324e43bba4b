-- ===== src/QueryBuilder/Bounds.antt =====
-- pkg/types/querybuilder.go: the limits and orders of the queries of a payload.
pub mod Bounded
use signoz_mcp_server.Base.{
  ℕ, zero, suc, String, Bool, true, false, not, ◌&&◌, ◌||◌, Option, none, some, List, [], ◌∷◌, ◌++◌,
  ◌==◌, if◌then◌else◌, trim_space, to_lower,
}
use signoz_mcp_server.Base.Int.{ℤ, pos, ltb_ℤ, eqb_ℤ}
use signoz_mcp_server.QueryBuilder.{
  default_raw_query_limit, default_aggregate_query_limit, max_query_limit,
  default_formula_input_query_limit, Key, Order, QuerySpec, FormulaSpec, Spec, query_spec,
  formula_spec, promql_spec, clickhouse_sql_spec, raw_spec, Query, AppliedQueryBounds, QueryPayload,
  QueryError, negative_limit, limit_above_maximum, negative_offset, no_aggregation_expression,
  no_default_order, empty_order_key, invalid_direction, Checked, accepted, refused,
}
use signoz_mcp_server.QueryBuilder.Aliases.{
  formula_references_query, primary_aggregation_expression,
}
use signoz_mcp_server.QueryBuilder.Orders.{
  aggregate_order, authored, default_order_for_query, descending, effective_order, is_direction,
  is_empty_order, is_raw, onto_order, result_descending_order, validate_authored_from,
  validate_authored_order,
}

unfoldable pub is_metrics_query : Spec → Bool
is_metrics_query (query_spec spec) = spec.signal == "metrics"
is_metrics_query _ = false

unfoldable pub infer_default_request_type : List Query → String
unfolding is_metrics_query
infer_default_request_type [] = "raw"
infer_default_request_type (q ∷ queries) =
    let later = infer_default_request_type queries in
    if q.type == "promql" || q.type == "builder_formula"
    then "time_series"
    else if q.type == "builder_query" && is_metrics_query q.spec
    then "time_series"
    else later

unfoldable pub formula_expressions : List Query → List String
formula_expressions [] = []
formula_expressions (q ∷ queries) = elim q.spec [
  | query_spec spec ↦ formula_expressions queries
  | formula_spec spec ↦ spec.expression ∷ formula_expressions queries
  | promql_spec spec ↦ formula_expressions queries
  | clickhouse_sql_spec spec ↦ formula_expressions queries
  | raw_spec spec ↦ formula_expressions queries
]

unfoldable pub is_referenced : (name : String) → (expressions : List String) → Bool
is_referenced name [] = false
is_referenced name (expression ∷ expressions) =
    formula_references_query expression name || is_referenced name expressions

-- The names of builder queries that a formula refers to, in lower case.
unfoldable pub input_names : (expressions : List String) → List Query → List String
input_names expressions [] = []
input_names expressions (q ∷ queries) =
    let later = input_names expressions queries in
    elim q.spec [
      | query_spec spec ↦
          let name = trim_space spec.name in
          if not (name == "") && is_referenced name expressions
          then to_lower name ∷ later
          else later
      | formula_spec spec ↦ later
      | promql_spec spec ↦ later
      | clickhouse_sql_spec spec ↦ later
      | raw_spec spec ↦ later
    ]

unfoldable pub formula_input_query_names : List Query → List String
formula_input_query_names queries = input_names (formula_expressions queries) queries

unfoldable pub mem : String → List String → Bool
mem name [] = false
mem name (n ∷ names) = n == name || mem name names

abbrev pub default_limit_for_request_type : (request_type : String) → ℤ
default_limit_for_request_type request_type =
    if is_raw request_type then default_raw_query_limit else default_aggregate_query_limit

-- A query with its bounds, and the defaults that were injected, if any.
abbrev pub Bounded : Type 0
Bounded = Spec × List AppliedQueryBounds

abbrev pub applied_of : AppliedQueryBounds → List AppliedQueryBounds
applied_of applied = if applied.limit_defaulted || applied.order_defaulted then applied ∷ [] else []

unfoldable pub with_query_bounds :
    (index : ℕ) → QuerySpec → (limit : ℤ) (formula_input : Bool) → List Order → Bounded
unfolding is_empty_order
with_query_bounds index spec limit formula_input order = (
  query_spec (record spec { limit = limit; order = order }),
  applied_of record {
    query_index = index;
    query_name = spec.name;
    limit = limit;
    order = order;
    limit_defaulted = eqb_ℤ spec.limit (pos 0);
    order_defaulted = is_empty_order spec.order;
    formula_input = formula_input;
  },
)

unfoldable pub with_formula_bounds : (index : ℕ) → FormulaSpec → (limit : ℤ) → List Order → Bounded
unfolding is_empty_order
with_formula_bounds index spec limit order = (
  formula_spec (record spec { limit = limit; order = order }),
  applied_of record {
    query_index = index;
    query_name = spec.name;
    limit = limit;
    order = order;
    limit_defaulted = eqb_ℤ spec.limit (pos 0);
    order_defaulted = is_empty_order spec.order;
    formula_input = false;
  },
)

unfoldable pub query_limit : (request_type : String) (inputs : List String) → QuerySpec → ℤ
unfolding mem
query_limit request_type inputs spec =
    if not (eqb_ℤ spec.limit (pos 0))
    then spec.limit
    else if mem (to_lower (trim_space spec.name)) inputs
    then default_formula_input_query_limit
    else default_limit_for_request_type request_type

unfoldable pub bound_query :
    (request_type : String) (inputs : List String) (index : ℕ) → QuerySpec → Checked Bounded
unfolding mem with_query_bounds
bound_query request_type inputs index spec =
    if ltb_ℤ spec.limit (pos 0)
    then refused (negative_limit index)
    else if ltb_ℤ max_query_limit spec.limit
    then refused (limit_above_maximum index)
    else if ltb_ℤ spec.offset (pos 0)
    then refused (negative_offset index)
    else elim (effective_order index (default_order_for_query spec request_type index) spec.order) [
      | refused e ↦ refused e
      | accepted order ↦ accepted (
          with_query_bounds index spec (query_limit request_type inputs spec)
            (eqb_ℤ spec.limit (pos 0) && mem (to_lower (trim_space spec.name)) inputs) order)
    ]

unfoldable pub bound_formula : (index : ℕ) → FormulaSpec → Checked Bounded
unfolding with_formula_bounds
bound_formula index spec =
    if ltb_ℤ spec.limit (pos 0)
    then refused (negative_limit index)
    else elim (effective_order index (accepted result_descending_order) spec.order) [
      | refused e ↦ refused e
      | accepted order ↦ accepted (
          with_formula_bounds index spec
            (if eqb_ℤ spec.limit (pos 0) then default_aggregate_query_limit else spec.limit) order)
    ]

-- A spec of another type than its envelope's is passed over.
unfoldable pub bound_spec :
    (request_type : String) (inputs : List String) (index : ℕ) (type : String)
    → Spec
    → Checked Bounded
bound_spec request_type inputs index type (query_spec spec) =
    if type == "builder_query"
    then bound_query request_type inputs index spec
    else accepted (query_spec spec, [])
bound_spec request_type inputs index type (formula_spec spec) =
    if type == "builder_formula" then bound_formula index spec else accepted (formula_spec spec, [])
bound_spec request_type inputs index type spec = accepted (spec, [])

unfoldable pub onto_queries :
    (type : String)
    → Bounded
    → Checked (List Query × List AppliedQueryBounds)
    → Checked (List Query × List AppliedQueryBounds)
onto_queries type (spec, applied) (refused e) = refused e
onto_queries type (spec, applied) (accepted (queries, rest)) =
    accepted (record { type = type; spec = spec } ∷ queries, applied ++ rest)

unfoldable pub bound_queries :
    (request_type : String) (inputs : List String) (index : ℕ)
    → List Query
    → Checked (List Query × List AppliedQueryBounds)
unfolding onto_queries
bound_queries request_type inputs index [] = accepted ([], [])
bound_queries request_type inputs index (q ∷ queries) =
    let later = bound_queries request_type inputs (suc index) queries in
    elim (bound_spec request_type inputs index q.type q.spec) [
      | refused e ↦ refused e
      | accepted bounded ↦ onto_queries q.type bounded later
    ]

abbrev pub or_inferred : String → List Query → String
or_inferred request_type queries =
    if request_type == "" then infer_default_request_type queries else request_type

unfoldable pub apply_builder_bounds : QueryPayload → Checked QueryPayload
apply_builder_bounds q =
    let request_type = or_inferred q.request_type q.queries in
    elim (bound_queries request_type (formula_input_query_names q.queries) 0 q.queries) [
      | refused e ↦ refused e
      | accepted bounds ↦
          accepted
            record q { request_type = request_type; queries = bounds.0; applied_bounds = bounds.1 }
    ]
