-- ===== src/QueryBuilder/Orders.antt =====
-- pkg/types/querybuilder.go: the order of a query, authored or by default.
pub mod Ordered
use signoz_mcp_server.Base.{
  ℕ, zero, suc, String, Bool, true, false, not, ◌&&◌, ◌||◌, Option, none, some, List, [], ◌∷◌, ◌++◌,
  ◌==◌, if◌then◌else◌, trim_space, to_lower,
}
use signoz_mcp_server.Base.Int.{ℤ, pos, ltb_ℤ, eqb_ℤ}
use signoz_mcp_server.QueryBuilder.{
  default_raw_query_limit, default_aggregate_query_limit, max_query_limit,
  default_formula_input_query_limit, Key, Order, QuerySpec, FormulaSpec, Spec, query_spec,
  formula_spec, promql_spec, clickhouse_sql_spec, raw_spec, Query, AppliedQueryBounds, QueryPayload,
  QueryError, negative_limit, limit_above_maximum, negative_offset, no_aggregation_expression,
  no_default_order, empty_order_key, invalid_direction, Checked, accepted, refused,
}
use signoz_mcp_server.QueryBuilder.Aliases.{
  formula_references_query, primary_aggregation_expression,
}

abbrev pub is_raw : (request_type : String) → Bool
is_raw request_type = request_type == "raw" || request_type == "trace"

abbrev pub descending : (name : String) → Order
descending name = record {
  key = record {
    name = name;
    description = "";
    unit = "";
    signal = "";
    field_context = "";
    field_data_type = "";
  };
  direction = "desc";
}

abbrev pub result_descending_order : List Order
result_descending_order = descending "__result" ∷ []

-- The default order of logs and traces that are aggregated.
unfoldable pub aggregate_order : (index : ℕ) (expression : String) → Checked (List Order)
aggregate_order index expression =
    if expression == ""
    then refused (no_aggregation_expression index)
    else accepted (descending expression ∷ [])

unfoldable pub default_order_for_query :
    QuerySpec → (request_type : String) (index : ℕ) → Checked (List Order)
unfolding aggregate_order
default_order_for_query spec request_type index =
    if is_raw request_type
    then (if spec.signal == "logs"
        then accepted (descending "timestamp" ∷ descending "id" ∷ [])
        else if spec.signal == "traces"
        then accepted (descending "timestamp" ∷ [])
        else refused (no_default_order index))
    else if request_type == "scalar" || request_type == "time_series"
    then (if spec.signal == "metrics"
        then accepted result_descending_order
        else if spec.signal == "logs" || spec.signal == "traces"
        then aggregate_order index (primary_aggregation_expression spec.aggregations)
        else refused (no_default_order index))
    else refused (no_default_order index)

-- One entry of an authored order, trimmed and lowered.
abbrev pub authored : Order → Order
authored o = record o {
  key = record o.key { name = trim_space o.key.name };
  direction = to_lower (trim_space o.direction);
}

abbrev pub is_direction : String → Bool
is_direction s = s == "asc" || s == "desc"

unfoldable pub onto_order : Order → Checked (List Order) → Checked (List Order)
onto_order o (accepted order) = accepted (o ∷ order)
onto_order o (refused e) = refused e

unfoldable pub validate_authored_from : (index order_index : ℕ) → List Order → Checked (List Order)
unfolding onto_order
validate_authored_from index order_index [] = accepted []
validate_authored_from index order_index (o ∷ order) =
    let later = onto_order (authored o) (validate_authored_from index (suc order_index) order) in
    if (authored o).key.name == ""
    then refused (empty_order_key index order_index)
    else if not (is_direction (authored o).direction)
    then refused (invalid_direction index order_index)
    else later

unfoldable pub validate_authored_order : (index : ℕ) → List Order → Checked (List Order)
validate_authored_order index order = validate_authored_from index 0 order

-- The order that applies: the default one where none is authored.
unfoldable pub effective_order :
    (index : ℕ) → (default : Checked (List Order)) → List Order → Checked (List Order)
effective_order index default [] = default
effective_order index default (o ∷ order) = validate_authored_order index (o ∷ order)

unfoldable pub is_empty_order : List Order → Bool
is_empty_order [] = true
is_empty_order (o ∷ order) = false
