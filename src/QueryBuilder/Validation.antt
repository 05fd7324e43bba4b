-- ===== src/QueryBuilder/Validation.antt =====
-- pkg/types/querybuilder.go: the validation of a payload.
pub mod Supported
use signoz_mcp_server.Base.{
  ℕ, zero, suc, String, Bool, true, false, not, ◌&&◌, ◌||◌, Option, none, some, List, [], ◌∷◌, ◌==◌,
  if◌then◌else◌, trim_space,
}
use signoz_mcp_server.Base.Int.{ℤ, pos, eqb_ℤ}
use signoz_mcp_server.Base.Any.{Any}
use signoz_mcp_server.QueryBuilder.{
  QuerySpec, FormulaSpec, PromQlSpec, ClickHouseSqlSpec, Spec, query_spec, formula_spec,
  promql_spec, clickhouse_sql_spec, raw_spec, Query, QueryPayload, QueryError, missing_time_range,
  missing_queries, wrong_spec_type, missing_query, missing_expression, formula_request_type,
  unsupported_request_type, missing_aggregations, unknown_signal, Checked, accepted, refused,
}
use signoz_mcp_server.QueryBuilder.Bounds.{
  infer_default_request_type, or_inferred, apply_builder_bounds,
}

abbrev pub is_aggregate : (request_type : String) → Bool
is_aggregate request_type = request_type == "scalar" || request_type == "time_series"

unfoldable pub has_no_aggregations : List Any → Bool
has_no_aggregations [] = true
has_no_aggregations (a ∷ aggregations) = false

-- The checks of a builder query by its signal; a step interval is dropped where it does not apply.
unfoldable pub check_aggregations : (index : ℕ) (has_step : Bool) → QuerySpec → Checked Spec
unfolding has_no_aggregations
check_aggregations index has_step spec =
    if has_no_aggregations spec.aggregations
    then refused (missing_aggregations index)
    else if has_step
    then accepted (query_spec spec)
    else accepted (query_spec (record spec { step_interval = none }))

unfoldable pub check_query : (request_type : String) (index : ℕ) → QuerySpec → Checked Spec
unfolding check_aggregations
check_query request_type index spec =
    if spec.signal == "metrics"
    then (if is_aggregate request_type
        then accepted (query_spec spec)
        else refused (unsupported_request_type index))
    else if spec.signal == "traces" || spec.signal == "logs"
    then (if request_type == "raw" || (request_type == "trace" && spec.signal == "traces")
        then accepted (query_spec (record spec { step_interval = none }))
        else if request_type == "scalar"
        then check_aggregations index false spec
        else if request_type == "time_series"
        then check_aggregations index true spec
        else refused (unsupported_request_type index))
    else refused (unknown_signal index)

unfoldable pub check_formula : (request_type : String) (index : ℕ) → FormulaSpec → Checked Spec
check_formula request_type index spec =
    if trim_space spec.expression == ""
    then refused (missing_expression index)
    else if not (is_aggregate request_type)
    then refused (formula_request_type index)
    else accepted (formula_spec spec)

-- A text of a query must not be empty.
abbrev pub check_text : (index : ℕ) (query : String) → Spec → Checked Spec
check_text index query spec = if query == "" then refused (missing_query index) else accepted spec

unfoldable pub as_promql : (index : ℕ) → Spec → Checked Spec
as_promql index (promql_spec spec) = check_text index spec.query (promql_spec spec)
as_promql index _ = refused (wrong_spec_type index)

unfoldable pub as_clickhouse_sql : (index : ℕ) → Spec → Checked Spec
as_clickhouse_sql index (clickhouse_sql_spec spec) =
    check_text index spec.query (clickhouse_sql_spec spec)
as_clickhouse_sql index _ = refused (wrong_spec_type index)

unfoldable pub as_formula : (request_type : String) (index : ℕ) → Spec → Checked Spec
as_formula request_type index (formula_spec spec) = check_formula request_type index spec
as_formula request_type index _ = refused (wrong_spec_type index)

unfoldable pub as_query : (request_type : String) (index : ℕ) → Spec → Checked Spec
as_query request_type index (query_spec spec) = check_query request_type index spec
as_query request_type index _ = refused (wrong_spec_type index)

-- One round of the loop; another type of envelope passes unchanged.
unfoldable pub check_spec :
    (request_type : String) (index : ℕ) (type : String) → Spec → Checked Spec
unfolding as_promql as_clickhouse_sql as_formula as_query
check_spec request_type index type spec =
    if type == "promql"
    then as_promql index spec
    else if type == "clickhouse_sql"
    then as_clickhouse_sql index spec
    else if type == "builder_formula"
    then as_formula request_type index spec
    else if type == "builder_query"
    then as_query request_type index spec
    else accepted spec

unfoldable pub onto_checked :
    (type : String) (spec : Spec) → Checked (List Query) → Checked (List Query)
onto_checked type spec (refused e) = refused e
onto_checked type spec (accepted queries) = accepted (record { type = type; spec = spec } ∷ queries)

unfoldable pub check_queries :
    (request_type : String) (index : ℕ) → List Query → Checked (List Query)
unfolding onto_checked
check_queries request_type index [] = accepted []
check_queries request_type index (q ∷ queries) =
    let later = check_queries request_type (suc index) queries in
    elim (check_spec request_type index q.type q.spec) [
      | refused e ↦ refused e
      | accepted spec ↦ onto_checked q.type spec later
    ]

unfoldable pub no_queries : List Query → Bool
no_queries [] = true
no_queries (q ∷ queries) = false

abbrev pub or_v1 : String → String
or_v1 version = if version == "" then "v1" else version

unfoldable pub validate : QueryPayload → Checked QueryPayload
unfolding no_queries
validate q =
    if eqb_ℤ q.start (pos 0) || eqb_ℤ q.end (pos 0)
    then refused missing_time_range
    else if no_queries q.queries
    then refused missing_queries
    else elim (check_queries (or_inferred q.request_type q.queries) 0 q.queries) [
      | refused e ↦ refused e
      | accepted queries ↦ apply_builder_bounds record q {
        schema_version = or_v1 q.schema_version;
        request_type = or_inferred q.request_type q.queries;
        queries = queries;
      }
    ]
