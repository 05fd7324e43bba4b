-- ===== src/DashboardBuilder/Validate/Queries.antt =====
-- The checks of the queries of a widget: pkg/dashboard/dashboardbuilder/validate.go.
use signoz_mcp_server.Base.{
  ℕ, String, Bool, false, not, none, some, List, [], ◌∷◌, ◌++◌, ◌==◌, ◌<>◌, if◌then◌else◌,
  trim_space,
}
use signoz_mcp_server.Base.Any.{Fields, get}
use signoz_mcp_server.DashboardBuilder.Types.{
  Query, ClickHouseQuery, PromQlQuery, valid_query_types, valid_data_sources,
}
use signoz_mcp_server.DashboardBuilder.Errors.{
  FieldError, required, not_a_string, no_query_data, not_one_of, required_when, no_queries, unless,
  is_one_of, indexed, each,
}
use signoz_mcp_server.DashboardBuilder.Filter.{string_of, validate_filter_expression_consistency}

abbrev is_blank : String → Bool
is_blank s = trim_space s == ""

validate_query_data : (prefix : String) → ℕ → Fields → List FieldError
validate_query_data prefix i qd =
    let q_prefix = indexed (prefix <> ".builder.queryData") i in
    let name = string_of (get qd "queryName") in
    let ds = string_of (get qd "dataSource") in
    let expr = string_of (get qd "expression") in
    unless (not (name == "")) (q_prefix <> ".queryName") not_a_string
    ++ (if ds == ""
        then unless false (q_prefix <> ".dataSource") not_a_string
        else unless (is_one_of ds valid_data_sources) (q_prefix <> ".dataSource")
            (not_one_of valid_data_sources ds))
    ++ unless (not (expr == "")) (q_prefix <> ".expression") not_a_string
    ++ validate_filter_expression_consistency q_prefix qd

validate_builder_data : (prefix : String) → List Fields → List Fields → List FieldError
validate_builder_data prefix [] formulas =
    unless false (prefix <> ".builder.queryData") no_query_data
validate_builder_data prefix (qd ∷ data_rest) formulas =
    each (validate_query_data prefix) 0 (qd ∷ data_rest)
    ++ each
        (λ i qf.
          validate_filter_expression_consistency (indexed (prefix <> ".builder.queryFormulas") i)
            qf)
        0 formulas

pub validate_builder_query : (prefix : String) → Query → List FieldError
validate_builder_query prefix q = elim q.builder [
  | none ↦ unless false (prefix <> ".builder") (required_when "builder")
  | some b ↦ validate_builder_data prefix b.query_data b.query_formulas
]

validate_clickhouse_query : (prefix : String) → ℕ → ClickHouseQuery → List FieldError
validate_clickhouse_query prefix i ch =
    let q_prefix = indexed (prefix <> ".clickhouse_sql") i in
    unless (not (is_blank ch.name)) (q_prefix <> ".name") required
    ++ unless (not (is_blank ch.query)) (q_prefix <> ".query") required

pub validate_clickhouse_queries : (prefix : String) → List ClickHouseQuery → List FieldError
validate_clickhouse_queries prefix [] =
    unless false (prefix <> ".clickhouse_sql") (no_queries "clickhouse_sql")
validate_clickhouse_queries prefix (ch ∷ chs) = each (validate_clickhouse_query prefix) 0 (ch ∷ chs)

validate_promql_query : (prefix : String) → ℕ → PromQlQuery → List FieldError
validate_promql_query prefix i pq =
    let q_prefix = indexed (prefix <> ".promql") i in
    unless (not (is_blank pq.name)) (q_prefix <> ".name") required
    ++ unless (not (is_blank pq.query)) (q_prefix <> ".query") required

validate_promql_queries : (prefix : String) → List PromQlQuery → List FieldError
validate_promql_queries prefix [] = unless false (prefix <> ".promql") (no_queries "promql")
validate_promql_queries prefix (pq ∷ pqs) = each (validate_promql_query prefix) 0 (pq ∷ pqs)

-- A query of an unknown type is not looked into.
unfoldable pub validate_query : (prefix : String) → Query → List FieldError
unfolding validate_promql_queries validate_promql_query
validate_query prefix q =
    if not (is_one_of q.query_type valid_query_types)
    then unless false (prefix <> ".queryType") (not_one_of valid_query_types q.query_type)
    else if q.query_type == "builder"
    then validate_builder_query prefix q
    else if q.query_type == "clickhouse_sql"
    then validate_clickhouse_queries prefix q.clickhouse_sql
    else if q.query_type == "promql"
    then validate_promql_queries prefix q.promql
    else []
