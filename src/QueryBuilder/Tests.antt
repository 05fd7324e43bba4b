-- ===== src/QueryBuilder/Tests.antt =====
-- Runs of the validation of a payload.
use signoz_mcp_server.Base.{◌≡◌, refl, true, false, none, List, [], ◌∷◌, trim_space, to_lower}
use signoz_mcp_server.Base.Int.{pos, eqb_ℤ}
use signoz_mcp_server.Base.Any.{string, object, field, done, get}
use signoz_mcp_server.Base.Strings.{cut_prefix}
use signoz_mcp_server.QueryBuilder.{
  QuerySpec, query_spec, formula_spec, FormulaSpec, Query, QueryPayload, accepted, refused,
  limit_above_maximum,
}
use signoz_mcp_server.QueryBuilder.Aliases.{
  formula_references_query, references_from, ends_identifier, primary_aggregation_expression,
  strip_alias, expression_of, before_alias, is_alias_at, begins_alias, after_alias_char,
}
use signoz_mcp_server.QueryBuilder.Bounds.{
  infer_default_request_type, is_metrics_query, formula_expressions, is_referenced, input_names,
  formula_input_query_names, mem, with_query_bounds, with_formula_bounds, query_limit, bound_query,
  bound_formula, bound_spec, onto_queries, bound_queries, apply_builder_bounds,
}
use signoz_mcp_server.QueryBuilder.Orders.{
  descending, result_descending_order, aggregate_order, default_order_for_query, effective_order,
  is_empty_order,
}
use signoz_mcp_server.QueryBuilder.Bounds.Bounded.{are_bounded}
use signoz_mcp_server.QueryBuilder.Payloads.{
  spec_of, payload_of, build_logs_query_payload, build_traces_query_payload,
}
use signoz_mcp_server.QueryBuilder.Payloads.Ready.{validate-build_query_payload}
use signoz_mcp_server.QueryBuilder.Validation.{
  validate, no_queries, check_queries, onto_checked, check_spec, check_query, check_formula,
  as_query, as_formula, check_aggregations, has_no_aggregations,
}
use signoz_mcp_server.QueryBuilder.Validation.Supported.{validate-are_bounded}

abbrev counted : QuerySpec
counted = record (spec_of "logs" "" (pos 0) (pos 0) []) {
  aggregations = object (field "expression" (string "count() AS total") done) ∷ [];
}

abbrev ratio : FormulaSpec
ratio = record {
  name = "F1";
  expression = "A / 2";
  legend = "";
  disabled = false;
  limit = pos 0;
  order = [];
  having = none;
  functions = [];
}

abbrev query_of : QuerySpec → FormulaSpec → List Query
query_of spec formula =
    record { type = "builder_query"; spec = query_spec spec }
    ∷ record { type = "builder_formula"; spec = formula_spec formula }
    ∷ []

abbrev asked : QueryPayload
asked = record (payload_of (pos 1) (pos 2) "" counted) { queries = query_of counted ratio }

-- The input of a formula has the wide limit; the alias is no part of its order.
abbrev answered : QueryPayload
answered = record asked {
  request_type = "time_series";
  queries =
      query_of (record counted { limit = pos 10000; order = descending "count()" ∷ [] })
        (record ratio { limit = pos 100; order = result_descending_order });
  applied_bounds =
      record {
        query_index = 0;
        query_name = "A";
        limit = pos 10000;
        order = descending "count()" ∷ [];
        limit_defaulted = true;
        order_defaulted = true;
        formula_input = true;
      }
      ∷ record {
        query_index = 1;
        query_name = "F1";
        limit = pos 100;
        order = result_descending_order;
        limit_defaulted = true;
        order_defaulted = true;
        formula_input = false;
      }
      ∷ [];
}

bounds_applied : apply_builder_bounds asked ≡ accepted answered
unfolding formula_references_query references_from ends_identifier primary_aggregation_expression
    strip_alias expression_of before_alias is_alias_at begins_alias after_alias_char cut_prefix get
    infer_default_request_type is_metrics_query formula_expressions is_referenced input_names
    formula_input_query_names mem aggregate_order default_order_for_query effective_order
    is_empty_order with_query_bounds with_formula_bounds query_limit bound_query bound_formula
    bound_spec onto_queries bound_queries apply_builder_bounds trim_space to_lower
bounds_applied = refl

validated : validate asked ≡ accepted answered
unfolding formula_references_query references_from ends_identifier primary_aggregation_expression
    strip_alias expression_of before_alias is_alias_at begins_alias after_alias_char cut_prefix get
    infer_default_request_type is_metrics_query formula_expressions is_referenced input_names
    formula_input_query_names mem aggregate_order default_order_for_query effective_order
    is_empty_order with_query_bounds with_formula_bounds query_limit bound_query bound_formula
    bound_spec onto_queries bound_queries apply_builder_bounds trim_space to_lower validate
    no_queries check_queries onto_checked check_spec check_query check_formula as_query as_formula
    check_aggregations has_no_aggregations
validated = refl

above_maximum :
    apply_builder_bounds (build_logs_query_payload (pos 1) (pos 2) "" (pos 10001) (pos 0))
    ≡ refused (limit_above_maximum 0)
unfolding apply_builder_bounds bound_queries bound_spec bound_query
above_maximum = refl

validate-are_bounded_example :
    (answered.start ≡ asked.start)
    × (answered.end ≡ asked.end)
    × (eqb_ℤ answered.start (pos 0) ≡ false)
    × (eqb_ℤ answered.end (pos 0) ≡ false)
    × (are_bounded answered.queries ≡ true)
validate-are_bounded_example = validate-are_bounded asked answered validated

validate-build_query_payload_example :
    (validate (build_logs_query_payload (pos 1) (pos 2) "a = 1" (pos 50) (pos 10))
      ≡ accepted (build_logs_query_payload (pos 1) (pos 2) "a = 1" (pos 50) (pos 10)))
    × (validate (build_traces_query_payload (pos 1) (pos 2) "a = 1" (pos 50) (pos 10))
        ≡ accepted (build_traces_query_payload (pos 1) (pos 2) "a = 1" (pos 50) (pos 10)))
validate-build_query_payload_example =
    validate-build_query_payload (pos 1) (pos 2) "a = 1" (pos 50) (pos 10) refl refl refl refl refl
