-- ===== src/QueryBuilder/Payloads/Ready.antt =====
-- What the tools build passes the validation as it is.
use signoz_mcp_server.Base.{
  String, ◌≡◌, refl, true, false, List, [], ◌∷◌, ◌==◌, arith, to_lower, trim_space,
}
use signoz_mcp_server.Base.Int.{ℤ, pos, ltb_ℤ, leb_ℤ, eqb_ℤ}
use signoz_mcp_server.QueryBuilder.{
  Order, QuerySpec, max_query_limit, QueryPayload, Checked, accepted, query_spec, Query,
}
use signoz_mcp_server.QueryBuilder.Bounds.{
  bound_query, bound_spec, bound_queries, apply_builder_bounds, formula_input_query_names,
  query_limit, with_query_bounds, onto_queries,
}
use signoz_mcp_server.QueryBuilder.Orders.{
  descending, validate_authored_order, validate_authored_from, effective_order,
  default_order_for_query, onto_order, is_empty_order,
}
use signoz_mcp_server.QueryBuilder.Payloads.{
  spec_of, trace_fields, build_logs_query_payload, build_traces_query_payload,
}
use signoz_mcp_server.QueryBuilder.Validation.{
  validate, no_queries, as_query, onto_checked, check_spec, check_query, check_queries,
}

-- A query whose bounds are given is left as it is.
bound_query_given :
    (request_type : String) (inputs : List String) (spec : QuerySpec)
    → ltb_ℤ spec.limit (pos 0) ≡ false
    → ltb_ℤ max_query_limit spec.limit ≡ false
    → ltb_ℤ spec.offset (pos 0) ≡ false
    → eqb_ℤ spec.limit (pos 0) ≡ false
    → is_empty_order spec.order ≡ false
    → ((default : Checked (List Order))
        → effective_order 0 default spec.order ≡ accepted spec.order)
    → bound_query request_type inputs 0 spec ≡ accepted (query_spec spec, [])
unfolding bound_query query_limit with_query_bounds
bound_query_given request_type inputs spec bare capped forward given ordered kept = rw (
  bare,
  capped,
  forward,
  kept (default_order_for_query spec request_type 0),
  given,
  query_limit,
  with_query_bounds,
  ordered,
)

bound_single :
    (request_type : String) (inputs : List String) (spec : QuerySpec)
    → bound_query request_type inputs 0 spec ≡ accepted (query_spec spec, [])
    → let queries : List Query = record { type = "builder_query"; spec = query_spec spec } ∷ [] in
      bound_queries request_type inputs 0 queries ≡ accepted (queries, [])
unfolding bound_queries bound_spec onto_queries
bound_single request_type inputs spec h = rw (h, bound_queries, bound_spec)

apply_given :
    (q : QueryPayload)
    → (q.request_type == "") ≡ false
    → bound_queries q.request_type (formula_input_query_names q.queries) 0 q.queries
      ≡ accepted (q.queries, [])
    → apply_builder_bounds q ≡ accepted (record q { applied_bounds = [] })
unfolding apply_builder_bounds
apply_given q typed h = rw (typed, h, apply_builder_bounds, typed)

-- The payloads for logs and traces pass the validation unchanged, with no default applied: the start
-- and the end are not 0, the limit is from 1 to 10000, and the offset is not negative.
pub validate-build_query_payload :
    (start end : ℤ) (filter : String) (limit offset : ℤ)
    → eqb_ℤ start (pos 0) ≡ false
    → eqb_ℤ end (pos 0) ≡ false
    → ltb_ℤ (pos 0) limit ≡ true
    → leb_ℤ limit max_query_limit ≡ true
    → leb_ℤ (pos 0) offset ≡ true
    → (validate (build_logs_query_payload start end filter limit offset)
        ≡ accepted (build_logs_query_payload start end filter limit offset))
      × (validate (build_traces_query_payload start end filter limit offset)
          ≡ accepted (build_traces_query_payload start end filter limit offset))
unfolding validate check_queries check_spec check_query no_queries as_query onto_checked
    effective_order validate_authored_order validate_authored_from onto_order is_empty_order
    to_lower trim_space
validate-build_query_payload start end filter limit offset timed ended positive within ahead =
    let bare : ltb_ℤ limit (pos 0) ≡ false = ground arith in
    let capped : ltb_ℤ max_query_limit limit ≡ false = ground arith in
    let forward : ltb_ℤ offset (pos 0) ≡ false = ground arith in
    let given : eqb_ℤ limit (pos 0) ≡ false = ground arith in
    let logs = build_logs_query_payload start end filter limit offset in
    let traces = build_traces_query_payload start end filter limit offset in
    let log_spec =
      spec_of "logs" filter limit offset (descending "timestamp" ∷ descending "id" ∷ []) in
    let trace_spec : QuerySpec =
      record (spec_of "traces" filter limit offset (descending "timestamp" ∷ [])) {
        select_fields = trace_fields;
      } in
    (
      rw (timed, ended)
          (apply_given logs refl (
            bound_single "raw" (formula_input_query_names logs.queries) log_spec (
              bound_query_given "raw" (formula_input_query_names logs.queries) log_spec bare capped
                forward given refl (λ d. refl)))),
      rw (timed, ended)
          (apply_given traces refl (
            bound_single "raw" (formula_input_query_names traces.queries) trace_spec (
              bound_query_given "raw" (formula_input_query_names traces.queries) trace_spec bare
                capped forward given refl (λ d. refl)))),
    )
