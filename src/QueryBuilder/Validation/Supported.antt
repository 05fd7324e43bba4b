-- ===== src/QueryBuilder/Validation/Supported.antt =====
-- A payload that passes the validation is one that the backend is asked for.
use signoz_mcp_server.Base.{◌≡◌, inl, inr, true, false, ◌||◌, Bool-cases, arith}
use signoz_mcp_server.Base.Int.{pos, eqb_ℤ}
use signoz_mcp_server.QueryBuilder.{QueryPayload, accepted}
use signoz_mcp_server.QueryBuilder.Bounds.{
  apply_builder_bounds, or_inferred, bound_queries, formula_input_query_names,
}
use signoz_mcp_server.QueryBuilder.Bounds.Bounded.{are_bounded, apply_builder_bounds-are_bounded}
use signoz_mcp_server.QueryBuilder.Orders.Ordered.{Checked-cases}
use signoz_mcp_server.QueryBuilder.Validation.{validate, check_queries, no_queries, or_v1}

-- The fields that applying the bounds leaves.
apply_builder_bounds_kept :
    (q bounded : QueryPayload)
    → apply_builder_bounds q ≡ accepted bounded
    → (bounded.start ≡ q.start) × (bounded.end ≡ q.end)
unfolding apply_builder_bounds
apply_builder_bounds_kept q bounded h =
    let request_type = or_inferred q.request_type q.queries in
    elim (Checked-cases
      (bound_queries request_type (formula_input_query_names q.queries) 0 q.queries)) [
        | inl (e, failed) ↦ absurd (ground arith)
        | inr (bounds, found) ↦ (ground arith, ground arith)
      ]

-- A payload that passes the validation has a start and an end that are not 0, those of the request,
-- and bounded queries.
pub validate-are_bounded :
    (q valid : QueryPayload)
    → validate q ≡ accepted valid
    → (valid.start ≡ q.start)
      × (valid.end ≡ q.end)
      × (eqb_ℤ valid.start (pos 0) ≡ false)
      × (eqb_ℤ valid.end (pos 0) ≡ false)
      × (are_bounded valid.queries ≡ true)
unfolding validate
validate-are_bounded q valid h =
    let request_type = or_inferred q.request_type q.queries in
    elim (Bool-cases (eqb_ℤ q.start (pos 0) || eqb_ℤ q.end (pos 0))) [
      | inl e ↦ absurd (ground arith)
      | inr timed ↦ elim (Bool-cases (no_queries q.queries)) [
        | inl e ↦ absurd (ground arith)
        | inr some_query ↦ elim (Checked-cases (check_queries request_type 0 q.queries)) [
          | inl (e, failed) ↦ absurd (ground arith)
          | inr (queries, found) ↦
              let checked : QueryPayload = record q {
                schema_version = or_v1 q.schema_version;
                request_type = request_type;
                queries = queries;
              } in
              let applied : apply_builder_bounds checked ≡ accepted valid =
                rw (timed, some_query, found, validate) at h in
              let (start, last) = apply_builder_bounds_kept checked valid applied in
              (
                start,
                last,
                rw start (ground arith),
                rw last (ground arith),
                apply_builder_bounds-are_bounded checked valid applied,
              )
        ]
      ]
    ]
