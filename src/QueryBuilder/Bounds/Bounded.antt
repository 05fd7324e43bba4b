-- ===== src/QueryBuilder/Bounds/Bounded.antt =====
-- A payload whose bounds are applied is bounded: every query has a limit and an order.
use mathlib.Core.Path.{subst}
use signoz_mcp_server.Base.{
  ℕ, suc, String, ◌≡◌, inl, inr, refl, Bool, true, false, not, ◌&&◌, ◌||◌, List, [], ◌∷◌, ◌==◌,
  Bool-cases, trim_space, to_lower, arith,
}
use signoz_mcp_server.Base.Int.{pos, ltb_ℤ, leb_ℤ, eqb_ℤ}
use signoz_mcp_server.QueryBuilder.{
  default_aggregate_query_limit, max_query_limit, QuerySpec, FormulaSpec, Spec, query_spec,
  formula_spec, promql_spec, clickhouse_sql_spec, raw_spec, Query, AppliedQueryBounds, QueryPayload,
  Checked, accepted, refused,
}
use signoz_mcp_server.QueryBuilder.Bounds.{
  Bounded, query_limit, mem, bound_query, bound_formula, bound_spec, onto_queries, bound_queries,
  or_inferred, apply_builder_bounds, formula_input_query_names,
}
use signoz_mcp_server.QueryBuilder.Orders.{
  is_raw, default_order_for_query, effective_order, result_descending_order,
}
use signoz_mcp_server.QueryBuilder.Orders.Ordered.{
  are_ordered, is_ordering, passes, default_order-passes, effective_order-passes, Checked-cases,
}

-- What a query or a formula may have after its bounds are applied.
unfoldable pub is_bounded : (type : String) → Spec → Bool
is_bounded type (query_spec spec) =
    not (type == "builder_query")
    || (ltb_ℤ (pos 0) spec.limit
        && leb_ℤ spec.limit max_query_limit
        && leb_ℤ (pos 0) spec.offset
        && is_ordering spec.order)
is_bounded type (formula_spec spec) =
    not (type == "builder_formula") || (ltb_ℤ (pos 0) spec.limit && is_ordering spec.order)
is_bounded type spec = true

unfoldable pub are_bounded : List Query → Bool
are_bounded [] = true
are_bounded (q ∷ queries) = is_bounded q.type q.spec && are_bounded queries

query_limit_bounds :
    (request_type : String) (inputs : List String) (spec : QuerySpec)
    → ltb_ℤ spec.limit (pos 0) ≡ false
    → ltb_ℤ max_query_limit spec.limit ≡ false
    → (ltb_ℤ (pos 0) (query_limit request_type inputs spec)
        && leb_ℤ (query_limit request_type inputs spec) max_query_limit)
      ≡ true
unfolding query_limit
query_limit_bounds request_type inputs spec h k = elim (Bool-cases (eqb_ℤ spec.limit (pos 0))) [
  | inr given ↦ rw (given, query_limit) (ground arith)
  | inl unset ↦ elim (Bool-cases (mem (to_lower (trim_space spec.name)) inputs)) [
    | inl input ↦ rw (unset, input, query_limit) refl
    | inr single ↦ elim (Bool-cases (is_raw request_type)) [
      | inl raw ↦ rw (unset, single, raw, query_limit) refl
      | inr shaped ↦ rw (unset, single, shaped, query_limit) refl
    ]
  ]
]

query-is_bounded :
    (type : String) (spec : QuerySpec)
    → (ltb_ℤ (pos 0) spec.limit && leb_ℤ spec.limit max_query_limit) ≡ true
    → ltb_ℤ spec.offset (pos 0) ≡ false
    → is_ordering spec.order ≡ true
    → is_bounded type (query_spec spec) ≡ true
unfolding is_bounded
query-is_bounded type spec h k l = rw l (ground arith)

formula-is_bounded :
    (type : String) (spec : FormulaSpec)
    → ltb_ℤ (pos 0) spec.limit ≡ true
    → is_ordering spec.order ≡ true
    → is_bounded type (formula_spec spec) ≡ true
unfolding is_bounded
formula-is_bounded type spec h l = rw (h, l) (ground arith)

bound_query-passes :
    (request_type : String) (inputs : List String) (index : ℕ) (type : String) (spec : QuerySpec)
    → passes (λ b. is_bounded type b.0) (bound_query request_type inputs index spec) ≡ true
unfolding bound_query passes
bound_query-passes request_type inputs index type spec =
    let default = default_order_for_query spec request_type index in
    let ordering =
      effective_order-passes index default spec.order
        (default_order-passes spec request_type index) in
    elim (Bool-cases (ltb_ℤ spec.limit (pos 0))) [
      | inl e ↦ rw (e, passes)
      | inr e1 ↦ elim (Bool-cases (ltb_ℤ max_query_limit spec.limit)) [
        | inl e ↦ rw (e1, e, passes)
        | inr e2 ↦ elim (Bool-cases (ltb_ℤ spec.offset (pos 0))) [
          | inl e ↦ rw (e1, e2, e, passes)
          | inr e3 ↦ elim (Checked-cases (effective_order index default spec.order)) [
            | inl (e, failed) ↦ rw (e1, e2, e3, failed, passes)
            | inr (order, found) ↦
                let ordered : is_ordering order ≡ true =
                  subst (λ r. passes is_ordering r ≡ true) found ordering in
                rw (e1, e2, e3, found)
                  (query-is_bounded type
                    (record spec { limit = query_limit request_type inputs spec; order = order })
                    (query_limit_bounds request_type inputs spec e1 e2) e3 ordered)
          ]
        ]
      ]
    ]

bound_formula-passes :
    (index : ℕ) (type : String) (spec : FormulaSpec)
    → passes (λ b. is_bounded type b.0) (bound_formula index spec) ≡ true
unfolding bound_formula passes are_ordered is_ordering
bound_formula-passes index type spec =
    let default = accepted result_descending_order in
    let ordering = effective_order-passes index default spec.order refl in
    elim (Bool-cases (ltb_ℤ spec.limit (pos 0))) [
      | inl e ↦ rw (e, passes)
      | inr positive ↦ elim (Checked-cases (effective_order index default spec.order)) [
        | inl (e, failed) ↦ rw (positive, failed, passes)
        | inr (order, found) ↦
            let ordered : is_ordering order ≡ true =
              subst (λ r. passes is_ordering r ≡ true) found ordering in
            elim (Bool-cases (eqb_ℤ spec.limit (pos 0))) [
              | inl unset ↦
                  rw (positive, found, unset)
                    (formula-is_bounded type
                      (record spec { limit = default_aggregate_query_limit; order = order }) refl
                      ordered)
              | inr given ↦
                  rw (positive, found, given)
                    (formula-is_bounded type (record spec { order = order }) (ground arith) ordered)
            ]
      ]
    ]

bound_spec-passes :
    (request_type : String) (inputs : List String) (index : ℕ) (type : String) (spec : Spec)
    → passes (λ b. is_bounded type b.0) (bound_spec request_type inputs index type spec) ≡ true
unfolding bound_spec passes is_bounded
bound_spec-passes request_type inputs index type (query_spec spec) =
    elim (Bool-cases (type == "builder_query")) [
      | inl e ↦ rw e (bound_query-passes request_type inputs index type spec)
      | inr e ↦ rw (e, passes, is_bounded, e)
    ]
bound_spec-passes request_type inputs index type (formula_spec spec) =
    elim (Bool-cases (type == "builder_formula")) [
      | inl e ↦ rw e (bound_formula-passes index type spec)
      | inr e ↦ rw (e, passes, is_bounded, e)
    ]
bound_spec-passes request_type inputs index type (promql_spec spec) = refl
bound_spec-passes request_type inputs index type (clickhouse_sql_spec spec) = refl
bound_spec-passes request_type inputs index type (raw_spec spec) = refl

onto_queries-passes :
    (type : String) (bounded : Bounded) (rest : Checked (List Query × List AppliedQueryBounds))
    → is_bounded type bounded.0 ≡ true
    → passes (λ r. are_bounded r.0) rest ≡ true
    → passes (λ r. are_bounded r.0) (onto_queries type bounded rest) ≡ true
unfolding onto_queries passes are_bounded
onto_queries-passes type (spec, applied) (refused e) h k = refl
onto_queries-passes type (spec, applied) (accepted (queries, rest)) h k = rw (h, k)

bound_queries-passes :
    (request_type : String) (inputs : List String) (index : ℕ) (queries : List Query)
    → passes (λ r. are_bounded r.0) (bound_queries request_type inputs index queries) ≡ true
unfolding bound_queries passes are_bounded
bound_queries-passes request_type inputs index [] = refl
bound_queries-passes request_type inputs index (q ∷ queries) =
    let later = bound_queries-passes request_type inputs (suc index) queries in
    let this = bound_spec-passes request_type inputs index q.type q.spec in
    elim (Checked-cases (bound_spec request_type inputs index q.type q.spec)) [
      | inl (e, failed) ↦ rw (failed, passes)
      | inr (bounded, found) ↦
          let one : is_bounded q.type bounded.0 ≡ true =
            subst (λ r. passes (λ b. is_bounded q.type b.0) r ≡ true) found this in
          rw (found, passes)
            (onto_queries-passes q.type bounded
              (bound_queries request_type inputs (suc index) queries) one later)
    ]

-- In a payload whose bounds are applied, every builder query has a limit from 1 to 10000, an offset
-- that is not negative and an order, and every formula a positive limit and an order; each entry of
-- an order has a key, and asc or desc as its direction.
pub apply_builder_bounds-are_bounded :
    (q bounded : QueryPayload)
    → apply_builder_bounds q ≡ accepted bounded
    → are_bounded bounded.queries ≡ true
unfolding apply_builder_bounds passes
apply_builder_bounds-are_bounded q bounded h =
    let request_type = or_inferred q.request_type q.queries in
    let inputs = formula_input_query_names q.queries in
    let all = bound_queries-passes request_type inputs 0 q.queries in
    elim (Checked-cases (bound_queries request_type inputs 0 q.queries)) [
      | inl (e, failed) ↦ absurd (ground arith)
      | inr (bounds, found) ↦
          let each : are_bounded bounds.0 ≡ true =
            subst (λ r. passes (λ r. are_bounded r.0) r ≡ true) found all in
          let same : bounded.queries ≡ bounds.0 = ground arith in rw same each
    ]
