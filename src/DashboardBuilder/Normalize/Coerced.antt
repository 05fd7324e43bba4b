-- ===== src/DashboardBuilder/Normalize/Coerced.antt =====
-- The coerced having, and the canonical source of a dynamic variable, stay as they are.

use signoz_mcp_server.Base.{
  String, ◌≡◌, ◌⊎◌, inl, inr, refl, sym, ap, ◌∙◌, Option, none, some, List, [], ◌∷◌, ◌==◌,
  Bool-cases, trim_space, to_lower, arith,
}
use signoz_mcp_server.Base.Any.{
  Any, Anys, Fields, Float64, nil, bool, integer, float, number, string, array, object, end, get,
  get-set_self,
}
use signoz_mcp_server.DashboardBuilder.Having.Clauses.{HavingClause, parse_having_expression}
use signoz_mcp_server.DashboardBuilder.Normalize.{
  matching_source, or_else, canonical_dynamic_source, coerced, coerce_expression, coerce_value,
  coerce_having, coerce_having_in_query_maps, clause_items,
}

canonical_cases :
    (s : String)
    → let t = canonical_dynamic_source s in
      (t ≡ s) ⊎ (t ≡ "Traces") ⊎ (t ≡ "Logs") ⊎ (t ≡ "Metrics") ⊎ (t ≡ "All telemetry")
unfolding canonical_dynamic_source matching_source or_else
canonical_cases s = ground arith

canonical_dynamic_source-again :
    (s : String)
    → canonical_dynamic_source (canonical_dynamic_source s) ≡ canonical_dynamic_source s
unfolding canonical_dynamic_source matching_source or_else to_lower trim_space
canonical_dynamic_source-again s = elim (canonical_cases s) [
  | inl e ↦ ap canonical_dynamic_source e
  | inr (inl e) ↦ ap canonical_dynamic_source e ∙ sym e
  | inr (inr (inl e)) ↦ ap canonical_dynamic_source e ∙ sym e
  | inr (inr (inr (inl e))) ↦ ap canonical_dynamic_source e ∙ sym e
  | inr (inr (inr (inr e))) ↦ ap canonical_dynamic_source e ∙ sym e
]

module _ (parse_float : String → Option Float64) where
  coerced_cases :
      (entry : Fields) (clauses : Option (List HavingClause))
      → (coerced parse_float entry clauses ≡ entry)
        ⊎ ((items : Anys) × (get (coerced parse_float entry clauses) "having" ≡ array items))
  unfolding coerced
  coerced_cases entry none = inl refl
  coerced_cases entry (some clauses) =
      inr (clause_items clauses, get-set_self entry "having" (array (clause_items clauses)))

  coerce_expression_cases :
      (entry : Fields) (v : Any)
      → (coerce_expression parse_float entry v ≡ entry)
        ⊎ ((items : Anys) × (get (coerce_expression parse_float entry v) "having" ≡ array items))
  unfolding coerce_expression
  coerce_expression_cases entry (string s) = elim (Bool-cases (trim_space s == "")) [
    | inl e ↦ inr (end, rw e (get-set_self entry "having" (array end)))
    | inr e ↦ rw e (coerced_cases entry (parse_having_expression parse_float (trim_space s)))
  ]
  coerce_expression_cases entry (object m) = inl refl
  coerce_expression_cases entry nil = inl refl
  coerce_expression_cases entry (bool b) = inl refl
  coerce_expression_cases entry (integer t i) = inl refl
  coerce_expression_cases entry (float f) = inl refl
  coerce_expression_cases entry (number s) = inl refl
  coerce_expression_cases entry (array items) = inl refl

  coerce_value_cases :
      (entry : Fields) (v : Any)
      → (coerce_value parse_float entry v ≡ entry)
        ⊎ ((items : Anys) × (get (coerce_value parse_float entry v) "having" ≡ array items))
  unfolding coerce_value
  coerce_value_cases entry (object m) = coerce_expression_cases entry (get m "expression")
  coerce_value_cases entry nil = inl refl
  coerce_value_cases entry (bool b) = inl refl
  coerce_value_cases entry (integer t i) = inl refl
  coerce_value_cases entry (float f) = inl refl
  coerce_value_cases entry (number s) = inl refl
  coerce_value_cases entry (string s) = inl refl
  coerce_value_cases entry (array items) = inl refl

  coerce_having-again :
      (entry : Fields)
      → coerce_having parse_float (coerce_having parse_float entry)
        ≡ coerce_having parse_float entry
  unfolding coerce_having coerce_value
  coerce_having-again entry = elim (coerce_value_cases entry (get entry "having")) [
    | inl same ↦ ap (coerce_having parse_float) same
    | inr (items, e) ↦
        ap (coerce_value parse_float (coerce_value parse_float entry (get entry "having"))) e
  ]

  -- A second coercion of the having of queries or formulas changes nothing.
  pub coerce_having_in_query_maps-again :
      (entries : List Fields)
      → coerce_having_in_query_maps parse_float (coerce_having_in_query_maps parse_float entries)
        ≡ coerce_having_in_query_maps parse_float entries
  unfolding coerce_having_in_query_maps
  coerce_having_in_query_maps-again [] = refl
  coerce_having_in_query_maps-again (entry ∷ entries) =
      rw (coerce_having-again entry, coerce_having_in_query_maps-again entries)
