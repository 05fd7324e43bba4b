-- ===== src/QueryBuilder/Orders/Ordered.antt =====
-- An order that is accepted, or filled in, sorts by something.
use signoz_mcp_server.Base.{
  ℕ, suc, String, ◌≡◌, ◌⊎◌, inl, inr, refl, Bool, true, false, not, ◌&&◌, List, [], ◌∷◌, ◌==◌,
  if◌then◌else◌, Bool-cases, arith,
}
use signoz_mcp_server.QueryBuilder.{Order, QuerySpec, QueryError, Checked, accepted, refused}
use signoz_mcp_server.QueryBuilder.Aliases.{primary_aggregation_expression}
use signoz_mcp_server.QueryBuilder.Orders.{
  aggregate_order, default_order_for_query, authored, is_direction, onto_order,
  validate_authored_from, validate_authored_order, effective_order, is_empty_order,
}

-- Every entry has a key and a direction.
unfoldable pub are_ordered : List Order → Bool
are_ordered [] = true
are_ordered (o ∷ order) = not (o.key.name == "") && is_direction o.direction && are_ordered order

-- An order that sorts by something.
unfoldable pub is_ordering : List Order → Bool
is_ordering order = not (is_empty_order order) && are_ordered order

-- A result that passes a test, or none.
unfoldable pub passes : {A : Type 0} → (A → Bool) → Checked A → Bool
passes test (refused e) = true
passes test (accepted a) = test a

passes-if :
    {A : Type 0} (test : A → Bool) (b : Bool) (x y : Checked A)
    → passes test x ≡ true
    → passes test y ≡ true
    → passes test (if b then x else y) ≡ true
passes-if test true x y h k = h
passes-if test false x y h k = k

aggregate_order-passes :
    (index : ℕ) (expression : String) → passes is_ordering (aggregate_order index expression) ≡ true
unfolding passes aggregate_order is_ordering are_ordered is_empty_order
aggregate_order-passes index expression = elim (Bool-cases (expression == "")) [
  | inl e ↦ rw e
  | inr e ↦ rw (e, passes, is_ordering, are_ordered, is_empty_order, e)
]

pub default_order-passes :
    (spec : QuerySpec) (request_type : String) (index : ℕ)
    → passes is_ordering (default_order_for_query spec request_type index) ≡ true
unfolding default_order_for_query passes is_ordering are_ordered is_empty_order
default_order-passes spec request_type index =
    let expression = primary_aggregation_expression spec.aggregations in
    search (passes-if is_ordering, aggregate_order-passes index expression)

onto_order-passes :
    (o : Order) (rest : Checked (List Order))
    → (not (o.key.name == "") && is_direction o.direction) ≡ true
    → passes are_ordered rest ≡ true
    → passes are_ordered (onto_order o rest) ≡ true
unfolding passes onto_order are_ordered
onto_order-passes o (refused e) h k = refl
onto_order-passes o (accepted order) h k = ground arith

authored-passes :
    (index order_index : ℕ) (order : List Order)
    → passes are_ordered (validate_authored_from index order_index order) ≡ true
unfolding passes validate_authored_from are_ordered
authored-passes index order_index [] = refl
authored-passes index order_index (o ∷ order) =
    let later = authored-passes index (suc order_index) order in
    elim (Bool-cases ((authored o).key.name == "")) [
      | inl e ↦ rw (e, passes)
      | inr e ↦ elim (Bool-cases (is_direction (authored o).direction)) [
        | inr f ↦ rw (e, f, passes)
        | inl f ↦
            rw (e, f)
              (onto_order-passes (authored o) (validate_authored_from index (suc order_index) order)
                (rw (e, f)) later)
      ]
    ]

-- What is authored is not empty.
onto_order-nonempty :
    (o : Order) (rest : Checked (List Order))
    → passes are_ordered (onto_order o rest) ≡ true
    → passes is_ordering (onto_order o rest) ≡ true
unfolding passes onto_order is_ordering is_empty_order
onto_order-nonempty o (refused e) h = refl
onto_order-nonempty o (accepted order) h = h

validate_authored_order-passes :
    (index : ℕ) (o : Order) (order : List Order)
    → passes is_ordering (validate_authored_order index (o ∷ order)) ≡ true
unfolding validate_authored_order validate_authored_from passes
validate_authored_order-passes index o order =
    let all = authored-passes index 0 (o ∷ order) in
    let rest = validate_authored_from index 1 order in
    elim (Bool-cases ((authored o).key.name == "")) [
      | inl e ↦ rw (e, passes)
      | inr e ↦ elim (Bool-cases (is_direction (authored o).direction)) [
        | inr f ↦ rw (e, f, passes)
        | inl f ↦ rw (e, f) (onto_order-nonempty (authored o) rest (rw (e, f) at all))
      ]
    ]

pub effective_order-passes :
    (index : ℕ) (default : Checked (List Order)) (order : List Order)
    → passes is_ordering default ≡ true
    → passes is_ordering (effective_order index default order) ≡ true
unfolding effective_order
effective_order-passes index default [] h = h
effective_order-passes index default (o ∷ order) h = validate_authored_order-passes index o order

pub Checked-cases :
    {A : Type 0} (r : Checked A)
    → ((e : QueryError) × (r ≡ refused e)) ⊎ ((a : A) × (r ≡ accepted a))
Checked-cases (refused e) = inl (e, refl)
Checked-cases (accepted a) = inr (a, refl)
