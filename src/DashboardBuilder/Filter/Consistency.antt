-- ===== src/DashboardBuilder/Filter/Consistency.antt =====
-- When a filter expression agrees with the filter items.
use signoz_mcp_server.Base.{
  String, ◌≡◌, ◌≢◌, ◌↔◌, ◌⊎◌, refl, true, ◌||◌, inl, inr, List, [], ◌∷◌, ◌==◌, eq_iff, arith, All,
  Bool-cases, trim_space, ◌<>◌,
}
use signoz_mcp_server.Base.Any.{Anys, Fields, end, item, get}
use signoz_mcp_server.DashboardBuilder.Errors.{Message, unless}
use signoz_mcp_server.DashboardBuilder.Filter.{
  string_of, fields_of, filter_items_slice, item_key, missing_keys, is_empty,
  contains_key_as_identifier, validate_filter_expression_consistency,
}
use signoz_mcp_server.DashboardBuilder.Filter.Identifier.{
  HasIdentifier, contains_key_as_identifier_iff,
}

abbrev pub item_keys : Anys → List String
item_keys end = []
item_keys (item it items) = item_key it ∷ item_keys items

abbrev pub filter_expression : Fields → String
filter_expression qd = string_of (get (fields_of (get qd "filter")) "expression")

abbrev pub filter_keys : Fields → List String
filter_keys qd = item_keys (filter_items_slice (get (fields_of (get qd "filters")) "items"))

missing_keys_sound :
    (expression : String) (items : Anys)
    → missing_keys expression items ≡ []
    → All (λ key. key ≢ "" → HasIdentifier expression key) (item_keys items)
unfolding missing_keys
missing_keys_sound expression end h = tt
missing_keys_sound expression (item it items) h =
    let key = item_key it in
    elim (Bool-cases (key == "" || contains_key_as_identifier expression key)) [
      | inl found ↦ (
        λ named.
            ((contains_key_as_identifier_iff expression key).0
              (let blank : (key == "") ≡ true → key ≡ "" = (eq_iff key "").0 in ground arith)).1,
        missing_keys_sound expression items (rw found at h),
      )
      | inr missing ↦ absurd (ground arith)
    ]

missing_keys_complete :
    (expression : String) (items : Anys)
    → All (λ key. key ≢ "" → HasIdentifier expression key) (item_keys items)
    → missing_keys expression items ≡ []
unfolding missing_keys
missing_keys_complete expression end h = refl
missing_keys_complete expression (item it items) (has, rest) =
    let key = item_key it in
    elim (Bool-cases (key == "")) [
      | inl blank ↦ rw (blank) (missing_keys_complete expression items rest)
      | inr filled ↦
          let named : key ≢ "" = (λ e. let e' = (eq_iff key "").1 e in cc) in
          let found = (contains_key_as_identifier_iff expression key).1 (named, has named) in
          rw (filled, found) (missing_keys_complete expression items rest)
    ]

unless_empty :
    (xs : List String) (field : String) (message : Message)
    → unless (is_empty xs) field message ≡ []
    → xs ≡ []
unless_empty [] field message h = refl
unless_empty (x ∷ xs) field message h = absurd cc

-- The check accepts a query exactly when its filter expression is blank, or every named key of the
-- filter items is an identifier of the expression.
pub validate_filter_expression_consistency_iff :
    (prefix : String) (qd : Fields)
    → (validate_filter_expression_consistency prefix qd ≡ []) ↔ (
        ((trim_space (filter_expression qd) == "") ≡ true)
        ⊎ All (λ key. key ≢ "" → HasIdentifier (filter_expression qd) key) (filter_keys qd))
unfolding validate_filter_expression_consistency
validate_filter_expression_consistency_iff prefix qd =
    let items = filter_items_slice (get (fields_of (get qd "filters")) "items") in
    elim (Bool-cases (trim_space (filter_expression qd) == "")) [
      | inl blank ↦ (λ h. inl blank, λ h. rw blank refl)
      | inr filled ↦ (
        λ h. inr (
            missing_keys_sound (filter_expression qd) items
              (unless_empty _ (prefix <> ".filter.expression") _ (rw filled at h))),
        λ h. rw filled (elim h [
          | inl blank ↦ absurd cc
          | inr all ↦ rw (missing_keys_complete (filter_expression qd) items all) refl
        ]),
      )
    ]
