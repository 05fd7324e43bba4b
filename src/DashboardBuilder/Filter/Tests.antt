-- ===== src/DashboardBuilder/Filter/Tests.antt =====
-- Runs of the filter check, and its theorems at one query.

use signoz_mcp_server.Base.{
  String, ◌≡◌, ◌≢◌, ◌↔◌, ◌⊎◌, refl, true, false, ◌==◌, [], All, trim_space,
}
use signoz_mcp_server.Base.Any.{Fields, string, array, object, end, item, field, done}
use signoz_mcp_server.DashboardBuilder.Filter.{
  contains_key_as_identifier, contains_from, index, is_attribute_name_byte,
  validate_filter_expression_consistency,
}
use signoz_mcp_server.DashboardBuilder.Filter.Identifier.{
  HasIdentifier, contains_key_as_identifier_iff,
}
use signoz_mcp_server.DashboardBuilder.Filter.Consistency.{
  filter_expression, filter_keys, validate_filter_expression_consistency_iff,
}

abbrev qd : Fields
qd = field "filter" (object (field "expression" (string "k8s.ns = 'a' AND ns = 'b'") done)) (
    field "filters"
      (object (
        field "items"
          (array (item (object (field "key" (object (field "key" (string "ns") done)) done)) end))
          done))
      done)

contains_runs :
    (contains_key_as_identifier "k8s.ns = 'a' AND ns = 'b'" "ns" ≡ true)
    × (contains_key_as_identifier "service.name_v2 = 1" "service.name" ≡ false)
unfolding contains_key_as_identifier contains_from index is_attribute_name_byte
contains_runs = (refl, refl)

contains_key_as_identifier_iff_example :
    (contains_key_as_identifier "k8s.ns = 'a' AND ns = 'b'" "ns" ≡ true)
    ↔ ((◌≢◌ {A = String} "ns" "") × HasIdentifier "k8s.ns = 'a' AND ns = 'b'" "ns")
contains_key_as_identifier_iff_example =
    contains_key_as_identifier_iff "k8s.ns = 'a' AND ns = 'b'" "ns"

validate_filter_expression_consistency_iff_example :
    (validate_filter_expression_consistency "q" qd ≡ []) ↔ (
      ((trim_space (filter_expression qd) == "") ≡ true)
      ⊎ All (λ key. key ≢ "" → HasIdentifier (filter_expression qd) key) (filter_keys qd))
validate_filter_expression_consistency_iff_example =
    validate_filter_expression_consistency_iff "q" qd
