-- ===== src/DashboardBuilder/Normalize/Tests.antt =====
-- Runs of the normalisation of queries.
use signoz_mcp_server.Base.{
  String, ◌≡◌, refl, Option, none, [], ◌∷◌, trim_space, to_lower, to_upper,
}
use signoz_mcp_server.Base.Any.{
  Fields, Float64, string, array, object, end, item, field, done, get, set,
}
use signoz_mcp_server.Base.Strings.{cut_prefix, after_sep, has_prefix}
use signoz_mcp_server.DashboardBuilder.Normalize.{
  canonical_dynamic_source, normalize_filter_items_in_query_maps, normalize_filter_item,
  each_filter_item, with_filters, with_items, map_items, with_key, with_value, normalize_key,
  with_data_type, with_id, filled_data_type, second_part, is_separated, unwrap_variable,
  uppercase_filter_ops_in_query_maps, uppercase_op,
}
use signoz_mcp_server.DashboardBuilder.Normalize.Items.{normalize_filter_items_in_query_maps-again}

abbrev node_key : Fields
node_key = field "key" (string "k8s.node.name") (field "id" (string "k8s.node.name") done)

abbrev one_item : Fields → Fields
one_item m =
    field "having" (object (field "expression" (string "  ") done))
      (field "filters" (object (field "items" (array (item (object m) end)) done)) done)

abbrev node_entry : Fields
node_entry = one_item (
    field "key" (object node_key)
      (field "op" (string " in ") (field "value" (array (item (string "$node") end)) done)))

abbrev healed_key : Fields
healed_key =
    field "key" (string "k8s.node.name")
      (field "id" (string "k8s.node.name--string--") (field "dataType" (string "string") done))

heals :
    normalize_filter_items_in_query_maps (node_entry ∷ [])
    ≡ one_item (
        field "key"
          (object healed_key)
          (field "op" (string " in ") (field "value" (string "$node") done)))
      ∷ []
unfolding normalize_filter_items_in_query_maps normalize_filter_item each_filter_item with_filters
    with_items map_items with_key with_value normalize_key with_data_type with_id filled_data_type
    second_part is_separated unwrap_variable get set cut_prefix after_sep has_prefix
heals = refl

raises :
    uppercase_filter_ops_in_query_maps (node_entry ∷ [])
    ≡ one_item (
        field "key"
          (object node_key)
          (field "op" (string "IN") (field "value" (array (item (string "$node") end)) done)))
      ∷ []
unfolding uppercase_filter_ops_in_query_maps uppercase_op each_filter_item with_filters with_items
    map_items get set to_upper trim_space
raises = refl

legacy_alias : canonical_dynamic_source " All Sources " ≡ "All telemetry"
unfolding canonical_dynamic_source to_lower trim_space
legacy_alias = refl

abbrev parse_float : String → Option Float64
parse_float s = none

normalize_filter_items_in_query_maps-again_example :
    normalize_filter_items_in_query_maps (normalize_filter_items_in_query_maps (node_entry ∷ []))
    ≡ normalize_filter_items_in_query_maps (node_entry ∷ [])
normalize_filter_items_in_query_maps-again_example =
    normalize_filter_items_in_query_maps-again (node_entry ∷ [])
