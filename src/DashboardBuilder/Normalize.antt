-- ===== src/DashboardBuilder/Normalize.antt =====
-- pkg/dashboard/dashboardbuilder/normalize.go: what is healed in the queries of a panel before they are
-- validated. The code changes the maps in place; here a query is a value, and the changed one is the
-- result.
pub mod Keys
pub mod Again
pub mod Item
pub mod Items
pub mod Coerced
mod Tests
use Prim.Native.String
use signoz_mcp_server.Base.{
  String, Char, code, Bool, true, false, not, ◌&&◌, ◌||◌, Option, none, some, List, [], ◌∷◌, map,
  eqb, ◌==◌, ◌<>◌, if◌then◌else◌, trim_space, to_lower, to_upper,
}
use signoz_mcp_server.Base.Any.{
  Any, Anys, Fields, Float64, nil, bool, integer, float, number, string, array, object, end, item,
  field, done, get, set,
}
use signoz_mcp_server.Base.Strings.{cut_prefix, after_sep, has_prefix}
use signoz_mcp_server.DashboardBuilder.Types.{valid_dynamic_variable_sources}
use signoz_mcp_server.DashboardBuilder.Filter.{string_of}
use signoz_mcp_server.DashboardBuilder.Having.Clauses.{HavingClause, parse_having_expression}

-- The first of the valid sources that is the text in lower case.
pub matching_source : (lower : String) → List String → Option String
matching_source lower [] = none
matching_source lower (valid ∷ sources) =
    let later = matching_source lower sources in
    if to_lower valid == lower then some valid else later

pub or_else : String → Option String → String
or_else s none = s
or_else s (some t) = t

unfoldable pub canonical_dynamic_source : String → String
unfolding matching_source or_else
canonical_dynamic_source s =
    let lower = to_lower (trim_space s) in
    if s == ""
    then s
    else if lower == "all sources"
    then "All telemetry"
    else or_else s (matching_source lower valid_dynamic_variable_sources)

-- The changed items of an array; what is no map is left.
unfoldable pub map_items : (Fields → Fields) → Anys → Anys
map_items f end = end
map_items f (item (object m) items) = item (object (f m)) (map_items f items)
map_items f (item v items) = item v (map_items f items)

unfoldable pub with_items : (Fields → Fields) → (filters : Fields) → Any → Fields
with_items f filters (array items) = set filters "items" (array (map_items f items))
with_items f filters _ = filters

unfoldable pub with_filters : (Fields → Fields) → (entry : Fields) → Any → Fields
with_filters f entry (object filters) =
    set entry "filters" (object (with_items f filters (get filters "items")))
with_filters f entry _ = entry

-- The loops over the filter items of the queries or formulas.
unfoldable pub each_filter_item : (Fields → Fields) → List Fields → List Fields
each_filter_item f [] = []
each_filter_item f (entry ∷ entries) =
    with_filters f entry (get entry "filters") ∷ each_filter_item f entries

pub with_op : Fields → Any → Fields
with_op m (string op) = set m "op" (string (to_upper (trim_space op)))
with_op m _ = m

unfoldable pub uppercase_op : Fields → Fields
unfolding with_op
uppercase_op m = with_op m (get m "op")

unfoldable pub uppercase_filter_ops_in_query_maps : List Fields → List Fields
unfolding uppercase_op
uppercase_filter_ops_in_query_maps entries = each_filter_item uppercase_op entries

-- What is in front of the first `sep`; all of it if there is none.
unfoldable pub before_sep : (s sep : String) → String
before_sep String.[] sep = ""
before_sep (String.◌∷◌ c s) sep =
    let rest = String.◌∷◌ c (before_sep s sep) in
    elim (cut_prefix (String.◌∷◌ c s) sep) [ some after ↦ "" | none ↦ rest ]

pub is_some : Option String → Bool
is_some none = false
is_some (some s) = true

-- strings.Contains(id, "--")
unfoldable pub is_separated : String → Bool
unfolding is_some
is_separated id = is_some (after_sep id "--")

-- parts[1] of strings.Split(id, "--"), "" if there is one part only.
unfoldable pub second_part : String → String
second_part id = elim (after_sep id "--") [ none ↦ "" | some rest ↦ before_sep rest "--" ]

unfoldable pub filled_data_type : (data_type id name : String) → String
filled_data_type data_type id name =
    if not (data_type == "")
    then data_type
    else if not (second_part id == "")
    then second_part id
    else if not (name == "")
    then "string"
    else ""

-- The key with its data type, which is written only where it was missing and is known.
unfoldable pub with_data_type : Fields → (old new : String) → Fields
with_data_type key old new =
    if old == "" && not (new == "") then set key "dataType" (string new) else key

-- The key with its id, which is rebuilt only if it is malformed.
unfoldable pub with_id : Fields → (id name data_type type : String) → Fields
with_id key id name data_type type =
    if not (name == "") && (id == "" || not (is_separated id))
    then set key "id" (string (name <> ("--" <> (data_type <> ("--" <> type)))))
    else key

unfoldable pub normalize_key : Fields → Fields
normalize_key key =
    let name = string_of (get key "key") in
    let old = string_of (get key "dataType") in
    let id = string_of (get key "id") in
    let new = filled_data_type old id name in
    with_id (with_data_type key old new) id name new (string_of (get key "type"))

unfoldable pub with_key : Fields → Any → Fields
with_key m (object key) = set m "key" (object (normalize_key key))
with_key m _ = m

-- ["$var"] as "$var".
unfoldable pub unwrap_variable : Any → Any
unwrap_variable (array (item (string s) end)) =
    if has_prefix s "$" then string s else array (item (string s) end)
unwrap_variable v = v

unfoldable pub with_value : Fields → Any → Fields
with_value m (array items) = set m "value" (unwrap_variable (array items))
with_value m _ = m

unfoldable pub normalize_filter_item : Fields → Fields
normalize_filter_item m = with_value (with_key m (get m "key")) (get m "value")

unfoldable pub normalize_filter_items_in_query_maps : List Fields → List Fields
normalize_filter_items_in_query_maps entries = each_filter_item normalize_filter_item entries

-- The map that parseHavingClause returns for a clause.
abbrev pub clause_object : HavingClause → Any
clause_object c = object (
    field "columnName" (string c.column_name)
      (field "op" (string c.op) (field "value" c.value done)))

abbrev pub clause_items : List HavingClause → Anys
clause_items [] = end
clause_items (c ∷ cs) = item (clause_object c) (clause_items cs)

module _ (parse_float : String → Option Float64) where
  pub coerced : (entry : Fields) → Option (List HavingClause) → Fields
  coerced entry none = entry
  coerced entry (some clauses) = set entry "having" (array (clause_items clauses))

  pub coerce_expression : (entry : Fields) → Any → Fields
  unfolding coerced
  coerce_expression entry (string s) =
      let trimmed = trim_space s in
      if trimmed == ""
      then set entry "having" (array end)
      else coerced entry (parse_having_expression parse_float trimmed)
  coerce_expression entry _ = entry

  -- Only the shape { expression: "..." } is rewritten.
  pub coerce_value : (entry : Fields) → Any → Fields
  unfolding coerce_expression
  coerce_value entry (object m) = coerce_expression entry (get m "expression")
  coerce_value entry _ = entry

  unfoldable pub coerce_having : Fields → Fields
  unfolding coerce_value
  coerce_having entry = coerce_value entry (get entry "having")

  unfoldable pub coerce_having_in_query_maps : List Fields → List Fields
  coerce_having_in_query_maps entries = map coerce_having entries
