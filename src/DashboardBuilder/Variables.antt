-- ===== src/DashboardBuilder/Variables.antt =====
-- The variables in ApplyDefaults and applyBuilderDefaults: pkg/dashboard/dashboardbuilder/defaults.go.
-- The random id of a variable is a function of its key, since the loop meets a key once; the list is
-- in the order of the iteration.
mod Orders
mod Tests
use signoz_mcp_server.Base.{
  String, Bool, true, false, not, ◌&&◌, Option, none, some, List, [], ◌∷◌, ◌==◌, if◌then◌else◌,
}
use signoz_mcp_server.Base.Int.{ℤ, pos, ◌+ℤ◌, leb_ℤ}
use signoz_mcp_server.Base.Word.{wrap64}
use signoz_mcp_server.DashboardBuilder.Types.{Map, DashboardVariable}
use signoz_mcp_server.DashboardBuilder.Errors.{is_one_of}

abbrev pub or_set : String → String → String
or_set s default = if s == "" then default else s

-- The order that the variable gets, and the next one.
pub next_order : ℤ → Option ℤ → ℤ × ℤ
next_order order none = (order, wrap64 (order +ℤ pos 1))
next_order order (some o) = (o, if leb_ℤ order o then wrap64 (o +ℤ pos 1) else order)

-- A set that is nil does not default the flag.
pub default_flag : Option (List String) → (key type : String) → Bool → Bool
default_flag none key type flag = flag
default_flag (some set) key type flag =
    if type == "DYNAMIC" && not (is_one_of key set) then true else flag

module _ (new_id : String → String) (multi_select_set show_all_set : Option (List String)) where
  pub variable_defaults : String → ℤ → DashboardVariable → DashboardVariable
  variable_defaults key order v =
      let type = or_set v.type "DYNAMIC" in
      record {
        id = or_set v.id (new_id key);
        name = or_set v.name key;
        description = v.description;
        type = type;
        query_value = v.query_value;
        custom_value = v.custom_value;
        textbox_value = v.textbox_value;
        sort = or_set v.sort (if type == "DYNAMIC" then "ASC" else "DISABLED");
        multi_select = default_flag multi_select_set key type v.multi_select;
        show_all_option = default_flag show_all_set key type v.show_all_option;
        selected_value = v.selected_value;
        default_value = v.default_value;
        dynamic_variables_attribute = v.dynamic_variables_attribute;
        dynamic_variables_source = v.dynamic_variables_source;
        order = some ((next_order order v.order).0);
      }

  pub apply_variable_defaults : ℤ → Map DashboardVariable → Map DashboardVariable
  apply_variable_defaults order [] = []
  apply_variable_defaults order ((key, v) ∷ vars) =
      (key, variable_defaults key order v)
      ∷ apply_variable_defaults ((next_order order v.order).1) vars

-- ApplyDefaults, and applyBuilderDefaults, which defaults no flag.
pub default_variables :
    (new_id : String → String) (multi_select_set show_all_set : Option (List String))
    → Map DashboardVariable
    → Map DashboardVariable
default_variables new_id multi_select_set show_all_set vars =
    apply_variable_defaults new_id multi_select_set show_all_set (pos 0) vars

pub builder_default_variables :
    (new_id : String → String) → Map DashboardVariable → Map DashboardVariable
builder_default_variables new_id vars = apply_variable_defaults new_id none none (pos 0) vars
