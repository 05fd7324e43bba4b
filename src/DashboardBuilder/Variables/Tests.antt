-- ===== src/DashboardBuilder/Variables/Tests.antt =====
-- The theorems on the variables' defaults at two variables.

use signoz_mcp_server.Base.{String, ◌≡◌, refl, false, Option, none, some, [], ◌∷◌}
use signoz_mcp_server.Base.Int.{ℤ, pos}
use signoz_mcp_server.Base.Any.{nil}
use signoz_mcp_server.DashboardBuilder.Types.{Map, DashboardVariable}
use signoz_mcp_server.DashboardBuilder.Variables.{default_variables}
use signoz_mcp_server.DashboardBuilder.Validate.{contains_space}
use signoz_mcp_server.DashboardBuilder.Variables.Orders.{orders, default_variables_collide}

abbrev with_order : Option ℤ → DashboardVariable
with_order o = record {
  id = "";
  name = "";
  description = "";
  type = "";
  query_value = "";
  custom_value = "";
  textbox_value = "";
  sort = "";
  multi_select = false;
  show_all_option = false;
  selected_value = nil;
  default_value = "";
  dynamic_variables_attribute = "";
  dynamic_variables_source = "";
  order = o;
}

abbrev new_id : String → String
new_id key = "id"

abbrev two : Map DashboardVariable
two = ("env", with_order none) ∷ ("host", with_order none) ∷ []

no_space : contains_space "env" ≡ false
unfolding contains_space
no_space = refl

default_variables_collide_example :
    (orders (
        default_variables new_id none none
          (("env", with_order none) ∷ ("host", with_order (some (pos 0))) ∷ []))
      ≡ some (pos 0) ∷ some (pos 0) ∷ [])
    × (orders (
          default_variables new_id none none
            (("host", with_order (some (pos 0))) ∷ ("env", with_order none) ∷ []))
        ≡ some (pos 0) ∷ some (pos 1) ∷ [])
default_variables_collide_example =
    default_variables_collide new_id none none "env" "host" (with_order none)
      (with_order (some (pos 0))) refl refl
