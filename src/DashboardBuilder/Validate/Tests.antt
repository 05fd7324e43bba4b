-- ===== src/DashboardBuilder/Validate/Tests.antt =====
-- Runs of the validation, and its theorems at the sample board.
use signoz_mcp_server.Base.{
  String, ◌≡◌, ◌↔◌, refl, Bool, true, [], ◌∷◌, map, All, arith, trim_space,
}
use signoz_mcp_server.Base.Int.{pos, ◌+ℤ◌}
use signoz_mcp_server.Base.Word.{wrap64}
use signoz_mcp_server.DashboardBuilder.Types.{DashboardData, LayoutItem}
use signoz_mcp_server.DashboardBuilder.Samples.{board, widget}
use signoz_mcp_server.DashboardBuilder.Layout.{item_at, compute_auto_layout}
use signoz_mcp_server.DashboardBuilder.Validate.{
  validate_widgets, validate_widgets_from, validate_widget, validate_widget_id, validate_layout,
  validate, validate_dashboard_level, validate_variables, validate_items_from, validate_item,
  validate_entries, validate_panel_map,
}
use signoz_mcp_server.DashboardBuilder.Validate.Queries.{validate_query}
use signoz_mcp_server.DashboardBuilder.Validate.AutoLayout.{validate_layout-compute_auto_layout}
use signoz_mcp_server.DashboardBuilder.Validate.Names.{Distinct}
use signoz_mcp_server.DashboardBuilder.Validate.Grid.{
  IsLayoutItem, HasEntry, validate_layout_iff, off_grid_accepted,
}

abbrev no_float : String → Bool
no_float s = true

board_is_valid : (validate_widgets no_float board).0 ≡ []
unfolding validate_widgets validate_widgets_from validate_widget validate_widget_id validate_query
    trim_space
board_is_valid = refl

validate_layout-compute_auto_layout_example :
    validate_layout (compute_auto_layout board) board (validate_widgets no_float board).1 ≡ []
validate_layout-compute_auto_layout_example =
    validate_layout-compute_auto_layout no_float board board_is_valid

abbrev first : LayoutItem
first = item_at "a" (pos 0) (pos 0) (pos 12) (pos 6)

validate_layout_iff_example :
    (validate_layout (first ∷ []) (widget "a" "graph" ∷ []) ("a" ∷ []) ≡ []) ↔ (
      All (IsLayoutItem ("a" ∷ [])) (first ∷ [])
      × Distinct (map (λ item. item.i) (first ∷ []))
      × All (HasEntry (map (λ item. item.i) (first ∷ []))) (widget "a" "graph" ∷ []))
validate_layout_iff_example = validate_layout_iff first [] (widget "a" "graph" ∷ []) ("a" ∷ [])

abbrev one_panel : DashboardData
one_panel = record {
  title = "t";
  description = "";
  tags = [];
  name = "";
  version = "";
  variables = [];
  widgets = widget "a" "graph" ∷ [];
  layout = first ∷ [];
  panel_map = [];
}

one_panel_is_valid : validate no_float one_panel ≡ []
unfolding validate validate_dashboard_level validate_variables validate_layout validate_items_from
    validate_item validate_entries validate_panel_map validate_widgets validate_widgets_from
    validate_widget validate_widget_id validate_query trim_space wrap64 ◌+ℤ◌
one_panel_is_valid = refl

off_grid_accepted_example :
    validate no_float
      (record one_panel { layout = record first { x = pos 9223372036854775807 } ∷ [] })
    ≡ []
off_grid_accepted_example =
    off_grid_accepted no_float one_panel first [] 9223372036854775807 12 refl one_panel_is_valid
      refl (omega arith) (omega arith) (omega arith)
