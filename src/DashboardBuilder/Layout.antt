-- ===== src/DashboardBuilder/Layout.antt =====
-- pkg/dashboard/dashboardbuilder/layout.go. Coordinates are integers without a bound.
mod Rows
mod Placement
pub mod Grid
mod Tests
use signoz_mcp_server.Base.{String, Bool, List, [], ◌∷◌, ◌++◌, false, ◌==◌, if◌then◌else◌}
use signoz_mcp_server.Base.Int.{ℤ, pos, ◌+ℤ◌, ◌-ℤ◌, ltb_ℤ, leb_ℤ, eqb_ℤ}
use signoz_mcp_server.DashboardBuilder.Types.{
  LayoutItem, WidgetOrRow, panel_type_row, grid_columns, default_widget_width,
  default_widget_height, row_width, row_height,
}

-- The loop of `maxBottom`.
max_bottom_from : ℤ → List LayoutItem → ℤ
max_bottom_from m [] = m
max_bottom_from m (item ∷ items) =
    let bottom = item.y +ℤ item.h in max_bottom_from (if ltb_ℤ m bottom then bottom else m) items

max_bottom : List LayoutItem → ℤ
max_bottom items = max_bottom_from (pos 0) items

-- The loop over the items whose bottom edge is `max_y`.
max_right_from : ℤ → ℤ → List LayoutItem → ℤ
max_right_from max_y max_x [] = max_x
max_right_from max_y max_x (item ∷ items) =
    let right = item.x +ℤ item.w in
    max_right_from max_y
      (if eqb_ℤ (item.y +ℤ item.h) max_y
        then (if ltb_ℤ max_x right then right else max_x)
        else max_x)
      items

abbrev pub item_at : String → (x y w h : ℤ) → LayoutItem
item_at i x y w h = record { i = i; x = x; y = y; w = w; h = h; moved = false; static = false }

place_widget_at_bottom : String → List LayoutItem → LayoutItem
place_widget_at_bottom widget_id [] =
    item_at widget_id (pos 0) (pos 0) default_widget_width default_widget_height
place_widget_at_bottom widget_id (item ∷ items) =
    let existing = item ∷ items in
    let max_y = max_bottom existing in
    let max_x = max_right_from max_y (pos 0) existing in
    if leb_ℤ (max_x +ℤ default_widget_width) grid_columns
    then item_at widget_id max_x (max_y -ℤ default_widget_height) default_widget_width
        default_widget_height
    else item_at widget_id (pos 0) max_y default_widget_width default_widget_height

place_row : String → List LayoutItem → LayoutItem
place_row row_id existing = item_at row_id (pos 0) (max_bottom existing) row_width row_height

place : WidgetOrRow → List LayoutItem → LayoutItem
place w layout =
    if w.panel_types == panel_type_row
    then place_row w.id layout
    else place_widget_at_bottom w.id layout

-- The loop of `ComputeAutoLayout`.
layout_from : List LayoutItem → List WidgetOrRow → List LayoutItem
layout_from layout [] = layout
layout_from layout (w ∷ widgets) = layout_from (layout ++ place w layout ∷ []) widgets

pub compute_auto_layout : List WidgetOrRow → List LayoutItem
compute_auto_layout widgets = layout_from [] widgets
