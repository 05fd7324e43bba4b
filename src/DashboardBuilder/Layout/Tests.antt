-- ===== src/DashboardBuilder/Layout/Tests.antt =====
-- A run of the layout, and the theorems at a list of widgets.
use signoz_mcp_server.Base.{◌≡◌, refl, false, [], ◌∷◌, All, map}
use signoz_mcp_server.Base.Int.{pos, ◌+ℤ◌, ◌-ℤ◌}
use signoz_mcp_server.DashboardBuilder.Samples.{board}
use signoz_mcp_server.DashboardBuilder.Layout.{
  compute_auto_layout, layout_from, place, place_row, place_widget_at_bottom, max_bottom,
  max_bottom_from, max_right_from, item_at,
}
use signoz_mcp_server.DashboardBuilder.Layout.Placement.{compute_auto_layout-rows_from}
use signoz_mcp_server.DashboardBuilder.Layout.Rows.{rows_from}
use signoz_mcp_server.DashboardBuilder.Layout.Grid.{
  IsOnGrid, PairwiseApart, compute_auto_layout-PairwiseApart,
}

layout_runs :
    compute_auto_layout board
    ≡ item_at "a" (pos 0) (pos 0) (pos 6) (pos 6)
      ∷ item_at "r" (pos 0) (pos 6) (pos 12) (pos 1)
      ∷ item_at "b" (pos 0) (pos 7) (pos 6) (pos 6)
      ∷ item_at "c" (pos 6) (pos 7) (pos 6) (pos 6)
      ∷ item_at "d" (pos 0) (pos 13) (pos 6) (pos 6)
      ∷ []
unfolding compute_auto_layout layout_from place place_row place_widget_at_bottom max_bottom
    max_bottom_from max_right_from ◌+ℤ◌ ◌-ℤ◌
layout_runs = refl

compute_auto_layout-rows_from_example : compute_auto_layout board ≡ rows_from 0 false board
compute_auto_layout-rows_from_example = compute_auto_layout-rows_from board

compute_auto_layout-PairwiseApart_example :
    (map (λ item. item.i) (compute_auto_layout board) ≡ map (λ w. w.id) board)
    × All IsOnGrid (compute_auto_layout board)
    × PairwiseApart (compute_auto_layout board)
compute_auto_layout-PairwiseApart_example = compute_auto_layout-PairwiseApart board
