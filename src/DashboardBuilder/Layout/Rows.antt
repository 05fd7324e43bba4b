-- ===== src/DashboardBuilder/Layout/Rows.antt =====
-- A description of the automatic layout by rows: a widget takes the right half of the last row if
-- that holds one widget alone, and else the left half of a new row.
use signoz_mcp_server.Base.{ℕ, ◌+◌, ◌-◌, String, Bool, true, false, List, [], ◌∷◌, ◌==◌}
use signoz_mcp_server.Base.Int.{pos}
use signoz_mcp_server.DashboardBuilder.Types.{LayoutItem, WidgetOrRow, panel_type_row}
use signoz_mcp_server.DashboardBuilder.Layout.{item_at}

-- A full row, or a half of a row of widgets, by its top.
pub data Spot : Type 0 where
  row left right : ℕ → Spot

abbrev pub item_of : String → Spot → LayoutItem
item_of id (row top) = item_at id (pos 0) (pos top) (pos 12) (pos 1)
item_of id (left top) = item_at id (pos 0) (pos top) (pos 6) (pos 6)
item_of id (right top) = item_at id (pos 6) (pos top) (pos 6) (pos 6)

abbrev pub is_row : WidgetOrRow → Bool
is_row w = w.panel_types == panel_type_row

-- Where the next item goes, by the bottom of what is placed, whether the right half of the last row
-- is free, and whether the item is a row; and the bottom and the free half after it.
abbrev pub spot : ℕ → Bool → Bool → Spot
spot bottom free true = row bottom
spot bottom true false = right (bottom - 6)
spot bottom false false = left bottom

abbrev pub next_bottom : ℕ → Bool → Bool → ℕ
next_bottom bottom free true = bottom + 1
next_bottom bottom true false = bottom
next_bottom bottom false false = bottom + 6

abbrev pub next_free : Bool → Bool → Bool
next_free free true = false
next_free true false = false
next_free false false = true

unfoldable pub rows_from : ℕ → Bool → List WidgetOrRow → List LayoutItem
rows_from bottom free [] = []
rows_from bottom free (w ∷ ws) =
    item_of w.id (spot bottom free (is_row w))
    ∷ rows_from (next_bottom bottom free (is_row w)) (next_free free (is_row w)) ws
