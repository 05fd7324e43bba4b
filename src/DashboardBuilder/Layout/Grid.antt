-- ===== src/DashboardBuilder/Layout/Grid.antt =====
-- The rectangles of the automatic layout: on the grid and apart.
use signoz_mcp_server.Base.{
  ℕ, ◌+◌, ◌≤◌, String, ◌≡◌, refl, ◌⊎◌, Bool, true, false, List, [], ◌∷◌, arith, All, map,
}
use mathlib.Core.Path.{ap₂}
use signoz_mcp_server.Base.Int.{pos, ◌+ℤ◌, ◌≤ℤ◌, ◌<ℤ◌}
use signoz_mcp_server.DashboardBuilder.Types.{LayoutItem, WidgetOrRow, grid_columns}
use signoz_mcp_server.DashboardBuilder.Layout.{compute_auto_layout}
use signoz_mcp_server.DashboardBuilder.Layout.Rows.{
  Spot, row, left, right, item_of, is_row, spot, next_bottom, next_free, rows_from,
}
use signoz_mcp_server.DashboardBuilder.Layout.Placement.{compute_auto_layout-rows_from}

-- No cell of the grid is in both.
abbrev pub Apart : LayoutItem → LayoutItem → Type 0
Apart a b = (a.x +ℤ a.w ≤ℤ b.x) ⊎ (b.x +ℤ b.w ≤ℤ a.x) ⊎ (a.y +ℤ a.h ≤ℤ b.y) ⊎ (b.y +ℤ b.h ≤ℤ a.y)

abbrev pub PairwiseApart : List LayoutItem → Type 0
PairwiseApart [] = Unit
PairwiseApart (a ∷ items) = All (Apart a) items × PairwiseApart items

pub record IsOnGrid (item : LayoutItem) : Type 0 where
  pub x_nonneg : pos 0 ≤ℤ item.x
  pub y_nonneg : pos 0 ≤ℤ item.y
  pub w_pos : pos 0 <ℤ item.w
  pub h_pos : pos 0 <ℤ item.h
  pub fits : item.x +ℤ item.w ≤ℤ grid_columns

item_of-IsOnGrid : (id : String) (s : Spot) → IsOnGrid (item_of id s)
unfolding ◌+ℤ◌
item_of-IsOnGrid id (row k) = ground arith
item_of-IsOnGrid id (left k) = ground arith
item_of-IsOnGrid id (right k) = ground arith

rows_from-IsOnGrid :
    (bottom : ℕ) (free : Bool) (ws : List WidgetOrRow) → All IsOnGrid (rows_from bottom free ws)
unfolding rows_from
rows_from-IsOnGrid bottom free [] = tt
rows_from-IsOnGrid bottom free (w ∷ ws) = (
  item_of-IsOnGrid w.id (spot bottom free (is_row w)),
  rows_from-IsOnGrid (next_bottom bottom free (is_row w)) (next_free free (is_row w)) ws,
)

-- An item that is placed above the bottom; where the right half of the last row is free, it is the
-- left half of that row or ends above the row.
abbrev Ends : ℕ → Spot → Type 0
Ends n (row k) = k + 1 ≤ n
Ends n (left k) = k + 6 ≤ n
Ends n (right k) = k + 6 ≤ n

abbrev IsPlaced : ℕ → Bool → Spot → Type 0
IsPlaced bottom false s = Ends bottom s
IsPlaced bottom true (row k) = k + 7 ≤ bottom
IsPlaced bottom true (left k) = (k + 6 ≡ bottom) ⊎ (k + 12 ≤ bottom)
IsPlaced bottom true (right k) = k + 12 ≤ bottom

Apart-spot :
    (a b : String) (s : Spot) (bottom : ℕ) (free rows : Bool)
    → (free ≡ true → 6 ≤ bottom)
    → IsPlaced bottom free s
    → Apart (item_of a s) (item_of b (spot bottom free rows))
unfolding ◌+ℤ◌
Apart-spot a b (row k) bottom true true room h = ground arith
Apart-spot a b (row k) bottom true false room h = ground (arith, room refl)
Apart-spot a b (row k) bottom false true room h = ground arith
Apart-spot a b (row k) bottom false false room h = ground arith
Apart-spot a b (left k) bottom true true room h = ground arith
Apart-spot a b (left k) bottom true false room h = ground (arith, room refl)
Apart-spot a b (left k) bottom false true room h = ground arith
Apart-spot a b (left k) bottom false false room h = ground arith
Apart-spot a b (right k) bottom true true room h = ground arith
Apart-spot a b (right k) bottom true false room h = ground (arith, room refl)
Apart-spot a b (right k) bottom false true room h = ground arith
Apart-spot a b (right k) bottom false false room h = ground arith

IsPlaced-next :
    (s : Spot) (bottom : ℕ) (free rows : Bool)
    → IsPlaced bottom free s
    → IsPlaced (next_bottom bottom free rows) (next_free free rows) s
IsPlaced-next (row k) bottom true true h = omega arith
IsPlaced-next (row k) bottom true false h = omega arith
IsPlaced-next (row k) bottom false true h = omega arith
IsPlaced-next (row k) bottom false false h = omega arith
IsPlaced-next (left k) bottom true true h = omega arith
IsPlaced-next (left k) bottom true false h = omega arith
IsPlaced-next (left k) bottom false true h = omega arith
IsPlaced-next (left k) bottom false false h = omega arith
IsPlaced-next (right k) bottom true true h = omega arith
IsPlaced-next (right k) bottom true false h = omega arith
IsPlaced-next (right k) bottom false true h = omega arith
IsPlaced-next (right k) bottom false false h = omega arith

IsPlaced-spot :
    (bottom : ℕ) (free rows : Bool)
    → (free ≡ true → 6 ≤ bottom)
    → IsPlaced (next_bottom bottom free rows) (next_free free rows) (spot bottom free rows)
IsPlaced-spot bottom true true room = omega arith
IsPlaced-spot bottom false true room = omega arith
IsPlaced-spot bottom true false room = omega (arith, room refl)
IsPlaced-spot bottom false false room = omega arith

room-next :
    (bottom : ℕ) (free rows : Bool) → next_free free rows ≡ true → 6 ≤ next_bottom bottom free rows
room-next bottom free true h = cc
room-next bottom true false h = cc
room-next bottom false false h = omega arith

Apart-rows_from :
    (a : String) (s : Spot) (bottom : ℕ) (free : Bool) (ws : List WidgetOrRow)
    → (free ≡ true → 6 ≤ bottom)
    → IsPlaced bottom free s
    → All (Apart (item_of a s)) (rows_from bottom free ws)
unfolding rows_from
Apart-rows_from a s bottom free [] room h = tt
Apart-rows_from a s bottom free (w ∷ ws) room h = (
  Apart-spot a w.id s bottom free (is_row w) room h,
  Apart-rows_from a s (next_bottom bottom free (is_row w)) (next_free free (is_row w)) ws
      (room-next bottom free (is_row w)) (IsPlaced-next s bottom free (is_row w) h),
)

rows_from-PairwiseApart :
    (bottom : ℕ) (free : Bool) (ws : List WidgetOrRow)
    → (free ≡ true → 6 ≤ bottom)
    → PairwiseApart (rows_from bottom free ws)
unfolding rows_from
rows_from-PairwiseApart bottom free [] room = tt
rows_from-PairwiseApart bottom free (w ∷ ws) room = (
  Apart-rows_from w.id _ _ _ ws (room-next bottom free (is_row w))
      (IsPlaced-spot bottom free (is_row w) room),
  rows_from-PairwiseApart (next_bottom bottom free (is_row w)) (next_free free (is_row w)) ws
      (room-next bottom free (is_row w)),
)

item_of-id : (id : String) (s : Spot) → (item_of id s).i ≡ id
item_of-id id (row k) = refl
item_of-id id (left k) = refl
item_of-id id (right k) = refl

rows_from-ids :
    (bottom : ℕ) (free : Bool) (ws : List WidgetOrRow)
    → map (λ item. item.i) (rows_from bottom free ws) ≡ map (λ w. w.id) ws
unfolding rows_from
rows_from-ids bottom free [] = refl
rows_from-ids bottom free (w ∷ ws) =
    ap₂ (λ i is. i ∷ is) (item_of-id w.id (spot bottom free (is_row w)))
      (rows_from-ids (next_bottom bottom free (is_row w)) (next_free free (is_row w)) ws)

-- The automatic layout has one item for each widget or row, with its id and in its place; every item
-- lies on the grid of twelve columns with a positive size, and no two of them overlap.
pub compute_auto_layout-PairwiseApart :
    (ws : List WidgetOrRow)
    → (map (λ item. item.i) (compute_auto_layout ws) ≡ map (λ w. w.id) ws)
      × All IsOnGrid (compute_auto_layout ws)
      × PairwiseApart (compute_auto_layout ws)
compute_auto_layout-PairwiseApart ws = rw compute_auto_layout-rows_from (
  rows_from-ids 0 false ws,
  rows_from-IsOnGrid 0 false ws,
  rows_from-PairwiseApart 0 false ws (λ h. cc),
)
