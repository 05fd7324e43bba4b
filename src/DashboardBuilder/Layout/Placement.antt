-- ===== src/DashboardBuilder/Layout/Placement.antt =====
-- The automatic layout, item by item, against the description by rows.
use signoz_mcp_server.Base.{
  ℕ, ◌+◌, ◌-◌, ◌≤◌, String, ◌≡◌, refl, ◌∙◌, sym, ap, inl, inr, Bool, true, false, List, [], ◌∷◌,
  ◌++◌, arith, if◌then◌else◌, Bool-cases,
}
use mathlib.Core.List.{append-nil, append_assoc}
use signoz_mcp_server.Base.Int.{ℤ, pos, ◌+ℤ◌, ◌-ℤ◌, ◌≤ℤ◌, ◌<ℤ◌, ltb_ℤ, eqb_ℤ}
use signoz_mcp_server.DashboardBuilder.Types.{LayoutItem, WidgetOrRow}
use signoz_mcp_server.DashboardBuilder.Layout.{
  max_bottom_from, max_bottom, max_right_from, place_widget_at_bottom, place_row, place,
  layout_from, compute_auto_layout,
}
use signoz_mcp_server.DashboardBuilder.Layout.Rows.{
  row, left, right, item_of, is_row, spot, next_bottom, next_free, rows_from,
}

abbrev max_ℤ : ℤ → ℤ → ℤ
max_ℤ m b = if ltb_ℤ m b then b else m

bottom_of : LayoutItem → ℤ
bottom_of item = item.y +ℤ item.h

max_bottom_from-append :
    (m : ℤ) (items : List LayoutItem) (item : LayoutItem)
    → max_bottom_from m (items ++ item ∷ []) ≡ max_ℤ (max_bottom_from m items) (bottom_of item)
unfolding max_bottom_from bottom_of
max_bottom_from-append m [] item = refl
max_bottom_from-append m (i ∷ items) item = max_bottom_from-append (max_ℤ m (i.y +ℤ i.h)) items item

max_bottom_from-le : (m : ℤ) (items : List LayoutItem) → m ≤ℤ max_bottom_from m items
unfolding max_bottom_from
max_bottom_from-le m [] = omega arith
max_bottom_from-le m (i ∷ items) = ground (arith, max_bottom_from-le (max_ℤ m (i.y +ℤ i.h)) items)

right_step : ℤ → ℤ → LayoutItem → ℤ
right_step max_y max_x item =
    if eqb_ℤ (bottom_of item) max_y then max_ℤ max_x (item.x +ℤ item.w) else max_x

max_right_from-append :
    (max_y max_x : ℤ) (items : List LayoutItem) (item : LayoutItem)
    → max_right_from max_y max_x (items ++ item ∷ [])
      ≡ right_step max_y (max_right_from max_y max_x items) item
unfolding max_right_from right_step bottom_of
max_right_from-append max_y max_x [] item = refl
max_right_from-append max_y max_x (i ∷ items) item =
    max_right_from-append max_y (right_step max_y max_x i) items item

-- Nothing ends on an edge that is below every item.
max_right_from_below :
    (m max_y max_x : ℤ) (items : List LayoutItem)
    → max_bottom_from m items <ℤ max_y
    → max_right_from max_y max_x items ≡ max_x
unfolding max_right_from max_bottom_from
max_right_from_below m max_y max_x [] h = refl
max_right_from_below m max_y max_x (i ∷ items) h =
    let b = i.y +ℤ i.h in
    let le : max_ℤ m b ≤ℤ max_bottom_from (max_ℤ m b) items =
      max_bottom_from-le (max_ℤ m b) items in
    let off : eqb_ℤ b max_y ≡ false = ground (arith, le) in
    rw off (max_right_from_below (max_ℤ m b) max_y max_x items h)

pos-add : (a b : ℕ) → pos a +ℤ pos b ≡ pos (a + b)
unfolding ◌+ℤ◌
pos-add a b = ground arith

pos-sub : (a b : ℕ) → b ≤ a → pos a -ℤ pos b ≡ pos (a - b)
unfolding ◌-ℤ◌
pos-sub a b h = ground arith

abbrev edge : Bool → ℤ
edge true = pos 6
edge false = pos 12

-- What the scans of a layout find.
record Sees (bottom : ℕ) (free : Bool) (layout : List LayoutItem) : Type 0 where
  lowest : max_bottom layout ≡ pos bottom
  right_edge : max_right_from (pos bottom) (pos 0) layout ≡ edge free
  room : free ≡ true → 6 ≤ bottom

not-Sees-nil : (bottom : ℕ) (free : Bool) → Sees bottom free [] → ⊥
unfolding max_right_from
not-Sees-nil bottom true s = ground arith
not-Sees-nil bottom false s = ground arith

place-row :
    (w : WidgetOrRow) (layout : List LayoutItem)
    → is_row w ≡ true
    → place w layout ≡ place_row w.id layout
unfolding place
place-row w layout h = rw h

place-widget :
    (w : WidgetOrRow) (layout : List LayoutItem)
    → is_row w ≡ false
    → place w layout ≡ place_widget_at_bottom w.id layout
unfolding place
place-widget w layout h = rw h

place_row-spot :
    (id : String) (bottom : ℕ) (free : Bool) (layout : List LayoutItem)
    → Sees bottom free layout
    → place_row id layout ≡ item_of id (spot bottom free true)
unfolding place_row
place_row-spot id bottom free layout s = rw s.lowest

place_widget-spot :
    (id : String) (bottom : ℕ) (free : Bool) (layout : List LayoutItem)
    → Sees bottom free layout
    → place_widget_at_bottom id layout ≡ item_of id (spot bottom free false)
unfolding place_widget_at_bottom
place_widget-spot id bottom free [] s = absurd (not-Sees-nil bottom free s)
place_widget-spot id bottom true (i ∷ layout) s =
    rw (s.lowest, s.right_edge, pos-add, pos-sub bottom 6 (s.room refl))
place_widget-spot id bottom false (i ∷ layout) s = rw (s.lowest, s.right_edge, pos-add)

Sees-row :
    (id : String) (bottom : ℕ) (free : Bool) (layout : List LayoutItem)
    → Sees bottom free layout
    → Sees (bottom + 1) false (layout ++ item_of id (row bottom) ∷ [])
unfolding max_bottom bottom_of right_step
Sees-row id bottom free layout s = record {
  lowest =
      max_bottom_from-append (pos 0) layout (item_of id (row bottom))
      ∙ rw (s.lowest, pos-add) (ground arith);
  right_edge =
      max_right_from-append (pos (bottom + 1)) (pos 0) layout (item_of id (row bottom))
      ∙ rw
          (
            max_right_from_below (pos 0) (pos (bottom + 1)) (pos 0) layout
                (rw s.lowest (omega arith)),
            pos-add,
            pos-add,
          )
          (ground arith);
  room = λ h. cc;
}

Sees-left :
    (id : String) (bottom : ℕ) (layout : List LayoutItem)
    → Sees bottom false layout
    → Sees (bottom + 6) true (layout ++ item_of id (left bottom) ∷ [])
unfolding max_bottom bottom_of right_step
Sees-left id bottom layout s = record {
  lowest =
      max_bottom_from-append (pos 0) layout (item_of id (left bottom))
      ∙ rw (s.lowest, pos-add) (ground arith);
  right_edge =
      max_right_from-append (pos (bottom + 6)) (pos 0) layout (item_of id (left bottom))
      ∙ rw
          (
            max_right_from_below (pos 0) (pos (bottom + 6)) (pos 0) layout
                (rw s.lowest (omega arith)),
            pos-add,
            pos-add,
          )
          (ground arith);
  room = λ h. omega arith;
}

Sees-right :
    (id : String) (bottom : ℕ) (layout : List LayoutItem)
    → Sees bottom true layout
    → Sees bottom false (layout ++ item_of id (right (bottom - 6)) ∷ [])
unfolding max_bottom bottom_of right_step
Sees-right id bottom layout s =
    let fits : 6 ≤ bottom = s.room refl in
    record {
      lowest =
          max_bottom_from-append (pos 0) layout (item_of id (right (bottom - 6)))
          ∙ rw (s.lowest, pos-add) (ground arith);
      right_edge =
          max_right_from-append (pos bottom) (pos 0) layout (item_of id (right (bottom - 6)))
          ∙ rw (s.right_edge, pos-add, pos-add) (ground arith);
      room = λ h. cc;
    }

Sees-next :
    (id : String) (bottom : ℕ) (free rows : Bool) (layout : List LayoutItem)
    → Sees bottom free layout
    → Sees
        (next_bottom bottom free rows)
        (next_free free rows)
        (layout ++ item_of id (spot bottom free rows) ∷ [])
Sees-next id bottom free true layout s = Sees-row id bottom free layout s
Sees-next id bottom true false layout s = Sees-right id bottom layout s
Sees-next id bottom false false layout s = Sees-left id bottom layout s

place-spot :
    (w : WidgetOrRow) (bottom : ℕ) (free : Bool) (layout : List LayoutItem)
    → Sees bottom free layout
    → place w layout ≡ item_of w.id (spot bottom free (is_row w))
place-spot w bottom free layout s = elim (Bool-cases (is_row w)) [
  | inl rows ↦ rw rows (place-row w layout rows ∙ place_row-spot w.id bottom free layout s)
  | inr widget ↦
      rw widget (place-widget w layout widget ∙ place_widget-spot w.id bottom free layout s)
]

layout_from-rows_from :
    (bottom : ℕ) (free : Bool) (layout : List LayoutItem) (ws : List WidgetOrRow)
    → Sees bottom free layout
    → layout_from layout ws ≡ layout ++ rows_from bottom free ws
unfolding layout_from rows_from
layout_from-rows_from bottom free layout [] s = sym (append-nil layout)
layout_from-rows_from bottom free layout (w ∷ ws) s =
    let here = item_of w.id (spot bottom free (is_row w)) in
    ap (λ item. layout_from (layout ++ item ∷ []) ws) (place-spot w bottom free layout s)
    ∙ layout_from-rows_from (next_bottom bottom free (is_row w)) (next_free free (is_row w))
        (layout ++ here ∷ []) ws (Sees-next w.id bottom free (is_row w) layout s)
    ∙ append_assoc layout (here ∷ []) _

-- The first item, on an empty layout.
Sees-first :
    (id : String) (rows : Bool)
    → Sees (next_bottom 0 false rows) (next_free false rows) (item_of id (spot 0 false rows) ∷ [])
unfolding max_bottom max_bottom_from max_right_from ◌+ℤ◌
Sees-first id true = record { lowest = refl; right_edge = refl; room = λ h. cc }
Sees-first id false = record { lowest = refl; right_edge = refl; room = λ h. omega arith }

place-first : (w : WidgetOrRow) → place w [] ≡ item_of w.id (spot 0 false (is_row w))
unfolding place place_row place_widget_at_bottom max_bottom max_bottom_from
place-first w = elim (Bool-cases (is_row w)) [ inl rows ↦ rw rows | inr widget ↦ rw widget ]

-- The automatic layout is the description by rows, for every list of widgets: the next panel takes
-- the right half of the last row where only its left half is taken, and a new row of six cells
-- otherwise, and a row widget takes a line of its own.
pub compute_auto_layout-rows_from :
    (ws : List WidgetOrRow) → compute_auto_layout ws ≡ rows_from 0 false ws
unfolding compute_auto_layout layout_from rows_from
compute_auto_layout-rows_from [] = refl
compute_auto_layout-rows_from (w ∷ ws) =
    ap (λ item. layout_from (item ∷ []) ws) (place-first w)
    ∙ layout_from-rows_from (next_bottom 0 false (is_row w)) (next_free false (is_row w)) _ ws
        (Sees-first w.id (is_row w))
