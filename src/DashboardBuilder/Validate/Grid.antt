-- ===== src/DashboardBuilder/Validate/Grid.antt =====
-- What the layout check of validate.go accepts.
use signoz_mcp_server.Base.{
  ℕ, suc, Bool, ◌+◌, ◌≤◌, ◌<◌, String, ◌≡◌, ◌≢◌, ◌↔◌, ◌⊎◌, inl, inr, refl, true, false, ◌||◌, List,
  [], ◌∷◌, ◌++◌, map, All, arith, ◌==◌, eq_iff,
}
use signoz_mcp_server.Base.Int.{pos, ◌+ℤ◌, ◌≤ℤ◌, ◌<ℤ◌}
use signoz_mcp_server.Base.Word.{wrap64, max_int64}
use signoz_mcp_server.DashboardBuilder.Types.{
  DashboardData, LayoutItem, WidgetOrRow, grid_columns, panel_type_row,
}
use signoz_mcp_server.DashboardBuilder.Errors.{unless, is_one_of, missing_layout}
use signoz_mcp_server.DashboardBuilder.Validate.{
  add_id, validate_item, validate_items_from, validate_entries, validate_layout, validate_widgets,
  validate, validate_dashboard_level, validate_variables, validate_panel_map,
}
use signoz_mcp_server.DashboardBuilder.Validate.Accepted.{append_nil}
use signoz_mcp_server.DashboardBuilder.Validate.Names.{
  In, Distinct, is_one_of_iff, not_true, In-add_id, Fresh, Fresh-add_id, Fresh-nil,
}

-- The rectangle is on the grid, as far as 64 bits tell.
pub record IsLayoutItem (widget_ids : List String) (item : LayoutItem) : Type 0 where
  pub named : item.i ≢ ""
  pub known : In item.i widget_ids
  pub x_nonneg : pos 0 ≤ℤ item.x
  pub y_nonneg : pos 0 ≤ℤ item.y
  pub w_pos : pos 0 <ℤ item.w
  pub h_pos : pos 0 <ℤ item.h
  pub fits : wrap64 (item.x +ℤ item.w) ≤ℤ grid_columns

-- What one item passes, after the ids that were seen.
validate_item_iff :
    (j : ℕ) (seen ids : List String) (item : LayoutItem)
    → (validate_item j seen ids item ≡ []) ↔ (IsLayoutItem ids item × ¬ In item.i seen)
unfolding validate_item
validate_item_iff j seen ids item =
    let empty = eq_iff item.i "" in
    let old = is_one_of_iff item.i seen in
    let known = is_one_of_iff item.i ids in
    (
      λ h. (
        record {
          named = λ e. absurd (ground arith);
          known = ground arith;
          x_nonneg = ground arith;
          y_nonneg = ground arith;
          w_pos = ground arith;
          h_pos = ground arith;
          fits = ground arith;
        },
        λ e. absurd (ground arith),
      ),
      λ (good, new).
          let filled : (item.i == "") ≡ false = not_true _ (λ e. good.named (empty.0 e)) in
          let fresh : is_one_of item.i seen ≡ false = not_true _ (λ e. new (old.0 e)) in
          let there : is_one_of item.i ids ≡ true = known.1 good.known in ground arith,
    )

validate_items_from_iff :
    (j : ℕ) (seen ids : List String) (items : List LayoutItem)
    → ((validate_items_from j seen ids items).0 ≡ []) ↔ (
        All (IsLayoutItem ids) items
        × Distinct (map (λ item. item.i) items)
        × Fresh seen (map (λ item. item.i) items))
unfolding validate_items_from
validate_items_from_iff j seen ids [] = (λ h. (tt, tt, tt), λ h. refl)
validate_items_from_iff j seen ids (item ∷ items) =
    let names = map (λ item. item.i) items in
    let first = validate_item j seen ids item in
    let others = (validate_items_from (suc j) (add_id item.i seen) ids items).0 in
    let (item_to, item_from) = validate_item_iff j seen ids item in
    let (rest_to, rest_from) = validate_items_from_iff (suc j) (add_id item.i seen) ids items in
    (
      λ h.
          let (head_ok, rest_ok) = append_nil first others h in
          let (good, new) = item_to head_ok in
          let (all_good, distinct, fresh) = rest_to rest_ok in
          let (apart, fresh_seen) = (Fresh-add_id item.i seen names good.named).0 fresh in
          ((good, all_good), (apart, distinct), (new, fresh_seen)),
      λ ((good, all_good), (apart, distinct), (new, fresh_seen)).
          let head_ok : first ≡ [] = item_from (good, new) in
          let rest_ok : others ≡ [] = rest_from (
            all_good,
            distinct,
            (Fresh-add_id item.i seen names good.named).1 (apart, fresh_seen),
          ) in
          rw (head_ok, rest_ok) refl,
    )

-- The ids that the items add.
layout_ids_iff :
    (j : ℕ) (seen ids : List String) (items : List LayoutItem) (x : String)
    → All (IsLayoutItem ids) items
    → In x (validate_items_from j seen ids items).1
      ↔ (In x (map (λ item. item.i) items) ⊎ In x seen)
unfolding validate_items_from
layout_ids_iff j seen ids [] x good = (λ h. inr h, λ h. elim h [ inl e ↦ absurd e | inr h ↦ h ])
layout_ids_iff j seen ids (item ∷ items) x (good, rest) =
    let (to, from) = layout_ids_iff (suc j) (add_id item.i seen) ids items x rest in
    let (add_to, add_from) = In-add_id x item.i seen good.named in
    (
      λ h. elim (to h) [
        | inl later ↦ inl (inr later)
        | inr added ↦ elim (add_to added) [ inl e ↦ inl (inl e) | inr old ↦ inr old ]
      ],
      λ h. elim h [
        | inl there ↦ elim there [
          | inl e ↦ from (inr (add_from (inl e)))
          | inr later ↦ from (inl later)
        ]
        | inr old ↦ from (inr (add_from (inr old)))
      ],
    )

-- A row needs no layout entry, nor does a widget with no id.
abbrev pub HasEntry : List String → WidgetOrRow → Type 0
HasEntry names w = (w.panel_types ≡ panel_type_row) ⊎ (w.id ≡ "") ⊎ In w.id names

validate_entries_iff :
    (ids names : List String) (ws : List WidgetOrRow)
    → ((x : String) → In x ids ↔ In x names)
    → (validate_entries ids ws ≡ []) ↔ All (HasEntry names) ws
unfolding validate_entries
validate_entries_iff ids names [] same = (λ h. tt, λ h. refl)
validate_entries_iff ids names (w ∷ ws) same =
    let (to, from) = validate_entries_iff ids names ws same in
    let there = is_one_of_iff w.id ids in
    let named = same w.id in
    let row = eq_iff w.panel_types panel_type_row in
    let unnamed = eq_iff w.id "" in
    (
      λ h.
          let (own, others) =
            append_nil (unless _ "layout" (missing_layout w.id)) (validate_entries ids ws) h in
          (ground arith, to others),
      λ (has, rest).
          let others = from rest in
          let own : (w.panel_types == panel_type_row || w.id == "" || is_one_of w.id ids) ≡ true =
            ground arith in
          rw (own, others) refl,
    )

-- A layout that is not empty is accepted exactly when its items name known widgets, each once, with
-- edges that are not negative, sizes that are positive and a 64-bit sum of left edge and width of
-- at most 12, and every widget with an id that is no row is named by one of them.
pub validate_layout_iff :
    (item : LayoutItem) (items : List LayoutItem) (ws : List WidgetOrRow) (widget_ids : List String)
    → (validate_layout (item ∷ items) ws widget_ids ≡ []) ↔ (
        All (IsLayoutItem widget_ids) (item ∷ items)
        × Distinct (map (λ item. item.i) (item ∷ items))
        × All (HasEntry (map (λ item. item.i) (item ∷ items))) ws)
unfolding validate_layout
validate_layout_iff item items ws widget_ids =
    let all = item ∷ items in
    let (items_to, items_from) = validate_items_from_iff 0 [] widget_ids all in
    let errors = (validate_items_from 0 [] widget_ids all).0 in
    let layout_ids = (validate_items_from 0 [] widget_ids all).1 in
    let names = map (λ item. item.i) all in
    let same : All (IsLayoutItem widget_ids) all → (x : String) → In x layout_ids ↔ In x names =
      (λ good x.
        let (to, from) = layout_ids_iff 0 [] widget_ids all x good in
        (
          λ h. elim (to h) [ inl there ↦ there | inr nowhere ↦ absurd nowhere ],
          λ h. from (inl h),
        )) in
    (
      λ h.
          let (first, second) = append_nil errors (validate_entries layout_ids ws) h in
          let (good, distinct, fresh) = items_to first in
          (good, distinct, (validate_entries_iff layout_ids names ws (same good)).0 second),
      λ (good, distinct, entries).
          let first = items_from (good, distinct, Fresh-nil names) in
          let second = (validate_entries_iff layout_ids names ws (same good)).1 entries in
          rw (first, second) refl,
    )

sum_wraps :
    (a b : ℕ)
    → a ≤ max_int64
    → b ≤ max_int64
    → max_int64 < a + b
    → wrap64 (pos a +ℤ pos b) ≤ℤ grid_columns
unfolding wrap64 ◌+ℤ◌
sum_wraps a b ha hb h = ground arith

-- A layout that is accepted stays so where its first item is moved far off the grid.
move_accepted :
    (item : LayoutItem) (items : List LayoutItem) (ws : List WidgetOrRow) (widget_ids : List String)
    (a b : ℕ)
    → item.w ≡ pos b
    → b ≤ max_int64
    → a ≤ max_int64
    → max_int64 < a + b
    → validate_layout (item ∷ items) ws widget_ids ≡ []
    → validate_layout (record item { x = pos a } ∷ items) ws widget_ids ≡ []
move_accepted item items ws widget_ids a b width hb ha beyond accepted =
    let ((good, others), distinct, entries) =
      (validate_layout_iff item items ws widget_ids).0 accepted in
    let moved : LayoutItem = record item { x = pos a } in
    let moved_ok : IsLayoutItem widget_ids moved = record {
      named = good.named;
      known = good.known;
      x_nonneg = omega arith;
      y_nonneg = good.y_nonneg;
      w_pos = good.w_pos;
      h_pos = good.h_pos;
      fits = simp width (sum_wraps a b ha hb beyond);
    } in
    (validate_layout_iff moved items ws widget_ids).1 ((moved_ok, others), distinct, entries)

-- A dashboard that is valid stays valid where the first item of its layout is moved to any left edge
-- that fits an int64, but does not with the item's width added: the sum wraps below the width of the
-- grid.
pub off_grid_accepted :
    (parses_as_float : String → Bool) (d : DashboardData) (item : LayoutItem)
    (items : List LayoutItem) (a b : ℕ)
    → d.layout ≡ item ∷ items
    → validate parses_as_float d ≡ []
    → item.w ≡ pos b
    → b ≤ max_int64
    → a ≤ max_int64
    → max_int64 < a + b
    → validate parses_as_float (record d { layout = record item { x = pos a } ∷ items }) ≡ []
unfolding validate validate_dashboard_level
off_grid_accepted parses_as_float d item items a b placed valid width hb ha beyond =
    let (ws_errors, widget_ids) = validate_widgets parses_as_float d.widgets in
    let by_widget = validate_dashboard_level d ++ validate_variables d.variables ++ ws_errors in
    let by_layout = validate_layout d.layout d.widgets widget_ids in
    let (before, panel_map) =
      append_nil (by_widget ++ by_layout) (validate_panel_map d.panel_map d.widgets widget_ids)
        valid in
    let (widgets, layout) = append_nil by_widget by_layout before in
    let accepted : validate_layout (item ∷ items) d.widgets widget_ids ≡ [] = rw placed at layout in
    let moved = move_accepted item items d.widgets widget_ids a b width hb ha beyond accepted in
    rw (widgets, moved, panel_map)
