-- ===== src/DashboardBuilder/Validate/AutoLayout.antt =====
-- The automatic layout against the layout check of validate.go.
use signoz_mcp_server.Base.{
  ℕ, suc, String, ◌≡◌, refl, sym, ap, Bool, true, false, List, [], ◌∷◌, ◌++◌, map, All, arith, inl,
  inr, Bool-cases, ◌==◌, eq_refl,
}
use signoz_mcp_server.DashboardBuilder.Types.{WidgetOrRow, LayoutItem}
use signoz_mcp_server.DashboardBuilder.Errors.{is_one_of, indexed}
use signoz_mcp_server.DashboardBuilder.Layout.{compute_auto_layout}
use signoz_mcp_server.DashboardBuilder.Layout.Grid.{IsOnGrid, compute_auto_layout-PairwiseApart}
use signoz_mcp_server.DashboardBuilder.Validate.{
  add_id, validate_widget_id, validate_widget, validate_widgets_from, validate_widgets,
  validate_item, validate_items_from, validate_entries, validate_layout,
}
use signoz_mcp_server.DashboardBuilder.Validate.Accepted.{append_nil, sum_on_grid}

is_one_of-add_id :
    (x id : String) (ids : List String)
    → is_one_of x ids ≡ true
    → is_one_of x (add_id id ids) ≡ true
is_one_of-add_id x id ids h = ground arith

is_one_of-add_id_self :
    (id : String) (ids : List String) → (id == "") ≡ false → is_one_of id (add_id id ids) ≡ true
is_one_of-add_id_self id ids h = elim (Bool-cases (is_one_of id ids)) [
  | inl here ↦ is_one_of-add_id id id ids here
  | inr new ↦ rw (h, new, eq_refl id) refl
]

validate_widget_id_lem :
    (prefix : String) (seen : List String) (id : String)
    → validate_widget_id prefix seen id ≡ []
    → ((id == "") ≡ false) × (is_one_of id seen ≡ false)
unfolding validate_widget_id
validate_widget_id_lem prefix seen id h = ground arith

validate_item_lem :
    (i : ℕ) (seen widget_ids : List String) (item : LayoutItem)
    → (item.i == "") ≡ false
    → is_one_of item.i seen ≡ false
    → is_one_of item.i widget_ids ≡ true
    → IsOnGrid item
    → validate_item i seen widget_ids item ≡ []
unfolding validate_item
validate_item_lem i seen widget_ids item named new known grid =
    ground (arith, sum_on_grid item.x item.w grid.x_nonneg grid.w_pos grid.fits)

module _ (parses_as_float : String → Bool) where
  is_one_of-validate_widgets_from :
      (x : String) (i : ℕ) (seen : List String) (ws : List WidgetOrRow)
      → is_one_of x seen ≡ true
      → is_one_of x (validate_widgets_from parses_as_float i seen ws).1 ≡ true
  unfolding validate_widgets_from
  is_one_of-validate_widgets_from x i seen [] h = h
  is_one_of-validate_widgets_from x i seen (w ∷ ws) h =
      is_one_of-validate_widgets_from x (suc i) (add_id w.id seen) ws
        (is_one_of-add_id x w.id seen h)

  validate_widgets_from_lem :
      (i : ℕ) (seen : List String) (w : WidgetOrRow) (ws : List WidgetOrRow)
      → (validate_widgets_from parses_as_float i seen (w ∷ ws)).0 ≡ []
      → ((w.id == "") ≡ false)
        × (is_one_of w.id seen ≡ false)
        × ((validate_widgets_from parses_as_float (suc i) (add_id w.id seen) ws).0 ≡ [])
  unfolding validate_widgets_from
  validate_widgets_from_lem i seen w ws h =
      let prefix = indexed "widgets" i in
      let rest = (validate_widgets_from parses_as_float (suc i) (add_id w.id seen) ws).0 in
      let body = validate_widget parses_as_float prefix w in
      let (own, others) = append_nil (validate_widget_id prefix seen w.id ++ body) rest h in
      let (named, new) =
        validate_widget_id_lem prefix seen w.id
          (append_nil (validate_widget_id prefix seen w.id) body own).0 in
      (named, new, others)

  validate_entries_lem :
      (i : ℕ) (seen ids : List String) (ws : List WidgetOrRow)
      → (validate_widgets_from parses_as_float i seen ws).0 ≡ []
      → (validate_widgets_from parses_as_float i seen ws).1 ≡ ids
      → validate_entries ids ws ≡ []
  unfolding validate_widgets_from validate_entries
  validate_entries_lem i seen ids [] h e = refl
  validate_entries_lem i seen ids (w ∷ ws) h e =
      let (named, new, rest) = validate_widgets_from_lem i seen w ws h in
      let known : is_one_of w.id ids ≡ true = rw (sym e) (
        is_one_of-validate_widgets_from w.id (suc i) (add_id w.id seen) ws
          (is_one_of-add_id_self w.id seen named)) in
      rw (validate_entries_lem (suc i) (add_id w.id seen) ids ws rest e) (ground arith)

  validate_items_from_lem :
      (i j : ℕ) (seen ids : List String) (ws : List WidgetOrRow) (items : List LayoutItem)
      → (validate_widgets_from parses_as_float i seen ws).0 ≡ []
      → (validate_widgets_from parses_as_float i seen ws).1 ≡ ids
      → map (λ item. item.i) items ≡ map (λ w. w.id) ws
      → All IsOnGrid items
      → validate_items_from j seen ids items ≡ ([], ids)
  unfolding validate_widgets_from validate_items_from
  validate_items_from_lem i j seen ids [] [] h e ids_eq grid = ap (λ s. ([], s)) e
  validate_items_from_lem i j seen ids [] (item ∷ items) h e ids_eq grid = absurd cc
  validate_items_from_lem i j seen ids (w ∷ ws) [] h e ids_eq grid = absurd cc
  validate_items_from_lem i j seen ids (w ∷ ws) (item ∷ items) h e ids_eq (on_grid, grid) =
      let (named, new, rest) = validate_widgets_from_lem i seen w ws h in
      let known : is_one_of w.id ids ≡ true = rw (sym e) (
        is_one_of-validate_widgets_from w.id (suc i) (add_id w.id seen) ws
          (is_one_of-add_id_self w.id seen named)) in
      let same : item.i ≡ w.id = cc in
      let tails : map (λ item. item.i) items ≡ map (λ w. w.id) ws = cc in
      let others =
        validate_items_from_lem (suc i) (suc j) (add_id w.id seen) ids ws items rest e tails grid in
      let first =
        validate_item_lem j seen ids item (rw same named) (rw same new) (rw same known) on_grid in
      rw (first, same, others) refl

  validate_layout_lem :
      (items : List LayoutItem) (ws : List WidgetOrRow) (ids : List String)
      → validate_items_from 0 [] ids items ≡ ([], ids)
      → validate_entries ids ws ≡ []
      → validate_layout items ws ids ≡ []
  unfolding validate_layout
  validate_layout_lem [] ws ids h e = refl
  validate_layout_lem (item ∷ items) ws ids h e = rw (h, e) refl

  -- Where the check of the widgets finds no error, the check of the layout finds none in the
  -- automatic layout of these widgets.
  pub validate_layout-compute_auto_layout :
      (ws : List WidgetOrRow)
      → (validate_widgets parses_as_float ws).0 ≡ []
      → validate_layout (compute_auto_layout ws) ws (validate_widgets parses_as_float ws).1 ≡ []
  unfolding validate_widgets
  validate_layout-compute_auto_layout ws h =
      let (same, grid, apart) = compute_auto_layout-PairwiseApart ws in
      let layout = compute_auto_layout ws in
      let ids = (validate_widgets parses_as_float ws).1 in
      validate_layout_lem layout ws ids
        (validate_items_from_lem 0 0 [] ids ws layout h refl same grid)
        (validate_entries_lem 0 [] ids ws h refl)
