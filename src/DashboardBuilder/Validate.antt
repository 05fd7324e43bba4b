-- ===== src/DashboardBuilder/Validate.antt =====
-- pkg/dashboard/dashboardbuilder/validate.go: the checks of a dashboard, which add their errors up
-- in the order of the code. strconv.ParseFloat is the argument `parses_as_float`.
mod Queries
mod Names
mod Accepted
mod AutoLayout
pub mod Grid
mod Tests
use mathlib.Core.List.{any}
use Prim.Native.String
use signoz_mcp_server.Base.{
  ℕ, suc, String, Char, code, Bool, true, false, not, ◌&&◌, ◌||◌, Option, none, some, List, [], ◌∷◌,
  ◌++◌, eqb, ◌==◌, ◌<>◌, if◌then◌else◌, trim_space,
}
use signoz_mcp_server.Base.Int.{ℤ, pos, ◌+ℤ◌, ltb_ℤ, leb_ℤ}
use signoz_mcp_server.Base.Word.{wrap64}
use signoz_mcp_server.DashboardBuilder.Types.{
  Map, DashboardVariable, WidgetOrRow, LayoutItem, PanelMapEntry, DashboardData, panel_type_row,
  grid_columns, dashboard_version, valid_panel_types, valid_variable_types, valid_sort_types,
  valid_dynamic_variable_sources, valid_legend_positions, valid_line_interpolations,
  valid_line_styles, valid_fill_modes,
}
use signoz_mcp_server.DashboardBuilder.Errors.{
  FieldError, Message, required, empty, spaces_in_key, required_for_widgets, must_be, not_one_of,
  required_for, duplicate_widget, duplicate_layout, unknown_widget, missing_layout, not_a_row,
  not_a_number, negative, not_positive, exceeds_grid, unless, is_one_of, indexed, each,
}
use signoz_mcp_server.DashboardBuilder.Validate.Queries.{validate_query}

validate_dashboard_level : DashboardData → List FieldError
validate_dashboard_level d =
    unless (not (trim_space d.title == "")) "title" required
    ++ unless (d.version == "" || d.version == dashboard_version) "version"
        (must_be dashboard_version d.version)

-- strings.Contains(key, " ")
unfoldable pub contains_space : String → Bool
contains_space String.[] = false
contains_space (String.◌∷◌ c s) = eqb (code c) b' ' || contains_space s

-- An optional word that, where it is set, is one of a list.
abbrev one_of_if_set : String → List String → String → List FieldError
one_of_if_set val allowed field =
    unless (val == "" || is_one_of val allowed) field (not_one_of allowed val)

unfoldable pub validate_variable : String → DashboardVariable → List FieldError
validate_variable key v =
    let prefix = "variables." <> key in
    unless (not (v.id == "")) (prefix <> ".id") empty
    ++ unless (is_one_of v.type valid_variable_types) (prefix <> ".type")
        (not_one_of valid_variable_types v.type)
    ++ one_of_if_set v.sort valid_sort_types (prefix <> ".sort")
    ++ unless (not (contains_space key)) prefix spaces_in_key
    ++ (if v.type == "QUERY"
        then unless (not (trim_space v.query_value == "")) (prefix <> ".queryValue")
            (required_for v.type)
        else if v.type == "CUSTOM"
        then unless (not (trim_space v.custom_value == "")) (prefix <> ".customValue")
            (required_for v.type)
        else if v.type == "DYNAMIC"
        then one_of_if_set v.dynamic_variables_source valid_dynamic_variable_sources
            (prefix <> ".dynamicVariablesSource")
        else [])

validate_variables : Map DashboardVariable → List FieldError
validate_variables [] = []
validate_variables ((key, v) ∷ vars) = validate_variable key v ++ validate_variables vars

-- widgetIDs after the widget: an id is added where it is not empty and not there.
abbrev pub add_id : String → List String → List String
add_id id ids = if id == "" || is_one_of id ids then ids else id ∷ ids

validate_widget_id : (prefix : String) → (seen : List String) → String → List FieldError
validate_widget_id prefix seen id =
    if id == ""
    then unless false (prefix <> ".id") empty
    else unless (not (is_one_of id seen)) (prefix <> ".id") (duplicate_widget id)

module _ (parses_as_float : String → Bool) where
  validate_widget : (prefix : String) → WidgetOrRow → List FieldError
  validate_widget prefix w =
      if w.panel_types == panel_type_row
      then []
      else unless (is_one_of w.panel_types valid_panel_types) (prefix <> ".panelTypes")
          (not_one_of valid_panel_types w.panel_types)
        ++ elim w.query [
          | none ↦ unless false (prefix <> ".query") required_for_widgets
          | some q ↦ validate_query (prefix <> ".query") q
        ]
        ++ unless (w.opacity == "" || parses_as_float w.opacity) (prefix <> ".opacity")
            (not_a_number w.opacity)
        ++ one_of_if_set w.legend_position valid_legend_positions (prefix <> ".legendPosition")
        ++ one_of_if_set w.line_interpolation valid_line_interpolations
            (prefix <> ".lineInterpolation")
        ++ one_of_if_set w.line_style valid_line_styles (prefix <> ".lineStyle")
        ++ one_of_if_set w.fill_mode valid_fill_modes (prefix <> ".fillMode")

  -- The loop, from the widget `i`: the errors, and the widget ids that it collects.
  validate_widgets_from :
      (i : ℕ) (seen : List String) → List WidgetOrRow → List FieldError × List String
  validate_widgets_from i seen [] = ([], seen)
  validate_widgets_from i seen (w ∷ ws) =
      let (errors, ids) = validate_widgets_from (suc i) (add_id w.id seen) ws in
      (
        validate_widget_id (indexed "widgets" i) seen w.id
            ++ validate_widget (indexed "widgets" i) w
            ++ errors,
        ids,
      )

  pub validate_widgets : List WidgetOrRow → List FieldError × List String
  validate_widgets widgets = validate_widgets_from 0 [] widgets

-- layoutIDs after the item: the id is set even where it is a duplicate.
validate_item : (i : ℕ) (seen widget_ids : List String) → LayoutItem → List FieldError
validate_item i seen widget_ids item =
    let prefix = indexed "layout" i in
    let sum = wrap64 (item.x +ℤ item.w) in
    (if item.i == ""
      then unless false (prefix <> ".i") empty
      else unless (not (is_one_of item.i seen)) (prefix <> ".i") (duplicate_layout item.i)
        ++ unless (is_one_of item.i widget_ids) (prefix <> ".i") (unknown_widget item.i))
    ++ unless (leb_ℤ (pos 0) item.x) (prefix <> ".x") (negative item.x)
    ++ unless (leb_ℤ (pos 0) item.y) (prefix <> ".y") (negative item.y)
    ++ unless (ltb_ℤ (pos 0) item.w) (prefix <> ".w") (not_positive item.w)
    ++ unless (ltb_ℤ (pos 0) item.h) (prefix <> ".h") (not_positive item.h)
    ++ unless (leb_ℤ sum grid_columns) prefix (exceeds_grid item.x item.w sum)

validate_items_from :
    (i : ℕ) (seen widget_ids : List String) → List LayoutItem → List FieldError × List String
validate_items_from i seen widget_ids [] = ([], seen)
validate_items_from i seen widget_ids (item ∷ items) =
    let (errors, ids) = validate_items_from (suc i) (add_id item.i seen) widget_ids items in
    (validate_item i seen widget_ids item ++ errors, ids)

-- Every widget that is no row has a layout entry.
validate_entries : (layout_ids : List String) → List WidgetOrRow → List FieldError
validate_entries layout_ids [] = []
validate_entries layout_ids (w ∷ ws) =
    unless (w.panel_types == panel_type_row || w.id == "" || is_one_of w.id layout_ids) "layout"
      (missing_layout w.id)
    ++ validate_entries layout_ids ws

pub validate_layout :
    List LayoutItem → List WidgetOrRow → (widget_ids : List String) → List FieldError
validate_layout [] widgets widget_ids = []
validate_layout (item ∷ items) widgets widget_ids =
    let (errors, layout_ids) = validate_items_from 0 [] widget_ids (item ∷ items) in
    errors ++ validate_entries layout_ids widgets

validate_panel_widget :
    (prefix : String) (widget_ids : List String) → ℕ → LayoutItem → List FieldError
validate_panel_widget prefix widget_ids i item =
    unless (item.i == "" || is_one_of item.i widget_ids) (indexed (prefix <> ".widgets") i <> ".i")
      (unknown_widget item.i)

validate_panel_map :
    Map PanelMapEntry → List WidgetOrRow → (widget_ids : List String) → List FieldError
validate_panel_map [] widgets widget_ids = []
validate_panel_map ((key, entry) ∷ entries) widgets widget_ids =
    let prefix = "panelMap." <> key in
    unless (any widgets (λ w. w.id == key && w.panel_types == panel_type_row)) prefix
      (not_a_row key)
    ++ each (validate_panel_widget prefix widget_ids) 0 entry.widgets
    ++ validate_panel_map entries widgets widget_ids

module _ (parses_as_float : String → Bool) where
  pub validate : DashboardData → List FieldError
  validate d =
      let (widget_errors, widget_ids) = validate_widgets parses_as_float d.widgets in
      validate_dashboard_level d
      ++ validate_variables d.variables
      ++ widget_errors
      ++ validate_layout d.layout d.widgets widget_ids
      ++ validate_panel_map d.panel_map d.widgets widget_ids
