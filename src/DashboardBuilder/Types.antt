-- ===== src/DashboardBuilder/Types.antt =====
-- pkg/dashboard/dashboardbuilder/types.go and the constants of defaults.go. A pointer or a slice
-- that may be nil is an `Option` where the code tells nil apart; a map is an association list in
-- the order of an iteration; raw JSON is a value of `Any`.
use signoz_mcp_server.Base.{String, Bool, Option, List, [], ◌∷◌}
use signoz_mcp_server.Base.Int.{ℤ, pos}
use signoz_mcp_server.Base.Any.{Any, Fields, Float64}

abbrev pub Map {ℓ} : Type ℓ → Type ℓ
Map V = List (String × V)

pub record DashboardVariable : Type 0 where
  pub id : String
  pub name : String
  pub description : String
  pub type : String
  pub query_value : String
  pub custom_value : String
  pub textbox_value : String
  pub sort : String
  pub multi_select : Bool
  pub show_all_option : Bool
  pub selected_value : Any
  pub default_value : String
  pub dynamic_variables_attribute : String
  pub dynamic_variables_source : String
  pub order : Option ℤ

pub record BuilderData : Type 0 where
  pub query_data : List Fields
  pub query_formulas : List Fields
  pub query_trace_operator : List Fields

pub record ClickHouseQuery : Type 0 where
  pub name : String
  pub legend : String
  pub disabled : Bool
  pub query : String

pub record PromQlQuery : Type 0 where
  pub name : String
  pub query : String
  pub legend : String
  pub disabled : Bool

pub record Query : Type 0 where
  pub query_type : String
  pub builder : Option BuilderData
  pub clickhouse_sql : List ClickHouseQuery
  pub promql : List PromQlQuery
  pub id : String
  pub unit : String

pub record Threshold : Type 0 where
  pub index : String
  pub is_edit_enabled : Bool
  pub key_index : ℤ
  pub selected_graph : String
  pub threshold_color : String
  pub threshold_format : String
  pub threshold_label : String
  pub threshold_operator : String
  pub threshold_table_options : String
  pub threshold_unit : String
  pub threshold_value : Any

pub record ContextLinkProps : Type 0 where
  pub id : String
  pub url : String
  pub label : String

-- The display options that only the frontend reads.
pub record ChartOptions : Type 0 where
  pub thresholds : List Threshold
  pub column_units : Map String
  pub column_widths : Map ℤ
  pub custom_legend_colors : Map String
  pub context_links : Option (List ContextLinkProps)
  pub show_points : Option Bool
  pub span_gaps : Option Any
  pub stacked_bar_chart : Option Bool
  pub bucket_count : Option ℤ
  pub bucket_width : Option ℤ
  pub decimal_precision : Option Any
  pub merge_all_active_queries : Option Bool
  pub custom_col_titles : Map String
  pub hidden_columns : List String

pub record WidgetOrRow : Type 0 where
  pub id : String
  pub panel_types : String
  pub title : String
  pub description : String
  pub query : Option Query
  pub opacity : String
  pub null_zero_values : String
  pub time_preferance : String
  pub step_size : Option ℤ
  pub y_axis_unit : String
  pub soft_min : Option Float64
  pub soft_max : Option Float64
  pub fill_spans : Option Bool
  pub is_log_scale : Option Bool
  pub selected_log_fields : Option Any
  pub selected_traces_fields : Option Any
  pub legend_position : String
  pub line_interpolation : String
  pub line_style : String
  pub fill_mode : String
  pub chart : ChartOptions

pub record LayoutItem : Type 0 where
  pub i : String
  pub x : ℤ
  pub y : ℤ
  pub w : ℤ
  pub h : ℤ
  pub moved : Bool
  pub static : Bool

pub record PanelMapEntry : Type 0 where
  pub widgets : List LayoutItem
  pub collapsed : Bool

pub record DashboardData : Type 0 where
  pub title : String
  pub description : String
  pub tags : List String
  pub name : String
  pub version : String
  pub variables : Map DashboardVariable
  pub widgets : List WidgetOrRow
  pub layout : List LayoutItem
  pub panel_map : Map PanelMapEntry

abbrev pub panel_type_row : String
panel_type_row = "row"

abbrev pub grid_columns : ℤ
grid_columns = pos 12

abbrev pub default_widget_width : ℤ
default_widget_width = pos 6

abbrev pub default_widget_height : ℤ
default_widget_height = pos 6

abbrev pub row_width : ℤ
row_width = pos 12

abbrev pub row_height : ℤ
row_height = pos 1

abbrev pub dashboard_version : String
dashboard_version = "v5"

abbrev pub valid_panel_types : List String
valid_panel_types =
    "graph" ∷ "value" ∷ "table" ∷ "list" ∷ "trace" ∷ "bar" ∷ "pie" ∷ "histogram" ∷ []

abbrev pub valid_query_types : List String
valid_query_types = "builder" ∷ "clickhouse_sql" ∷ "promql" ∷ []

abbrev pub valid_variable_types : List String
valid_variable_types = "QUERY" ∷ "TEXTBOX" ∷ "CUSTOM" ∷ "DYNAMIC" ∷ []

abbrev pub valid_sort_types : List String
valid_sort_types = "DISABLED" ∷ "ASC" ∷ "DESC" ∷ []

abbrev pub valid_data_sources : List String
valid_data_sources = "metrics" ∷ "traces" ∷ "logs" ∷ []

abbrev pub valid_dynamic_variable_sources : List String
valid_dynamic_variable_sources = "Traces" ∷ "Logs" ∷ "Metrics" ∷ "All telemetry" ∷ []

abbrev pub valid_legend_positions : List String
valid_legend_positions = "bottom" ∷ "right" ∷ []

abbrev pub valid_line_interpolations : List String
valid_line_interpolations = "linear" ∷ "spline" ∷ "stepAfter" ∷ "stepBefore" ∷ []

abbrev pub valid_line_styles : List String
valid_line_styles = "solid" ∷ "dashed" ∷ []

abbrev pub valid_fill_modes : List String
valid_fill_modes = "solid" ∷ "gradient" ∷ "none" ∷ []
