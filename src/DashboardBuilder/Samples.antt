-- ===== src/DashboardBuilder/Samples.antt =====
-- A board of four panels and a row, for the runs.
use signoz_mcp_server.Base.{String, false, List, [], ◌∷◌, none, some}
use signoz_mcp_server.DashboardBuilder.Types.{WidgetOrRow, ChartOptions, Query}

abbrev promql_query : Query
promql_query = record {
  query_type = "promql";
  builder = none;
  clickhouse_sql = [];
  promql = record { name = "A"; query = "up"; legend = ""; disabled = false } ∷ [];
  id = "";
  unit = "";
}

abbrev pub no_options : ChartOptions
no_options = record {
  thresholds = [];
  column_units = [];
  column_widths = [];
  custom_legend_colors = [];
  context_links = none;
  show_points = none;
  span_gaps = none;
  stacked_bar_chart = none;
  bucket_count = none;
  bucket_width = none;
  decimal_precision = none;
  merge_all_active_queries = none;
  custom_col_titles = [];
  hidden_columns = [];
}

abbrev pub widget : String → String → WidgetOrRow
widget id panel_types = record {
  id = id;
  panel_types = panel_types;
  title = "";
  description = "";
  query = some promql_query;
  opacity = "";
  null_zero_values = "";
  time_preferance = "";
  step_size = none;
  y_axis_unit = "";
  soft_min = none;
  soft_max = none;
  fill_spans = none;
  is_log_scale = none;
  selected_log_fields = none;
  selected_traces_fields = none;
  legend_position = "";
  line_interpolation = "";
  line_style = "";
  fill_mode = "";
  chart = no_options;
}

abbrev pub board : List WidgetOrRow
board =
    widget "a" "graph"
    ∷ widget "r" "row"
    ∷ widget "b" "value"
    ∷ widget "c" "bar"
    ∷ widget "d" "pie"
    ∷ []
