-- ===== src/Client/Operations/Routes.antt =====
-- The request of each operation: its method, and its path as a server reads it.
use signoz_mcp_server.Base.{String, ◌≡◌, refl, List, [], ◌∷◌, map, bytes_of, utf8}
use signoz_mcp_server.Base.Any.{Any}
use signoz_mcp_server.Base.Escape.{path_unescape, read_escaped}
use signoz_mcp_server.Base.Segments.{has_char}
use signoz_mcp_server.Base.Strings.{split, until}
use signoz_mcp_server.Client.{Bytes}
use signoz_mcp_server.Client.Operations.Replays.{method_of}
use signoz_mcp_server.Client.Operations.Segments.{
  segments_of, id_segments, query_segments, alerts_segments, history_segments,
}
use signoz_mcp_server.Client.Operations.{
  Operation, list_metrics, list_metric_keys, list_alert_rules, list_dashboards,
  list_notification_channels, list_alerts, get_alert_by_rule_id, get_dashboard, get_view,
  get_notification_channel, delete_alert_rule, delete_view, delete_dashboard,
  delete_notification_channel, list_services, get_service_top_operations, query_builder_v5,
  get_alert_history, create_alert_rule, create_view, create_dashboard, create_notification_channel,
  test_notification_channel, update_alert_rule, update_view, update_dashboard,
  update_notification_channel, list_views, get_field_keys, get_field_values, get_top_metrics,
  call_of, alerts_query, history_query, metrics_query, views_query, field_keys_query,
  field_values_query,
}

-- The method and the segments of each operation, with the id that it is about as one of them.
unfoldable pub route : Operation → String × List String
route (list_metrics start end limit search_text source) =
    ("GET", "" ∷ "api" ∷ "v2" ∷ "metrics" ∷ [])
route list_metric_keys = ("GET", "" ∷ "api" ∷ "v1" ∷ "metrics" ∷ "filters" ∷ "keys" ∷ [])
route (list_alerts params) = ("GET", "" ∷ "api" ∷ "v1" ∷ "alerts" ∷ [])
route list_alert_rules = ("GET", "" ∷ "api" ∷ "v2" ∷ "rules" ∷ [])
route (get_alert_by_rule_id id) = ("GET", "" ∷ "api" ∷ "v2" ∷ "rules" ∷ id ∷ [])
route list_dashboards = ("GET", "" ∷ "api" ∷ "v1" ∷ "dashboards" ∷ [])
route (get_dashboard id) = ("GET", "" ∷ "api" ∷ "v1" ∷ "dashboards" ∷ id ∷ [])
route (list_services start end) = ("POST", "" ∷ "api" ∷ "v1" ∷ "services" ∷ [])
route (get_service_top_operations start end service tags) =
    ("POST", "" ∷ "api" ∷ "v1" ∷ "service" ∷ "top_operations" ∷ [])
route (query_builder_v5 json) = ("POST", "" ∷ "api" ∷ "v5" ∷ "query_range" ∷ [])
route (get_alert_history id req) =
    ("GET", "" ∷ "api" ∷ "v2" ∷ "rules" ∷ id ∷ "history" ∷ "timeline" ∷ [])
route (create_alert_rule json) = ("POST", "" ∷ "api" ∷ "v2" ∷ "rules" ∷ [])
route (update_alert_rule id json) = ("PUT", "" ∷ "api" ∷ "v2" ∷ "rules" ∷ id ∷ [])
route (delete_alert_rule id) = ("DELETE", "" ∷ "api" ∷ "v2" ∷ "rules" ∷ id ∷ [])
route (list_views source_page name category) =
    ("GET", "" ∷ "api" ∷ "v1" ∷ "explorer" ∷ "views" ∷ [])
route (get_view id) = ("GET", "" ∷ "api" ∷ "v1" ∷ "explorer" ∷ "views" ∷ id ∷ [])
route (create_view json) = ("POST", "" ∷ "api" ∷ "v1" ∷ "explorer" ∷ "views" ∷ [])
route (update_view id json) = ("PUT", "" ∷ "api" ∷ "v1" ∷ "explorer" ∷ "views" ∷ id ∷ [])
route (delete_view id) = ("DELETE", "" ∷ "api" ∷ "v1" ∷ "explorer" ∷ "views" ∷ id ∷ [])
route (get_field_keys signal metric_name search_text field_context field_data_type source) =
    ("GET", "" ∷ "api" ∷ "v1" ∷ "fields" ∷ "keys" ∷ [])
route (get_field_values signal name metric_name search_text field_context source) =
    ("GET", "" ∷ "api" ∷ "v1" ∷ "fields" ∷ "values" ∷ [])
route (create_dashboard json) = ("POST", "" ∷ "api" ∷ "v1" ∷ "dashboards" ∷ [])
route (update_dashboard id json) = ("PUT", "" ∷ "api" ∷ "v1" ∷ "dashboards" ∷ id ∷ [])
route (delete_dashboard id) = ("DELETE", "" ∷ "api" ∷ "v1" ∷ "dashboards" ∷ id ∷ [])
route list_notification_channels = ("GET", "" ∷ "api" ∷ "v1" ∷ "channels" ∷ [])
route (get_notification_channel id) = ("GET", "" ∷ "api" ∷ "v1" ∷ "channels" ∷ id ∷ [])
route (create_notification_channel json) = ("POST", "" ∷ "api" ∷ "v1" ∷ "channels" ∷ [])
route (update_notification_channel id json) = ("PUT", "" ∷ "api" ∷ "v1" ∷ "channels" ∷ id ∷ [])
route (delete_notification_channel id) = ("DELETE", "" ∷ "api" ∷ "v1" ∷ "channels" ∷ id ∷ [])
route (get_top_metrics start end limit) = ("POST", "" ∷ "api" ∷ "v2" ∷ "metrics" ∷ "treemap" ∷ [])
route (test_notification_channel json) = ("POST", "" ∷ "api" ∷ "v1" ∷ "channels" ∷ "test" ∷ [])

module _ (marshal : Any → Bytes) where
  -- Every operation is sent with the method that `route` lists, to a path whose segments are, with
  -- their escapes undone, those that `route` lists, the id being one of them, whatever its text. A segment of dots is kept
  -- as it is.
  pub call_of-routed :
      (op : Operation)
      → (method_of (call_of marshal op).sending ≡ (route op).0)
        × (segments_of (call_of marshal op).path ≡ map bytes_of (route op).1)
  unfolding call_of route method_of segments_of until split has_char bytes_of path_unescape
      read_escaped utf8
  call_of-routed (list_metrics start end limit search_text source) = (
    refl,
    query_segments "/api/v2/metrics?" (metrics_query start end limit search_text source) refl,
  )
  call_of-routed list_metric_keys = (refl, refl)
  call_of-routed (list_alerts params) = (refl, alerts_segments (alerts_query params))
  call_of-routed list_alert_rules = (refl, refl)
  call_of-routed (get_alert_by_rule_id id) =
      (refl, id_segments "/api/v2/rules/" ("" ∷ "api" ∷ "v2" ∷ "rules" ∷ []) id refl refl)
  call_of-routed list_dashboards = (refl, refl)
  call_of-routed (get_dashboard id) =
      (refl, id_segments "/api/v1/dashboards/" ("" ∷ "api" ∷ "v1" ∷ "dashboards" ∷ []) id refl refl)
  call_of-routed (list_services start end) = (refl, refl)
  call_of-routed (get_service_top_operations start end service tags) = (refl, refl)
  call_of-routed (query_builder_v5 json) = (refl, refl)
  call_of-routed (get_alert_history id req) = (refl, history_segments id (history_query req))
  call_of-routed (create_alert_rule json) = (refl, refl)
  call_of-routed (update_alert_rule id json) =
      (refl, id_segments "/api/v2/rules/" ("" ∷ "api" ∷ "v2" ∷ "rules" ∷ []) id refl refl)
  call_of-routed (delete_alert_rule id) =
      (refl, id_segments "/api/v2/rules/" ("" ∷ "api" ∷ "v2" ∷ "rules" ∷ []) id refl refl)
  call_of-routed (list_views source_page name category) =
      (refl, query_segments "/api/v1/explorer/views?" (views_query source_page name category) refl)
  call_of-routed (get_view id) = (
    refl,
    id_segments "/api/v1/explorer/views/" ("" ∷ "api" ∷ "v1" ∷ "explorer" ∷ "views" ∷ []) id refl
        refl,
  )
  call_of-routed (create_view json) = (refl, refl)
  call_of-routed (update_view id json) = (
    refl,
    id_segments "/api/v1/explorer/views/" ("" ∷ "api" ∷ "v1" ∷ "explorer" ∷ "views" ∷ []) id refl
        refl,
  )
  call_of-routed (delete_view id) = (
    refl,
    id_segments "/api/v1/explorer/views/" ("" ∷ "api" ∷ "v1" ∷ "explorer" ∷ "views" ∷ []) id refl
        refl,
  )
  call_of-routed
        (get_field_keys signal metric_name search_text field_context field_data_type source) =
      (
        refl,
        query_segments "/api/v1/fields/keys?"
            (field_keys_query signal metric_name search_text field_context field_data_type source)
            refl,
      )
  call_of-routed (get_field_values signal name metric_name search_text field_context source) = (
    refl,
    query_segments "/api/v1/fields/values?"
        (field_values_query signal name metric_name search_text field_context source) refl,
  )
  call_of-routed (create_dashboard json) = (refl, refl)
  call_of-routed (update_dashboard id json) =
      (refl, id_segments "/api/v1/dashboards/" ("" ∷ "api" ∷ "v1" ∷ "dashboards" ∷ []) id refl refl)
  call_of-routed (delete_dashboard id) =
      (refl, id_segments "/api/v1/dashboards/" ("" ∷ "api" ∷ "v1" ∷ "dashboards" ∷ []) id refl refl)
  call_of-routed list_notification_channels = (refl, refl)
  call_of-routed (get_notification_channel id) =
      (refl, id_segments "/api/v1/channels/" ("" ∷ "api" ∷ "v1" ∷ "channels" ∷ []) id refl refl)
  call_of-routed (create_notification_channel json) = (refl, refl)
  call_of-routed (update_notification_channel id json) =
      (refl, id_segments "/api/v1/channels/" ("" ∷ "api" ∷ "v1" ∷ "channels" ∷ []) id refl refl)
  call_of-routed (delete_notification_channel id) =
      (refl, id_segments "/api/v1/channels/" ("" ∷ "api" ∷ "v1" ∷ "channels" ∷ []) id refl refl)
  call_of-routed (get_top_metrics start end limit) = (refl, refl)
  call_of-routed (test_notification_channel json) = (refl, refl)
