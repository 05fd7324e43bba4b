-- ===== src/Client/Operations.antt =====
-- internal/client/client.go: the operations of the API, each as the call that it makes. json.Marshal
-- of a payload is an argument; what a caller has marshalled, and a dashboard, is its JSON.
-- GetTraceDetails is left out, and so is what ListDashboards makes of its answer.
-- types/alerts.go: the query parameters of the alerts.
pub mod Replays
pub mod Routes
pub mod Segments
mod Tests
use signoz_mcp_server.Base.{
  ℕ, String, Bool, true, false, Option, none, some, List, [], ◌∷◌, ◌==◌, ◌<>◌, if◌then◌else◌,
}
use signoz_mcp_server.Base.Int.{ℤ, pos, ltb_ℤ}
use signoz_mcp_server.Base.Any.{Any, Fields, string, integer, int64, int, object, field, done}
use signoz_mcp_server.Base.Decimal.{format_int}
use signoz_mcp_server.Base.Query.{Query, set_param, encode_query, path_escape}
use signoz_mcp_server.Client.{SigNoz, Bytes}
use signoz_mcp_server.Client.Retry.{Network, Run, do_request, do_replay_safe_post}

pub record ListAlertsParams : Type 0 where
  pub active : Option Bool
  pub filter : List String
  pub inhibited : Option Bool
  pub receiver : String
  pub silenced : Option Bool

pub record AlertHistoryRequest : Type 0 where
  pub start : ℤ
  pub end : ℤ
  pub state : String
  pub filter_expression : String
  pub limit : ℤ
  pub order : String
  pub cursor : String

pub data Operation : Type 0 where
  list_metrics : (start end limit : ℤ) (search_text source : String) → Operation
  list_metric_keys list_alert_rules list_dashboards list_notification_channels : Operation
  list_alerts : ListAlertsParams → Operation
  get_alert_by_rule_id get_dashboard get_view get_notification_channel : (id : String) → Operation
  delete_alert_rule delete_view delete_dashboard delete_notification_channel :
      (id : String) → Operation
  list_services : (start end : String) → Operation
  get_service_top_operations : (start end service : String) (tags : Any) → Operation
  query_builder_v5 : Bytes → Operation
  get_alert_history : (rule_id : String) → AlertHistoryRequest → Operation
  create_alert_rule create_view create_dashboard create_notification_channel
        test_notification_channel :
      (json : Bytes) → Operation
  update_alert_rule update_view update_dashboard update_notification_channel :
      (id : String) (json : Bytes) → Operation
  list_views : (source_page name category : String) → Operation
  get_field_keys :
      (signal metric_name search_text field_context field_data_type source : String) → Operation
  get_field_values : (signal name metric_name search_text field_context source : String) → Operation
  get_top_metrics : (start end limit : ℤ) → Operation

-- doRequest with a method, or doReplaySafePost
pub data Sending : Type 0 where
  by_method : String → Sending
  replay_safe_post : Sending

pub record ApiCall : Type 0 where
  pub sending : Sending
  pub path : String
  pub body : Option Bytes

-- if value != "" { params.Set(key, value) }
pub set_given : (key value : String) → Query → Query
set_given key value query = if value == "" then query else set_param key value query

pub set_positive : (key : String) (value : ℤ) → Query → Query
set_positive key value query =
    if ltb_ℤ (pos 0) value then set_param key (format_int value) query else query

pub set_flag : (key : String) → Option Bool → Query → Query
set_flag key none query = query
set_flag key (some true) query = set_param key "true" query
set_flag key (some false) query = set_param key "false" query

-- Values.Add of each filter, to a query without that key
pub set_filters : List String → Query → Query
set_filters [] query = query
set_filters (f ∷ fs) query = ("filter", f ∷ fs) ∷ query

pub alerts_query : ListAlertsParams → Query
alerts_query p = set_flag "silenced" p.silenced (
    set_given "receiver" p.receiver
      (set_flag "inhibited" p.inhibited (set_filters p.filter (set_flag "active" p.active []))))

pub history_query : AlertHistoryRequest → Query
history_query r = set_given "cursor" r.cursor (
    set_given "order" r.order (
      set_positive "limit" r.limit (
        set_given "filterExpression" r.filter_expression (
          set_given "state" r.state
            (set_param "end" (format_int r.end) (set_param "start" (format_int r.start) []))))))

pub with_alerts_query : Query → (path : String) → String
with_alerts_query [] path = path
with_alerts_query (p ∷ ps) path = path <> ("?" <> encode_query (p ∷ ps))

pub metrics_query : (start end limit : ℤ) (search_text source : String) → Query
metrics_query start end limit search_text source = set_given "source" source (
    set_given "searchText" search_text
      (set_positive "limit" limit (set_positive "end" end (set_positive "start" start []))))

pub views_query : (source_page name category : String) → Query
views_query source_page name category =
    set_given "category" category (set_given "name" name (set_param "sourcePage" source_page []))

pub field_keys_query :
    (signal metric_name search_text field_context field_data_type source : String) → Query
field_keys_query signal metric_name search_text field_context field_data_type source =
    set_given "source" source (
      set_given "fieldDataType" field_data_type (
        set_given "fieldContext" field_context (
          set_given "searchText" search_text
            (set_given "metricName" metric_name (set_param "signal" signal [])))))

pub field_values_query : (signal name metric_name search_text field_context source : String) → Query
field_values_query signal name metric_name search_text field_context source =
    set_given "source" source (
      set_given "fieldContext" field_context (
        set_given "searchText" search_text (
          set_given "metricName" metric_name
            (set_param "name" name (set_param "signal" signal [])))))

abbrev pub get_call : (path : String) → ApiCall
get_call path = record { sending = by_method "GET"; path = path; body = none }

abbrev pub delete_call : (path : String) → ApiCall
delete_call path = record { sending = by_method "DELETE"; path = path; body = none }

abbrev pub post_call : (path : String) (json : Bytes) → ApiCall
post_call path json = record { sending = by_method "POST"; path = path; body = some json }

abbrev pub put_call : (path : String) (json : Bytes) → ApiCall
put_call path json = record { sending = by_method "PUT"; path = path; body = some json }

abbrev pub query_call : (path : String) (json : Bytes) → ApiCall
query_call path json = record { sending = replay_safe_post; path = path; body = some json }

module _ (marshal : Any → Bytes) where
  -- The path is what follows the base URL.
  unfoldable pub call_of : Operation → ApiCall
  call_of (list_metrics start end limit search_text source) =
      get_call
        ("/api/v2/metrics?" <> encode_query (metrics_query start end limit search_text source))
  call_of list_metric_keys = get_call "/api/v1/metrics/filters/keys"
  call_of (list_alerts params) = get_call (with_alerts_query (alerts_query params) "/api/v1/alerts")
  call_of list_alert_rules = get_call "/api/v2/rules"
  call_of (get_alert_by_rule_id id) = get_call ("/api/v2/rules/" <> path_escape id)
  call_of list_dashboards = get_call "/api/v1/dashboards"
  call_of (get_dashboard id) = get_call ("/api/v1/dashboards/" <> path_escape id)
  call_of (list_services start end) =
      query_call "/api/v1/services"
        (marshal (object (field "end" (string end) (field "start" (string start) done))))
  call_of (get_service_top_operations start end service tags) =
      query_call "/api/v1/service/top_operations" (
        marshal (
          object (
            field "end" (string end) (
              field "service" (string service)
                (field "start" (string start) (field "tags" tags done))))))
  call_of (query_builder_v5 json) = query_call "/api/v5/query_range" json
  call_of (get_alert_history rule_id req) = get_call (
      "/api/v2/rules/"
      <> (path_escape rule_id <> ("/history/timeline?" <> encode_query (history_query req))))
  call_of (create_alert_rule json) = post_call "/api/v2/rules" json
  call_of (update_alert_rule id json) = put_call ("/api/v2/rules/" <> path_escape id) json
  call_of (delete_alert_rule id) = delete_call ("/api/v2/rules/" <> path_escape id)
  call_of (list_views source_page name category) =
      get_call ("/api/v1/explorer/views?" <> encode_query (views_query source_page name category))
  call_of (get_view id) = get_call ("/api/v1/explorer/views/" <> path_escape id)
  call_of (create_view json) = post_call "/api/v1/explorer/views" json
  call_of (update_view id json) = put_call ("/api/v1/explorer/views/" <> path_escape id) json
  call_of (delete_view id) = delete_call ("/api/v1/explorer/views/" <> path_escape id)
  call_of (get_field_keys signal metric_name search_text field_context field_data_type source) =
      get_call (
        "/api/v1/fields/keys?"
        <> encode_query
            (field_keys_query signal metric_name search_text field_context field_data_type source))
  call_of (get_field_values signal name metric_name search_text field_context source) = get_call (
      "/api/v1/fields/values?"
      <> encode_query (field_values_query signal name metric_name search_text field_context source))
  call_of (create_dashboard json) = post_call "/api/v1/dashboards" json
  call_of (update_dashboard id json) = put_call ("/api/v1/dashboards/" <> path_escape id) json
  call_of (delete_dashboard id) = delete_call ("/api/v1/dashboards/" <> path_escape id)
  call_of list_notification_channels = get_call "/api/v1/channels"
  call_of (get_notification_channel id) = get_call ("/api/v1/channels/" <> path_escape id)
  call_of (create_notification_channel json) = post_call "/api/v1/channels" json
  call_of (update_notification_channel id json) =
      put_call ("/api/v1/channels/" <> path_escape id) json
  call_of (delete_notification_channel id) = delete_call ("/api/v1/channels/" <> path_escape id)
  call_of (get_top_metrics start end limit) = query_call "/api/v2/metrics/treemap" (
      marshal (
        object (
          field "end" (integer int64 end) (
            field "filter" (object (field "expression" (string "") done)) (
              field "limit" (integer int limit) (
                field "mode" (string "samples") (
                  field "start" (integer int64 start)
                    (field "treemap" (string "samples") done))))))))
  call_of (test_notification_channel json) = post_call "/api/v1/channels/test" json

  module _ (version : String) (net : Network) (s : SigNoz) where
    pub send_call : ApiCall → Run
    send_call call = elim call.sending [
      | by_method method ↦ do_request version net s method (s.base_url <> call.path) call.body
      | replay_safe_post ↦ do_replay_safe_post version net s (s.base_url <> call.path) call.body
    ]

    unfoldable pub send : Operation → Run
    unfolding send_call
    send op = send_call (call_of op)
