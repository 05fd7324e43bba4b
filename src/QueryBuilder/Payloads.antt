-- ===== src/QueryBuilder/Payloads.antt =====
-- pkg/types/querybuilder.go: the payloads that the tools for logs and traces build.
pub mod Ready
use signoz_mcp_server.Base.{
  String, Bool, false, Option, none, some, List, [], ◌∷◌, ◌==◌, if◌then◌else◌,
}
use signoz_mcp_server.Base.Int.{ℤ, pos}
use signoz_mcp_server.Base.Any.{Any, nil, string, object, field, done}
use signoz_mcp_server.QueryBuilder.{
  Key, Order, SelectField, QuerySpec, query_spec, Query, QueryPayload,
}
use signoz_mcp_server.QueryBuilder.Orders.{descending}

-- A payload with one builder query.
abbrev pub payload_of : (start end : ℤ) (request_type : String) → QuerySpec → QueryPayload
payload_of start end request_type spec = record {
  schema_version = "v1";
  start = start;
  end = end;
  request_type = request_type;
  queries = record { type = "builder_query"; spec = query_spec spec } ∷ [];
  format_table_result_for_ui = false;
  fill_gaps = false;
  variables = done;
  no_cache = false;
  applied_bounds = [];
}

-- The fields of a query that the builders leave at their zero values.
abbrev pub spec_of : (signal filter : String) (limit offset : ℤ) → List Order → QuerySpec
spec_of signal filter limit offset order = record {
  name = "A";
  signal = signal;
  source = "";
  step_interval = none;
  disabled = false;
  filter = some filter;
  limit = limit;
  limit_by = nil;
  offset = offset;
  cursor = "";
  order = order;
  having = "";
  select_fields = [];
  aggregations = [];
  secondary_aggregations = [];
  group_by = [];
  functions = [];
  legend = "";
}

abbrev pub build_logs_query_payload :
    (start end : ℤ) (filter : String) (limit offset : ℤ) → QueryPayload
build_logs_query_payload start end filter limit offset =
    payload_of start end "raw"
      (spec_of "logs" filter limit offset (descending "timestamp" ∷ descending "id" ∷ []))

abbrev pub build_aggregate_query_payload :
    (signal : String) (start end : ℤ) (aggregation filter : String)
    → List SelectField
    → (order_by order_direction : String) (limit : ℤ) (request_type : String) → Option ℤ
    → QueryPayload
build_aggregate_query_payload signal start end aggregation filter group_by order_by order_direction
      limit request_type step =
    let order = record (descending order_by) { direction = order_direction } in
    payload_of start end (if request_type == "" then "scalar" else request_type)
      (record (spec_of signal filter limit (pos 0) (order ∷ [])) {
        step_interval = step;
        group_by = group_by;
        aggregations = object (field "expression" (string aggregation) done) ∷ [];
      })

abbrev trace_field : (name type context : String) → SelectField
trace_field name type context = record {
  name = name;
  field_data_type = type;
  signal = "traces";
  field_context = context;
}

abbrev pub trace_fields : List SelectField
trace_fields =
    trace_field "trace_id" "string" "span"
    ∷ trace_field "span_id" "string" "span"
    ∷ trace_field "parent_span_id" "string" "span"
    ∷ trace_field "name" "string" "span"
    ∷ trace_field "duration_nano" "number" "span"
    ∷ trace_field "timestamp" "number" "span"
    ∷ trace_field "has_error" "bool" "span"
    ∷ trace_field "status_code" "number" "span"
    ∷ trace_field "status_code_string" "string" "span"
    ∷ trace_field "http_method" "string" "span"
    ∷ trace_field "http_url" "string" "span"
    ∷ trace_field "kind_string" "string" "span"
    ∷ trace_field "kind" "number" "span"
    ∷ trace_field "response_status_code" "string" "span"
    ∷ trace_field "status_message" "string" "span"
    ∷ trace_field "service.name" "string" "resource"
    ∷ trace_field "cloud.account.id" "string" "resource"
    ∷ trace_field "cloud.platform" "string" "resource"
    ∷ trace_field "cloud.provider" "string" "resource"
    ∷ trace_field "cloud.region" "string" "resource"
    ∷ trace_field "deployment.environment" "string" "resource"
    ∷ trace_field "host.name" "string" "resource"
    ∷ trace_field "k8s.cluster.name" "string" "resource"
    ∷ trace_field "k8s.namespace.name" "string" "resource"
    ∷ trace_field "k8s.node.name" "string" "resource"
    ∷ trace_field "k8s.pod.name" "string" "resource"
    ∷ trace_field "k8s.pod.start_time" "string" "resource"
    ∷ trace_field "k8s.pod.uid" "string" "resource"
    ∷ trace_field "k8s.statefulset.name" "string" "resource"
    ∷ trace_field "service.version" "string" "resource"
    ∷ trace_field "signoz.deployment.tier" "string" "resource"
    ∷ trace_field "signoz.workload" "string" "resource"
    ∷ trace_field "signoz.workspace.key.id" "string" "resource"
    ∷ trace_field "client.address" "string" "tag"
    ∷ trace_field "http.request.method" "string" "tag"
    ∷ trace_field "http.response.body.size" "string" "tag"
    ∷ trace_field "http.response.status_code" "number" "tag"
    ∷ trace_field "http.route" "string" "tag"
    ∷ trace_field "rpc.method" "string" "tag"
    ∷ trace_field "network.peer.address" "string" "tag"
    ∷ trace_field "network.peer.port" "string" "tag"
    ∷ trace_field "network.protocol.version" "string" "tag"
    ∷ trace_field "server.address" "string" "tag"
    ∷ trace_field "url.path" "string" "tag"
    ∷ trace_field "url.scheme" "string" "tag"
    ∷ trace_field "db.operation" "string" "tag"
    ∷ trace_field "db.statement" "string" "tag"
    ∷ trace_field "db.system" "string" "tag"
    ∷ []

abbrev pub build_traces_query_payload :
    (start end : ℤ) (filter : String) (limit offset : ℤ) → QueryPayload
build_traces_query_payload start end filter limit offset =
    payload_of start end "raw"
      (record (spec_of "traces" filter limit offset (descending "timestamp" ∷ [])) {
        select_fields = trace_fields;
      })
