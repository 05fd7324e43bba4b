-- ===== src/QueryBuilder.antt =====
-- pkg/types/querybuilder.go: the payload of a Query Builder v5 request. An aggregation is what its
-- JSON decodes to; raw JSON is a value of `Any`. The texts of errors are left out, what they name is
-- kept. The code changes the payload in place; here the changed payload is the result, and an error
-- leaves none: the callers drop a payload that is refused.
pub mod Aliases
pub mod Orders
pub mod Bounds
pub mod Validation
pub mod Payloads
mod Tests
use signoz_mcp_server.Base.{ℕ, String, Bool, Option, List}
use signoz_mcp_server.Base.Int.{ℤ, pos}
use signoz_mcp_server.Base.Any.{Any, Fields}

abbrev pub default_raw_query_limit : ℤ
default_raw_query_limit = pos 100

abbrev pub default_aggregate_query_limit : ℤ
default_aggregate_query_limit = pos 100

abbrev pub max_query_limit : ℤ
max_query_limit = pos 10000

abbrev pub default_formula_input_query_limit : ℤ
default_formula_input_query_limit = max_query_limit

pub record Key : Type 0 where
  pub name : String
  pub description : String
  pub unit : String
  pub signal : String
  pub field_context : String
  pub field_data_type : String

pub record Order : Type 0 where
  pub key : Key
  pub direction : String

pub record SelectField : Type 0 where
  pub name : String
  pub field_data_type : String
  pub signal : String
  pub field_context : String

pub record QuerySpec : Type 0 where
  pub name : String
  pub signal : String
  pub source : String
  pub step_interval : Option ℤ
  pub disabled : Bool
  pub filter : Option String
  pub limit : ℤ
  pub limit_by : Any
  pub offset : ℤ
  pub cursor : String
  pub order : List Order
  pub having : String
  pub select_fields : List SelectField
  pub aggregations : List Any
  pub secondary_aggregations : List Any
  pub group_by : List SelectField
  pub functions : List Any
  pub legend : String

pub record FormulaSpec : Type 0 where
  pub name : String
  pub expression : String
  pub legend : String
  pub disabled : Bool
  pub limit : ℤ
  pub order : List Order
  pub having : Option String
  pub functions : List Any

pub record PromQlSpec : Type 0 where
  pub name : String
  pub query : String
  pub disabled : Bool
  pub step : Any
  pub stats : Bool
  pub legend : String

pub record ClickHouseSqlSpec : Type 0 where
  pub name : String
  pub query : String
  pub disabled : Bool
  pub legend : String

-- The concrete types that a spec may have.
pub data Spec : Type 0 where
  query_spec : QuerySpec → Spec
  formula_spec : FormulaSpec → Spec
  promql_spec : PromQlSpec → Spec
  clickhouse_sql_spec : ClickHouseSqlSpec → Spec
  raw_spec : Any → Spec

pub record Query : Type 0 where
  pub type : String
  pub spec : Spec

-- query_name is the name that the code puts into a text, with the position where it is blank.
pub record AppliedQueryBounds : Type 0 where
  pub query_index : ℕ
  pub query_name : String
  pub limit : ℤ
  pub order : List Order
  pub limit_defaulted : Bool
  pub order_defaulted : Bool
  pub formula_input : Bool

pub record QueryPayload : Type 0 where
  pub schema_version : String
  pub start : ℤ
  pub end : ℤ
  pub request_type : String
  pub queries : List Query
  pub format_table_result_for_ui : Bool
  pub fill_gaps : Bool
  pub variables : Fields
  pub no_cache : Bool
  pub applied_bounds : List AppliedQueryBounds

-- What is refused, at the query with this index.
pub data QueryError : Type 0 where
  missing_time_range missing_queries : QueryError
  wrong_spec_type missing_query missing_expression formula_request_type unsupported_request_type
        missing_aggregations unknown_signal :
      (index : ℕ) → QueryError
  negative_limit limit_above_maximum negative_offset no_aggregation_expression no_default_order :
      (index : ℕ) → QueryError
  empty_order_key invalid_direction : (index order_index : ℕ) → QueryError

pub data Checked (A : Type 0) : Type 0 where
  accepted : A → Checked A
  refused : QueryError → Checked A
