-- ===== src/Lib.antt =====
-- The SigNoz MCP server: the parts of it that decide something, as functions, and what they promise.
-- The server answers the calls of a language model with requests to a SigNoz instance. A tool's
-- arguments are decoded JSON; a list tool reads a limit and an offset from them and returns one page
-- (Paginate); a query tool reads a time window (TimeUtil) and the aggregation of a metric
-- (MetricsRules), and sends a payload that is validated and bounded (QueryBuilder); a dashboard tool
-- fills in defaults, lays the panels out and validates the result before it is sent
-- (DashboardBuilder). Every request to the instance goes through one client, which sets the headers,
-- retries what may be retried, and checks a user's credentials (Client). The OAuth flow in front of
-- the server keeps no state: its codes, tokens and client ids are encrypted texts that the server
-- itself reads back (Oauth); its handlers check the PKCE challenge, the address of the instance and,
-- over the client, the key that a user enters. Which instances a deployment talks to is decided by
-- the address that a user gives (Util).
--
-- The parts, with their paths in the repository:
-- Paginate: pkg/paginate/paginate.go. `array` is Array, `wrap` is Wrap; Paginate/Pages runs a client
--   that follows the next offset of each response.
-- MetricsRules: pkg/metricsrules/rules.go. `apply_defaults` is ApplyDefaults, `validate_aggregation`
--   is ValidateAggregation. A pointer to a result that is filled in is passed on as a value.
-- TimeUtil: pkg/timeutil/time.go. time.ParseDuration is the argument `parse_duration`, the current
--   time is the argument `now`, in nanoseconds since the epoch.
-- DashboardBuilder/Types: pkg/dashboard/dashboardbuilder/types.go and the constants of defaults.go.
-- DashboardBuilder/Layout: layout.go of that directory.
-- DashboardBuilder/Variables: the variables in ApplyDefaults and applyBuilderDefaults of defaults.go.
-- DashboardBuilder/Normalize and DashboardBuilder/Having: normalize.go of that directory, the latter
--   the parser of having expressions. The maps that the code changes in place are values, with the
--   changed one as the result; strconv.ParseFloat is the argument `parse_float`.
-- DashboardBuilder/Errors, Filter, Validate: errors.go and validate.go. A *ValidationError that is
--   added to is the list of its errors; a map is an association list in the order of an iteration;
--   strconv.ParseFloat is the argument `parses_as_float`.
-- Oauth/Crypto and Oauth/Pkce: internal/oauth/crypto.go and pkce.go. crypto/aes, crypto/cipher,
--   crypto/sha256, encoding/base64 and encoding/json are the record `Primitives`; `IsSound` states
--   what the code relies on: base64 and JSON read back what they wrote, and the cipher opens what it
--   sealed and nothing else.
-- Oauth/Handlers: internal/oauth/handlers.go. A handler is a function from what it reads of a request
--   to its response. Random bytes, the clock, net/url and the instance's replies are arguments.
-- Client: internal/client/client.go, with TruncBody of pkg/log/log.go and pkg/version/version.go.
--   Client/Retry is doRequestWithReplayPolicy over a `Network` that answers each attempt;
--   Client/Validation is ValidateCredentials; Client/Identity is GetAnalyticsIdentity with its cache.
-- Client/Operations: the methods of that client, one constructor of `Operation` each, and the query
--   parameters of pkg/types/alerts.go. `call_of` is the request that a method makes; `route`, in
--   Client/Operations/Routes, lists the method and the path segments of each endpoint.
-- QueryBuilder: pkg/types/querybuilder.go, from the structs of a payload to its validation.
--   QueryBuilder/Orders and QueryBuilder/Bounds are ApplyBuilderBounds, QueryBuilder/Validation is Validate, with the changed
--   payload as the result; QueryBuilder/Aliases reads formulas and aliases; QueryBuilder/Payloads is
--   what the tools for logs and traces build.
-- Util/Allowlist and Util/Url: pkg/util/allowlist.go and url.go. net.SplitHostPort, url.Parse and
--   URL.String are arguments; a set of texts is the list of its members.
-- Base: what the parts share. An `int` is an integer whose sums and products wrap at 64 bits where
--   the code computes with values that a request chooses (Base/Word); the conversion of a float64 to
--   an int64 out of range is that of amd64 (Base/Any); a text is its code points, and its bytes are
--   written out where the code counts them (Base/Text).
--
-- Fuel: the search of contains_key_as_identifier runs on one round for each character and one more;
-- each round moves forward by one character at least. The client of Paginate/Pages runs one round
-- for each item and one more; each page that is not the last one has an item. The having parser
-- runs on one round for each character and one more, since a wrapped part is shorter than the
-- expression that it stands in; its loop that takes parentheses off runs on one round for each
-- character, and each round takes two.
--
-- Not modelled: the texts of messages (constructors hold what they are formatted from), the MCP
-- tools and their registration, the documentation index, prompts, the HTML of the authorization
-- page, logging and telemetry; of the client, the query that GetTraceDetails builds and the summary
-- that ListDashboards makes of the answer; of the query payloads, their JSON and those for metrics.
mod Base
pub mod Paginate
pub mod TimeUtil
pub mod MetricsRules
pub mod DashboardBuilder
pub mod Oauth
pub mod QueryBuilder
pub mod Util
pub mod Client
