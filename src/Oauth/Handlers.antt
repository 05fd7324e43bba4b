-- ===== src/Oauth/Handlers.antt =====
-- internal/oauth/handlers.go: the requests, the configuration and the responses of the handlers, and
-- what they share. A handler is a function of the configuration and the request, and of what the
-- request meets: the readings of the clock and the random draws, in order, and the network.
-- Metrics, logs and the tenant URL of the context are left out; the failure reason is kept.
pub mod Register
pub mod Authorize
pub mod Token
pub mod Flow
pub mod Samples
mod Tests
use signoz_mcp_server.Base.{
  ℕ, String, Bool, true, false, not, ◌&&◌, ◌||◌, Option, none, some, List, [], ◌∷◌, ◌==◌, ◌<>◌,
  if◌then◌else◌, trim_space,
}
use signoz_mcp_server.Base.Int.{ℤ, quo, pos, sub_ℕ}
use signoz_mcp_server.Base.Strings.{cut_suffix, has_prefix}
use signoz_mcp_server.Oauth.Crypto.{Bytes, Primitives}
use signoz_mcp_server.Util.Allowlist.{InstanceUrlAllowlist, or_else}
use signoz_mcp_server.Util.Url.{ParsedUrl}
use signoz_mcp_server.Client.Retry.{Network}

-- The fields of the configuration that the handlers read. Durations are nanoseconds, and whole
-- seconds.
pub record Config : Type 0 where
  pub url : String
  pub token_secret : Bytes
  pub oauth_issuer_url : String
  pub access_token_ttl : ℤ
  pub refresh_token_ttl : ℤ
  pub auth_code_ttl : ℤ
  pub custom_headers : List (String × String)
  pub instance_url_allowlist : InstanceUrlAllowlist

-- net/url: a query is its pairs in order, each key with its values.
pub record UrlLibrary : Type 0 where
  pub parse : String → Option ParsedUrl
  pub to_string : ParsedUrl → String
  pub parse_query : String → List (String × List String)
  pub encode_query : List (String × List String) → String

-- The n-th reading of the clock and the n-th draw of random bytes.
pub record Env : Type 0 where
  pub now : ℕ → ℤ
  pub random : (draw size : ℕ) → Option Bytes
  pub network : Network

abbrev pub Values : Type 0
Values = List (String × String)

-- Values.Get
unfoldable pub get_value : Values → (key : String) → Option String
get_value [] key = none
get_value ((k, v) ∷ rest) key = if k == key then some v else get_value rest key

-- `form_error` is an error of ParseForm.
pub record HttpRequest : Type 0 where
  pub query : Values
  pub post_form : Values
  pub form_error : Bool
  pub csrf_cookie : Option String

-- strings.TrimSpace(values.Get(key))
unfoldable pub field_of : Values → (key : String) → String
unfolding get_value
field_of values key = trim_space (or_else (get_value values key) "")

-- r.FormValue(key): the body is read before the query.
unfoldable pub raw_form_value : HttpRequest → (key : String) → String
unfolding get_value
raw_form_value r key = elim (get_value r.post_form key) [
  | some v ↦ v
  | none ↦ or_else (get_value r.query key) ""
]

-- strings.TrimSpace(r.FormValue(key))
unfoldable pub form_value : HttpRequest → (key : String) → String
unfolding raw_form_value
form_value r key = trim_space (raw_form_value r key)

pub record AuthorizeData : Type 0 where
  pub client_id : String
  pub client_name : String
  pub redirect_uri : String
  pub authorize_path : String
  pub state : String
  pub code_challenge : String
  pub code_challenge_method : String
  pub scope : String
  pub csrf_token : String
  pub signoz_url : String
  pub error_message : String
  pub error_code : String
  pub failure_reason : String

-- Every cookie is HttpOnly and SameSite=Lax.
pub record Cookie : Type 0 where
  pub value : String
  pub path : String
  pub secure : Bool
  pub max_age : ℤ

pub record RegisterClientResponse : Type 0 where
  pub client_id : String
  pub issued_at : ℤ
  pub client_name : String
  pub redirect_uris : List String

pub record TokenResponse : Type 0 where
  pub access_token : String
  pub token_type : String
  pub expires_in : ℤ
  pub refresh_token : String

pub data Response : Type 0 where
  oauth_error : (status : ℕ) (error_code description : String) (failure_reason : String) → Response
  authorize_page : (status : ℕ) → AuthorizeData → Cookie → Response
  redirect : (url : String) → Cookie → Response
  registered : RegisterClientResponse → Response
  tokens : TokenResponse → Response

pub data Event : Type 0 where
  authorization_submitted : (api_key signoz_url : String) → Event
  token_issued : (api_key signoz_url grant_type : String) → Event

-- What a handler writes and what it emits.
pub record Handled : Type 0 where
  pub response : Response
  pub event : Option Event

abbrev pub respond : Response → Handled
respond response = record { response = response; event = none }

abbrev pub write_oauth_error : (status : ℕ) (error_code description : String) → Handled
write_oauth_error status error_code description =
    respond (oauth_error status error_code description "")

abbrev pub disallowed_signoz_url : String
disallowed_signoz_url = "disallowed_signoz_url"

abbrev pub nanos_per_second : ℕ
nanos_per_second = 1000000000

-- int(d.Seconds())
abbrev pub seconds : ℤ → ℤ
seconds d = quo d nanos_per_second

unfoldable pub issuer_url : Config → String
issuer_url config = or_else (cut_suffix config.oauth_issuer_url "/") config.oauth_issuer_url

pub path_under : (base : String) → String
path_under base =
    let base_path = or_else (cut_suffix base "/") base in
    if base_path == "" then "/oauth/authorize" else base_path <> "/oauth/authorize"

-- What the two metadata handlers name.
pub record ServerMetadata : Type 0 where
  pub issuer : String
  pub resource : String
  pub authorization_endpoint : String
  pub token_endpoint : String
  pub registration_endpoint : String

unfoldable pub server_metadata : Config → ServerMetadata
server_metadata config = record {
  issuer = issuer_url config;
  resource = issuer_url config <> "/mcp";
  authorization_endpoint = issuer_url config <> "/oauth/authorize";
  token_endpoint = issuer_url config <> "/oauth/token";
  registration_endpoint = issuer_url config <> "/oauth/register";
}

module _ (lib : UrlLibrary) (config : Config) where
  unfoldable pub authorize_path : String
  unfolding path_under
  authorize_path = elim (lib.parse (issuer_url config)) [
    | none ↦ "/oauth/authorize"
    | some parsed ↦ path_under parsed.path
  ]

  unfoldable pub is_secure : Bool
  is_secure = has_prefix config.oauth_issuer_url "https://"

  abbrev pub cookie_of : (value : String) (max_age : ℤ) → Cookie
  cookie_of value max_age = record {
    value = value;
    path = authorize_path;
    secure = is_secure;
    max_age = max_age;
  }

  -- renderAuthorizePage, with the token of the form drawn from 32 random bytes
  unfoldable pub render_authorize_page : Primitives → Env → (status : ℕ) → AuthorizeData → Handled
  render_authorize_page p env status page = elim (env.random 0 32) [
    | none ↦ write_oauth_error 500 "server_error" "failed to generate CSRF token"
    | some buf ↦
        let csrf_token = p.encode_base64 buf in
        respond (
          authorize_page status
            (record page { authorize_path = authorize_path; csrf_token = csrf_token })
            (cookie_of csrf_token (seconds config.auth_code_ttl)))
  ]
