-- ===== src/Oauth/Handlers/Authorize.antt =====
-- internal/oauth/handlers.go: the authorization endpoint, its form and the redirect with the code.
pub mod Granted
use signoz_mcp_server.Base.{
  ℕ, String, Bool, true, false, not, ◌&&◌, ◌||◌, Option, none, some, List, [], ◌∷◌, ◌==◌, ◌<>◌,
  if◌then◌else◌, trim_space,
}
use signoz_mcp_server.Base.Int.{sub_ℕ, ◌+ℤ◌}
use signoz_mcp_server.Base.Fold.{equal_fold}
use signoz_mcp_server.Oauth.Crypto.{
  Bytes, Primitives, AuthorizationCodePayload, encrypt_authorization_code, decrypt_client_id,
  Result, ok, error,
}
use signoz_mcp_server.Oauth.Handlers.{
  Config, UrlLibrary, Env, Values, HttpRequest, AuthorizeData, Handled, redirect,
  authorization_submitted, write_oauth_error, get_value, field_of, form_value, cookie_of,
  render_authorize_page, disallowed_signoz_url,
}
use signoz_mcp_server.Util.Allowlist.{allows_url, mem, or_else}
use signoz_mcp_server.Util.Url.{
  ParsedUrl, UrlResult, origin, refused, normalize_signoz_url, normalize_signoz_url_form_input,
}
use signoz_mcp_server.Client.{SigNoz}
use signoz_mcp_server.Client.Validation.{
  ValidationError, unauthorized, instance_not_found, unreachable, unexpected_status,
  validate_credentials,
}

pub data AuthorizeError : Type 0 where
  response_type_unsupported client_missing challenge_missing not_registered redirect_mismatch :
      AuthorizeError

pub describe : AuthorizeError → String
describe response_type_unsupported = "response_type must be code"
describe client_missing = "client_id and redirect_uri are required"
describe challenge_missing = "code_challenge and code_challenge_method=S256 are required"
describe not_registered = "client_id is not registered"
describe redirect_mismatch = "redirect_uri does not match the registered client"

pub data Validated : Type 0 where
  accepted : AuthorizeData → Validated
  invalid : AuthorizeError → Validated

-- The query with a key set to one value.
pub set_query : (key value : String) → List (String × List String) → List (String × List String)
set_query key value [] = (key, value ∷ []) ∷ []
set_query key value ((k, vs) ∷ rest) =
    if k == key then (k, value ∷ []) ∷ rest else (k, vs) ∷ set_query key value rest

pub with_query : ParsedUrl → (raw_query : String) → ParsedUrl
with_query u raw_query = record u { raw_query = raw_query }

abbrev pub not_permitted_message : String
not_permitted_message =
    "This SigNoz instance is not served by this MCP endpoint. SigNoz Cloud users must use their "
    <> "region's MCP URL (https://mcp.<region>.signoz.cloud/mcp); self-hosted users should run the SigNoz MCP "
    <> "server themselves. Docs: https://signoz.io/docs/ai/signoz-mcp-server/"

-- What the page shows of a request that is accepted.
abbrev pub request_data : Values → (client_name : String) → AuthorizeData
request_data values client_name = record {
  client_id = field_of values "client_id";
  client_name = client_name;
  redirect_uri = field_of values "redirect_uri";
  authorize_path = "";
  state = or_else (get_value values "state") "";
  code_challenge = field_of values "code_challenge";
  code_challenge_method = field_of values "code_challenge_method";
  scope = or_else (get_value values "scope") "";
  csrf_token = "";
  signoz_url = "";
  error_message = "";
  error_code = "";
  failure_reason = "";
}

module _ (p : Primitives) (config : Config) (env : Env) where
  unfoldable pub validate_authorize_request : Values → Validated
  validate_authorize_request values =
      let client_id = field_of values "client_id" in
      let redirect_uri = field_of values "redirect_uri" in
      let code_challenge = field_of values "code_challenge" in
      let code_challenge_method = field_of values "code_challenge_method" in
      let response_type = or_else (get_value values "response_type") "" in
      if not (response_type == "") && not (response_type == "code")
      then invalid response_type_unsupported
      else if client_id == "" || redirect_uri == ""
      then invalid client_missing
      else if code_challenge == "" || not (code_challenge_method == "S256")
      then invalid challenge_missing
      else elim (decrypt_client_id p (env.now 0) client_id config.token_secret) [
        | error e ↦ invalid not_registered
        | ok client ↦
            if not (mem redirect_uri client.redirect_uris)
            then invalid redirect_mismatch
            else accepted (request_data values client.client_name)
      ]

-- The redirect URI with the code, and with the state where there is one, in its query.
unfoldable pub add_authorize_response :
    UrlLibrary → (redirect_uri code state : String) → Option String
unfolding set_query with_query
add_authorize_response lib redirect_uri code state = elim (lib.parse redirect_uri) [
  | none ↦ none
  | some parsed ↦
      let coded = set_query "code" code (lib.parse_query parsed.raw_query) in
      let query = if state == "" then coded else set_query "state" state coded in
      some (lib.to_string (with_query parsed (lib.encode_query query)))
]

unfoldable pub validate_csrf : HttpRequest → Bool
validate_csrf r = elim r.csrf_cookie [
  | none ↦ false
  | some cookie ↦
      let form_token = form_value r "csrf_token" in not (form_token == "") && cookie == form_token
]

-- The page again, with what was entered and an error.
abbrev pub page_with :
    AuthorizeData → (signoz_url error_message error_code failure_reason : String) → AuthorizeData
page_with params signoz_url error_message error_code failure_reason = record params {
  signoz_url = signoz_url;
  error_message = error_message;
  error_code = error_code;
  failure_reason = failure_reason;
}

-- config.URL in normal form, "" where it has none.
pub configured_origin : UrlLibrary → Config → String
configured_origin lib config = elim (normalize_signoz_url lib.parse config.url) [
  | origin url ↦ url
  | refused e ↦ ""
]

-- The client that checks the credentials. The custom headers go to the configured instance only.
unfoldable pub validation_client : UrlLibrary → Config → (signoz_url api_key : String) → SigNoz
unfolding configured_origin
validation_client lib config signoz_url api_key = record {
  base_url = signoz_url;
  api_key = api_key;
  auth_header_name = "SIGNOZ-API-KEY";
  custom_headers =
      (if equal_fold signoz_url (configured_origin lib config) then config.custom_headers else []);
}

abbrev pub host_of : UrlLibrary → (raw_url : String) → Option String
host_of lib raw_url = elim (lib.parse raw_url) [ none ↦ none | some u ↦ some u.hostname ]

module _ (p : Primitives) (lib : UrlLibrary) (version : String) (config : Config) (env : Env) where
  unfoldable pub validate_signoz_credentials :
      (signoz_url api_key : String) → Option ValidationError
  validate_signoz_credentials signoz_url api_key =
      validate_credentials version env.network (validation_client lib config signoz_url api_key)

  unfoldable pub handle_authorize_page : HttpRequest → Handled
  handle_authorize_page r = elim (validate_authorize_request p config env r.query) [
    | invalid e ↦ write_oauth_error 400 "invalid_request" (describe e)
    | accepted params ↦ render_authorize_page lib config p env 200 params
  ]

  -- The page for credentials that were not accepted.
  unfoldable pub refuse_credentials :
      AuthorizeData → (normalized_url : String) → ValidationError → Handled
  refuse_credentials params normalized_url (unauthorized status) =
      render_authorize_page lib config p env 401 (
        page_with params normalized_url
          "We couldn't sign in to that SigNoz instance. Check the URL and API key, then try again."
          "access_denied" "")
  refuse_credentials params normalized_url (instance_not_found status) =
      render_authorize_page lib config p env 404 (
        page_with params normalized_url
          ("We couldn't find a SigNoz workspace at that URL. If your trial or subscription has ended, "
            <> "the workspace may have been deactivated — check your workspace status or contact SigNoz support.")
          "invalid_request" "instance_not_found")
  refuse_credentials params normalized_url e = render_authorize_page lib config p env 502 (
      page_with params normalized_url
        "We couldn't reach that SigNoz instance. Check the URL and try again."
        "temporarily_unavailable" "instance_unreachable")

  abbrev pub code_payload :
      AuthorizeData → (normalized_url api_key : String) → AuthorizationCodePayload
  code_payload params normalized_url api_key = record {
    api_key = api_key;
    signoz_url = normalized_url;
    client_id = params.client_id;
    redirect_uri = params.redirect_uri;
    code_challenge = params.code_challenge;
    code_challenge_method = params.code_challenge_method;
    expires_at = env.now 0 +ℤ config.auth_code_ttl;
  }

  -- The redirect to the client, with a code for accepted credentials.
  unfoldable pub grant_code : AuthorizeData → (normalized_url api_key : String) → Handled
  grant_code params normalized_url api_key =
      elim (encrypt_authorization_code p config.token_secret (env.random 0)
        (code_payload params normalized_url api_key)) [
          | error e ↦ write_oauth_error 500 "server_error" "failed to generate authorization code"
          | ok code ↦ elim (add_authorize_response lib params.redirect_uri code params.state) [
            | none ↦ write_oauth_error 500 "server_error" "failed to build redirect URL"
            | some redirect_url ↦ record {
              response = redirect redirect_url (cookie_of lib config "" (sub_ℕ 0 1));
              event = some (authorization_submitted api_key normalized_url);
            }
          ]
        ]

  -- HandleAuthorizeSubmit from the API key on
  unfoldable pub submit_credentials : HttpRequest → AuthorizeData → Handled
  submit_credentials r params =
      let api_key = form_value r "api_key" in
      let signoz_url = form_value r "signoz_url" in
      if api_key == ""
      then render_authorize_page lib config p env 400 (
          page_with params signoz_url "Enter your SigNoz API key to continue." "invalid_request" "")
      else elim (normalize_signoz_url_form_input lib.parse lib.to_string signoz_url) [
        | refused e ↦ render_authorize_page lib config p env 400 (
            page_with params signoz_url
              "Enter a valid SigNoz URL, for example your-instance.signoz.cloud." "invalid_request"
              "")
        | origin normalized_url ↦
            if not (allows_url (host_of lib) config.instance_url_allowlist normalized_url)
            then render_authorize_page lib config p env 403 (
                page_with params normalized_url not_permitted_message "access_denied"
                  disallowed_signoz_url)
            else elim (validate_signoz_credentials normalized_url api_key) [
              | some e ↦ refuse_credentials params normalized_url e
              | none ↦ grant_code params normalized_url api_key
            ]
      ]

  unfoldable pub handle_authorize_submit : HttpRequest → Handled
  handle_authorize_submit r =
      if r.form_error
      then write_oauth_error 400 "invalid_request" "form data is required"
      else if not (validate_csrf r)
      then write_oauth_error 403 "access_denied" "invalid CSRF token"
      else elim (validate_authorize_request p config env r.post_form) [
        | invalid e ↦ write_oauth_error 400 "invalid_request" (describe e)
        | accepted params ↦ submit_credentials r params
      ]
