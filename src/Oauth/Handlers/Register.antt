-- ===== src/Oauth/Handlers/Register.antt =====
-- internal/oauth/handlers.go: the registration of a client. The request is the body as
-- encoding/json reads it, `none` where it does not. The text of a parser's error is left out.
pub mod Redirects
use signoz_mcp_server.Base.{
  ℕ, String, Bool, true, false, not, ◌&&◌, ◌||◌, Option, none, some, List, [], ◌∷◌, ◌==◌, ◌<>◌,
  if◌then◌else◌, trim_space, to_lower,
}
use signoz_mcp_server.Base.Int.{quo}
use signoz_mcp_server.Base.Strings.{after_sep}
use signoz_mcp_server.Oauth.Crypto.{
  Bytes, Primitives, ClientIdPayload, encrypt_client_id, Result, ok, error,
}
use signoz_mcp_server.Oauth.Handlers.{
  Config, UrlLibrary, Env, Handled, RegisterClientResponse, registered, respond, write_oauth_error,
  nanos_per_second,
}
use signoz_mcp_server.Util.Url.{ParsedUrl, is_present}

pub record RegisterClientRequest : Type 0 where
  pub client_name : String
  pub redirect_uris : List String

pub data RedirectError : Type 0 where
  uri_malformed scheme_missing fragment_present http_not_loopback host_missing : RedirectError
  scheme_unsupported : String → RedirectError

pub describe : RedirectError → String
describe uri_malformed = "redirect URI is malformed"
describe scheme_missing = "redirect URI must include a scheme"
describe fragment_present = "redirect URI fragments are not allowed"
describe http_not_loopback =
    "HTTP redirect URIs are only allowed for localhost, 127.0.0.1, or [::1]"
describe host_missing = "redirect URI host is required"
describe (scheme_unsupported scheme) = "redirect URI scheme \"" <> (scheme <> "\" is not supported")

unfoldable pub is_allowed_custom_redirect_scheme : (scheme : String) → Bool
is_allowed_custom_redirect_scheme scheme =
    to_lower scheme == "claude" || to_lower scheme == "cursor" || is_present (after_sep scheme ".")

-- The checks on a parsed URI; nil is none.
pub validate_parsed : ParsedUrl → Option RedirectError
validate_parsed parsed =
    let host = to_lower parsed.hostname in
    if parsed.scheme == ""
    then some scheme_missing
    else if not (parsed.fragment == "")
    then some fragment_present
    else if parsed.scheme == "http"
    then (if not (host == "localhost") && not (host == "127.0.0.1") && not (host == "::1")
        then some http_not_loopback
        else none)
    else if parsed.scheme == "https"
    then (if host == "" then some host_missing else none)
    else if not (is_allowed_custom_redirect_scheme parsed.scheme)
    then some (scheme_unsupported parsed.scheme)
    else none

module _ (parse : String → Option ParsedUrl) where
  unfoldable pub validate_redirect_uri : (raw : String) → Option RedirectError
  unfolding validate_parsed
  validate_redirect_uri raw = elim (parse raw) [
    | none ↦ some uri_malformed
    | some parsed ↦ validate_parsed parsed
  ]

  -- The error of the first URI that has one.
  unfoldable pub validate_redirect_uris : List String → Option RedirectError
  validate_redirect_uris [] = none
  validate_redirect_uris (uri ∷ uris) =
      let rest = validate_redirect_uris uris in
      elim (validate_redirect_uri uri) [ some e ↦ some e | none ↦ rest ]

abbrev pub is_empty : List String → Bool
is_empty [] = true
is_empty (uri ∷ uris) = false

abbrev pub invalid_metadata : (description : String) → Handled
invalid_metadata description = write_oauth_error 400 "invalid_client_metadata" description

module _ (p : Primitives) (lib : UrlLibrary) (config : Config) (env : Env) where
  abbrev pub client_payload : RegisterClientRequest → ClientIdPayload
  client_payload req = record {
    redirect_uris = req.redirect_uris;
    client_name = trim_space req.client_name;
    created_at = env.now 0;
  }

  pub issue_client_id : RegisterClientRequest → Handled
  issue_client_id req =
      elim (encrypt_client_id p config.token_secret (env.random 0) (client_payload req)) [
        | error e ↦ write_oauth_error 500 "server_error" "failed to register client"
        | ok client_id ↦ respond (
            registered record {
              client_id = client_id;
              issued_at = quo (env.now 0) nanos_per_second;
              client_name = trim_space req.client_name;
              redirect_uris = req.redirect_uris;
            })
      ]

  unfoldable pub handle_register_client : Option RegisterClientRequest → Handled
  unfolding issue_client_id
  handle_register_client none = invalid_metadata "request body must be valid JSON"
  handle_register_client (some req) =
      if trim_space req.client_name == ""
      then invalid_metadata "client_name is required"
      else if is_empty req.redirect_uris
      then write_oauth_error 400 "invalid_redirect_uri" "at least one redirect URI is required"
      else elim (validate_redirect_uris lib.parse req.redirect_uris) [
        | some e ↦ write_oauth_error 400 "invalid_redirect_uri" (describe e)
        | none ↦ issue_client_id req
      ]
