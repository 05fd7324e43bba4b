-- ===== src/Oauth/Handlers/Token.antt =====
-- internal/oauth/handlers.go: the token endpoint.
pub mod Issued
use signoz_mcp_server.Base.{
  ℕ, String, Bool, true, false, not, ◌&&◌, ◌||◌, Option, none, some, ◌==◌, if◌then◌else◌,
}
use signoz_mcp_server.Base.Int.{◌+ℤ◌}
use signoz_mcp_server.Oauth.Crypto.{
  Primitives, TokenPayload, RefreshTokenPayload, AuthorizationCodePayload, encrypt_token,
  encrypt_refresh_token, decrypt_authorization_code, decrypt_refresh_token, Result, ok, error,
  Opened, valid, expired, failed,
}
use signoz_mcp_server.Oauth.Pkce.{validate_pkce}
use signoz_mcp_server.Oauth.Handlers.{
  Config, UrlLibrary, Env, HttpRequest, Handled, oauth_error, tokens, token_issued, respond,
  write_oauth_error, form_value, raw_form_value, disallowed_signoz_url, seconds,
}
use signoz_mcp_server.Oauth.Handlers.Authorize.{host_of, not_permitted_message}
use signoz_mcp_server.Util.Allowlist.{allows_url}

module _ (p : Primitives) (lib : UrlLibrary) (config : Config) (env : Env) where
  abbrev pub access_payload : (client_id api_key signoz_url : String) → TokenPayload
  access_payload client_id api_key signoz_url = record {
    api_key = api_key;
    signoz_url = signoz_url;
    client_id = client_id;
    expires_at = env.now 1 +ℤ config.access_token_ttl;
  }

  abbrev pub refresh_payload : (client_id api_key signoz_url : String) → RefreshTokenPayload
  refresh_payload client_id api_key signoz_url = record {
    api_key = api_key;
    signoz_url = signoz_url;
    client_id = client_id;
    expires_at = env.now 2 +ℤ config.refresh_token_ttl;
  }

  -- The first reading of the clock is that of the grant.
  unfoldable pub issue_token_pair : (client_id api_key signoz_url grant_type : String) → Handled
  issue_token_pair client_id api_key signoz_url grant_type =
      if not (allows_url (host_of lib) config.instance_url_allowlist signoz_url)
      then respond (oauth_error 400 "invalid_grant" not_permitted_message disallowed_signoz_url)
      else elim (encrypt_token p config.token_secret (env.random 0)
          (access_payload client_id api_key signoz_url)) [
            | error e ↦ write_oauth_error 500 "server_error" "failed to create access token"
            | ok access_token ↦
                elim (encrypt_refresh_token p config.token_secret (env.random 1)
                  (refresh_payload client_id api_key signoz_url)) [
                    | error e ↦
                        write_oauth_error 500 "server_error" "failed to create refresh token"
                    | ok refresh_token ↦ record {
                      response = tokens record {
                        access_token = access_token;
                        token_type = "Bearer";
                        expires_in = seconds config.access_token_ttl;
                        refresh_token = refresh_token;
                      };
                      event = some (token_issued api_key signoz_url grant_type);
                    }
                  ]
          ]

  unfoldable pub redeem_code :
      (client_id redirect_uri code_verifier : String) → Opened AuthorizationCodePayload → Handled
  redeem_code client_id redirect_uri code_verifier (valid payload) =
      if not (payload.client_id == client_id) || not (payload.redirect_uri == redirect_uri)
      then write_oauth_error 400 "invalid_grant"
          "authorization code does not match the client or redirect URI"
      else if not
          (validate_pkce p code_verifier payload.code_challenge payload.code_challenge_method)
      then write_oauth_error 400 "invalid_grant" "PKCE validation failed"
      else issue_token_pair client_id payload.api_key payload.signoz_url "authorization_code"
  redeem_code client_id redirect_uri code_verifier (expired payload) =
      write_oauth_error 400 "invalid_grant" "authorization code is invalid or expired"
  redeem_code client_id redirect_uri code_verifier (failed e) =
      write_oauth_error 400 "invalid_grant" "authorization code is invalid or expired"

  unfoldable pub handle_authorization_code_grant : HttpRequest → Handled
  unfolding redeem_code
  handle_authorization_code_grant r =
      let client_id = form_value r "client_id" in
      let code = form_value r "code" in
      let redirect_uri = form_value r "redirect_uri" in
      let code_verifier = form_value r "code_verifier" in
      if client_id == "" || code == "" || redirect_uri == "" || code_verifier == ""
      then write_oauth_error 400 "invalid_request"
          "client_id, code, redirect_uri, and code_verifier are required"
      else redeem_code client_id redirect_uri code_verifier
          (decrypt_authorization_code p (env.now 0) code config.token_secret)

  unfoldable pub redeem_refresh : (client_id : String) → Opened RefreshTokenPayload → Handled
  redeem_refresh client_id (valid payload) =
      if not (client_id == "") && not (payload.client_id == client_id)
      then write_oauth_error 400 "invalid_grant" "refresh token does not belong to this client"
      else issue_token_pair payload.client_id payload.api_key payload.signoz_url "refresh_token"
  redeem_refresh client_id (expired payload) =
      write_oauth_error 400 "invalid_grant" "refresh token is invalid or expired"
  redeem_refresh client_id (failed e) =
      write_oauth_error 400 "invalid_grant" "refresh token is invalid or expired"

  unfoldable pub handle_refresh_token_grant : HttpRequest → Handled
  unfolding redeem_refresh
  handle_refresh_token_grant r =
      let refresh_token = form_value r "refresh_token" in
      if refresh_token == ""
      then write_oauth_error 400 "invalid_request" "refresh_token is required"
      else redeem_refresh (form_value r "client_id")
          (decrypt_refresh_token p (env.now 0) refresh_token config.token_secret)

  -- The grant type is compared as it was sent.
  unfoldable pub handle_token : HttpRequest → Handled
  handle_token r =
      let grant_type = raw_form_value r "grant_type" in
      if r.form_error
      then write_oauth_error 400 "invalid_request" "form data is required"
      else if grant_type == "authorization_code"
      then handle_authorization_code_grant r
      else if grant_type == "refresh_token"
      then handle_refresh_token_grant r
      else write_oauth_error 400 "unsupported_grant_type"
          "grant_type must be authorization_code or refresh_token"
