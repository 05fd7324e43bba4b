-- ===== src/Oauth/Handlers/Tests.antt =====
-- The theorems on the handlers at the requests of the samples.
use signoz_mcp_server.Base.{
  String, ◌≡◌, ◌↔◌, ◌⊎◌, inl, refl, true, none, some, if◌then◌else◌, trim_space, bytes_of,
}
use signoz_mcp_server.Base.Int.{ℤ, pos, ltb_ℤ, ◌+ℤ◌}
use signoz_mcp_server.Oauth.Crypto.{
  AuthorizationCodePayload, RefreshTokenPayload, valid, expired, decrypt_token,
}
use signoz_mcp_server.Oauth.Crypto.Samples.{random-Fills}
use signoz_mcp_server.Oauth.Pkce.{validate_pkce, challenge_of}
use signoz_mcp_server.Oauth.Handlers.{
  AuthorizeData, tokens, form_value, raw_form_value, field_of, get_value,
}
use signoz_mcp_server.Oauth.Handlers.Authorize.{
  validate_authorize_request, accepted, add_authorize_response, host_of,
}
use signoz_mcp_server.Oauth.Handlers.Authorize.Granted.{
  IsAuthorized, handle_authorize_submit-redirect,
}
use signoz_mcp_server.Oauth.Handlers.Register.{validate_redirect_uri}
use signoz_mcp_server.Oauth.Handlers.Register.Redirects.{
  IsRedirect, validate_redirect_uri_iff, registered_redirects_iff,
}
use signoz_mcp_server.Oauth.Handlers.Token.{handle_token}
use signoz_mcp_server.Oauth.Handlers.Token.Issued.{
  IsIssued, IsCodeGrant, IsRefreshGrant, pair_of, handle_token-grants,
}
use signoz_mcp_server.Oauth.Handlers.Flow.{
  Obtained, redeemed, refreshed, access_of, Obtained-key, handle_token-exchange,
}
use signoz_mcp_server.Oauth.Handlers.Samples.{
  p, sound, lib, config, env, form, params, code_request, refresh_request, pair, cleared, verifier,
  registration, registered_client, challenge, client_text, code_text, access_text, refresh_text,
  registers, submits, exchanges, refreshes, fills, authorized, issue, text_given,
}
use signoz_mcp_server.Util.Allowlist.{allows_url, mem}
use signoz_mcp_server.Util.Url.{ParsedUrl}

validate_redirect_uri_iff_example :
    (validate_redirect_uri lib.parse "claude:done" ≡ none)
    ↔ ((u : ParsedUrl) × (lib.parse "claude:done" ≡ some u) × IsRedirect u)
validate_redirect_uri_iff_example = validate_redirect_uri_iff lib.parse "claude:done"

handle_authorize_submit-redirect_example :
    (shown : AuthorizeData) × (signoz_url code : String) × (validate_authorize_request p config env
        form.post_form
      ≡ accepted shown)
    × IsAuthorized p lib "1.2" config env form shown (form_value form "api_key") signoz_url code
    × (add_authorize_response lib shown.redirect_uri code shown.state ≡ some "claude:done?code")
handle_authorize_submit-redirect_example =
    handle_authorize_submit-redirect p lib "1.2" config env form "claude:done?code" cleared submits

handle_token-grants_example :
    ((raw_form_value code_request "grant_type" ≡ "authorization_code")
      × (payload : AuthorizationCodePayload) × IsCodeGrant p lib config env code_request payload
      × IsIssued p lib config env payload.client_id payload.api_key payload.signoz_url pair)
    ⊎ ((raw_form_value code_request "grant_type" ≡ "refresh_token")
        × (payload : RefreshTokenPayload) × IsRefreshGrant p lib config env code_request payload
        × IsIssued p lib config env payload.client_id payload.api_key payload.signoz_url pair)
handle_token-grants_example = handle_token-grants p lib config env code_request pair exchanges

code_grant :
    (raw_form_value code_request "grant_type" ≡ "authorization_code")
    × (form_value code_request "code" ≡ code_text)
    × (form_value code_request "client_id" ≡ client_text)
    × (form_value code_request "redirect_uri" ≡ "claude:done")
    × (form_value code_request "code_verifier" ≡ verifier)
    × (raw_form_value refresh_request "grant_type" ≡ "refresh_token")
    × (form_value refresh_request "refresh_token" ≡ refresh_text)
unfolding form_value raw_form_value get_value trim_space
code_grant = (refl, refl, refl, refl, refl, refl, refl)

client_field : params.client_id ≡ client_text
unfolding field_of get_value trim_space
client_field = refl

obtained : Obtained p sound lib "1.2" config client_text "key" "https://a.b" pair
obtained =
    refreshed env refresh_request pair pair fills
      (redeemed env env form code_request params code_text pair fills fills authorized client_field
        code_grant.0 code_grant.1 exchanges)
      code_grant.5 code_grant.6 refreshes

Obtained-key_example :
    (expires_at : ℤ) × (decrypt_token p (pos 5) pair.access_token config.token_secret ≡ (
      if ltb_ℤ expires_at (pos 5)
      then expired (access_of p sound lib "1.2" config client_text "key" "https://a.b" expires_at)
      else valid (access_of p sound lib "1.2" config client_text "key" "https://a.b" expires_at)))
    × (allows_url (host_of lib) config.instance_url_allowlist "https://a.b" ≡ true)
Obtained-key_example = Obtained-key p sound lib "1.2" config (pos 5) obtained

verified :
    validate_pkce p
      (form_value code_request "code_verifier")
      params.code_challenge
      params.code_challenge_method
    ≡ true
unfolding validate_pkce challenge_of bytes_of form_value raw_form_value get_value field_of
    trim_space
verified = refl

handle_token-exchange_example :
    (handle_token p lib config env code_request).response
    ≡ tokens (pair_of p lib config env access_text refresh_text)
unfolding form_value raw_form_value get_value trim_space field_of ◌+ℤ◌
handle_token-exchange_example =
    handle_token-exchange p sound lib "1.2" config env env form code_request params "key"
      "https://a.b" code_text access_text refresh_text fills authorized refl refl refl refl refl
      verified (text_given code_text refl) (text_given client_text refl)
      (text_given "claude:done" refl) refl issue

registered_redirects_iff_example :
    ((d : AuthorizeData) × (validate_authorize_request p config env form.post_form ≡ accepted d))
    ↔ ((mem (field_of form.post_form "redirect_uri") registration.redirect_uris ≡ true)
        × (validate_redirect_uri lib.parse (field_of form.post_form "redirect_uri") ≡ none))
unfolding field_of get_value trim_space
registered_redirects_iff_example =
    registered_redirects_iff p sound lib config env env registration registered_client
      form.post_form random-Fills registers refl (text_given client_text refl)
      (text_given "claude:done" refl) (text_given challenge refl) refl (inl refl)
