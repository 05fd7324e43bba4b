-- ===== src/Oauth/Handlers/Authorize/Granted.antt =====
-- What has to hold where the authorization form is answered with a redirect.
use signoz_mcp_server.Base.{
  ℕ, String, ◌≡◌, ◌≢◌, ◌⊎◌, inl, inr, refl, true, none, some, ◌==◌, eq_iff, arith, Bool-cases,
  Option-cases,
}
use signoz_mcp_server.Oauth.Crypto.{
  Primitives, ClientIdPayload, encrypt_authorization_code, decrypt_client_id, ok,
}
use signoz_mcp_server.Oauth.Crypto.Laws.{Result-cases}
use signoz_mcp_server.Oauth.Handlers.{
  Config, UrlLibrary, Env, Values, HttpRequest, AuthorizeData, redirect, Cookie,
  render_authorize_page, field_of, form_value,
}
use signoz_mcp_server.Oauth.Handlers.Authorize.{
  Validated, AuthorizeError, accepted, invalid, validate_authorize_request, validate_csrf, host_of,
  validate_signoz_credentials, code_payload, add_authorize_response, grant_code, refuse_credentials,
  submit_credentials, handle_authorize_submit,
}
use signoz_mcp_server.Util.Allowlist.{allows_url, mem}
use signoz_mcp_server.Util.Url.{
  UrlError, UrlResult, origin, refused, normalize_signoz_url_form_input,
}
use signoz_mcp_server.Client.Validation.{
  ValidationError, unauthorized, instance_not_found, unreachable, unexpected_status,
}

Validated-cases :
    (v : Validated)
    → ((d : AuthorizeData) × (v ≡ accepted d)) ⊎ ((e : AuthorizeError) × (v ≡ invalid e))
Validated-cases (accepted d) = inl (d, refl)
Validated-cases (invalid e) = inr (e, refl)

UrlResult-cases :
    (u : UrlResult) → ((o : String) × (u ≡ origin o)) ⊎ ((e : UrlError) × (u ≡ refused e))
UrlResult-cases (origin o) = inl (o, refl)
UrlResult-cases (refused e) = inr (e, refl)

-- No page is a redirect.
page-no-redirect :
    (lib : UrlLibrary) (config : Config) (p : Primitives) (env : Env) (status : ℕ)
    (page : AuthorizeData) (url : String) (cookie : Cookie)
    → (render_authorize_page lib config p env status page).response ≢ redirect url cookie
unfolding render_authorize_page
page-no-redirect lib config p env status page url cookie h = elim (Option-cases (env.random 0 32)) [
  | inl missing ↦ ground arith
  | inr (buf, drawn) ↦ ground arith
]

module _ (p : Primitives) (lib : UrlLibrary) (version : String) (config : Config) (env : Env) where
  -- A client that is registered with the redirect URI, and a challenge for S256.
  pub record IsRegistered (params : AuthorizeData) : Type 0 where
    pub client : ClientIdPayload
    pub id : decrypt_client_id p (env.now 0) params.client_id config.token_secret ≡ ok client
    pub redirect_uri : mem params.redirect_uri client.redirect_uris ≡ true
    pub challenge : params.code_challenge ≢ ""
    pub method : params.code_challenge_method ≡ "S256"

  pub accepted-IsRegistered :
      (values : Values) (params : AuthorizeData)
      → validate_authorize_request p config env values ≡ accepted params
      → IsRegistered params
  unfolding validate_authorize_request
  accepted-IsRegistered values params h =
      elim (Result-cases
        (decrypt_client_id p (env.now 0) (field_of values "client_id") config.token_secret)) [
          | inl (e, unknown) ↦ absurd (ground arith)
          | inr (client, known) ↦
              let no_challenge = eq_iff (field_of values "code_challenge") "" in
              let is_s256 = eq_iff (field_of values "code_challenge_method") "S256" in
              record {
                client = client;
                id = ground arith;
                redirect_uri = ground arith;
                challenge = λ none_given. ground arith;
                method = ground arith;
              }
        ]

  -- Credentials that the form gave, for an instance that is allowed and accepts them, and the code
  -- that carries them.
  pub record IsAuthorized (r : HttpRequest) (params : AuthorizeData)
      (api_key signoz_url code : String) : Type 0 where
    pub csrf : validate_csrf r ≡ true
    pub registered : IsRegistered params
    pub key : api_key ≡ form_value r "api_key"
    pub key_given : api_key ≢ ""
    pub url :
        normalize_signoz_url_form_input lib.parse lib.to_string (form_value r "signoz_url")
        ≡ origin signoz_url
    pub allowed : allows_url (host_of lib) config.instance_url_allowlist signoz_url ≡ true
    pub credentials : validate_signoz_credentials p lib version config env signoz_url api_key ≡ none
    pub sealed :
        encrypt_authorization_code p config.token_secret
          (env.random 0)
          (code_payload p lib version config env params signoz_url api_key)
        ≡ ok code

  grant_code-redirect :
      (params : AuthorizeData) (signoz_url api_key target : String) (cookie : Cookie)
      → (grant_code p lib version config env params signoz_url api_key).response
        ≡ redirect target cookie
      → (code : String) × (encrypt_authorization_code p config.token_secret
            (env.random 0)
            (code_payload p lib version config env params signoz_url api_key)
          ≡ ok code)
        × (add_authorize_response lib params.redirect_uri code params.state ≡ some target)
  unfolding grant_code
  grant_code-redirect params signoz_url api_key target cookie h =
      elim (Result-cases (
        encrypt_authorization_code p config.token_secret (env.random 0)
          (code_payload p lib version config env params signoz_url api_key))) [
            | inl (e, missing) ↦ absurd (ground arith)
            | inr (code, sealed) ↦
                elim (Option-cases
                  (add_authorize_response lib params.redirect_uri code params.state)) [
                    | inl missing ↦ absurd (ground arith)
                    | inr (to, built) ↦ (code, sealed, ground arith)
                  ]
          ]

  refuse-no-redirect :
      (params : AuthorizeData) (signoz_url target : String) (e : ValidationError) (cookie : Cookie)
      → (refuse_credentials p lib version config env params signoz_url e).response
        ≢ redirect target cookie
  unfolding refuse_credentials
  refuse-no-redirect params signoz_url target (unauthorized status) cookie =
      page-no-redirect _ _ _ _ _ _ target cookie
  refuse-no-redirect params signoz_url target (instance_not_found status) cookie =
      page-no-redirect _ _ _ _ _ _ target cookie
  refuse-no-redirect params signoz_url target (unreachable e) cookie =
      page-no-redirect _ _ _ _ _ _ target cookie
  refuse-no-redirect params signoz_url target (unexpected_status status body) cookie =
      page-no-redirect _ _ _ _ _ _ target cookie

  submit-redirect :
      (r : HttpRequest) (params : AuthorizeData) (target : String) (cookie : Cookie)
      → validate_csrf r ≡ true
      → validate_authorize_request p config env r.post_form ≡ accepted params
      → (submit_credentials p lib version config env r params).response ≡ redirect target cookie
      → (signoz_url code : String) × IsAuthorized r params (form_value r "api_key") signoz_url code
        × (add_authorize_response lib params.redirect_uri code params.state ≡ some target)
  unfolding submit_credentials
  submit-redirect r params target cookie csrf valid h =
      elim (Bool-cases (form_value r "api_key" == "")) [
        | inl no_key ↦ absurd (page-no-redirect _ _ _ _ _ _ target cookie (rw no_key at h))
        | inr some_key ↦
            elim (UrlResult-cases (
              normalize_signoz_url_form_input lib.parse lib.to_string
                (form_value r "signoz_url"))) [
                  | inr (e, bad_url) ↦
                      absurd
                        (page-no-redirect _ _ _ _ _ _ target cookie (rw (some_key, bad_url) at h))
                  | inl (signoz_url, normal) ↦
                      elim (Bool-cases
                        (allows_url (host_of lib) config.instance_url_allowlist signoz_url)) [
                          | inr denied ↦ absurd (
                              page-no-redirect _ _ _ _ _ _ target cookie
                                (rw (some_key, normal, denied) at h))
                          | inl allowed ↦
                              elim (Option-cases (
                                validate_signoz_credentials p lib version config env signoz_url
                                  (form_value r "api_key"))) [
                                    | inr (e, bad) ↦ absurd (
                                        refuse-no-redirect params signoz_url target e cookie
                                          (rw (some_key, normal, allowed, bad) at h))
                                    | inl good ↦
                                        let key = eq_iff (form_value r "api_key") "" in
                                        let (code, sealed, built) =
                                          grant_code-redirect params signoz_url
                                            (form_value r "api_key") target cookie
                                            (rw (some_key, normal, allowed, good) at h) in
                                        (
                                          signoz_url,
                                          code,
                                          record {
                                            csrf = csrf;
                                            registered =
                                                accepted-IsRegistered r.post_form params valid;
                                            key = refl;
                                            key_given = λ none_given. ground arith;
                                            url = normal;
                                            allowed = allowed;
                                            credentials = good;
                                            sealed = sealed;
                                          },
                                          built,
                                        )
                                  ]
                        ]
                ]
      ]

  -- The form is answered with a redirect only where its CSRF token is that of the cookie, its
  -- parameters name a registered client with one of that client's redirect URIs and an S256
  -- challenge, and its API key is accepted by the instance of its URL, which the allowlist
  -- permits. The redirect goes to that redirect URI, with the code that carries the key, the
  -- instance, the client, the redirect URI and the challenge.
  pub handle_authorize_submit-redirect :
      (r : HttpRequest) (target : String) (cookie : Cookie)
      → (handle_authorize_submit p lib version config env r).response ≡ redirect target cookie
      → (params : AuthorizeData) × (signoz_url code : String) × (validate_authorize_request p config
            env r.post_form
          ≡ accepted params)
        × IsAuthorized r params (form_value r "api_key") signoz_url code
        × (add_authorize_response lib params.redirect_uri code params.state ≡ some target)
  unfolding handle_authorize_submit
  handle_authorize_submit-redirect r target cookie h = elim (Bool-cases r.form_error) [
    | inl broken ↦ absurd (ground arith)
    | inr parsed ↦ elim (Bool-cases (validate_csrf r)) [
      | inr forged ↦ absurd (ground arith)
      | inl csrf ↦ elim (Validated-cases (validate_authorize_request p config env r.post_form)) [
        | inr (e, bad) ↦ absurd (ground arith)
        | inl (params, valid) ↦
            let (signoz_url, code, authorized, built) =
              submit-redirect r params target cookie csrf valid (rw (csrf, parsed, valid) at h) in
            (params, signoz_url, code, valid, authorized, built)
      ]
    ]
  ]
