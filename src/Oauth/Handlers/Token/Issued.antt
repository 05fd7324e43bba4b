-- ===== src/Oauth/Handlers/Token/Issued.antt =====
-- What has to hold where the token endpoint answers with tokens.
use signoz_mcp_server.Base.{String, ◌≡◌, ◌⊎◌, inl, inr, refl, true, ◌==◌, eq_iff, arith, Bool-cases}
use signoz_mcp_server.Oauth.Crypto.{
  Primitives, RefreshTokenPayload, AuthorizationCodePayload, encrypt_token, encrypt_refresh_token,
  decrypt_authorization_code, decrypt_refresh_token, ok, Opened, valid, expired, failed, TokenError,
}
use signoz_mcp_server.Oauth.Crypto.Laws.{Result-cases}
use signoz_mcp_server.Oauth.Pkce.{validate_pkce}
use signoz_mcp_server.Oauth.Handlers.{
  Config, UrlLibrary, Env, HttpRequest, TokenResponse, tokens, form_value, raw_form_value, seconds,
}
use signoz_mcp_server.Oauth.Handlers.Authorize.{host_of}
use signoz_mcp_server.Oauth.Handlers.Token.{
  access_payload, refresh_payload, issue_token_pair, redeem_code, redeem_refresh,
  handle_authorization_code_grant, handle_refresh_token_grant, handle_token,
}
use signoz_mcp_server.Util.Allowlist.{allows_url}

pub Opened-cases :
    {A : Type 0} (o : Opened A)
    → ((a : A) × (o ≡ valid a)) ⊎ ((a : A) × (o ≡ expired a)) ⊎ ((e : TokenError) × (o ≡ failed e))
Opened-cases (valid a) = inl (a, refl)
Opened-cases (expired a) = inr (inl (a, refl))
Opened-cases (failed e) = inr (inr (e, refl))

module _ (p : Primitives) (lib : UrlLibrary) (config : Config) (env : Env) where
  -- Tokens for a client, a key and an instance that the allowlist permits.
  pub record IsIssued (client_id api_key signoz_url : String) (t : TokenResponse) : Type 0 where
    pub allowed : allows_url (host_of lib) config.instance_url_allowlist signoz_url ≡ true
    pub access :
        encrypt_token p config.token_secret
          (env.random 0)
          (access_payload p lib config env client_id api_key signoz_url)
        ≡ ok t.access_token
    pub refresh :
        encrypt_refresh_token p config.token_secret
          (env.random 1)
          (refresh_payload p lib config env client_id api_key signoz_url)
        ≡ ok t.refresh_token

  issue_token_pair-IsIssued :
      (client_id api_key signoz_url grant_type : String) (t : TokenResponse)
      → (issue_token_pair p lib config env client_id api_key signoz_url grant_type).response
        ≡ tokens t
      → IsIssued client_id api_key signoz_url t
  unfolding issue_token_pair
  issue_token_pair-IsIssued client_id api_key signoz_url grant_type t h =
      elim (Bool-cases (allows_url (host_of lib) config.instance_url_allowlist signoz_url)) [
        | inr refused ↦ absurd (ground arith)
        | inl allowed ↦
            elim (Result-cases (
              encrypt_token p config.token_secret (env.random 0)
                (access_payload p lib config env client_id api_key signoz_url))) [
                  | inl (e, no_access) ↦ absurd (ground arith)
                  | inr (a, access) ↦
                      elim (Result-cases (
                        encrypt_refresh_token p config.token_secret (env.random 1)
                          (refresh_payload p lib config env client_id api_key signoz_url))) [
                            | inl (e, no_refresh) ↦ absurd (ground arith)
                            | inr (b, refresh) ↦ record {
                              allowed = allowed;
                              access = ground arith;
                              refresh = ground arith;
                            }
                          ]
                ]
      ]

  abbrev pub pair_of : (access refresh : String) → TokenResponse
  pair_of access refresh = record {
    access_token = access;
    token_type = "Bearer";
    expires_in = seconds config.access_token_ttl;
    refresh_token = refresh;
  }

  pub issued :
      (client_id api_key signoz_url grant_type access refresh : String)
      → IsIssued client_id api_key signoz_url (pair_of access refresh)
      → (issue_token_pair p lib config env client_id api_key signoz_url grant_type).response
        ≡ tokens (pair_of access refresh)
  unfolding issue_token_pair
  issued client_id api_key signoz_url grant_type access refresh i =
      rw (i.allowed, i.access, i.refresh)

  -- A code that is valid now, of this client and this redirect URI, with its verifier.
  pub record IsCodeGrant (r : HttpRequest) (payload : AuthorizationCodePayload) : Type 0 where
    pub code :
        decrypt_authorization_code p (env.now 0) (form_value r "code") config.token_secret
        ≡ valid payload
    pub client : payload.client_id ≡ form_value r "client_id"
    pub redirect_uri : payload.redirect_uri ≡ form_value r "redirect_uri"
    pub verifier :
        validate_pkce p
          (form_value r "code_verifier")
          payload.code_challenge
          payload.code_challenge_method
        ≡ true

  -- A refresh token that is valid now, of this client where the request names one.
  pub record IsRefreshGrant (r : HttpRequest) (payload : RefreshTokenPayload) : Type 0 where
    pub token :
        decrypt_refresh_token p (env.now 0) (form_value r "refresh_token") config.token_secret
        ≡ valid payload
    pub client : (form_value r "client_id" ≡ "") ⊎ (payload.client_id ≡ form_value r "client_id")

  code_granted :
      (r : HttpRequest) (t : TokenResponse)
      → (handle_authorization_code_grant p lib config env r).response ≡ tokens t
      → (payload : AuthorizationCodePayload) × IsCodeGrant r payload
        × IsIssued payload.client_id payload.api_key payload.signoz_url t
  unfolding handle_authorization_code_grant redeem_code
  code_granted r t h =
      elim (Opened-cases
        (decrypt_authorization_code p (env.now 0) (form_value r "code") config.token_secret)) [
          | inl (payload, opened) ↦
              let client = eq_iff payload.client_id (form_value r "client_id") in
              let uri = eq_iff payload.redirect_uri (form_value r "redirect_uri") in
              let same : payload.client_id ≡ form_value r "client_id" = ground arith in
              let grant : IsCodeGrant r payload = record {
                code = opened;
                client = same;
                redirect_uri = ground arith;
                verifier = ground arith;
              } in
              let answered : (issue_token_pair p lib config env (form_value r "client_id")
                    payload.api_key payload.signoz_url "authorization_code").response
                  ≡ tokens t =
                ground arith in
              (
                payload,
                grant,
                rw same (
                    issue_token_pair-IsIssued (form_value r "client_id") payload.api_key
                      payload.signoz_url "authorization_code" t answered),
              )
          | inr (inl (payload, late)) ↦ absurd (ground arith)
          | inr (inr (e, bad)) ↦ absurd (ground arith)
        ]

  refresh_granted :
      (r : HttpRequest) (t : TokenResponse)
      → (handle_refresh_token_grant p lib config env r).response ≡ tokens t
      → (payload : RefreshTokenPayload) × IsRefreshGrant r payload
        × IsIssued payload.client_id payload.api_key payload.signoz_url t
  unfolding handle_refresh_token_grant redeem_refresh
  refresh_granted r t h =
      elim (Opened-cases
        (decrypt_refresh_token p (env.now 0) (form_value r "refresh_token") config.token_secret)) [
          | inl (payload, opened) ↦
              let client = eq_iff payload.client_id (form_value r "client_id") in
              let unnamed = eq_iff (form_value r "client_id") "" in
              let grant : IsRefreshGrant r payload = record {
                token = opened;
                client = ground arith;
              } in
              let answered : (issue_token_pair p lib config env payload.client_id payload.api_key
                    payload.signoz_url "refresh_token").response
                  ≡ tokens t =
                ground arith in
              (
                payload,
                grant,
                issue_token_pair-IsIssued payload.client_id payload.api_key payload.signoz_url
                    "refresh_token" t answered,
              )
          | inr (inl (payload, late)) ↦ absurd (ground arith)
          | inr (inr (e, bad)) ↦ absurd (ground arith)
        ]

  -- The token endpoint answers with tokens only for one of two grants: a code that decrypts and has
  -- not expired, sent with the client and redirect URI that it was made for and with a verifier that
  -- PKCE accepts against its challenge, or a refresh token that decrypts and has not expired, of
  -- the client that the request names, if it names one. The tokens are those of the client, key and
  -- instance in what was redeemed, and the allowlist permits that instance.
  pub handle_token-grants :
      (r : HttpRequest) (t : TokenResponse)
      → (handle_token p lib config env r).response ≡ tokens t
      → ((raw_form_value r "grant_type" ≡ "authorization_code")
          × (payload : AuthorizationCodePayload) × IsCodeGrant r payload
          × IsIssued payload.client_id payload.api_key payload.signoz_url t)
        ⊎ ((raw_form_value r "grant_type" ≡ "refresh_token")
            × (payload : RefreshTokenPayload) × IsRefreshGrant r payload
            × IsIssued payload.client_id payload.api_key payload.signoz_url t)
  unfolding handle_token
  handle_token-grants r t h =
      let code = eq_iff (raw_form_value r "grant_type") "authorization_code" in
      let refresh = eq_iff (raw_form_value r "grant_type") "refresh_token" in
      elim (Bool-cases (raw_form_value r "grant_type" == "authorization_code")) [
        | inl is_code ↦
            (let (payload, grant, issue) = code_granted r t (ground arith) in
              inl (ground arith, payload, grant, issue))
        | inr other ↦ elim (Bool-cases (raw_form_value r "grant_type" == "refresh_token")) [
          | inl is_refresh ↦
              (let (payload, grant, issue) = refresh_granted r t (ground arith) in
                inr (ground arith, payload, grant, issue))
          | inr neither ↦ absurd (ground arith)
        ]
      ]
