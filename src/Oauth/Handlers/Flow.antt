-- ===== src/Oauth/Handlers/Flow.antt =====
-- internal/oauth/handlers.go, from the authorization form through the exchange of the code and any
-- number of refreshes. Every step has a clock, random bytes and a network of its own.
use mathlib.Core.Path.{subst}
use signoz_mcp_server.Base.{
  ℕ, String, ◌≡◌, ◌≢◌, inl, inr, sym, ap, ◌∙◌, true, false, ◌==◌, eq_iff, arith, if◌then◌else◌,
  Bool-cases, bytes_of, length, eq_refl,
}
use signoz_mcp_server.Base.Int.{ℤ, ltb_ℤ, ◌+ℤ◌}
use signoz_mcp_server.Oauth.Crypto.{
  Primitives, TokenPayload, RefreshTokenPayload, AuthorizationCodePayload, ok, valid, expired,
  encrypt_authorization_code, decrypt_token, decrypt_authorization_code, decrypt_refresh_token,
}
use signoz_mcp_server.Oauth.Crypto.Laws.{IsSound, Fills}
use signoz_mcp_server.Oauth.Crypto.Tokens.{
  decrypt_token-encrypt_token, decrypt_authorization_code-encrypt_authorization_code,
  decrypt_refresh_token-encrypt_refresh_token,
}
use signoz_mcp_server.Oauth.Pkce.{validate_pkce, validate_pkce_iff}
use signoz_mcp_server.Oauth.Handlers.{
  Config, UrlLibrary, Env, HttpRequest, AuthorizeData, TokenResponse, tokens, form_value,
  raw_form_value,
}
use signoz_mcp_server.Oauth.Handlers.Authorize.{host_of, code_payload}
use signoz_mcp_server.Oauth.Handlers.Authorize.Granted.{IsAuthorized}
use signoz_mcp_server.Oauth.Handlers.Token.{
  access_payload, refresh_payload, handle_token, handle_authorization_code_grant, redeem_code,
}
use signoz_mcp_server.Oauth.Handlers.Token.Issued.{
  IsIssued, IsCodeGrant, IsRefreshGrant, pair_of, issued, handle_token-grants,
}
use signoz_mcp_server.Util.Allowlist.{allows_url}

-- Random bytes fill what they are drawn for.
abbrev pub IsFilled : Env → Type 0
IsFilled env = (draw : ℕ) → Fills (env.random draw)

is_given : (s : String) → s ≢ "" → (s == "") ≡ false
is_given s given = elim (Bool-cases (s == "")) [
  | inl blank ↦ absurd (given ((eq_iff s "").0 blank))
  | inr other ↦ other
]

verifier_given :
    (p : Primitives) (code_verifier challenge method : String)
    → validate_pkce p code_verifier challenge method ≡ true
    → (code_verifier == "") ≡ false
unfolding bytes_of
verifier_given p code_verifier challenge method h = is_given code_verifier (λ blank.
    let long = ((validate_pkce_iff p code_verifier challenge method).0 h).1 in
    absurd (
      let none_left : length (bytes_of code_verifier) ≡ 0 = ap (λ s. length (bytes_of s)) blank in
      omega arith))

module _ (p : Primitives) (sound : IsSound p) (lib : UrlLibrary) (version : String)
    (config : Config) where
  valid_of :
      {A : Type 0} (expires now : ℤ) (a b : A)
      → (if ltb_ℤ expires now then expired a else valid a) ≡ valid b
      → a ≡ b
  valid_of expires now a b h = ground arith

  -- A code that is accepted holds what it was made from.
  code_payload-eq :
      (submit_env env : Env) (r : HttpRequest) (params : AuthorizeData)
      (api_key signoz_url code : String) (payload : AuthorizationCodePayload)
      → IsFilled submit_env
      → encrypt_authorization_code p config.token_secret
          (submit_env.random 0)
          (code_payload p lib version config submit_env params signoz_url api_key)
        ≡ ok code
      → form_value r "code" ≡ code
      → IsCodeGrant p lib config env r payload
      → code_payload p lib version config submit_env params signoz_url api_key ≡ payload
  code_payload-eq submit_env env r params api_key signoz_url code payload filled sealed sent grant =
      valid_of (submit_env.now 0 +ℤ config.auth_code_ttl) (env.now 0) _ _ (
        sym (
          decrypt_authorization_code-encrypt_authorization_code p sound config.token_secret
            (submit_env.random 0) (filled 0) (env.now 0) code
            (code_payload p lib version config submit_env params signoz_url api_key) sealed)
        ∙ ap (λ c. decrypt_authorization_code p (env.now 0) c config.token_secret) (sym sent)
        ∙ grant.code)

  refresh_payload-eq :
      (issue_env env : Env) (r : HttpRequest) (client_id api_key signoz_url : String)
      (s : TokenResponse) (payload : RefreshTokenPayload)
      → IsFilled issue_env
      → IsIssued p lib config issue_env client_id api_key signoz_url s
      → form_value r "refresh_token" ≡ s.refresh_token
      → IsRefreshGrant p lib config env r payload
      → refresh_payload p lib config issue_env client_id api_key signoz_url ≡ payload
  refresh_payload-eq issue_env env r client_id api_key signoz_url s payload filled issue sent
        grant =
      valid_of (issue_env.now 2 +ℤ config.refresh_token_ttl) (env.now 0) _ _ (
        sym (
          decrypt_refresh_token-encrypt_refresh_token p sound config.token_secret
            (issue_env.random 1) (filled 1) (env.now 0) s.refresh_token
            (refresh_payload p lib config issue_env client_id api_key signoz_url) issue.refresh)
        ∙ ap (λ c. decrypt_refresh_token p (env.now 0) c config.token_secret) (sym sent)
        ∙ grant.token)

  -- Tokens that a key on an instance is behind: those of a code that the form gave for them, and
  -- those that a refresh gave for such tokens.
  pub data Obtained (client_id api_key signoz_url : String) : TokenResponse → Type 0 where
    redeemed :
        (submit_env env : Env) (form r : HttpRequest) (params : AuthorizeData) (code : String)
        (t : TokenResponse)
        → IsFilled submit_env
        → IsFilled env
        → IsAuthorized p lib version config submit_env form params api_key signoz_url code
        → params.client_id ≡ client_id
        → raw_form_value r "grant_type" ≡ "authorization_code"
        → form_value r "code" ≡ code
        → (handle_token p lib config env r).response ≡ tokens t
        → Obtained client_id api_key signoz_url t
    refreshed :
        (env : Env) (r : HttpRequest) (s t : TokenResponse)
        → IsFilled env
        → Obtained client_id api_key signoz_url s
        → raw_form_value r "grant_type" ≡ "refresh_token"
        → form_value r "refresh_token" ≡ s.refresh_token
        → (handle_token p lib config env r).response ≡ tokens t
        → Obtained client_id api_key signoz_url t

  -- Both tokens were made for the client, the key and the instance, in one environment.
  pub record IsFor (client_id api_key signoz_url : String) (t : TokenResponse) : Type 0 where
    pub env : Env
    pub filled : IsFilled env
    pub issue : IsIssued p lib config env client_id api_key signoz_url t

  grant_types_apart :
      (grant_type : String) → grant_type ≡ "authorization_code" → grant_type ≢ "refresh_token"
  grant_types_apart grant_type a b =
      let same = (eq_iff "authorization_code" "refresh_token").1 (sym a ∙ b) in cc

  Obtained-IsFor :
      {client_id api_key signoz_url : String} {t : TokenResponse}
      → Obtained client_id api_key signoz_url t
      → IsFor client_id api_key signoz_url t
  Obtained-IsFor {client_id} {api_key} {signoz_url} {t}
        (redeemed submit_env env form r params code _ filled0 filled a client is_code sent
          answered) =
      elim (handle_token-grants p lib config env r t answered) [
        | inl (is_grant, payload, grant, issue) ↦
            let same =
              code_payload-eq submit_env env r params api_key signoz_url code payload filled0
                a.sealed sent grant in
            record {
              env = env;
              filled = filled;
              issue =
                  subst (λ c. IsIssued p lib config env c api_key signoz_url t) client
                    (subst (λ q. IsIssued p lib config env q.client_id q.api_key q.signoz_url t)
                      (sym same) issue);
            }
        | inr (is_refresh, payload, grant, issue) ↦ absurd (grant_types_apart _ is_code is_refresh)
      ]
  Obtained-IsFor {client_id} {api_key} {signoz_url} {t}
        (refreshed env r s _ filled before is_refresh sent answered) =
      let i = Obtained-IsFor before in
      elim (handle_token-grants p lib config env r t answered) [
        | inl (is_grant, payload, grant, issue) ↦ absurd (grant_types_apart _ is_grant is_refresh)
        | inr (is_ref, payload, grant, issue) ↦
            let same =
              refresh_payload-eq i.env env r client_id api_key signoz_url s payload i.filled i.issue
                sent grant in
            record {
              env = env;
              filled = filled;
              issue =
                  subst (λ q. IsIssued p lib config env q.client_id q.api_key q.signoz_url t)
                    (sym same) issue;
            }
      ]

  abbrev pub access_of : (client_id api_key signoz_url : String) (expires_at : ℤ) → TokenPayload
  access_of client_id api_key signoz_url expires_at = record {
    api_key = api_key;
    signoz_url = signoz_url;
    client_id = client_id;
    expires_at = expires_at;
  }

  -- With functions that obey IsSound and random bytes that fill what they are drawn for: the tokens
  -- of a code that the form gave for accepted credentials, and those of any number of refreshes
  -- from them, hold the form's API key, its instance and the client. The allowlist permits the
  -- instance.
  pub Obtained-key :
      {client_id api_key signoz_url : String} {t : TokenResponse} (now : ℤ)
      → Obtained client_id api_key signoz_url t
      → (expires_at : ℤ) × (decrypt_token p now t.access_token config.token_secret ≡ (
          if ltb_ℤ expires_at now
          then expired (access_of client_id api_key signoz_url expires_at)
          else valid (access_of client_id api_key signoz_url expires_at)))
        × (allows_url (host_of lib) config.instance_url_allowlist signoz_url ≡ true)
  Obtained-key {client_id} {api_key} {signoz_url} {t} now obtained =
      let i = Obtained-IsFor obtained in
      (
        i.env.now 1 +ℤ config.access_token_ttl,
        decrypt_token-encrypt_token p sound config.token_secret (i.env.random 0) (i.filled 0) now
            t.access_token (access_payload p lib config i.env client_id api_key signoz_url)
            i.issue.access,
        i.issue.allowed,
      )

  module _ (submit_env env : Env) (form r : HttpRequest) (params : AuthorizeData)
      (api_key signoz_url code access refresh : String) where
    -- With functions that obey IsSound: a code that the form gave is exchanged for its tokens by a
    -- request for that grant with the code, the client, the redirect URI and a verifier
    -- that PKCE accepts against the challenge, if the code has not expired and the tokens can be
    -- encrypted.
    pub handle_token-exchange :
        IsFilled submit_env
        → IsAuthorized p lib version config submit_env form params api_key signoz_url code
        → r.form_error ≡ false
        → raw_form_value r "grant_type" ≡ "authorization_code"
        → form_value r "code" ≡ code
        → form_value r "client_id" ≡ params.client_id
        → form_value r "redirect_uri" ≡ params.redirect_uri
        → validate_pkce p
            (form_value r "code_verifier")
            params.code_challenge
            params.code_challenge_method
          ≡ true
        → code ≢ ""
        → params.client_id ≢ ""
        → params.redirect_uri ≢ ""
        → ltb_ℤ (submit_env.now 0 +ℤ config.auth_code_ttl) (env.now 0) ≡ false
        → IsIssued p lib config env params.client_id api_key signoz_url
            (pair_of p lib config env access refresh)
        → (handle_token p lib config env r).response
          ≡ tokens (pair_of p lib config env access refresh)
    unfolding handle_token handle_authorization_code_grant redeem_code
    handle_token-exchange filled a parsed grant sent client uri verified some_code some_client
          some_uri soon issue =
        let opened : decrypt_authorization_code p (env.now 0) code config.token_secret
            ≡ valid (code_payload p lib version config submit_env params signoz_url api_key) =
          decrypt_authorization_code-encrypt_authorization_code p sound config.token_secret
            (submit_env.random 0) (filled 0) (env.now 0) code
            (code_payload p lib version config submit_env params signoz_url api_key) a.sealed
          ∙ rw soon in
        let with_verifier : (form_value r "code_verifier" == "") ≡ false =
          verifier_given p (form_value r "code_verifier") params.code_challenge
            params.code_challenge_method verified in
        let by_code : handle_token p lib config env r
            ≡ handle_authorization_code_grant p lib config env r =
          simp (grant, parsed) in
        ap (λ h. h.response) by_code
        ∙ rw
            (
              sent,
              client,
              uri,
              is_given code some_code,
              is_given params.client_id some_client,
              is_given params.redirect_uri some_uri,
              with_verifier,
              opened,
              redeem_code,
              client,
              uri,
              eq_refl params.client_id,
              eq_refl params.redirect_uri,
              verified,
            )
            (issued p lib config env params.client_id api_key signoz_url "authorization_code" access
              refresh issue)
