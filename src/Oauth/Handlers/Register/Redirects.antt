-- ===== src/Oauth/Handlers/Register/Redirects.antt =====
-- Which redirect URIs a client may register, and that these are the ones it may use.
use mathlib.Core.Path.{subst}
use signoz_mcp_server.Base.{
  String, ◌≡◌, ◌≢◌, ◌↔◌, ◌⊎◌, inl, inr, refl, sym, ◌∙◌, true, false, not, ◌&&◌, Option, none, some,
  List, [], ◌∷◌, ◌==◌, eq_iff, arith, if◌then◌else◌, trim_space, to_lower, Bool-cases, Option-cases,
}
use signoz_mcp_server.Base.Strings.{after_sep}
use signoz_mcp_server.Oauth.Crypto.{Primitives, encrypt_client_id, decrypt_client_id, ok}
use signoz_mcp_server.Oauth.Crypto.Laws.{IsSound, Fills, Result-cases}
use signoz_mcp_server.Oauth.Crypto.Tokens.{decrypt_client_id-encrypt_client_id}
use signoz_mcp_server.Oauth.Handlers.{
  Config, UrlLibrary, Env, RegisterClientResponse, registered, Values, AuthorizeData, field_of,
  get_value,
}
use signoz_mcp_server.Oauth.Handlers.Register.{
  RegisterClientRequest, is_allowed_custom_redirect_scheme, validate_parsed, validate_redirect_uri,
  validate_redirect_uris, client_payload, issue_client_id, handle_register_client,
}
use signoz_mcp_server.Oauth.Handlers.Authorize.{
  validate_authorize_request, accepted, invalid, redirect_mismatch, request_data,
}
use signoz_mcp_server.Util.Allowlist.{mem, or_else}
use signoz_mcp_server.Util.Url.{ParsedUrl, is_present}

-- A URI without a fragment: plain HTTP to this machine, HTTPS to some host, or a scheme of an app.
abbrev pub IsRedirect : ParsedUrl → Type 0
IsRedirect u =
    (u.fragment ≡ "")
    × (((u.scheme ≡ "http")
          × ((to_lower u.hostname ≡ "localhost")
              ⊎ (to_lower u.hostname ≡ "127.0.0.1")
              ⊎ (to_lower u.hostname ≡ "::1")))
        ⊎ ((u.scheme ≡ "https") × (to_lower u.hostname ≢ ""))
        ⊎ ((u.scheme ≢ "")
            × (u.scheme ≢ "http")
            × (u.scheme ≢ "https")
            × ((to_lower u.scheme ≡ "claude")
                ⊎ (to_lower u.scheme ≡ "cursor")
                ⊎ (is_present (after_sep u.scheme ".") ≡ true))))

validate_parsed_iff : (u : ParsedUrl) → (validate_parsed u ≡ none) ↔ IsRedirect u
unfolding validate_parsed is_allowed_custom_redirect_scheme
validate_parsed_iff u =
    let no_scheme = eq_iff u.scheme "" in
    let no_fragment = eq_iff u.fragment "" in
    let is_http = eq_iff u.scheme "http" in
    let is_https = eq_iff u.scheme "https" in
    let http_given = eq_iff "http" "" in
    let https_given = eq_iff "https" "" in
    let apart = eq_iff "http" "https" in
    let no_host = eq_iff (to_lower u.hostname) "" in
    let local_name = eq_iff (to_lower u.hostname) "localhost" in
    let local_v4 = eq_iff (to_lower u.hostname) "127.0.0.1" in
    let local_v6 = eq_iff (to_lower u.hostname) "::1" in
    let is_claude = eq_iff (to_lower u.scheme) "claude" in
    let is_cursor = eq_iff (to_lower u.scheme) "cursor" in (λ h. ground arith, λ h. ground arith)

module _ (parse : String → Option ParsedUrl) where
  -- A redirect URI is valid exactly if it parses to one without a fragment that is HTTP to
  -- localhost, 127.0.0.1 or ::1, or HTTPS to a host, or of another scheme that is claude or cursor
  -- in any case, or has a dot.
  pub validate_redirect_uri_iff :
      (raw : String)
      → (validate_redirect_uri parse raw ≡ none)
        ↔ ((u : ParsedUrl) × (parse raw ≡ some u) × IsRedirect u)
  unfolding validate_redirect_uri
  validate_redirect_uri_iff raw = elim (Option-cases (parse raw)) [
    | inl malformed ↦ (λ h. absurd (ground arith), λ h. absurd (ground arith))
    | inr (u, parsed) ↦ (
      λ h. (u, parsed, (validate_parsed_iff u).0 (ground arith)),
      λ (v, read, good).
          (let same : u ≡ v = ground arith in
            rw (parsed, validate_redirect_uri)
              ((validate_parsed_iff u).1 (subst IsRedirect (sym same) good))),
    )
  ]

is_given : (s : String) {t : String} → s ≢ "" → t ≡ s → (t == "") ≡ false
is_given s {t} given same = elim (Bool-cases (t == "")) [
  | inl blank ↦ absurd (given (sym same ∙ (eq_iff t "").0 blank))
  | inr other ↦ other
]

code_or_none :
    (response_type : Option String)
    → (response_type ≡ none) ⊎ (response_type ≡ some "code")
    → (not (or_else response_type "" == "") && not (or_else response_type "" == "code")) ≡ false
code_or_none response_type (inl h) = rw h
code_or_none response_type (inr h) = rw h

module _ (p : Primitives) (sound : IsSound p) (lib : UrlLibrary) (config : Config) (env : Env) where
  -- What a registration that succeeds has checked and sealed.
  handle_register_client-registered :
      (req : RegisterClientRequest) (resp : RegisterClientResponse)
      → (handle_register_client p lib config env (some req)).response ≡ registered resp
      → (validate_redirect_uris lib.parse req.redirect_uris ≡ none)
        × (encrypt_client_id p config.token_secret
              (env.random 0)
              (client_payload p lib config env req)
            ≡ ok resp.client_id)
  unfolding handle_register_client issue_client_id
  handle_register_client-registered req resp h =
      elim (Option-cases (validate_redirect_uris lib.parse req.redirect_uris)) [
        | inr (e, bad) ↦ absurd (ground arith)
        | inl good ↦
            elim (Result-cases (
              encrypt_client_id p config.token_secret (env.random 0)
                (client_payload p lib config env req))) [
                  | inl (e, unsealed) ↦ absurd (ground arith)
                  | inr (id, sealed) ↦ (good, ground arith)
                ]
      ]

  mem-valid :
      (uri : String) (uris : List String)
      → validate_redirect_uris lib.parse uris ≡ none
      → mem uri uris ≡ true
      → validate_redirect_uri lib.parse uri ≡ none
  unfolding validate_redirect_uris
  mem-valid uri [] h m = cc
  mem-valid uri (x ∷ xs) h m = elim (Option-cases (validate_redirect_uri lib.parse x)) [
    | inr (e, bad) ↦ absurd (ground arith)
    | inl good ↦ elim (Bool-cases (x == uri)) [
      | inl same ↦
          subst (λ u. validate_redirect_uri lib.parse u ≡ none) ((eq_iff x uri).0 same) good
      | inr other ↦ mem-valid uri xs (ground arith) (ground arith)
    ]
  ]

  -- With functions that obey IsSound and a full nonce: an authorization request of a client that has
  -- registered, with a challenge for S256 and no response type but code, is accepted exactly with a
  -- redirect URI that the client registered. That URI is then a valid one.
  pub registered_redirects_iff :
      (later : Env) (req : RegisterClientRequest) (resp : RegisterClientResponse) (values : Values)
      → Fills (env.random 0)
      → (handle_register_client p lib config env (some req)).response ≡ registered resp
      → field_of values "client_id" ≡ resp.client_id
      → resp.client_id ≢ ""
      → field_of values "redirect_uri" ≢ ""
      → field_of values "code_challenge" ≢ ""
      → field_of values "code_challenge_method" ≡ "S256"
      → (get_value values "response_type" ≡ none) ⊎ (get_value values "response_type" ≡ some "code")
      → ((d : AuthorizeData) × (validate_authorize_request p config later values ≡ accepted d)) ↔ (
          (mem (field_of values "redirect_uri") req.redirect_uris ≡ true)
          × (validate_redirect_uri lib.parse (field_of values "redirect_uri") ≡ none))
  unfolding validate_authorize_request
  registered_redirects_iff later req resp values fills answered named id_given uri challenge method
        response_type =
      let (good, sealed) = handle_register_client-registered req resp answered in
      let known =
        decrypt_client_id-encrypt_client_id p sound config.token_secret (env.random 0) fills
          (later.now 0) resp.client_id (client_payload p lib config env req) sealed in
      let known_id : decrypt_client_id p (later.now 0) (field_of values "client_id")
            config.token_secret
          ≡ ok (client_payload p lib config env req) =
        rw named known in
      let is_s256 = (eq_iff (field_of values "code_challenge_method") "S256").1 method in
      let type_ok = code_or_none (get_value values "response_type") response_type in
      let answer : validate_authorize_request p config later values ≡ (
          if not (mem (field_of values "redirect_uri") req.redirect_uris)
          then invalid redirect_mismatch
          else accepted (request_data values (trim_space req.client_name))) =
        rw (
          type_ok,
          is_given resp.client_id id_given named,
          is_given _ uri refl,
          is_given _ challenge refl,
          is_s256,
          known_id,
        ) in
      (
        λ (d, accepted_as).
            (let m : mem (field_of values "redirect_uri") req.redirect_uris ≡ true = ground arith in
              (m, mem-valid (field_of values "redirect_uri") req.redirect_uris good m)),
        λ (m, is_valid). (request_data values (trim_space req.client_name), rw m at answer),
      )
