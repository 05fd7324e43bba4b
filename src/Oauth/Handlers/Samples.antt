-- ===== src/Oauth/Handlers/Samples.antt =====
-- One client through registration, the form, the exchange of its code and a refresh, with functions
-- in the place of the cryptography and the network.
use signoz_mcp_server.Base.{
  ℕ, String, trim_space, to_lower, bytes_of, ◌≡◌, ◌≢◌, refl, true, false, none, some, [], ◌∷◌, ◌==◌,
  eq_iff, if◌then◌else◌,
}
use signoz_mcp_server.Base.Int.{pos, negsuc, ◌+ℤ◌, quo}
use signoz_mcp_server.Oauth.Crypto.{
  encrypt_client_id, encrypt_typed_blob, decrypt_authorization_code, decrypt_refresh_token,
  decrypt_typed_blob, decrypt_raw_token, open_raw, read_plaintext, encrypt_token,
  encrypt_refresh_token, decrypt_client_id, encrypt_authorization_code, Primitives, TokenPayload,
  ClientIdPayload, AuthorizationCodePayload, RefreshTokenPayload,
}
use signoz_mcp_server.Oauth.Crypto.Laws.{IsSound, Fills}
use signoz_mcp_server.Oauth.Crypto.Samples.{sample_of, sample_of-IsSound, random, random-Fills}
use signoz_mcp_server.Oauth.Pkce.{challenge_of, validate_pkce}
use signoz_mcp_server.Oauth.Handlers.{
  Config, UrlLibrary, Env, HttpRequest, AuthorizeData, Cookie, TokenResponse, tokens, redirect,
  registered, RegisterClientResponse, raw_form_value, form_value, field_of, get_value,
  authorize_path, is_secure, issuer_url,
}
use signoz_mcp_server.Oauth.Handlers.Register.{
  RegisterClientRequest, handle_register_client, validate_redirect_uris, validate_redirect_uri,
  is_allowed_custom_redirect_scheme,
}
use signoz_mcp_server.Oauth.Handlers.Authorize.{
  handle_authorize_submit, validate_csrf, validate_authorize_request, submit_credentials,
  add_authorize_response, grant_code, validate_signoz_credentials, validation_client, request_data,
  accepted,
}
use signoz_mcp_server.Oauth.Handlers.Token.{
  handle_token, handle_authorization_code_grant, handle_refresh_token_grant, redeem_code,
  redeem_refresh, issue_token_pair,
}
use signoz_mcp_server.Oauth.Handlers.Authorize.Granted.{IsAuthorized, accepted-IsRegistered}
use signoz_mcp_server.Oauth.Handlers.Token.Issued.{IsIssued, pair_of}
use signoz_mcp_server.Util.Allowlist.{allows_url, configured}
use signoz_mcp_server.Base.Fold.{equal_fold}
use signoz_mcp_server.Base.Strings.{cut_prefix, has_prefix, after_sep, cut_suffix, index, index_any}
use signoz_mcp_server.Client.Validation.{do_validation_request, validate_credentials}
use signoz_mcp_server.Util.Url.{
  ParsedUrl, normalize_signoz_url_form_input, with_scheme, has_malformed_http_scheme,
  has_httpish_prefix, has_explicit_scheme, normalize_signoz_url, origin_host, origin_of,
  origin_of_url, port_of,
}
use signoz_mcp_server.Client.Retry.{response}

-- 43 bytes
abbrev pub verifier : String
verifier = "0123456789012345678901234567890123456789012"

abbrev pub client_text : String
client_text = ".1.11.1111111."

abbrev pub code_text : String
code_text = ".1.111.1111111."

abbrev pub access_text : String
access_text = ".1.1.1111111."

abbrev pub refresh_text : String
refresh_text = ".1.1111.1111111."

-- 43 in unary
abbrev pub challenge : String
challenge = "1111111111111111111111111111111111111111111."

abbrev pub client : ClientIdPayload
client = record { redirect_uris = "claude:done" ∷ []; client_name = "cli"; created_at = pos 5 }

abbrev pub authorization : AuthorizationCodePayload
authorization = record {
  api_key = "key";
  signoz_url = "https://a.b";
  client_id = client_text;
  redirect_uri = "claude:done";
  code_challenge = challenge;
  code_challenge_method = "S256";
  expires_at = pos 65;
}

abbrev pub token : TokenPayload
token = record {
  api_key = "key";
  signoz_url = "https://a.b";
  client_id = client_text;
  expires_at = pos 105;
}

abbrev pub refresh : RefreshTokenPayload
refresh = record {
  api_key = "key";
  signoz_url = "https://a.b";
  client_id = client_text;
  expires_at = pos 905;
}

abbrev pub p : Primitives
p = sample_of token client authorization refresh

pub sound : IsSound p
sound = sample_of-IsSound token client authorization refresh

abbrev pub parsed : (scheme hostname : String) → ParsedUrl
parsed scheme hostname = record {
  scheme = scheme;
  path = "";
  raw_query = "";
  force_query = false;
  fragment = "";
  opaque = "";
  raw_path = "";
  has_user = false;
  hostname = hostname;
  port = "";
}

-- A library that knows two URLs.
abbrev pub lib : UrlLibrary
lib = record {
  parse =
      λ s. (if s == "https://a.b" then some (parsed "https" "a.b") else some (parsed "claude" ""));
  to_string = λ u. (if u.scheme == "https" then "https://a.b" else u.raw_query);
  parse_query = λ s. [];
  encode_query = λ query. elim query [ [] ↦ "" | (k, vs) ∷ rest ↦ "claude:done?code" ];
}

abbrev pub config : Config
config = record {
  url = "";
  token_secret = 1 ∷ 2 ∷ [];
  oauth_issuer_url = "https://mcp";
  access_token_ttl = pos 100;
  refresh_token_ttl = pos 900;
  auth_code_ttl = pos 60;
  custom_headers = [];
  instance_url_allowlist = record { exact = []; suffixes = [] };
}

-- Every request comes at second 5, and the instance accepts every key.
abbrev pub env : Env
env = record {
  now = λ reading. pos 5;
  random = λ draw. random;
  network = record {
    creates = λ method url. true;
    reply = λ attempt request. response 200 (some []);
    aborted = λ attempt. false;
  };
}

abbrev pub registration : RegisterClientRequest
registration = record { client_name = " cli "; redirect_uris = "claude:done" ∷ [] }

abbrev pub form : HttpRequest
form = record {
  query = [];
  post_form =
      ("client_id", client_text)
      ∷ ("redirect_uri", "claude:done")
      ∷ ("code_challenge", challenge)
      ∷ ("code_challenge_method", "S256")
      ∷ ("csrf_token", "t")
      ∷ ("api_key", "key ")
      ∷ ("signoz_url", "a.b")
      ∷ [];
  form_error = false;
  csrf_cookie = some "t";
}

abbrev pub code_request : HttpRequest
code_request = record {
  query = [];
  post_form =
      ("grant_type", "authorization_code")
      ∷ ("client_id", client_text)
      ∷ ("code", code_text)
      ∷ ("redirect_uri", "claude:done")
      ∷ ("code_verifier", verifier)
      ∷ [];
  form_error = false;
  csrf_cookie = none;
}

abbrev pub refresh_request : HttpRequest
refresh_request = record {
  query = [];
  post_form = ("grant_type", "refresh_token") ∷ ("refresh_token", refresh_text) ∷ [];
  form_error = false;
  csrf_cookie = none;
}

abbrev pub registered_client : RegisterClientResponse
registered_client = record {
  client_id = client_text;
  issued_at = pos 0;
  client_name = "cli";
  redirect_uris = "claude:done" ∷ [];
}

abbrev pub pair : TokenResponse
pair = record {
  access_token = access_text;
  token_type = "Bearer";
  expires_in = pos 0;
  refresh_token = refresh_text;
}

pub registers :
    (handle_register_client p lib config env (some registration)).response
    ≡ registered registered_client
unfolding handle_register_client trim_space validate_redirect_uris validate_redirect_uri
    is_allowed_custom_redirect_scheme to_lower encrypt_client_id encrypt_typed_blob quo
registers = refl

abbrev pub cleared : Cookie
cleared = record { value = ""; path = "/oauth/authorize"; secure = true; max_age = negsuc 0 }

pub submits :
    (handle_authorize_submit p lib "1.2" config env form).response
    ≡ redirect "claude:done?code" cleared
unfolding handle_authorize_submit validate_csrf form_value trim_space validate_authorize_request
    field_of decrypt_client_id decrypt_typed_blob decrypt_raw_token open_raw read_plaintext
    submit_credentials normalize_signoz_url_form_input with_scheme cut_prefix
    has_malformed_http_scheme has_httpish_prefix has_prefix equal_fold ◌+ℤ◌ after_sep cut_suffix
    index index_any to_lower do_validation_request validate_credentials encrypt_authorization_code
    encrypt_typed_blob add_authorize_response grant_code validate_signoz_credentials
    validation_client authorize_path get_value is_secure issuer_url raw_form_value allows_url
    configured has_explicit_scheme normalize_signoz_url origin_host origin_of origin_of_url port_of
submits = refl

pub exchanges : (handle_token p lib config env code_request).response ≡ tokens pair
unfolding handle_token raw_form_value handle_authorization_code_grant handle_refresh_token_grant
    redeem_code redeem_refresh form_value trim_space decrypt_authorization_code
    decrypt_refresh_token decrypt_typed_blob decrypt_raw_token open_raw read_plaintext validate_pkce
    challenge_of bytes_of issue_token_pair allows_url configured encrypt_token encrypt_refresh_token
    encrypt_typed_blob ◌+ℤ◌ quo get_value
exchanges = refl

pub refreshes : (handle_token p lib config env refresh_request).response ≡ tokens pair
unfolding handle_token raw_form_value handle_authorization_code_grant handle_refresh_token_grant
    redeem_code redeem_refresh form_value trim_space decrypt_authorization_code
    decrypt_refresh_token decrypt_typed_blob decrypt_raw_token open_raw read_plaintext validate_pkce
    challenge_of bytes_of issue_token_pair allows_url configured encrypt_token encrypt_refresh_token
    encrypt_typed_blob ◌+ℤ◌ quo get_value
refreshes = refl

abbrev pub params : AuthorizeData
params = request_data form.post_form "cli"

pub text_given : (s : String) → (s == "") ≡ false → s ≢ ""
text_given s other blank = let same = (eq_iff s "").1 blank in cc

pub fills : (draw : ℕ) → Fills (env.random draw)
fills draw = random-Fills

pub accepts : validate_authorize_request p config env form.post_form ≡ accepted params
unfolding validate_csrf form_value trim_space validate_authorize_request field_of decrypt_client_id
    decrypt_typed_blob decrypt_raw_token open_raw read_plaintext submit_credentials
    normalize_signoz_url_form_input with_scheme cut_prefix has_malformed_http_scheme
    has_httpish_prefix has_prefix equal_fold ◌+ℤ◌ after_sep cut_suffix index index_any to_lower
    do_validation_request validate_credentials encrypt_authorization_code encrypt_typed_blob
    add_authorize_response grant_code validate_signoz_credentials validation_client authorize_path
    get_value is_secure issuer_url raw_form_value allows_url configured has_explicit_scheme
    normalize_signoz_url origin_host origin_of origin_of_url port_of
accepts = refl

pub authorized : IsAuthorized p lib "1.2" config env form params "key" "https://a.b" code_text
unfolding validate_csrf form_value trim_space validate_authorize_request field_of decrypt_client_id
    decrypt_typed_blob decrypt_raw_token open_raw read_plaintext submit_credentials
    normalize_signoz_url_form_input with_scheme cut_prefix has_malformed_http_scheme
    has_httpish_prefix has_prefix equal_fold ◌+ℤ◌ after_sep cut_suffix index index_any to_lower
    do_validation_request validate_credentials encrypt_authorization_code encrypt_typed_blob
    add_authorize_response grant_code validate_signoz_credentials validation_client authorize_path
    get_value is_secure issuer_url raw_form_value allows_url configured has_explicit_scheme
    normalize_signoz_url origin_host origin_of origin_of_url port_of
authorized = record {
  csrf = refl;
  registered = accepted-IsRegistered p lib "1.2" config env form.post_form params accepts;
  key = refl;
  key_given = text_given "key" refl;
  url = refl;
  allowed = refl;
  credentials = refl;
  sealed = refl;
}

pub issue :
    IsIssued p lib config env client_text "key" "https://a.b"
      (pair_of p lib config env access_text refresh_text)
unfolding allows_url configured encrypt_token encrypt_refresh_token encrypt_typed_blob ◌+ℤ◌
issue = record { allowed = refl; access = refl; refresh = refl }
