-- ===== src/Oauth/Crypto/Samples.antt =====
-- Small functions in the place of the cryptography, with the laws that the tokens rely on: a text of
-- unary numbers for base64, a cipher that does not hide, and codecs of one payload each.

use signoz_mcp_server.Base.{
  ℕ, zero, suc, String, code, ◌≡◌, refl, sym, ◌∙◌, ap, Bool, true, false, ◌&&◌, Option, none, some,
  List, [], ◌∷◌, length, eqb, ◌==◌, eq_iff, if◌then◌else◌, arith,
}
use signoz_mcp_server.Base.Int.{ℤ, pos, eqb_ℤ}
use signoz_mcp_server.Oauth.Crypto.{
  Bytes, TokenPayload, ClientIdPayload, AuthorizationCodePayload, RefreshTokenPayload, Gcm, Codec,
  Primitives,
}
use signoz_mcp_server.Oauth.Crypto.Laws.{IsAead, ReadsBack, IsSound, Fills}

abbrev unary : ℕ → String → String
unary zero s = String.◌∷◌ "." s
unary (suc n) s = String.◌∷◌ "1" (unary n s)

abbrev encode : Bytes → String
encode [] = ""
encode (n ∷ bytes) = unary n (encode bytes)

abbrev add_one : Bytes → Bytes
add_one [] = []
add_one (n ∷ bytes) = suc n ∷ bytes

abbrev decode : String → Bytes
decode String.[] = []
decode (String.◌∷◌ c s) = if eqb (code c) b'1' then add_one (decode s) else zero ∷ decode s

decode-unary : (n : ℕ) (s : String) → decode (unary n s) ≡ n ∷ decode s
decode-unary zero s = refl
decode-unary (suc n) s = ap add_one (decode-unary n s)

decode-encode : (bytes : Bytes) → decode (encode bytes) ≡ bytes
decode-encode [] = refl
decode-encode (n ∷ bytes) = decode-unary n (encode bytes) ∙ ap (λ l. n ∷ l) (decode-encode bytes)

abbrev gcm : Gcm
gcm = record {
  nonce_size = 2;
  seal = λ nonce plaintext. plaintext;
  open_sealed = λ nonce ciphertext. some ciphertext;
}

gcm-IsAead : IsAead gcm
gcm-IsAead = record {
  opens = λ nonce plaintext size. refl;
  authentic = λ nonce ciphertext plaintext h. ground arith;
}

-- A codec of one payload.
abbrev codec : {A : Type 0} → A → (A → Bool) → Codec A
codec fixed is_fixed = record {
  marshal = λ a. if is_fixed a then some (7 ∷ []) else none;
  unmarshal = λ json. some fixed;
}

codec-ReadsBack :
    {A : Type 0} (fixed : A) (is_fixed : A → Bool)
    → ((a : A) → is_fixed a ≡ true → a ≡ fixed)
    → ReadsBack (codec fixed is_fixed)
codec-ReadsBack fixed is_fixed only a json h = ap some (sym (only a (ground arith)))

eqb_ℤ_only : (a b : ℤ) → eqb_ℤ a b ≡ true → a ≡ b
eqb_ℤ_only a b h = ground arith

abbrev pub token : TokenPayload
token = record {
  api_key = "key";
  signoz_url = "https://a.b";
  client_id = "c";
  expires_at = pos 100;
}

abbrev pub refresh : RefreshTokenPayload
refresh = record {
  api_key = "key";
  signoz_url = "https://a.b";
  client_id = "c";
  expires_at = pos 900;
}

abbrev pub client : ClientIdPayload
client = record { redirect_uris = []; client_name = "cli"; created_at = pos 5 }

abbrev pub authorization : AuthorizationCodePayload
authorization = record {
  api_key = "key";
  signoz_url = "https://a.b";
  client_id = "c";
  redirect_uri = "http://localhost";
  code_challenge = "x";
  code_challenge_method = "S256";
  expires_at = pos 60;
}

abbrev is_token : TokenPayload → TokenPayload → Bool
is_token fixed a =
    a.api_key == fixed.api_key
    && a.signoz_url == fixed.signoz_url
    && a.client_id == fixed.client_id
    && eqb_ℤ a.expires_at fixed.expires_at

abbrev is_refresh : RefreshTokenPayload → RefreshTokenPayload → Bool
is_refresh fixed a =
    a.api_key == fixed.api_key
    && a.signoz_url == fixed.signoz_url
    && a.client_id == fixed.client_id
    && eqb_ℤ a.expires_at fixed.expires_at

abbrev same_uris : List String → List String → Bool
same_uris [] [] = true
same_uris (a ∷ xs) (b ∷ ys) = a == b && same_uris xs ys
same_uris _ _ = false

abbrev is_client : ClientIdPayload → ClientIdPayload → Bool
is_client fixed a =
    same_uris a.redirect_uris fixed.redirect_uris
    && a.client_name == fixed.client_name
    && eqb_ℤ a.created_at fixed.created_at

abbrev is_authorization : AuthorizationCodePayload → AuthorizationCodePayload → Bool
is_authorization fixed a =
    a.api_key == fixed.api_key
    && a.signoz_url == fixed.signoz_url
    && a.client_id == fixed.client_id
    && a.redirect_uri == fixed.redirect_uri
    && a.code_challenge == fixed.code_challenge
    && a.code_challenge_method == fixed.code_challenge_method
    && eqb_ℤ a.expires_at fixed.expires_at

same_uris_only : (xs ys : List String) → same_uris xs ys ≡ true → xs ≡ ys
same_uris_only [] [] h = refl
same_uris_only [] (y ∷ ys) h = absurd cc
same_uris_only (x ∷ xs) [] h = absurd cc
same_uris_only (x ∷ xs) (y ∷ ys) h = ground (arith, eq_iff x y, same_uris_only xs ys)

is_token_only : (fixed a : TokenPayload) → is_token fixed a ≡ true → a ≡ fixed
is_token_only fixed a h = ground (
  arith,
  eq_iff a.api_key fixed.api_key,
  eq_iff a.signoz_url fixed.signoz_url,
  eq_iff a.client_id fixed.client_id,
  eqb_ℤ_only a.expires_at fixed.expires_at,
)

is_refresh_only : (fixed a : RefreshTokenPayload) → is_refresh fixed a ≡ true → a ≡ fixed
is_refresh_only fixed a h = ground (
  arith,
  eq_iff a.api_key fixed.api_key,
  eq_iff a.signoz_url fixed.signoz_url,
  eq_iff a.client_id fixed.client_id,
  eqb_ℤ_only a.expires_at fixed.expires_at,
)

is_client_only : (fixed a : ClientIdPayload) → is_client fixed a ≡ true → a ≡ fixed
is_client_only fixed a h = ground (
  arith,
  same_uris_only a.redirect_uris fixed.redirect_uris,
  eq_iff a.client_name fixed.client_name,
  eqb_ℤ_only a.created_at fixed.created_at,
)

is_authorization_only :
    (fixed a : AuthorizationCodePayload) → is_authorization fixed a ≡ true → a ≡ fixed
is_authorization_only fixed a h = ground (
  arith,
  eq_iff a.api_key fixed.api_key,
  eq_iff a.signoz_url fixed.signoz_url,
  eq_iff a.client_id fixed.client_id,
  eq_iff a.redirect_uri fixed.redirect_uri,
  eq_iff a.code_challenge fixed.code_challenge,
  eq_iff a.code_challenge_method fixed.code_challenge_method,
  eqb_ℤ_only a.expires_at fixed.expires_at,
)

-- A hash is the number of bytes; each codec writes one payload.
module _ (token : TokenPayload) (client : ClientIdPayload)
    (authorization : AuthorizationCodePayload) (refresh : RefreshTokenPayload) where
  abbrev pub sample_of : Primitives
  sample_of = record {
    new_gcm = λ key. some gcm;
    sha256 = λ bytes. length bytes ∷ [];
    encode_base64 = encode;
    decode_base64 = λ s. some (decode s);
    token = codec token (is_token token);
    client_id = codec client (is_client client);
    authorization_code = codec authorization (is_authorization authorization);
    refresh_token = codec refresh (is_refresh refresh);
  }

  pub sample_of-IsSound : IsSound sample_of
  sample_of-IsSound = record {
    base64 = λ raw. ap some (decode-encode raw);
    aead = λ key other h. (let same : gcm ≡ other = ground arith in rw⁻¹ same gcm-IsAead);
    token = codec-ReadsBack token (is_token token) (is_token_only token);
    client_id = codec-ReadsBack client (is_client client) (is_client_only client);
    authorization_code =
        codec-ReadsBack authorization (is_authorization authorization)
          (is_authorization_only authorization);
    refresh_token = codec-ReadsBack refresh (is_refresh refresh) (is_refresh_only refresh);
  }

abbrev pub sample : Primitives
sample = sample_of token client authorization refresh

pub sample-IsSound : IsSound sample
sample-IsSound = sample_of-IsSound token client authorization refresh

abbrev pub random : ℕ → Option Bytes
random n = if eqb n 2 then some (0 ∷ 1 ∷ []) else none

pub random-Fills : Fills random
random-Fills n bytes h = ground arith
