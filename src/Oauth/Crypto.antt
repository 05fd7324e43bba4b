-- ===== src/Oauth/Crypto.antt =====
-- internal/oauth/crypto.go. What it calls is a record of functions: encoding/json by a codec for
-- each payload, crypto/aes and crypto/cipher by `new_gcm` (aes.NewCipher and cipher.NewGCM),
-- crypto/sha256 and encoding/base64. crypto/rand and the current time are arguments.
pub mod Laws
pub mod Tokens
pub mod Samples
mod Tests
use signoz_mcp_server.Base.{
  ℕ, String, Bool, Option, none, some, List, [], ◌∷◌, ◌++◌, length, take, drop, ltb, eqb,
  if◌then◌else◌,
}
use signoz_mcp_server.Base.Int.{ℤ, ltb_ℤ}

abbrev pub Bytes : Type 0
Bytes = List ℕ

pub data BlobType : Type 0 where
  access_token client_id authorization_code refresh_token : BlobType

abbrev pub blob_byte : BlobType → ℕ
blob_byte access_token = 1
blob_byte client_id = 2
blob_byte authorization_code = 3
blob_byte refresh_token = 4

pub record TokenPayload : Type 0 where
  pub api_key : String
  pub signoz_url : String
  pub client_id : String
  pub expires_at : ℤ

pub record ClientIdPayload : Type 0 where
  pub redirect_uris : List String
  pub client_name : String
  pub created_at : ℤ

pub record AuthorizationCodePayload : Type 0 where
  pub api_key : String
  pub signoz_url : String
  pub client_id : String
  pub redirect_uri : String
  pub code_challenge : String
  pub code_challenge_method : String
  pub expires_at : ℤ

pub record RefreshTokenPayload : Type 0 where
  pub api_key : String
  pub signoz_url : String
  pub client_id : String
  pub expires_at : ℤ

pub record Gcm : Type 0 where
  pub nonce_size : ℕ
  pub seal : (nonce plaintext : Bytes) → Bytes
  pub open_sealed : (nonce ciphertext : Bytes) → Option Bytes

pub record Codec (A : Type 0) : Type 0 where
  pub marshal : A → Option Bytes
  pub unmarshal : Bytes → Option A

pub record Primitives : Type 0 where
  pub new_gcm : (key : Bytes) → Option Gcm
  pub sha256 : Bytes → Bytes
  pub encode_base64 : Bytes → String
  pub decode_base64 : String → Option Bytes
  pub token : Codec TokenPayload
  pub client_id : Codec ClientIdPayload
  pub authorization_code : Codec AuthorizationCodePayload
  pub refresh_token : Codec RefreshTokenPayload

-- `invalid_token` is every error that wraps ErrInvalidToken.
pub data TokenError : Type 0 where
  marshal_failed cipher_failed nonce_failed invalid_token : TokenError

pub data Result (A : Type 0) : Type 0 where
  ok : A → Result A
  error : TokenError → Result A

-- An expired token is returned with its payload.
pub data Opened (A : Type 0) : Type 0 where
  valid expired : A → Opened A
  failed : TokenError → Opened A

module _ (p : Primitives) where
  unfoldable pub token_key : (secret : Bytes) → Bytes
  token_key secret = p.sha256 secret

  unfoldable pub sealed_blob : Gcm → (nonce plaintext : Bytes) → String
  sealed_blob gcm nonce plaintext = p.encode_base64 (nonce ++ gcm.seal nonce plaintext)

  -- `random n` is what rand.Read fills n bytes with.
  unfoldable pub encrypt_typed_blob :
      {A : Type 0}
      → Codec A
      → BlobType
      → A
      → (secret : Bytes) → (random : ℕ → Option Bytes) → Result String
  unfolding token_key sealed_blob
  encrypt_typed_blob codec blob_type payload secret random = elim (codec.marshal payload) [
    | none ↦ error marshal_failed
    | some json ↦ elim (p.new_gcm (token_key secret)) [
      | none ↦ error cipher_failed
      | some gcm ↦ elim (random gcm.nonce_size) [
        | none ↦ error nonce_failed
        | some nonce ↦ ok (sealed_blob gcm nonce (blob_byte blob_type ∷ json))
      ]
    ]
  ]

  unfoldable pub open_raw : Gcm → (raw : Bytes) → Result Bytes
  open_raw gcm raw =
      if ltb (length raw) gcm.nonce_size
      then error invalid_token
      else elim (gcm.open_sealed (take gcm.nonce_size raw) (drop gcm.nonce_size raw)) [
        | none ↦ error invalid_token
        | some plaintext ↦ ok plaintext
      ]

  unfoldable pub decrypt_raw_token : (token : String) (secret : Bytes) → Result Bytes
  unfolding token_key
  decrypt_raw_token token secret = elim (p.decode_base64 token) [
    | none ↦ error invalid_token
    | some raw ↦ elim (p.new_gcm (token_key secret)) [
      | none ↦ error cipher_failed
      | some gcm ↦ open_raw gcm raw
    ]
  ]

  unfoldable pub read_plaintext : {A : Type 0} → Codec A → BlobType → Bytes → Result A
  read_plaintext codec expected_type [] = error invalid_token
  read_plaintext codec expected_type (byte ∷ json) =
      if eqb byte (blob_byte expected_type)
      then elim (codec.unmarshal json) [ none ↦ error invalid_token | some payload ↦ ok payload ]
      else error invalid_token

  unfoldable pub decrypt_typed_blob :
      {A : Type 0} → Codec A → (token : String) → BlobType → (secret : Bytes) → Result A
  decrypt_typed_blob codec token expected_type secret = elim (decrypt_raw_token token secret) [
    | error e ↦ error e
    | ok plaintext ↦ read_plaintext codec expected_type plaintext
  ]

  check_expiry : {A : Type 0} → (now : ℤ) → (A → ℤ) → Result A → Opened A
  check_expiry now expires_at (error e) = failed e
  check_expiry now expires_at (ok payload) =
      if ltb_ℤ (expires_at payload) now then expired payload else valid payload

  module _ (secret : Bytes) (random : ℕ → Option Bytes) where
    unfoldable pub encrypt_token : TokenPayload → Result String
    encrypt_token payload = encrypt_typed_blob p.token access_token payload secret random

    unfoldable pub encrypt_client_id : ClientIdPayload → Result String
    encrypt_client_id payload = encrypt_typed_blob p.client_id client_id payload secret random

    unfoldable pub encrypt_authorization_code : AuthorizationCodePayload → Result String
    encrypt_authorization_code payload =
        encrypt_typed_blob p.authorization_code authorization_code payload secret random

    unfoldable pub encrypt_refresh_token : RefreshTokenPayload → Result String
    encrypt_refresh_token payload =
        encrypt_typed_blob p.refresh_token refresh_token payload secret random

  module _ (now : ℤ) (token : String) (secret : Bytes) where
    unfoldable pub decrypt_token : Opened TokenPayload
    unfolding check_expiry
    decrypt_token =
        check_expiry now (λ payload. payload.expires_at)
          (decrypt_typed_blob p.token token access_token secret)

    -- A client ID does not expire, and its time is not read.
    unfoldable pub decrypt_client_id : Result ClientIdPayload
    decrypt_client_id = decrypt_typed_blob p.client_id token client_id secret

    unfoldable pub decrypt_authorization_code : Opened AuthorizationCodePayload
    unfolding check_expiry
    decrypt_authorization_code =
        check_expiry now (λ payload. payload.expires_at)
          (decrypt_typed_blob p.authorization_code token authorization_code secret)

    unfoldable pub decrypt_refresh_token : Opened RefreshTokenPayload
    unfolding check_expiry
    decrypt_refresh_token =
        check_expiry now (λ payload. payload.expires_at)
          (decrypt_typed_blob p.refresh_token token refresh_token secret)
