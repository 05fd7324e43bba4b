-- ===== src/Oauth/Crypto/Tokens.antt =====
-- The tokens of crypto.go, from the one who encrypts to the one who decrypts.
use signoz_mcp_server.Base.{
  ℕ, String, ◌≡◌, ◌≢◌, refl, ◌∙◌, ap, Option, some, ◌∷◌, ◌++◌, length, take, arith, if◌then◌else◌,
  Option-cases, inl, inr,
}
use signoz_mcp_server.Base.Int.{ℤ, ltb_ℤ}
use signoz_mcp_server.Oauth.Crypto.{
  Bytes, BlobType, access_token, client_id, authorization_code, refresh_token, blob_byte,
  TokenPayload, AuthorizationCodePayload, ClientIdPayload, RefreshTokenPayload, Gcm, Codec,
  Primitives, ok, error, invalid_token, valid, expired, token_key, sealed_blob, decrypt_raw_token,
  read_plaintext, encrypt_typed_blob, decrypt_typed_blob, check_expiry, encrypt_token,
  decrypt_token, encrypt_client_id, decrypt_client_id, encrypt_authorization_code,
  decrypt_authorization_code, encrypt_refresh_token, decrypt_refresh_token,
}
use signoz_mcp_server.Oauth.Crypto.Laws.{
  ReadsBack, IsSound, Fills, open_raw-seal, read_plaintext_lem, read_plaintext_other,
  decrypt_typed_blob_inv, decrypt_raw_token_inv, read_plaintext_inv, open_raw_inv,
}

module _ (p : Primitives) (sound : IsSound p) (secret : Bytes) where
  decrypt_raw_token-sealed_blob :
      (gcm : Gcm) (nonce plaintext : Bytes)
      → p.new_gcm (token_key p secret) ≡ some gcm
      → length nonce ≡ gcm.nonce_size
      → decrypt_raw_token p (sealed_blob p gcm nonce plaintext) secret ≡ ok plaintext
  unfolding decrypt_raw_token sealed_blob
  decrypt_raw_token-sealed_blob gcm nonce plaintext key size =
      rw (sound.base64 (nonce ++ gcm.seal nonce plaintext), key, decrypt_raw_token)
        (open_raw-seal p gcm nonce plaintext (sound.aead _ gcm key) size)

  -- What a token that was encrypted decrypts to.
  encrypted :
      {A : Type 0} (codec : Codec A) (blob_type : BlobType) (payload : A)
      (random : ℕ → Option Bytes) (token : String)
      → Fills random
      → encrypt_typed_blob p codec blob_type payload secret random ≡ ok token
      → (json : Bytes) × (codec.marshal payload ≡ some json)
        × (decrypt_raw_token p token secret ≡ ok (blob_byte blob_type ∷ json))
  unfolding encrypt_typed_blob
  encrypted codec blob_type payload random token fills h =
      elim (Option-cases (codec.marshal payload)) [
        | inl missing ↦ absurd (ground arith)
        | inr (json, marshalled) ↦ elim (Option-cases (p.new_gcm (token_key p secret))) [
          | inl missing ↦ absurd (ground arith)
          | inr (gcm, key) ↦ elim (Option-cases (random gcm.nonce_size)) [
            | inl missing ↦ absurd (ground arith)
            | inr (nonce, filled) ↦
                let sealed : token ≡ sealed_blob p gcm nonce (blob_byte blob_type ∷ json) =
                  ground arith in
                (
                  json,
                  marshalled,
                  rw sealed (
                      decrypt_raw_token-sealed_blob gcm nonce (blob_byte blob_type ∷ json) key
                        (fills gcm.nonce_size nonce filled)),
                )
          ]
        ]
      ]

  -- Of its own type.
  pub decrypt_typed_blob-encrypt_typed_blob :
      {A : Type 0} (codec : Codec A) (blob_type : BlobType) (payload : A)
      (random : ℕ → Option Bytes) (token : String)
      → ReadsBack codec
      → Fills random
      → encrypt_typed_blob p codec blob_type payload secret random ≡ ok token
      → decrypt_typed_blob p codec token blob_type secret ≡ ok payload
  unfolding decrypt_typed_blob read_plaintext
  decrypt_typed_blob-encrypt_typed_blob codec blob_type payload random token back fills h =
      let (json, marshalled, opened) = encrypted codec blob_type payload random token fills h in
      rw (opened, decrypt_typed_blob)
        (read_plaintext_lem p codec blob_type payload json (back payload json marshalled))

  -- With functions that obey IsSound and a full nonce: a token that was encrypted as one type is an
  -- invalid token where another type is expected, whatever the codecs read.
  pub other_type_rejected :
      {A B : Type 0} (codec : Codec A) (other : Codec B) (blob_type other_type : BlobType)
      (payload : A) (random : ℕ → Option Bytes) (token : String)
      → Fills random
      → blob_type ≢ other_type
      → encrypt_typed_blob p codec blob_type payload secret random ≡ ok token
      → decrypt_typed_blob p other token other_type secret ≡ error invalid_token
  unfolding decrypt_typed_blob read_plaintext
  other_type_rejected codec other blob_type other_type payload random token fills differ h =
      let (json, marshalled, opened) = encrypted codec blob_type payload random token fills h in
      rw (opened, decrypt_typed_blob)
        (read_plaintext_other p other blob_type other_type json differ)

  -- With functions that obey IsSound: a token that is accepted as a type decodes to a nonce and
  -- what the cipher of the secret seals with it, which is the byte of that type and the JSON of the
  -- payload.
  pub accepted_is_sealed :
      {A : Type 0} (codec : Codec A) (blob_type : BlobType) (token : String) (payload : A)
      → decrypt_typed_blob p codec token blob_type secret ≡ ok payload
      → (gcm : Gcm) × (nonce : Bytes) × (json : Bytes) × (p.new_gcm (token_key p secret) ≡ some gcm)
        × (p.decode_base64 token ≡ some (nonce ++ gcm.seal nonce (blob_byte blob_type ∷ json)))
        × (codec.unmarshal json ≡ some payload)
  accepted_is_sealed codec blob_type token payload h =
      let (plaintext, raw_opened, read) =
        decrypt_typed_blob_inv p codec blob_type token secret payload h in
      let (gcm, raw, key, decoded, opened) =
        decrypt_raw_token_inv p token secret plaintext raw_opened in
      let (json, is_typed, read_json) =
        read_plaintext_inv p codec blob_type plaintext payload read in
      let parts = open_raw_inv p gcm raw plaintext (sound.aead _ gcm key) opened in
      (gcm, take gcm.nonce_size raw, json, key, decoded ∙ ap some (rw⁻¹ is_typed parts), read_json)

  module _ (random : ℕ → Option Bytes) (fills : Fills random) (now : ℤ) (token : String) where
    -- With functions that obey IsSound and a full nonce: an access token decrypts to what was
    -- encrypted, which is expired exactly when its time is before the current time.
    pub decrypt_token-encrypt_token :
        (payload : TokenPayload)
        → encrypt_token p secret random payload ≡ ok token
        → decrypt_token p now token secret
          ≡ (if ltb_ℤ payload.expires_at now then expired payload else valid payload)
    unfolding encrypt_token decrypt_token check_expiry
    decrypt_token-encrypt_token payload h =
        rw
          (
            decrypt_typed_blob-encrypt_typed_blob p.token access_token payload random token
                sound.token fills h,
            check_expiry,
          )
          refl

    -- With functions that obey IsSound and a full nonce: an authorization code decrypts to what was
    -- encrypted, which is expired exactly when its time is before the current time.
    pub decrypt_authorization_code-encrypt_authorization_code :
        (payload : AuthorizationCodePayload)
        → encrypt_authorization_code p secret random payload ≡ ok token
        → decrypt_authorization_code p now token secret
          ≡ (if ltb_ℤ payload.expires_at now then expired payload else valid payload)
    unfolding encrypt_authorization_code decrypt_authorization_code check_expiry
    decrypt_authorization_code-encrypt_authorization_code payload h =
        rw
          (
            decrypt_typed_blob-encrypt_typed_blob p.authorization_code authorization_code payload
                random token sound.authorization_code fills h,
            check_expiry,
          )
          refl

    -- With functions that obey IsSound and a full nonce: a refresh token decrypts to what was
    -- encrypted, which is expired exactly when its time is before the current time.
    pub decrypt_refresh_token-encrypt_refresh_token :
        (payload : RefreshTokenPayload)
        → encrypt_refresh_token p secret random payload ≡ ok token
        → decrypt_refresh_token p now token secret
          ≡ (if ltb_ℤ payload.expires_at now then expired payload else valid payload)
    unfolding encrypt_refresh_token decrypt_refresh_token check_expiry
    decrypt_refresh_token-encrypt_refresh_token payload h =
        rw
          (
            decrypt_typed_blob-encrypt_typed_blob p.refresh_token refresh_token payload random token
                sound.refresh_token fills h,
            check_expiry,
          )
          refl

    -- With functions that obey IsSound and a full nonce: a client ID decrypts to what was
    -- encrypted, at any time.
    pub decrypt_client_id-encrypt_client_id :
        (payload : ClientIdPayload)
        → encrypt_client_id p secret random payload ≡ ok token
        → decrypt_client_id p now token secret ≡ ok payload
    unfolding encrypt_client_id decrypt_client_id
    decrypt_client_id-encrypt_client_id payload h =
        decrypt_typed_blob-encrypt_typed_blob p.client_id client_id payload random token
          sound.client_id fills h
