-- ===== src/Oauth/Crypto/Tests.antt =====
-- Runs of crypto.go with the functions of Samples, and the theorems there.
use signoz_mcp_server.Base.{String, ◌≡◌, ◌≢◌, refl, [], ◌∷◌, ◌++◌, some, if◌then◌else◌}
use signoz_mcp_server.Base.Int.{pos, ltb_ℤ}
use signoz_mcp_server.Oauth.Crypto.{
  Bytes, access_token, refresh_token, blob_byte, Gcm, ok, valid, expired, token_key,
  encrypt_typed_blob, decrypt_typed_blob, encrypt_token, decrypt_token, encrypt_client_id,
  encrypt_authorization_code, encrypt_refresh_token, token_key, sealed_blob, decrypt_raw_token,
  open_raw, read_plaintext,
}
use signoz_mcp_server.Oauth.Crypto.Samples.{
  token, refresh, client, authorization, sample, sample-IsSound, random, random-Fills,
}
use signoz_mcp_server.Oauth.Crypto.Tokens.{decrypt_token-encrypt_token, accepted_is_sealed}

abbrev secret : Bytes
secret = 1 ∷ 2 ∷ []

abbrev token_text : String
token_text = ".1.1.1111111."

token_encrypts : encrypt_token sample secret random token ≡ ok token_text
unfolding encrypt_token encrypt_typed_blob sealed_blob token_key
token_encrypts = refl

token_opens : decrypt_typed_blob sample sample.token token_text access_token secret ≡ ok token
unfolding decrypt_typed_blob decrypt_raw_token token_key open_raw read_plaintext
token_opens = refl

client_encrypts : encrypt_client_id sample secret random client ≡ ok ".1.11.1111111."
unfolding encrypt_client_id encrypt_typed_blob sealed_blob token_key
client_encrypts = refl

authorization_encrypts :
    encrypt_authorization_code sample secret random authorization ≡ ok ".1.111.1111111."
unfolding encrypt_authorization_code encrypt_typed_blob sealed_blob token_key
authorization_encrypts = refl

refresh_encrypts : encrypt_refresh_token sample secret random refresh ≡ ok ".1.1111.1111111."
unfolding encrypt_refresh_token encrypt_typed_blob sealed_blob token_key
refresh_encrypts = refl

blob_encrypts :
    encrypt_typed_blob sample sample.token access_token token secret random ≡ ok token_text
unfolding encrypt_typed_blob sealed_blob token_key
blob_encrypts = refl

types_differ : access_token ≢ refresh_token
types_differ = λ h. absurd cc

decrypt_token-encrypt_token_example :
    decrypt_token sample (pos 200) token_text secret
    ≡ (if ltb_ℤ token.expires_at (pos 200) then expired token else valid token)
decrypt_token-encrypt_token_example =
    decrypt_token-encrypt_token sample sample-IsSound secret random random-Fills (pos 200)
      token_text token token_encrypts

accepted_is_sealed_example :
    (gcm : Gcm) × (nonce : Bytes) × (json : Bytes) × (sample.new_gcm (token_key sample secret)
      ≡ some gcm)
    × (sample.decode_base64 token_text
        ≡ some (nonce ++ gcm.seal nonce (blob_byte access_token ∷ json)))
    × (sample.token.unmarshal json ≡ some token)
accepted_is_sealed_example =
    accepted_is_sealed sample sample-IsSound secret sample.token access_token token_text token
      token_opens
