-- ===== src/Oauth/Crypto/Laws.antt =====
-- What crypto.go relies on, and its steps under these laws.
use signoz_mcp_server.Base.{
  ℕ, String, ◌≡◌, ◌≢◌, ◌⊎◌, refl, ◌∙◌, sym, ap, true, false, Option, none, some, [], ◌∷◌, ◌++◌,
  length, take, drop, length-append, take-append-drop, arith, eqb, ltb, if◌then◌else◌, Option-cases,
  Bool-cases, inl, inr,
}
use signoz_mcp_server.Oauth.Crypto.{
  Bytes, BlobType, access_token, client_id, authorization_code, refresh_token, blob_byte, Gcm,
  Codec, Primitives, Result, ok, error, TokenError, invalid_token, token_key, open_raw,
  decrypt_raw_token, read_plaintext, decrypt_typed_blob,
}

-- GCM opens what it sealed, and nothing else: the tag of a text is one for each nonce and text.
pub record IsAead (gcm : Gcm) : Type 0 where
  pub opens :
      (nonce plaintext : Bytes)
      → length nonce ≡ gcm.nonce_size
      → gcm.open_sealed nonce (gcm.seal nonce plaintext) ≡ some plaintext
  pub authentic :
      (nonce ciphertext plaintext : Bytes)
      → gcm.open_sealed nonce ciphertext ≡ some plaintext
      → ciphertext ≡ gcm.seal nonce plaintext

abbrev pub ReadsBack : {A : Type 0} → Codec A → Type 0
ReadsBack {A} codec =
    (a : A) (json : Bytes) → codec.marshal a ≡ some json → codec.unmarshal json ≡ some a

pub record IsSound (p : Primitives) : Type 0 where
  pub base64 : (raw : Bytes) → p.decode_base64 (p.encode_base64 raw) ≡ some raw
  pub aead : (key : Bytes) (gcm : Gcm) → p.new_gcm key ≡ some gcm → IsAead gcm
  pub token : ReadsBack p.token
  pub client_id : ReadsBack p.client_id
  pub authorization_code : ReadsBack p.authorization_code
  pub refresh_token : ReadsBack p.refresh_token

-- rand.Read fills the whole slice.
abbrev pub Fills : (ℕ → Option Bytes) → Type 0
Fills random = (n : ℕ) (bytes : Bytes) → random n ≡ some bytes → length bytes ≡ n

take-append : (xs ys : Bytes) → take (length xs) (xs ++ ys) ≡ xs
take-append [] ys = refl
take-append (x ∷ xs) ys = ap (λ l. x ∷ l) (take-append xs ys)

drop-append : (xs ys : Bytes) → drop (length xs) (xs ++ ys) ≡ ys
drop-append [] ys = refl
drop-append (x ∷ xs) ys = drop-append xs ys

pub open_raw-seal :
    (p : Primitives) (gcm : Gcm) (nonce plaintext : Bytes)
    → IsAead gcm
    → length nonce ≡ gcm.nonce_size
    → open_raw p gcm (nonce ++ gcm.seal nonce plaintext) ≡ ok plaintext
unfolding open_raw
open_raw-seal p gcm nonce plaintext aead size =
    let sealed = gcm.seal nonce plaintext in
    let long : ltb (length (nonce ++ sealed)) (length nonce) ≡ false =
      ground (arith, length-append nonce sealed) in
    rw
      (
        sym size,
        long,
        take-append nonce sealed,
        drop-append nonce sealed,
        aead.opens nonce plaintext size,
      )
      refl

pub Result-cases :
    {A : Type 0} (r : Result A) → ((e : TokenError) × (r ≡ error e)) ⊎ ((a : A) × (r ≡ ok a))
Result-cases (ok a) = inr (a, refl)
Result-cases (error e) = inl (e, refl)

pub read_plaintext_lem :
    {A : Type 0} (p : Primitives) (codec : Codec A) (blob_type : BlobType) (payload : A)
    (json : Bytes)
    → codec.unmarshal json ≡ some payload
    → read_plaintext p codec blob_type (blob_byte blob_type ∷ json) ≡ ok payload
unfolding read_plaintext
read_plaintext_lem p codec blob_type payload json h =
    let same : eqb (blob_byte blob_type) (blob_byte blob_type) ≡ true = ground arith in
    rw (same, h) refl

of_byte : ℕ → Option BlobType
of_byte n =
    if eqb n 1
    then some access_token
    else if eqb n 2
    then some client_id
    else if eqb n 3
    then some authorization_code
    else if eqb n 4
    then some refresh_token
    else none

of_byte-blob_byte : (t : BlobType) → of_byte (blob_byte t) ≡ some t
unfolding of_byte
of_byte-blob_byte access_token = refl
of_byte-blob_byte client_id = refl
of_byte-blob_byte authorization_code = refl
of_byte-blob_byte refresh_token = refl

blob_byte_injective : (t u : BlobType) → blob_byte t ≡ blob_byte u → t ≡ u
blob_byte_injective t u h =
    let both : some t ≡ some u = sym (of_byte-blob_byte t) ∙ ap of_byte h ∙ of_byte-blob_byte u in
    cc

pub read_plaintext_other :
    {A : Type 0} (p : Primitives) (codec : Codec A) (blob_type other_type : BlobType) (json : Bytes)
    → blob_type ≢ other_type
    → read_plaintext p codec other_type (blob_byte blob_type ∷ json) ≡ error invalid_token
unfolding read_plaintext
read_plaintext_other p codec blob_type other_type json differ =
    elim (Bool-cases (eqb (blob_byte blob_type) (blob_byte other_type))) [
      | inl same ↦ absurd (differ (blob_byte_injective blob_type other_type (ground arith)))
      | inr apart ↦ rw apart refl
    ]

-- What a plaintext that reads as a payload is.
pub read_plaintext_inv :
    {A : Type 0} (p : Primitives) (codec : Codec A) (blob_type : BlobType) (plaintext : Bytes)
    (payload : A)
    → read_plaintext p codec blob_type plaintext ≡ ok payload
    → (json : Bytes) × (plaintext ≡ blob_byte blob_type ∷ json)
      × (codec.unmarshal json ≡ some payload)
unfolding read_plaintext
read_plaintext_inv p codec blob_type [] payload h = absurd cc
read_plaintext_inv p codec blob_type (byte ∷ json) payload h = (json, ground arith, ground arith)

-- What raw bytes that open are.
pub open_raw_inv :
    (p : Primitives) (gcm : Gcm) (raw plaintext : Bytes)
    → IsAead gcm
    → open_raw p gcm raw ≡ ok plaintext
    → raw ≡ take gcm.nonce_size raw ++ gcm.seal (take gcm.nonce_size raw) plaintext
unfolding open_raw
open_raw_inv p gcm raw plaintext aead h =
    let opened : gcm.open_sealed (take gcm.nonce_size raw) (drop gcm.nonce_size raw)
        ≡ some plaintext =
      ground arith in
    sym (take-append-drop gcm.nonce_size raw)
    ∙ ap (λ l. take gcm.nonce_size raw ++ l) (aead.authentic _ _ plaintext opened)

pub decrypt_raw_token_inv :
    (p : Primitives) (token : String) (secret plaintext : Bytes)
    → decrypt_raw_token p token secret ≡ ok plaintext
    → (gcm : Gcm) × (raw : Bytes) × (p.new_gcm (token_key p secret) ≡ some gcm)
      × (p.decode_base64 token ≡ some raw)
      × (open_raw p gcm raw ≡ ok plaintext)
unfolding decrypt_raw_token
decrypt_raw_token_inv p token secret plaintext h = elim (Option-cases (p.decode_base64 token)) [
  | inl missing ↦ absurd (ground arith)
  | inr (raw, decoded) ↦ elim (Option-cases (p.new_gcm (token_key p secret))) [
    | inl missing ↦ absurd (ground arith)
    | inr (gcm, key) ↦ (gcm, raw, key, decoded, ground arith)
  ]
]

pub decrypt_typed_blob_inv :
    {A : Type 0} (p : Primitives) (codec : Codec A) (blob_type : BlobType) (token : String)
    (secret : Bytes) (payload : A)
    → decrypt_typed_blob p codec token blob_type secret ≡ ok payload
    → (plaintext : Bytes) × (decrypt_raw_token p token secret ≡ ok plaintext)
      × (read_plaintext p codec blob_type plaintext ≡ ok payload)
unfolding decrypt_typed_blob
decrypt_typed_blob_inv p codec blob_type token secret payload h =
    elim (Result-cases (decrypt_raw_token p token secret)) [
      | inl (e, refused) ↦ absurd (ground arith)
      | inr (plaintext, opened) ↦ (plaintext, opened, ground arith)
    ]
