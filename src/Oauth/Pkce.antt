-- ===== src/Oauth/Pkce.antt =====
-- internal/oauth/pkce.go, with the functions of crypto/sha256 and encoding/base64 that crypto.go
-- calls as well. A length is a number of bytes.
mod Tests
use signoz_mcp_server.Base.{
  ℕ, ◌≤◌, String, ◌≡◌, ◌≢◌, ◌↔◌, refl, Bool, true, false, not, ◌&&◌, ◌||◌, List, [], ◌∷◌, length,
  ltb, eqb, ◌==◌, eq_iff, eq_refl, arith, if◌then◌else◌, bytes_of, inl, inr, Bool-cases, ap,
}
use signoz_mcp_server.Oauth.Crypto.{Bytes, Primitives}

-- subtle.ConstantTimeCompare, as a test
same_bytes : Bytes → Bytes → Bool
same_bytes [] [] = true
same_bytes (a ∷ xs) (b ∷ ys) = eqb a b && same_bytes xs ys
same_bytes _ _ = false

same_bytes_iff : (xs ys : Bytes) → (same_bytes xs ys ≡ true) ↔ (xs ≡ ys)
unfolding same_bytes
same_bytes_iff [] [] = (λ h. refl, λ h. refl)
same_bytes_iff [] (y ∷ ys) = (λ h. absurd cc, λ h. absurd cc)
same_bytes_iff (x ∷ xs) [] = (λ h. absurd cc, λ h. absurd cc)
same_bytes_iff (x ∷ xs) (y ∷ ys) =
    (λ h. ground (arith, same_bytes_iff xs ys), λ h. ground (arith, same_bytes_iff xs ys))

module _ (p : Primitives) where
  -- The challenge of a verifier.
  unfoldable pub challenge_of : (code_verifier : String) → String
  challenge_of code_verifier = p.encode_base64 (p.sha256 (bytes_of code_verifier))

  unfoldable pub validate_pkce : (code_verifier code_challenge method : String) → Bool
  unfolding same_bytes challenge_of
  validate_pkce code_verifier code_challenge method =
      if not (method == "S256") || code_verifier == "" || code_challenge == ""
      then false
      else if ltb (length (bytes_of code_verifier)) 43 || ltb 128 (length (bytes_of code_verifier))
      then false
      else same_bytes (bytes_of (challenge_of code_verifier)) (bytes_of code_challenge)

  -- A verifier is accepted exactly with the method S256, with 43 to 128 bytes, and against a
  -- challenge that is not empty and has the bytes of the verifier's own challenge.
  pub validate_pkce_iff :
      (code_verifier code_challenge method : String)
      → (validate_pkce code_verifier code_challenge method ≡ true) ↔ (
          (method ≡ "S256")
          × (43 ≤ length (bytes_of code_verifier))
          × (length (bytes_of code_verifier) ≤ 128)
          × (code_challenge ≢ "")
          × (bytes_of (challenge_of code_verifier) ≡ bytes_of code_challenge))
  unfolding validate_pkce bytes_of
  validate_pkce_iff code_verifier code_challenge method =
      let is_s256 = eq_iff method "S256" in
      let is_empty = eq_iff code_challenge "" in
      let no_verifier : (code_verifier == "") ≡ true → length (bytes_of code_verifier) ≡ 0 =
        (λ h. ap (λ s. length (bytes_of s)) ((eq_iff code_verifier "").0 h)) in
      let same = same_bytes_iff (bytes_of (challenge_of code_verifier)) (bytes_of code_challenge) in
      (λ h. ground arith, λ h. ground arith)
