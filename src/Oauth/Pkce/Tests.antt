-- ===== src/Oauth/Pkce/Tests.antt =====
-- The PKCE check on a verifier of 43 bytes, with the functions of the samples.
use signoz_mcp_server.Base.{◌≤◌, String, ◌≡◌, ◌≢◌, ◌↔◌, true, length, bytes_of}
use signoz_mcp_server.Oauth.Crypto.Samples.{sample}
use signoz_mcp_server.Oauth.Pkce.{validate_pkce, challenge_of, validate_pkce_iff}

abbrev verifier : String
verifier = "0123456789012345678901234567890123456789012"

validate_pkce_iff_example :
    (validate_pkce sample verifier (challenge_of sample verifier) "S256" ≡ true) ↔ (
      (◌≡◌ {A = String} "S256" "S256")
      × (43 ≤ length (bytes_of verifier))
      × (length (bytes_of verifier) ≤ 128)
      × (challenge_of sample verifier ≢ "")
      × (bytes_of (challenge_of sample verifier) ≡ bytes_of (challenge_of sample verifier)))
validate_pkce_iff_example = validate_pkce_iff sample verifier (challenge_of sample verifier) "S256"
