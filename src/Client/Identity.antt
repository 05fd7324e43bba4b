-- ===== src/Client/Identity.antt =====
-- internal/client/client.go: the identity for analytics and its cache. encoding/json is an argument,
-- which gives the `data` of a response. The clock is monotonic and counts nanoseconds. The mutex
-- makes the calls of one client a sequence.
pub mod Cached
use signoz_mcp_server.Base.{
  ℕ, ◌+◌, ◌*◌, String, Bool, Option, none, some, List, [], ◌∷◌, ◌++◌, ltb, eqb, ◌==◌, ◌<>◌,
  if◌then◌else◌,
}
use signoz_mcp_server.Base.Fold.{equal_fold}
use signoz_mcp_server.Client.{SigNoz, Bytes}
use signoz_mcp_server.Client.Retry.{RequestError, Network}
use signoz_mcp_server.Client.Validation.{
  Answer, answered, lost, ValidationError, evaluate_validation_response, do_validation_request,
}

pub record AnalyticsIdentity : Type 0 where
  pub org_id : String
  pub user_id : String
  pub name : String
  pub email : String
  pub principal : String

-- analyticsIdentityResponse.Data
pub record IdentityData : Type 0 where
  pub id : String
  pub email : String
  pub org_id : String
  pub name : String
  pub display_name : String

pub data IdentityError : Type 0 where
  malformed_response id_missing org_id_missing : IdentityError
  unreachable_api : RequestError → IdentityError
  rejected : ValidationError → IdentityError

-- `nothing` is a nil identity with a nil error.
pub data IdentityResult : Type 0 where
  identified : AnalyticsIdentity → IdentityResult
  unidentified : IdentityError → IdentityResult
  nothing : IdentityResult

-- 10 minutes
unfoldable pub analytics_identity_cache_ttl : ℕ
analytics_identity_cache_ttl = 600000000000

-- cachedIdentity and identityCachedAt
pub record CachedIdentity : Type 0 where
  pub identity : AnalyticsIdentity
  pub cached_at : ℕ

-- One call: the time at which it reads the cache, the time at which it stores, and the network.
pub record Call : Type 0 where
  pub now : ℕ
  pub stored : ℕ
  pub net : Network

-- The cache after a call, the result, and the number of fetches.
pub record CallResult : Type 0 where
  pub cache : Option CachedIdentity
  pub result : IdentityResult
  pub fetches : ℕ

module _ (unmarshal : Bytes → Option IdentityData) where
  pub identity_of : IdentityData → (principal : String) → IdentityResult
  identity_of resp principal =
      if resp.id == ""
      then unidentified id_missing
      else if resp.org_id == ""
      then unidentified org_id_missing
      else identified record {
        org_id = resp.org_id;
        user_id = resp.id;
        name = (if resp.name == "" then resp.display_name else resp.name);
        email = resp.email;
        principal = principal;
      }

  unfoldable pub parse_analytics_identity : (body : Bytes) (principal : String) → IdentityResult
  unfolding identity_of
  parse_analytics_identity body principal = elim (unmarshal body) [
    | none ↦ unidentified malformed_response
    | some resp ↦ identity_of resp principal
  ]

  module _ (version : String) (s : SigNoz) where
    abbrev pub is_auth_token : Bool
    is_auth_token = equal_fold s.auth_header_name "Authorization"

    abbrev pub identity_endpoint : String
    identity_endpoint = if is_auth_token then "/api/v2/users/me" else "/api/v1/service_accounts/me"

    abbrev pub identity_principal : String
    identity_principal = if is_auth_token then "user" else "service_account"

    pub failed_status : (status : ℕ) (body : Bytes) → IdentityResult
    failed_status status body = elim (evaluate_validation_response status body) [
      | none ↦ nothing
      | some e ↦ unidentified (rejected e)
    ]

    unfoldable pub fetch_analytics_identity : Network → IdentityResult
    unfolding failed_status
    fetch_analytics_identity net =
        elim (do_validation_request version net s 0 (s.base_url <> identity_endpoint)) [
          | lost e ↦ unidentified (unreachable_api e)
          | answered status body ↦
              if eqb status 200
              then parse_analytics_identity body identity_principal
              else failed_status status body
        ]

    unfoldable pub refresh : Option CachedIdentity → Call → CallResult
    refresh cache call = elim (fetch_analytics_identity call.net) [
      | identified identity ↦ record {
        cache = some record { identity = identity; cached_at = call.stored };
        result = identified identity;
        fetches = 1;
      }
      | nothing ↦ record { cache = none; result = nothing; fetches = 1 }
      | unidentified e ↦ record { cache = cache; result = unidentified e; fetches = 1 }
    ]

    unfoldable pub get_analytics_identity : Option CachedIdentity → Call → CallResult
    unfolding refresh
    get_analytics_identity none call = refresh none call
    get_analytics_identity (some cached) call =
        if ltb call.now (cached.cached_at + analytics_identity_cache_ttl)
        then record { cache = some cached; result = identified cached.identity; fetches = 0 }
        else refresh (some cached) call

    -- The results of a sequence of calls.
    unfoldable pub get_identities : Option CachedIdentity → List Call → List CallResult
    get_identities cache [] = []
    get_identities cache (call ∷ calls) =
        let r = get_analytics_identity cache call in r ∷ get_identities r.cache calls
