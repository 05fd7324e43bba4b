-- ===== src/Client/Tests.antt =====
-- The theorems on the client at an instance that fails once, and at one with a service account.
use signoz_mcp_server.Base.{
  ℕ, suc, String, ◌≡◌, ◌≤◌, ◌↔◌, ◌⊎◌, refl, true, false, Option, none, some, [], ◌∷◌, All, map, eqb,
  if◌then◌else◌, arith, trim_space,
}
use signoz_mcp_server.Base.Fold.{equal_fold}
use signoz_mcp_server.Client.{
  SigNoz, Bytes, content_type, user_agent, canonical_header_key, get_key, set_key, set_header,
  user_agent_of, set_request_headers,
}
use signoz_mcp_server.Client.Headers.{set_request_headers-fixed, IsAgent}
use signoz_mcp_server.Client.Retry.{
  Network, RequestError, response, request_of, do_request, attempts, max_response_bytes, received,
  is_replay_safe_method,
}
use signoz_mcp_server.Client.Retry.Attempts.{replicate, backoff, do_request-sends}
use signoz_mcp_server.Client.Retry.Answers.{IsAnswered, do_request_received_iff}
use signoz_mcp_server.Client.Validation.{
  answered, lost, do_validation_request, validate_credentials, unauthorized, instance_not_found,
  unreachable, is_html_body,
}
use signoz_mcp_server.Client.Validation.Verdicts.{IsFinal, validate_credentials_iff}
use signoz_mcp_server.Client.Identity.{
  AnalyticsIdentity, IdentityData, identified, Call, get_analytics_identity, get_identities,
  fetch_analytics_identity, parse_analytics_identity,
}
use signoz_mcp_server.Client.Identity.Cached.{sum, get_identities-burst}

abbrev client : SigNoz
client = record {
  base_url = "https://a.b";
  api_key = "key";
  auth_header_name = "SIGNOZ-API-KEY";
  custom_headers = ("signoz-api-key", "other") ∷ ("user-agent", " proxy ") ∷ ("X-Team", "a") ∷ [];
}

key-not-type : equal_fold client.auth_header_name content_type ≡ false
unfolding equal_fold
key-not-type = refl

key-not-agent : equal_fold client.auth_header_name user_agent ≡ false
unfolding equal_fold
key-not-agent = refl

set_request_headers-fixed_example :
    (get_key (canonical_header_key client.auth_header_name) (set_request_headers "1.2" client)
      ≡ some "key")
    × (get_key (canonical_header_key content_type) (set_request_headers "1.2" client)
        ≡ some "application/json")
    × (agent : String) × (get_key
          (canonical_header_key user_agent)
          (set_request_headers "1.2" client)
        ≡ some agent)
    × IsAgent "1.2" client agent
set_request_headers-fixed_example =
    set_request_headers-fixed "1.2" client key-not-type key-not-agent

-- The team's header is sent as well.
team_header : get_key (canonical_header_key "x-team") (set_request_headers "1.2" client) ≡ some "a"
unfolding set_request_headers set_header canonical_header_key set_key get_key equal_fold
    user_agent_of trim_space
team_header = refl

-- 503 at first, then a body of one byte.
abbrev flaky : Network
flaky = record {
  creates = λ method url. true;
  reply = λ attempt request.
      (if eqb attempt 0 then response 503 (some []) else response 200 (some (7 ∷ [])));
  aborted = λ attempt. false;
}

abbrev list_url : String
list_url = "https://a.b/api/v2/rules"

do_request-sends_example :
    (n : ℕ) × (n ≤ 2)
    × ((do_request "1.2" flaky client "GET" list_url none).sent
        ≡ replicate (suc n) (request_of "1.2" flaky client "GET" list_url none))
    × ((do_request "1.2" flaky client "GET" list_url none).waited ≡ backoff 100 n)
    × (is_replay_safe_method "GET" ≡ false → n ≡ 0)
do_request-sends_example = do_request-sends "1.2" flaky client "GET" list_url none refl

do_request_received_iff_example :
    ((do_request "1.2" flaky client "GET" list_url none).outcome ≡ received (7 ∷ []))
    ↔ IsAnswered flaky
        (request_of "1.2" flaky client "GET" list_url none)
        (if is_replay_safe_method "GET" then 2 else 0)
        0
        (7 ∷ [])
do_request_received_iff_example =
    do_request_received_iff "1.2" flaky client "GET" list_url none (7 ∷ []) refl

get_retried :
    ((do_request "1.2" flaky client "GET" list_url none).outcome ≡ received (7 ∷ []))
    × ((do_request "1.2" flaky client "GET" list_url none).waited ≡ 100 ∷ [])
unfolding do_request attempts max_response_bytes
get_retried = (refl, refl)

validate_credentials_iff_example :
    ((validate_credentials "1.2" flaky client ≡ none)
      ↔ ((body : Bytes) × IsFinal "1.2" flaky client (answered 200 body)))
    × ((status : ℕ)
        → (validate_credentials "1.2" flaky client ≡ some (unauthorized status)) ↔ (
            (body : Bytes) × IsFinal "1.2" flaky client (answered status body)
            × ((status ≡ 401) ⊎ (status ≡ 403))))
    × ((status : ℕ)
        → (validate_credentials "1.2" flaky client ≡ some (instance_not_found status)) ↔ (
            (body : Bytes) × IsFinal "1.2" flaky client (answered status body)
            × (status ≡ 404)
            × (is_html_body body ≡ true)))
    × ((error : RequestError)
        → (validate_credentials "1.2" flaky client ≡ some (unreachable error))
          ↔ IsFinal "1.2" flaky client (lost error))
validate_credentials_iff_example = validate_credentials_iff "1.2" flaky client

abbrev who : AnalyticsIdentity
who = record { org_id = "o"; user_id = "u"; name = "n"; email = "e"; principal = "service_account" }

abbrev unmarshal : Bytes → Option IdentityData
unmarshal body = some record { id = "u"; email = "e"; org_id = "o"; name = ""; display_name = "n" }

abbrev steady : Network
steady = record {
  creates = λ method url. true;
  reply = λ attempt request. response 200 (some (7 ∷ []));
  aborted = λ attempt. false;
}

abbrev at : ℕ → Call
at time = record { now = time; stored = time; net = steady }

first_call :
    ((get_analytics_identity unmarshal "1.2" client none (at 5)).result ≡ identified who)
    × ((get_analytics_identity unmarshal "1.2" client none (at 5)).cache
        ≡ some record { identity = who; cached_at = 5 })
unfolding get_analytics_identity fetch_analytics_identity parse_analytics_identity
    do_validation_request equal_fold
first_call = (refl, refl)

get_identities-burst_example :
    All
      (λ r. r.result ≡ identified who)
      (get_identities unmarshal "1.2" client none (at 5 ∷ at 9 ∷ []))
    × (sum (map (λ r. r.fetches) (get_identities unmarshal "1.2" client none (at 5 ∷ at 9 ∷ [])))
        ≡ 1)
    × (sum (
          map
            (λ r. r.fetches)
            (get_identities unmarshal "1.2" client none (at 5 ∷ at 9 ∷ at 600000000005 ∷ [])))
        ≡ 2)
get_identities-burst_example =
    get_identities-burst unmarshal "1.2" client none (at 5) (at 9 ∷ []) (at 600000000005) who tt
      first_call.0 (omega arith, tt) (omega arith)
