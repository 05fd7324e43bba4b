-- ===== src/Client/Operations/Tests.antt =====
-- The theorems on the operations at the creation of a view and at an id with a slash.
use signoz_mcp_server.Base.{ℕ, suc, ◌≤◌, ◌≡◌, refl, true, false, some, [], ◌∷◌, utf8, map, bytes_of}
use signoz_mcp_server.Base.Any.{Any}
use signoz_mcp_server.Base.Query.{path_escape}
use signoz_mcp_server.Client.{SigNoz, Bytes}
use signoz_mcp_server.Client.Retry.{Network, response}
use signoz_mcp_server.Client.Retry.Attempts.{replicate}
use signoz_mcp_server.Client.Operations.{call_of, send, create_view, get_dashboard}
use signoz_mcp_server.Client.Operations.Replays.{
  is_creating, method_of, operation_request, send-repeats,
}
use signoz_mcp_server.Client.Operations.Routes.{route, call_of-routed}
use signoz_mcp_server.Client.Operations.Segments.{segments_of}

abbrev marshal : Any → Bytes
marshal v = []

abbrev client : SigNoz
client = record {
  base_url = "https://a.b";
  api_key = "key";
  auth_header_name = "SIGNOZ-API-KEY";
  custom_headers = [];
}

-- An instance that is never available.
abbrev down : Network
down = record {
  creates = λ method url. true;
  reply = λ attempt request. response 503 (some []);
  aborted = λ attempt. false;
}

send-repeats_example :
    (n : ℕ) × (n ≤ 2)
    × ((send marshal "1.2" down client (create_view (7 ∷ []))).sent
        ≡ replicate (suc n) (operation_request marshal "1.2" down client (create_view (7 ∷ []))))
    × (is_creating (create_view (7 ∷ [])) ≡ true → n ≡ 0)
send-repeats_example = send-repeats marshal "1.2" down client (create_view (7 ∷ [])) refl

call_of-routed_example :
    (method_of (call_of marshal (get_dashboard "a/../b?")).sending ≡ "GET")
    × (segments_of (call_of marshal (get_dashboard "a/../b?")).path
        ≡ map bytes_of ("" ∷ "api" ∷ "v1" ∷ "dashboards" ∷ "a/../b?" ∷ []))
unfolding route
call_of-routed_example = call_of-routed marshal (get_dashboard "a/../b?")

id_escaped : (call_of marshal (get_dashboard "a/b?")).path ≡ "/api/v1/dashboards/a%2Fb%3F"
unfolding call_of path_escape utf8
id_escaped = refl
