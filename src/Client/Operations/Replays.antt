-- ===== src/Client/Operations/Replays.antt =====
-- How often an operation may be sent.
use signoz_mcp_server.Base.{ℕ, suc, ◌≤◌, String, ◌≡◌, refl, ap, Bool, true, false, Option, ◌<>◌}
use signoz_mcp_server.Base.Any.{Any}
use signoz_mcp_server.Client.{SigNoz, Bytes}
use signoz_mcp_server.Client.Retry.{
  Network, Request, request_of, do_replay_safe_post, is_replay_safe_method,
}
use signoz_mcp_server.Client.Retry.Attempts.{replicate, do_request-sends, attempts-IsRetried}
use signoz_mcp_server.Client.Operations.{
  Operation, create_alert_rule, create_view, create_dashboard, create_notification_channel,
  test_notification_channel, Sending, by_method, replay_safe_post, call_of, send_call, send,
}

-- An operation that makes something new, or sends a notification: its repetition is not harmless.
pub is_creating : Operation → Bool
is_creating (create_alert_rule json) = true
is_creating (create_view json) = true
is_creating (create_dashboard json) = true
is_creating (create_notification_channel json) = true
is_creating (test_notification_channel json) = true
is_creating op = false

unfoldable pub method_of : Sending → String
method_of (by_method method) = method
method_of replay_safe_post = "POST"

module _ (marshal : Any → Bytes) (version : String) (net : Network) (s : SigNoz) where
  -- The request that an operation sends.
  pub operation_request : Operation → Request
  operation_request op =
      request_of version net s (method_of (call_of marshal op).sending)
        (s.base_url <> (call_of marshal op).path) (call_of marshal op).body

  call_sends :
      (sending : Sending) (path : String) (body : Option Bytes)
      → net.creates (method_of sending) (s.base_url <> path) ≡ true
      → (n : ℕ) × (n ≤ 2)
        × ((send_call marshal version net s
              (record { sending = sending; path = path; body = body })).sent
            ≡ replicate
                (suc n)
                (request_of version net s (method_of sending) (s.base_url <> path) body))
        × (sending ≡ by_method "POST" → n ≡ 0)
  unfolding send_call method_of do_replay_safe_post is_replay_safe_method
  call_sends (by_method method) path body created =
      let (n, bound, sent, waited, once) =
        do_request-sends version net s method (s.base_url <> path) body created in
      (n, bound, sent, λ post. once (let name : method ≡ "POST" = ap method_of post in rw name))
  call_sends replay_safe_post path body created =
      let (n, bound, sent, waited) =
        attempts-IsRetried net (request_of version net s "POST" (s.base_url <> path) body) created 2
          0 100 in
      (n, bound, sent, λ post. absurd cc)

  creating-post :
      (op : Operation) → is_creating op ≡ true → (call_of marshal op).sending ≡ by_method "POST"
  unfolding is_creating call_of
  creating-post (create_alert_rule json) h = refl
  creating-post (create_view json) h = refl
  creating-post (create_dashboard json) h = refl
  creating-post (create_notification_channel json) h = refl
  creating-post (test_notification_channel json) h = refl
  creating-post op h = absurd cc

  -- An operation whose request can be built sends that request at least once and at most three
  -- times, and one that creates something or sends a test notification sends it only once.
  pub send-repeats :
      (op : Operation)
      → net.creates (operation_request op).method (operation_request op).url ≡ true
      → (n : ℕ) × (n ≤ 2)
        × ((send marshal version net s op).sent ≡ replicate (suc n) (operation_request op))
        × (is_creating op ≡ true → n ≡ 0)
  unfolding send operation_request
  send-repeats op created =
      let call = call_of marshal op in
      let (n, bound, sent, once) = call_sends call.sending call.path call.body created in
      (n, bound, sent, λ h. once (creating-post op h))
