-- ===== src/Client/Retry/Answers.antt =====
-- When a call of the client returns a response: the answer of the first attempt that does not fail
-- for the time being.
use signoz_mcp_server.Client.{SigNoz, Bytes}
use signoz_mcp_server.Client.Retry.{
  Request, Network, Reply, transport_error, response, finish, again, after_reply, one_attempt,
  attempts, request_of, do_request, is_replay_safe_method, retry_multiply, is_retryable_status,
  read_body, max_response_bytes, received, RequestError, Outcome, http_status, request_failed,
}
use mathlib.Core.Path.{subst}
use signoz_mcp_server.Client.Retry.Attempts.{Step-cases, after_reply_last}
use signoz_mcp_server.Base.{
  ℕ, zero, suc, ◌+◌, ◌*◌, ◌≤◌, ◌<◌, String, ◌≡◌, ◌↔◌, ap, ◌∙◌, Bool, true, false, Option, none,
  some, length, take_all, length-take, if◌then◌else◌, arith, Bool-cases, inl, inr,
}

-- A response that the client returns: a 2xx status and a body within the limit.
abbrev pub IsAnswer : Reply → Bytes → Type 0
IsAnswer (transport_error cancelled) result = ⊥
IsAnswer (response status none) result = ⊥
IsAnswer (response status (some body)) result =
    (200 ≤ status) × (status < 300) × (length body ≤ max_response_bytes) × (result ≡ body)

-- A failure that is tried again: an error of the transport in a live context, or one of four
-- statuses with a body within the limit.
abbrev pub IsTransient : Reply → Type 0
IsTransient (transport_error cancelled) = cancelled ≡ false
IsTransient (response status none) = ⊥
IsTransient (response status (some body)) =
    (length body ≤ max_response_bytes) × (is_retryable_status status ≡ true)

read_body_all : (body : Bytes) → length body ≤ max_response_bytes → read_body body ≡ body
unfolding read_body
read_body_all body h = take_all (max_response_bytes + 1) body (omega arith)

length-read_body :
    (body : Bytes) → length (read_body body) ≤ max_response_bytes → length body ≤ max_response_bytes
unfolding read_body
length-read_body body h = ground (arith, length-take (max_response_bytes + 1) body)

after_reply-answer :
    (last : Bool) (reply : Reply) (result : Bytes)
    → IsAnswer reply result
    → after_reply last reply ≡ finish (received result)
unfolding after_reply
after_reply-answer last (transport_error cancelled) result h = absurd h
after_reply-answer last (response status none) result h = absurd h
after_reply-answer last (response status (some body)) result h =
    ground (arith, read_body_all body, h)

IsAnswer-after_reply :
    (last : Bool) (reply : Reply) (result : Bytes)
    → after_reply last reply ≡ finish (received result)
    → IsAnswer reply result
unfolding after_reply
IsAnswer-after_reply last (transport_error cancelled) result h = ground arith
IsAnswer-after_reply last (response status none) result h = cc
IsAnswer-after_reply last (response status (some body)) result h =
    ground (arith, read_body_all body, length-read_body body)

after_reply-transient :
    (reply : Reply) → IsTransient reply → (e : RequestError) × (after_reply false reply ≡ again e)
unfolding after_reply is_retryable_status
after_reply-transient (transport_error cancelled) h = (request_failed, ground arith)
after_reply-transient (response status none) h = absurd h
after_reply-transient (response status (some body)) h =
    (http_status status (read_body body), ground (arith, read_body_all body, h))

IsTransient-after_reply :
    (last : Bool) (reply : Reply) (e : RequestError)
    → after_reply last reply ≡ again e
    → IsTransient reply
unfolding after_reply is_retryable_status
IsTransient-after_reply last (transport_error cancelled) e h = ground arith
IsTransient-after_reply last (response status none) e h = cc
IsTransient-after_reply last (response status (some body)) e h =
    ground (arith, read_body_all body, length-read_body body)

module _ (net : Network) (request : Request) where
  -- An attempt that fails for the time being, and whose wait is not cut short.
  abbrev pub IsPassed : (attempt : ℕ) → Type 0
  IsPassed attempt = IsTransient (net.reply attempt request) × (net.aborted attempt ≡ false)

  abbrev pub IsAnsweredAt : (attempt : ℕ) → Bytes → Type 0
  IsAnsweredAt attempt result = IsAnswer (net.reply attempt request) result

  -- The first k attempts fail for the time being and are waited out, and the next is answered.
  abbrev pub IsAnswered : (left attempt : ℕ) → Bytes → Type 0
  IsAnswered left attempt result =
      (k : ℕ) × (k ≤ left)
      × ((i : ℕ) → i < k → IsPassed (attempt + i))
      × IsAnsweredAt (attempt + k) result

  IsAnswered-later :
      (left attempt : ℕ) (result : Bytes)
      → IsPassed attempt
      → IsAnswered left (attempt + 1) result
      → IsAnswered (suc left) attempt result
  IsAnswered-later left attempt result passed (k, bound, before, answer) =
      (suc k, omega arith, earlier, subst (λ n. IsAnsweredAt n result) (omega arith) answer)
    where
      earlier : (i : ℕ) → i < suc k → IsPassed (attempt + i)
      earlier zero h = subst IsPassed (omega arith) passed
      earlier (suc i) h = subst IsPassed (omega arith) (before i (omega arith))

  module _ (created : net.creates request.method request.url ≡ true) where
    attempts-answered :
        (left attempt wait : ℕ) (result : Bytes)
        → IsAnswered left attempt result
        → (attempts net request left attempt wait).outcome ≡ received result
    unfolding attempts one_attempt
    attempts-answered zero attempt wait result (k, bound, before, answer) =
        let e =
          after_reply-answer true (net.reply attempt request) result
            (subst (λ n. IsAnsweredAt n result) (omega arith) answer) in
        rw (created, e)
    attempts-answered (suc left) attempt wait result (zero, bound, before, answer) =
        let e =
          after_reply-answer false (net.reply attempt request) result
            (subst (λ n. IsAnsweredAt n result) (omega arith) answer) in
        rw (created, e)
    attempts-answered (suc left) attempt wait result (suc k, bound, before, answer) =
        let first = subst IsPassed (omega arith) (before 0 (omega arith)) in
        let (e, tried) = after_reply-transient (net.reply attempt request) first.0 in
        rw (created, tried, first.1)
          (attempts-answered left (attempt + 1) (wait * retry_multiply) result (
            k,
            omega arith,
            λ i h. subst IsPassed (omega arith) (before (suc i) (omega arith)),
            subst (λ n. IsAnsweredAt n result) (omega arith) answer,
          ))

    IsAnswered-first :
        (last : Bool) (left attempt : ℕ) (o : Outcome) (result : Bytes)
        → after_reply last (net.reply attempt request) ≡ finish o
        → o ≡ received result
        → IsAnswered left attempt result
    IsAnswered-first last left attempt o result e same = (
      0,
      omega arith,
      λ i below. absurd (omega arith),
      subst (λ n. IsAnsweredAt n result) (omega arith)
          (IsAnswer-after_reply last (net.reply attempt request) result (e ∙ ap finish same)),
    )

    IsAnswered-attempts :
        (left attempt wait : ℕ) (result : Bytes)
        → (attempts net request left attempt wait).outcome ≡ received result
        → IsAnswered left attempt result
    unfolding attempts one_attempt
    IsAnswered-attempts zero attempt wait result h =
        elim (Step-cases (after_reply true (net.reply attempt request))) [
          | inl (o, e) ↦ IsAnswered-first true 0 attempt o result e (ground arith)
          | inr (x, e) ↦ absurd (after_reply_last (net.reply attempt request) x e)
        ]
    IsAnswered-attempts (suc left) attempt wait result h =
        elim (Step-cases (after_reply false (net.reply attempt request))) [
          | inl (o, e) ↦ IsAnswered-first false (suc left) attempt o result e (ground arith)
          | inr (x, e) ↦ elim (Bool-cases (net.aborted attempt)) [
            | inl ended ↦ absurd (ground arith)
            | inr waits ↦
                IsAnswered-later left attempt result
                  (IsTransient-after_reply false (net.reply attempt request) x e, waits)
                  (IsAnswered-attempts left (attempt + 1) (wait * retry_multiply) result
                    (ground arith))
          ]
        ]

module _ (version : String) (net : Network) (s : SigNoz) (method url : String) (body : Option Bytes)
    (result : Bytes) (created : net.creates method url ≡ true) where
  -- A call whose request can be built returns a body exactly if one of its attempts is answered
  -- with a 2xx status and that body, of at most 64 MiB, and every attempt before it failed for the
  -- time being: by an error of the transport while the context was live, or by a status 429, 502,
  -- 503 or 504 with a body within the limit, and the wait after it was not cut short. The attempts
  -- are the first three for GET, PUT and DELETE and the first one for any other method.
  pub do_request_received_iff :
      ((do_request version net s method url body).outcome ≡ received result)
      ↔ IsAnswered net
          (request_of version net s method url body)
          (if is_replay_safe_method method then 2 else 0)
          0
          result
  unfolding do_request
  do_request_received_iff = elim (Bool-cases (is_replay_safe_method method)) [
    | inl safe ↦ rw safe (
      IsAnswered-attempts net (request_of version net s method url body) created 2 0 100 result,
      attempts-answered net (request_of version net s method url body) created 2 0 100 result,
    )
    | inr unsafe ↦ rw unsafe (
      IsAnswered-attempts net (request_of version net s method url body) created 0 0 100 result,
      attempts-answered net (request_of version net s method url body) created 0 0 100 result,
    )
  ]
