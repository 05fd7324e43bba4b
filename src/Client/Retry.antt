-- ===== src/Client/Retry.antt =====
-- internal/client/client.go: the requests of the SigNoz client and their replay policy. The network is
-- an argument: what http.Client.Do gives for the request of each attempt, and whether the context
-- ended before the wait after an attempt was over. A run is the result with the requests that were
-- sent and the milliseconds that were waited, in order.
pub mod Attempts
pub mod Answers
use signoz_mcp_server.Base.{
  ℕ, zero, suc, ◌+◌, ◌-◌, ◌*◌, String, Bool, true, false, not, ◌&&◌, ◌||◌, Option, none, some, List,
  [], ◌∷◌, length, take, ltb, leb, eqb, ◌==◌, if◌then◌else◌,
}
use signoz_mcp_server.Client.{SigNoz, Bytes, Header, set_request_headers}

abbrev pub max_retries : ℕ
max_retries = 3

abbrev pub retry_base_wait : ℕ
retry_base_wait = 100

abbrev pub retry_multiply : ℕ
retry_multiply = 4

-- 64 MiB
unfoldable pub max_response_bytes : ℕ
max_response_bytes = 67108864

-- A body of `none` is nil.
pub record Request : Type 0 where
  pub method : String
  pub url : String
  pub body : Option Bytes
  pub header : Header

-- `cancelled` is ctx.Err() != nil when Do returned; a body of `none` could not be read.
pub data Reply : Type 0 where
  transport_error : (cancelled : Bool) → Reply
  response : (status : ℕ) (body : Option Bytes) → Reply

pub data RequestError : Type 0 where
  not_created request_cancelled request_failed body_unread : RequestError
  retry_aborted : RequestError → RequestError
  body_too_large : (status : ℕ) → RequestError
  http_status : (status_code : ℕ) (body : Bytes) → RequestError

pub data Outcome : Type 0 where
  received : Bytes → Outcome
  failed : RequestError → Outcome

pub record Run : Type 0 where
  pub outcome : Outcome
  pub sent : List Request
  pub waited : List ℕ

pub record Network : Type 0 where
  pub creates : (method url : String) → Bool
  pub reply : (attempt : ℕ) → Request → Reply
  pub aborted : (attempt : ℕ) → Bool

unfoldable pub is_retryable_status : ℕ → Bool
is_retryable_status code = eqb code 429 || eqb code 502 || eqb code 503 || eqb code 504

unfoldable pub is_replay_safe_method : String → Bool
is_replay_safe_method method = method == "GET" || method == "PUT" || method == "DELETE"

-- What one attempt leads to.
pub data Step : Type 0 where
  finish : Outcome → Step
  again : RequestError → Step

abbrev pub is_success : (status : ℕ) → Bool
is_success status = leb 200 status && ltb status 300

-- io.ReadAll of the body up to one byte past the limit
unfoldable pub read_body : Bytes → Bytes
read_body body = take (max_response_bytes + 1) body

-- The body of the loop, in the last attempt or before it.
unfoldable pub after_reply : (last : Bool) → Reply → Step
unfolding is_retryable_status read_body
after_reply last (transport_error cancelled) =
    if cancelled
    then finish (failed request_cancelled)
    else if last
    then finish (failed request_failed)
    else again request_failed
after_reply last (response status none) = finish (failed body_unread)
after_reply last (response status (some body)) =
    if ltb max_response_bytes (length (read_body body))
    then finish (failed (body_too_large status))
    else if is_success status
    then finish (received (read_body body))
    else if is_retryable_status status && not last
    then again (http_status status (read_body body))
    else finish (failed (http_status status (read_body body)))

abbrev pub stop : Outcome → Run
stop outcome = record { outcome = outcome; sent = []; waited = [] }

abbrev pub after_wait : (wait : ℕ) → Run → Run
after_wait wait run = record run { waited = wait ∷ run.waited }

abbrev pub after_send : Request → Run → Run
after_send request run = record run { sent = request ∷ run.sent }

module _ (net : Network) (request : Request) where
  pub one_attempt : (last : Bool) (attempt wait : ℕ) (next : RequestError → Run) → Run
  unfolding after_reply
  one_attempt last attempt wait next =
      if not (net.creates request.method request.url)
      then stop (failed not_created)
      else after_send request (elim (after_reply last (net.reply attempt request)) [
        | finish outcome ↦ stop outcome
        | again e ↦
            if net.aborted attempt
            then stop (failed (retry_aborted e))
            else after_wait wait (next e)
      ])

  -- The loop, with `left` attempts after this one. Past the last one the last error is returned.
  unfoldable pub attempts : (left attempt wait : ℕ) → Run
  unfolding one_attempt
  attempts zero attempt wait = one_attempt true attempt wait (λ e. stop (failed e))
  attempts (suc left) attempt wait =
      one_attempt false attempt wait (λ e. attempts left (attempt + 1) (wait * retry_multiply))

module _ (version : String) (net : Network) (s : SigNoz) where
  -- The request that every attempt sends.
  abbrev pub request_of : (method url : String) (body : Option Bytes) → Request
  request_of method url body = record {
    method = method;
    url = url;
    body = body;
    header = set_request_headers version s;
  }

  -- The timeout is part of the network: it ends the context.
  unfoldable pub do_request_with_replay_policy :
      (method url : String) (body : Option Bytes) (replay_safe : Bool) → Run
  do_request_with_replay_policy method url body replay_safe =
      attempts net (request_of method url body) ((if replay_safe then max_retries else 1) - 1) 0
        retry_base_wait

  unfoldable pub do_request : (method url : String) (body : Option Bytes) → Run
  unfolding do_request_with_replay_policy is_replay_safe_method
  do_request method url body =
      do_request_with_replay_policy method url body (is_replay_safe_method method)

  unfoldable pub do_replay_safe_post : (url : String) (body : Option Bytes) → Run
  unfolding do_request_with_replay_policy
  do_replay_safe_post url body = do_request_with_replay_policy "POST" url body true
