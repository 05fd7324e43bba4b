-- ===== src/Client/Retry/Attempts.antt =====
-- The requests that one call of the client sends, and how long it waits between them.
use signoz_mcp_server.Client.{SigNoz, Bytes}
use signoz_mcp_server.Client.Retry.{
  Request, Run, Network, Reply, transport_error, response, Step, finish, again, after_reply,
  one_attempt, attempts, request_of, do_request, is_replay_safe_method, retry_multiply,
  is_retryable_status, RequestError, Outcome,
}
use signoz_mcp_server.Base.{
  ℕ, zero, suc, ◌+◌, ◌*◌, ◌≤◌, String, ◌≡◌, ◌≢◌, refl, ap, true, false, Option, none, some, List,
  [], ◌∷◌, arith, Bool-cases, inl, inr, ◌⊎◌,
}

pub replicate {ℓ} : {A : Type ℓ} → ℕ → A → List A
replicate zero a = []
replicate (suc n) a = a ∷ replicate n a

-- n waits, each four times the one before.
pub backoff : (wait n : ℕ) → List ℕ
backoff wait zero = []
backoff wait (suc n) = wait ∷ backoff (wait * retry_multiply) n

pub Step-cases :
    (step : Step) → ((o : Outcome) × (step ≡ finish o)) ⊎ ((e : RequestError) × (step ≡ again e))
Step-cases (finish o) = inl (o, refl)
Step-cases (again e) = inr (e, refl)

-- There is no next attempt after the last.
pub after_reply_last : (reply : Reply) (e : RequestError) → after_reply true reply ≢ again e
unfolding after_reply is_retryable_status
after_reply_last (transport_error cancelled) e h = ground arith
after_reply_last (response status none) e h = cc
after_reply_last (response status (some body)) e h = ground arith

module _ (net : Network) (request : Request)
    (created : net.creates request.method request.url ≡ true) where
  -- n + 1 equal requests and the n waits between them.
  abbrev pub IsRetried : (left wait : ℕ) → Run → Type 0
  IsRetried left wait run =
      (n : ℕ) × (n ≤ left) × (run.sent ≡ replicate (suc n) request) × (run.waited ≡ backoff wait n)

  pub attempts-IsRetried :
      (left attempt wait : ℕ) → IsRetried left wait (attempts net request left attempt wait)
  unfolding attempts one_attempt replicate backoff
  attempts-IsRetried zero attempt wait =
      elim (Step-cases (after_reply true (net.reply attempt request))) [
        | inl (o, e) ↦ (0, omega arith, rw (created, e), rw (created, e))
        | inr (x, e) ↦ absurd (after_reply_last (net.reply attempt request) x e)
      ]
  attempts-IsRetried (suc left) attempt wait =
      elim (Step-cases (after_reply false (net.reply attempt request))) [
        | inl (o, e) ↦ (0, omega arith, rw (created, e), rw (created, e))
        | inr (x, e) ↦ elim (Bool-cases (net.aborted attempt)) [
          | inl ended ↦ (0, omega arith, rw (created, e, ended), rw (created, e, ended))
          | inr waits ↦
              let (n, bound, sent, waited) =
                attempts-IsRetried left (attempt + 1) (wait * retry_multiply) in
              (
                suc n,
                omega arith,
                rw (created, e, waits) (ap (λ l. request ∷ l) sent),
                rw (created, e, waits) (ap (λ l. wait ∷ l) waited),
              )
        ]
      ]

module _ (version : String) (net : Network) (s : SigNoz) (method url : String) (body : Option Bytes)
    (created : net.creates method url ≡ true) where
  -- A call whose request can be built ends after at most three attempts, whatever the network does.
  -- It sends the same request each time, and before each repetition it waits, 100 ms the
  -- first time and 400 ms the second. A method other than GET, PUT and DELETE is sent once.
  pub do_request-sends :
      (n : ℕ) × (n ≤ 2)
      × ((do_request version net s method url body).sent
          ≡ replicate (suc n) (request_of version net s method url body))
      × ((do_request version net s method url body).waited ≡ backoff 100 n)
      × (is_replay_safe_method method ≡ false → n ≡ 0)
  unfolding do_request
  do_request-sends = elim (Bool-cases (is_replay_safe_method method)) [
    | inl safe ↦
        let (n, bound, sent, waited) =
          attempts-IsRetried net (request_of version net s method url body) created 2 0 100 in
        (n, bound, rw safe sent, rw safe waited, λ h. cc)
    | inr unsafe ↦
        let (n, bound, sent, waited) =
          attempts-IsRetried net (request_of version net s method url body) created 0 0 100 in
        (n, omega arith, rw unsafe sent, rw unsafe waited, λ h. omega arith)
  ]
