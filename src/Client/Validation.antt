-- ===== src/Client/Validation.antt =====
-- internal/client/client.go: the check of a user's credentials, and TruncBody of pkg/log. The requests
-- are attempts 0 and 1 of the network, whose replies carry the context's ten seconds.
pub mod Verdicts
use signoz_mcp_server.Base.{
  ℕ, ◌-◌, String, Bool, true, false, not, ◌&&◌, ◌||◌, Option, none, some, List, [], ◌∷◌, ◌++◌,
  length, take, leb, eqb, ◌<>◌, if◌then◌else◌, bytes_of,
}
use signoz_mcp_server.Client.{SigNoz, Bytes}
use signoz_mcp_server.Client.Retry.{
  Request, Reply, transport_error, response, RequestError, not_created, request_failed, body_unread,
  Network, request_of,
}

-- bytes.TrimPrefix of the UTF-8 byte order mark
pub trim_bom : Bytes → Bytes
trim_bom (a ∷ b ∷ c ∷ rest) =
    if eqb a 0xef && eqb b 0xbb && eqb c 0xbf then rest else a ∷ b ∷ c ∷ rest
trim_bom body = body

-- bytes.TrimLeft of " \t\r\n"
pub trim_blanks : Bytes → Bytes
trim_blanks [] = []
trim_blanks (c ∷ cs) =
    if eqb c 32 || eqb c 9 || eqb c 13 || eqb c 10 then trim_blanks cs else c ∷ cs

pub starts_with_angle : Bytes → Bool
starts_with_angle [] = false
starts_with_angle (c ∷ cs) = eqb c b'<'

unfoldable pub is_html_body : Bytes → Bool
unfolding trim_bom trim_blanks starts_with_angle
is_html_body body = starts_with_angle (trim_blanks (trim_bom body))

abbrev pub trunc_body_limit : ℕ
trunc_body_limit = 4096

abbrev pub trunc_body_suffix : String
trunc_body_suffix = "...(truncated)"

unfoldable pub trunc_body : Bytes → Bytes
trunc_body b =
    if leb (length b) trunc_body_limit
    then b
    else take (trunc_body_limit - length (bytes_of trunc_body_suffix)) b
      ++ bytes_of trunc_body_suffix

pub data ValidationError : Type 0 where
  unreachable : RequestError → ValidationError
  unauthorized instance_not_found : (status : ℕ) → ValidationError
  unexpected_status : (status : ℕ) (body : Bytes) → ValidationError

-- A status and the body's first 64 KiB, or the error of the request.
pub data Answer : Type 0 where
  answered : (status : ℕ) (body : Bytes) → Answer
  lost : RequestError → Answer

abbrev pub validation_limit : ℕ
validation_limit = 65536

pub answer_of : Reply → Answer
answer_of (transport_error cancelled) = lost request_failed
answer_of (response status none) = lost body_unread
answer_of (response status (some body)) = answered status (take validation_limit body)

-- nil is none.
unfoldable pub evaluate_validation_response : (status : ℕ) (body : Bytes) → Option ValidationError
evaluate_validation_response status body =
    if eqb status 200
    then none
    else if eqb status 401 || eqb status 403
    then some (unauthorized status)
    else if eqb status 404 && is_html_body body
    then some (instance_not_found status)
    else some (unexpected_status status (trunc_body body))

abbrev pub user_url : SigNoz → String
user_url s = s.base_url <> "/api/v1/user/me"

abbrev pub service_account_url : SigNoz → String
service_account_url s = s.base_url <> "/api/v1/service_accounts/me"

module _ (version : String) (net : Network) (s : SigNoz) where
  unfoldable pub do_validation_request : (attempt : ℕ) (url : String) → Answer
  unfolding answer_of
  do_validation_request attempt url =
      if net.creates "GET" url
      then answer_of (net.reply attempt (request_of version net s "GET" url none))
      else lost not_created

  pub verdict : Answer → Option ValidationError
  unfolding evaluate_validation_response
  verdict (answered status body) = evaluate_validation_response status body
  verdict (lost e) = some (unreachable e)

  -- What ValidateCredentials does with the answer of the user's endpoint.
  pub after_user : Answer → Option ValidationError
  unfolding verdict
  after_user (answered status body) =
      if eqb status 404 && not (is_html_body body)
      then verdict (do_validation_request 1 (service_account_url s))
      else verdict (answered status body)
  after_user (lost e) = verdict (lost e)

  unfoldable pub validate_credentials : Option ValidationError
  unfolding after_user
  validate_credentials = after_user (do_validation_request 0 (user_url s))
