-- ===== src/Client/Validation/Verdicts.antt =====
-- Which answers of an instance accept a user's credentials, and which error every other answer is.
use mathlib.Core.Path.{subst}
use signoz_mcp_server.Base.{
  ℕ, String, ◌≡◌, ◌↔◌, ◌⊎◌, inl, inr, refl, sym, ◌∙◌, true, false, not, ◌&&◌, none, some, eqb,
  arith, Bool-cases,
}
use signoz_mcp_server.Client.{SigNoz, Bytes}
use signoz_mcp_server.Client.Retry.{RequestError, Network}
use signoz_mcp_server.Client.Validation.{
  Answer, answered, lost, unreachable, unauthorized, instance_not_found,
  evaluate_validation_response, is_html_body, do_validation_request, verdict, user_url,
  service_account_url, validate_credentials,
}

pub Answer-cases :
    (a : Answer)
    → ((n : ℕ) × (b : Bytes) × (a ≡ answered n b)) ⊎ ((e : RequestError) × (a ≡ lost e))
Answer-cases (answered n b) = inl (n, b, refl)
Answer-cases (lost e) = inr (e, refl)

-- An answer of the user's endpoint after which no other endpoint is asked.
abbrev pub IsDirect : Answer → Type 0
IsDirect (answered status body) = status ≡ 404 → is_html_body body ≡ true
IsDirect (lost e) = Unit {0}

module _ (version : String) (net : Network) (s : SigNoz) where
  -- A 404 that is not a page of markup: the key of a service account, to a user's endpoint.
  abbrev pub IsServiceAccount : Type 0
  IsServiceAccount =
      (body : Bytes) × (do_validation_request version net s 0 (user_url s) ≡ answered 404 body)
      × (is_html_body body ≡ false)

  -- The answer that counts: that of the user's endpoint, or of the service accounts' endpoint.
  abbrev pub IsFinal : Answer → Type 0
  IsFinal a =
      ((do_validation_request version net s 0 (user_url s) ≡ a) × IsDirect a)
      ⊎ (IsServiceAccount × (do_validation_request version net s 1 (service_account_url s) ≡ a))

  verdict-final :
      (a : Answer) → IsFinal a → validate_credentials version net s ≡ verdict version net s a
  unfolding validate_credentials
  verdict-final (answered status body) (inl (e, html)) = rw e (elim (Bool-cases (eqb status 404)) [
    | inl missing ↦ ground (arith, html (ground arith))
    | inr other ↦ rw other
  ])
  verdict-final (lost error) (inl (e, direct)) = rw e
  verdict-final a (inr ((page, e, json), sa)) = rw (e, json, sa)

  IsFinal-verdict :
      (a : Answer) × IsFinal a × (validate_credentials version net s ≡ verdict version net s a)
  IsFinal-verdict = elim (Answer-cases (do_validation_request version net s 0 (user_url s))) [
    | inr (error, e) ↦ from_final (lost error) (inl (e, tt))
    | inl (status, body, e) ↦ elim (Bool-cases (eqb status 404 && not (is_html_body body))) [
      | inl json ↦
          let page : do_validation_request version net s 0 (user_url s) ≡ answered 404 body =
            ground arith in
          from_final (do_validation_request version net s 1 (service_account_url s))
            (inr ((body, page, ground arith), refl))
      | inr final ↦ from_final (answered status body) (inl (e, λ h. ground arith))
    ]
  ]
    where
      from_final :
          (a : Answer)
          → IsFinal a
          → (b : Answer) × IsFinal b
            × (validate_credentials version net s ≡ verdict version net s b)
      from_final a final = (a, final, verdict-final a final)

  verdict_accepted :
      (a : Answer) → verdict version net s a ≡ none → (body : Bytes) × (a ≡ answered 200 body)
  unfolding verdict evaluate_validation_response
  verdict_accepted (answered status body) h = (body, ground arith)
  verdict_accepted (lost e) h = cc

  verdict_unauthorized :
      (a : Answer) (n : ℕ)
      → verdict version net s a ≡ some (unauthorized n)
      → (body : Bytes) × (a ≡ answered n body) × ((n ≡ 401) ⊎ (n ≡ 403))
  unfolding verdict evaluate_validation_response
  verdict_unauthorized (answered status body) n h = (body, ground arith, ground arith)
  verdict_unauthorized (lost e) n h = cc

  verdict_not_found :
      (a : Answer) (n : ℕ)
      → verdict version net s a ≡ some (instance_not_found n)
      → (body : Bytes) × (a ≡ answered n body) × (n ≡ 404) × (is_html_body body ≡ true)
  unfolding verdict evaluate_validation_response
  verdict_not_found (answered status body) n h = (body, ground arith, ground arith, ground arith)
  verdict_not_found (lost e) n h = cc

  verdict_unreachable :
      (a : Answer) (e : RequestError) → verdict version net s a ≡ some (unreachable e) → a ≡ lost e
  unfolding verdict evaluate_validation_response
  verdict_unreachable (answered status body) e h = ground arith
  verdict_unreachable (lost x) e h = cc

  evaluated :
      (status : ℕ) (body : Bytes)
      → IsFinal (answered status body)
      → validate_credentials version net s ≡ evaluate_validation_response status body
  unfolding verdict
  evaluated status body final = verdict-final (answered status body) final

  -- Credentials are accepted exactly if the final answer has status 200, and refused as
  -- unauthorized exactly if it has 401 or 403. No instance is found exactly if it is a 404 page of
  -- markup. The final answer is that of the user's endpoint, but where that is a 404 without
  -- markup it is that of the service accounts' endpoint. A request that is not answered makes the
  -- instance unreachable.
  pub validate_credentials_iff :
      ((validate_credentials version net s ≡ none) ↔ ((body : Bytes) × IsFinal (answered 200 body)))
      × ((status : ℕ)
          → (validate_credentials version net s ≡ some (unauthorized status))
            ↔ ((body : Bytes) × IsFinal (answered status body) × ((status ≡ 401) ⊎ (status ≡ 403))))
      × ((status : ℕ)
          → (validate_credentials version net s ≡ some (instance_not_found status)) ↔ (
              (body : Bytes) × IsFinal (answered status body)
              × (status ≡ 404)
              × (is_html_body body ≡ true)))
      × ((error : RequestError)
          → (validate_credentials version net s ≡ some (unreachable error)) ↔ IsFinal (lost error))
  unfolding verdict evaluate_validation_response
  validate_credentials_iff =
      let (a, final, result) = IsFinal-verdict in
      (
        (
          λ h.
              (let (body, e) = verdict_accepted a (sym result ∙ h) in
                (body, subst IsFinal e final)),
          λ h. ground (arith, evaluated 200 h.0 h.1),
        ),
        λ status. (
          λ h.
              (let (body, e, which) = verdict_unauthorized a status (sym result ∙ h) in
                (body, subst IsFinal e final, which)),
          λ h. ground (arith, evaluated status h.0 h.1),
        ),
        λ status. (
          λ h.
              (let (body, e, which, html) = verdict_not_found a status (sym result ∙ h) in
                (body, subst IsFinal e final, which, html)),
          λ h. ground (arith, evaluated status h.0 h.1),
        ),
        λ error. (
          λ h. subst IsFinal (verdict_unreachable a error (sym result ∙ h)) final,
          λ h. verdict-final (lost error) h,
        ),
      )
