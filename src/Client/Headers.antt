-- ===== src/Client/Headers.antt =====
-- The headers of every request of a client, whatever the custom headers are.
use signoz_mcp_server.Client.{
  SigNoz, Header, content_type, user_agent, letter_case, letter_cases, is_token,
  canonical_header_key, set_key, get_key, set_header, user_agent_of, set_custom_header,
  set_custom_headers, set_request_headers,
}
use signoz_mcp_server.Base.{
  ℕ, String, ◌≡◌, refl, sym, ap, ◌∙◌, Bool, true, false, some, List, [], ◌∷◌, map, eqb, ◌<>◌,
  if◌then◌else◌, arith, trim_space, ◌==◌, Bool-cases, inl, inr, ◌⊎◌,
}
use signoz_mcp_server.Base.Fold.{codes, same_codes, same_codes_iff, fold_code, equal_fold}

fold-letter_case : (upper : Bool) (c : ℕ) → fold_code (letter_case upper c) ≡ fold_code c
fold-letter_case upper c = ground arith

fold-letter_cases :
    (upper : Bool) (cs : List ℕ) → map fold_code (letter_cases upper cs) ≡ map fold_code cs
unfolding letter_cases
fold-letter_cases upper [] = refl
fold-letter_cases upper (c ∷ cs) = cc (fold-letter_case upper c, fold-letter_cases (eqb c 45) cs)

fold-canonical_header_key :
    (name : String) → map fold_code (canonical_header_key name) ≡ map fold_code (codes name)
unfolding canonical_header_key
fold-canonical_header_key name = elim (Bool-cases (is_token (codes name))) [
  | inl h ↦ rw h (fold-letter_cases true (codes name))
  | inr h ↦ rw h
]

-- Names with one key are equal up to case.
equal_fold-canonical :
    (a b : String) → canonical_header_key a ≡ canonical_header_key b → equal_fold a b ≡ true
unfolding equal_fold
equal_fold-canonical a b h =
    (same_codes_iff (map fold_code (codes a)) (map fold_code (codes b))).1
      (sym (fold-canonical_header_key a) ∙ ap (map fold_code) h ∙ fold-canonical_header_key b)

get-set_key :
    (key other : List ℕ) (value : String) (header : Header)
    → get_key other (set_key key value header)
      ≡ (if same_codes key other then some value else get_key other header)
unfolding get_key set_key
get-set_key key other value [] = refl
get-set_key key other value ((k, v) ∷ rest) = ground (
  arith,
  same_codes_iff key other,
  same_codes_iff k key,
  same_codes_iff k other,
  get-set_key key other value rest,
)

get-set_header_other :
    (name target value : String) (header : Header)
    → equal_fold name target ≡ false
    → get_key (canonical_header_key target) (set_header name value header)
      ≡ get_key (canonical_header_key target) header
unfolding set_header
get-set_header_other name target value header differs = ground (
  arith,
  get-set_key (canonical_header_key name) (canonical_header_key target) value header,
  same_codes_iff (canonical_header_key name) (canonical_header_key target),
  equal_fold-canonical name target,
)

get-set_header_self :
    (name value : String) (header : Header)
    → get_key (canonical_header_key name) (set_header name value header) ≡ some value
unfolding set_header
get-set_header_self name value header = ground (
  arith,
  get-set_key (canonical_header_key name) (canonical_header_key name) value header,
  same_codes_iff (canonical_header_key name) (canonical_header_key name),
)

equal_fold_sym : (a b : String) → equal_fold a b ≡ equal_fold b a
unfolding equal_fold
equal_fold_sym a b = ground (
  arith,
  same_codes_iff (map fold_code (codes a)) (map fold_code (codes b)),
  same_codes_iff (map fold_code (codes b)) (map fold_code (codes a)),
)

type-not-agent : equal_fold content_type user_agent ≡ false
unfolding equal_fold
type-not-agent = refl

module _ (version : String) (s : SigNoz) where
  -- A name that the loop passes over keeps its value.
  set_custom_headers-keep :
      (target : String)
      → equal_fold target user_agent ≡ false
      → ((name : String)
          → equal_fold name target ≡ true
          → (equal_fold name content_type ≡ true) ⊎ (equal_fold name s.auth_header_name ≡ true))
      → (custom : List (String × String)) (header : Header)
      → get_key (canonical_header_key target) (set_custom_headers version s custom header)
        ≡ get_key (canonical_header_key target) header
  unfolding set_custom_headers set_custom_header
  set_custom_headers-keep target not_agent reserved [] header = refl
  set_custom_headers-keep target not_agent reserved ((name, value) ∷ rest) header = ground (
    arith,
    set_custom_headers-keep target not_agent reserved rest
        (set_custom_header version s name value header),
    equal_fold_sym target user_agent,
    reserved name,
    get-set_header_other user_agent target (trim_space value <> (" " <> user_agent_of version))
        header,
    get-set_header_other name target value header,
    Bool-cases (equal_fold name target),
  )

  -- A user agent that ends with the program's own.
  abbrev pub IsAgent : String → Type 0
  IsAgent value =
      (value ≡ user_agent_of version)
      ⊎ ((front : String) × (value ≡ front <> (" " <> user_agent_of version)))

  set_custom_headers-IsAgent :
      (custom : List (String × String)) (header : Header)
      → ((v : String) × (get_key (canonical_header_key user_agent) header ≡ some v) × IsAgent v)
      → (v : String) × (get_key
            (canonical_header_key user_agent)
            (set_custom_headers version s custom header)
          ≡ some v)
        × IsAgent v
  unfolding set_custom_headers set_custom_header
  set_custom_headers-IsAgent [] header h = h
  set_custom_headers-IsAgent ((name, value) ∷ rest) header (v, found, agent) =
      set_custom_headers-IsAgent rest (set_custom_header version s name value header)
        (elim (Bool-cases (equal_fold name user_agent)) [
          | inl is_agent ↦ elim (Bool-cases (trim_space value == "")) [
            | inl blank ↦ (v, ground arith, agent)
            | inr given ↦ (
              trim_space value <> (" " <> user_agent_of version),
              rw (is_agent, given)
                  (get-set_header_self user_agent
                    (trim_space value <> (" " <> user_agent_of version)) header),
              inr (trim_space value, refl),
            )
          ]
          | inr other ↦
              (v, ground (arith, get-set_header_other name user_agent value header), agent)
        ])

  -- For a client whose key header is neither Content-Type nor User-Agent, whatever the case: every
  -- request has the client's API key under that header and the content type application/json,
  -- and its user agent is the program's, alone or after a text and a space. No custom headers
  -- change that.
  pub set_request_headers-fixed :
      equal_fold s.auth_header_name content_type ≡ false
      → equal_fold s.auth_header_name user_agent ≡ false
      → (get_key (canonical_header_key s.auth_header_name) (set_request_headers version s)
          ≡ some s.api_key)
        × (get_key (canonical_header_key content_type) (set_request_headers version s)
            ≡ some "application/json")
        × (agent : String) × (get_key
              (canonical_header_key user_agent)
              (set_request_headers version s)
            ≡ some agent)
        × IsAgent agent
  unfolding set_request_headers
  set_request_headers-fixed not_type not_agent =
      let fixed = set_header content_type "application/json" [] in
      let authorized = set_header s.auth_header_name s.api_key fixed in
      let header = set_header user_agent (user_agent_of version) authorized in
      let agent = set_custom_headers-IsAgent s.custom_headers header (
        user_agent_of version,
        get-set_header_self user_agent (user_agent_of version) authorized,
        inl refl,
      ) in
      (
        set_custom_headers-keep s.auth_header_name not_agent (λ name same. inr same)
              s.custom_headers header
            ∙ get-set_header_other user_agent s.auth_header_name (user_agent_of version) authorized
                (equal_fold_sym user_agent s.auth_header_name ∙ not_agent)
            ∙ get-set_header_self s.auth_header_name s.api_key fixed,
        set_custom_headers-keep content_type type-not-agent (λ name same. inl same) s.custom_headers
              header
            ∙ get-set_header_other user_agent content_type (user_agent_of version) authorized
                (equal_fold_sym user_agent content_type ∙ type-not-agent)
            ∙ get-set_header_other s.auth_header_name content_type s.api_key fixed not_type
            ∙ get-set_header_self content_type "application/json" [],
        agent.0,
        agent.1,
        agent.2,
      )
