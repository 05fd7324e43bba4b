-- ===== src/Client.antt =====
-- internal/client/client.go: the client of one SigNoz instance and the headers of its requests.
-- A key of a Header is a list of code points; a map of custom headers is a list in the order in which
-- one iteration visits it. `version` is the text that the build sets.
pub mod Headers
pub mod Retry
pub mod Validation
pub mod Identity
pub mod Operations
mod Tests
use signoz_mcp_server.Base.{
  ℕ, ◌+◌, ◌-◌, String, Bool, true, false, ◌&&◌, ◌||◌, Option, none, some, List, [], ◌∷◌, leb, eqb,
  ◌==◌, ◌<>◌, if◌then◌else◌, trim_space,
}
use signoz_mcp_server.Base.Fold.{codes, same_codes, equal_fold}

abbrev pub Bytes : Type 0
Bytes = List ℕ

pub record SigNoz : Type 0 where
  pub base_url : String
  pub api_key : String
  pub auth_header_name : String
  pub custom_headers : List (String × String)

abbrev pub content_type : String
content_type = "Content-Type"

abbrev pub user_agent : String
user_agent = "User-Agent"

abbrev pub is_letter : ℕ → Bool
is_letter c = (leb 65 c && leb c 90) || (leb 97 c && leb c 122)

pub one_of : ℕ → List ℕ → Bool
one_of c [] = false
one_of c (d ∷ ds) = eqb c d || one_of c ds

-- The characters of a header name: letters, digits and !#$%&'*+-.^_`|~
pub is_token_byte : ℕ → Bool
unfolding one_of
is_token_byte c =
    is_letter c
    || (leb 48 c && leb c 57)
    || one_of c (33 ∷ 35 ∷ 36 ∷ 37 ∷ 38 ∷ 39 ∷ 42 ∷ 43 ∷ 45 ∷ 46 ∷ 94 ∷ 95 ∷ 96 ∷ 124 ∷ 126 ∷ [])

pub is_token : List ℕ → Bool
is_token [] = true
is_token (c ∷ cs) = is_token_byte c && is_token cs

-- A letter is upper case at the start and after a dash, and lower case elsewhere.
abbrev pub letter_case : (upper : Bool) → ℕ → ℕ
letter_case upper c =
    if upper
    then (if leb 97 c && leb c 122 then c - 32 else c)
    else if leb 65 c && leb c 90
    then c + 32
    else c

pub letter_cases : (upper : Bool) → List ℕ → List ℕ
letter_cases upper [] = []
letter_cases upper (c ∷ cs) = letter_case upper c ∷ letter_cases (eqb c 45) cs

-- http.CanonicalHeaderKey
unfoldable pub canonical_header_key : String → List ℕ
unfolding is_token is_token_byte letter_cases
canonical_header_key name =
    if is_token (codes name) then letter_cases true (codes name) else codes name

abbrev pub Header : Type 0
Header = List (List ℕ × String)

unfoldable pub set_key : (key : List ℕ) (value : String) → Header → Header
set_key key value [] = (key, value) ∷ []
set_key key value ((k, v) ∷ rest) =
    if same_codes k key then (key, value) ∷ rest else (k, v) ∷ set_key key value rest

unfoldable pub get_key : (key : List ℕ) → Header → Option String
get_key key [] = none
get_key key ((k, v) ∷ rest) = if same_codes k key then some v else get_key key rest

-- Header.Set
unfoldable pub set_header : (name value : String) → Header → Header
unfolding set_key
set_header name value header = set_key (canonical_header_key name) value header

-- pkg/version: UserAgent
unfoldable pub user_agent_of : (version : String) → String
user_agent_of version =
    "signoz-mcp-server/" <> (if trim_space version == "" then "dev" else trim_space version)

module _ (version : String) (s : SigNoz) where
  -- One round of the loop over the custom headers.
  unfoldable pub set_custom_header : (name value : String) → Header → Header
  unfolding equal_fold
  set_custom_header name value header =
      if equal_fold name user_agent
      then (if trim_space value == ""
          then header
          else set_header user_agent (trim_space value <> (" " <> user_agent_of version)) header)
      else if equal_fold name content_type || equal_fold name s.auth_header_name
      then header
      else set_header name value header

  unfoldable pub set_custom_headers : List (String × String) → Header → Header
  set_custom_headers [] header = header
  set_custom_headers ((name, value) ∷ rest) header =
      set_custom_headers rest (set_custom_header name value header)

  -- setRequestHeaders, on a request without headers
  unfoldable pub set_request_headers : Header
  unfolding set_custom_headers set_custom_header
  set_request_headers =
      let fixed = set_header content_type "application/json" [] in
      let authorized = set_header s.auth_header_name s.api_key fixed in
      set_custom_headers s.custom_headers (set_header user_agent (user_agent_of version) authorized)
