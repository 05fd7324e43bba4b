-- ===== src/Util/Url.antt =====
-- pkg/util/url.go. What url.Parse returns is a record of the parts that the code reads; the parser and
-- URL.String are arguments. A parsed URL's Hostname and Port are its host without and its port.
pub mod Origins
mod Tests
use Prim.Native.String
use signoz_mcp_server.Base.{
  String, Char, code, Bool, true, false, not, ◌&&◌, ◌||◌, Option, none, some, List, [], ◌∷◌, eqb,
  ltb, ◌==◌, ◌<>◌, if◌then◌else◌, trim_space, to_lower,
}
use signoz_mcp_server.Base.Strings.{cut_prefix, has_prefix, after_sep, index, index_any}

pub record ParsedUrl : Type 0 where
  pub scheme : String
  pub path : String
  pub raw_query : String
  pub force_query : Bool
  pub fragment : String
  pub opaque : String
  pub raw_path : String
  pub has_user : Bool
  pub hostname : String
  pub port : String

pub data UrlError : Type 0 where
  malformed_url url_has_path url_has_query url_has_fragment url_has_user host_missing url_required :
      UrlError
  scheme_slashes_missing : UrlError
  scheme_not_allowed host_not_allowed : String → UrlError

pub data UrlResult : Type 0 where
  origin : String → UrlResult
  refused : UrlError → UrlResult

abbrev pub is_present : Option String → Bool
is_present (some s) = true
is_present none = false

-- strings.Contains(s, ":")
abbrev pub has_colon : String → Bool
has_colon s = is_present (after_sep s ":")

-- The port, "" where it is the default of the scheme.
unfoldable pub port_of : (scheme port : String) → String
port_of scheme port =
    if (scheme == "http" && port == "80") || (scheme == "https" && port == "443") then "" else port

-- The host, in brackets where it is an IPv6 address.
unfoldable pub origin_host : String → String
origin_host host = if has_colon host && not (has_prefix host "[") then "[" <> host <> "]" else host

unfoldable pub origin_of : (scheme host port : String) → String
origin_of scheme host port =
    let start = scheme <> "://" <> origin_host host in
    if port == "" then start else start <> (":" <> port)

-- The checks and the origin of a parsed URL.
unfoldable pub origin_of_url : ParsedUrl → UrlResult
origin_of_url u =
    let scheme = to_lower u.scheme in
    let host = to_lower u.hostname in
    if not (scheme == "http") && not (scheme == "https")
    then refused (scheme_not_allowed u.scheme)
    else if not (u.path == "") && not (u.path == "/")
    then refused url_has_path
    else if not (u.raw_query == "")
    then refused url_has_query
    else if not (u.fragment == "")
    then refused url_has_fragment
    else if u.has_user
    then refused url_has_user
    else if host == ""
    then refused host_missing
    else if host == "localhost" || host == "0.0.0.0" || host == "::"
    then refused (host_not_allowed host)
    else origin (origin_of scheme host (port_of scheme u.port))

module _ (parse : String → Option ParsedUrl) where
  unfoldable pub normalize_signoz_url : (raw_url : String) → UrlResult
  normalize_signoz_url raw_url = elim (parse (trim_space raw_url)) [
    | none ↦ refused malformed_url
    | some u ↦ origin_of_url u
  ]

abbrev ends_authority : Char → Bool
ends_authority c = eqb (code c) b'/' || eqb (code c) b'?' || eqb (code c) b'#'

unfoldable pub has_explicit_scheme : String → Bool
has_explicit_scheme raw_url = elim (index raw_url "://") [
  | none ↦ false
  | some scheme_sep ↦ elim (index_any raw_url ends_authority) [
    | none ↦ true
    | some path_start ↦ ltb scheme_sep path_start
  ]
]

unfoldable pub has_httpish_prefix : String → Bool
has_httpish_prefix raw_url =
    let lower = to_lower raw_url in has_prefix lower "http:" || has_prefix lower "https:"

unfoldable pub has_malformed_http_scheme : String → Bool
has_malformed_http_scheme raw_url =
    let lower = to_lower raw_url in
    has_httpish_prefix lower
    && not (has_prefix lower "http://")
    && not (has_prefix lower "https://")

abbrev only_origin : ParsedUrl → ParsedUrl
only_origin u = record {
  scheme = u.scheme;
  path = "";
  raw_query = "";
  force_query = false;
  fragment = "";
  opaque = u.opaque;
  raw_path = u.raw_path;
  has_user = u.has_user;
  hostname = u.hostname;
  port = u.port;
}

-- The URL that is entered, with https in front where it has no scheme.
unfoldable pub with_scheme : (trimmed : String) → Option String
with_scheme trimmed = elim (cut_prefix trimmed "//") [
  | some rest ↦ if has_httpish_prefix rest then none else some ("https:" <> trimmed)
  | none ↦
      if has_malformed_http_scheme trimmed
      then none
      else if not (has_explicit_scheme trimmed)
      then some ("https://" <> trimmed)
      else some trimmed
]

module _ (parse : String → Option ParsedUrl) (to_string : ParsedUrl → String) where
  normalize_parsed : Option ParsedUrl → UrlResult
  normalize_parsed none = refused malformed_url
  normalize_parsed (some u) = normalize_signoz_url parse (to_string (only_origin u))

  unfoldable pub normalize_signoz_url_form_input : (raw_url : String) → UrlResult
  unfolding normalize_parsed
  normalize_signoz_url_form_input raw_url =
      let trimmed = trim_space raw_url in
      if trimmed == "" then refused url_required else elim (with_scheme trimmed) [
        | none ↦ refused scheme_slashes_missing
        | some url ↦ normalize_parsed (parse url)
      ]
