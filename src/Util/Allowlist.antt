-- ===== src/Util/Allowlist.antt =====
-- pkg/util/allowlist.go. net.SplitHostPort and the host name of a parsed URL are arguments; a map
-- that is a set is the list of its keys.
pub mod Hosts
mod Tests
use Prim.Native.String
use signoz_mcp_server.Base.{
  String, Char, code, Bool, true, false, not, ◌&&◌, ◌||◌, Option, none, some, List, [], ◌∷◌, eqb,
  ltb, ◌==◌, ◌<>◌, if◌then◌else◌, trim_space, to_lower, length, bytes_of,
}
use signoz_mcp_server.Base.Strings.{cut_prefix, has_prefix, has_suffix, after_sep, until, split}

pub record InstanceUrlAllowlist : Type 0 where
  pub exact : List String
  pub suffixes : List String

abbrev is_comma : Char → Bool
is_comma c = eqb (code c) b','

abbrev ends_host : Char → Bool
ends_host c = eqb (code c) b'/' || eqb (code c) b'?' || eqb (code c) b'#'

abbrev without_last : String → String
without_last String.[] = ""
without_last (String.◌∷◌ c String.[]) = ""
without_last (String.◌∷◌ c (String.◌∷◌ d s)) = String.◌∷◌ c (without_last (String.◌∷◌ d s))

-- pattern[1 : len(pattern)-1]
abbrev inner : String → String
inner String.[] = ""
inner (String.◌∷◌ c s) = without_last s

abbrev pub or_else : Option String → String → String
or_else (some s) default = s
or_else none default = default

abbrev pub mem : String → List String → Bool
mem x [] = false
mem x (y ∷ ys) = y == x || mem x ys

module _ (split_host_port : String → Option String) where
  strip_to_host_pattern : String → String
  strip_to_host_pattern pattern =
      let host = until ends_host (or_else (after_sep pattern "://") pattern) in
      elim (split_host_port host) [
        | some name ↦ name
        | none ↦ if has_prefix host "[" && has_suffix host "]" then inner host else host
      ]

  -- One round of the loop over the entries.
  pub add_pattern : String → InstanceUrlAllowlist → InstanceUrlAllowlist
  add_pattern pattern al = if pattern == "" then al else elim (cut_prefix pattern "*.") [
    | some suffix ↦
        if suffix == ""
        then al
        else record { exact = al.exact; suffixes = ("." <> suffix) ∷ al.suffixes }
    | none ↦ record { exact = pattern ∷ al.exact; suffixes = al.suffixes }
  ]

  parse_entries : List String → InstanceUrlAllowlist
  parse_entries [] = record { exact = []; suffixes = [] }
  parse_entries (entry ∷ entries) =
      add_pattern (strip_to_host_pattern (to_lower (trim_space entry))) (parse_entries entries)

  pub parse_instance_url_allowlist : (raw : String) → InstanceUrlAllowlist
  parse_instance_url_allowlist raw = parse_entries (split is_comma raw)

unfoldable pub configured : InstanceUrlAllowlist → Bool
configured al = elim al.exact [
  | x ∷ xs ↦ true
  | [] ↦ elim al.suffixes [ x ∷ xs ↦ true | [] ↦ false ]
]

matches_suffix : String → List String → Bool
matches_suffix host [] = false
matches_suffix host (suffix ∷ suffixes) =
    if ltb (length (bytes_of suffix)) (length (bytes_of host)) && has_suffix host suffix
    then true
    else matches_suffix host suffixes

pub allows_host : InstanceUrlAllowlist → (host : String) → Bool
allows_host al host =
    if not (configured al)
    then true
    else let name = to_lower (trim_space host) in
      if name == ""
      then false
      else if mem name al.exact
      then true
      else matches_suffix name al.suffixes

-- `hostname_of` is url.Parse and then Hostname; `none` is the error of the parse.
module _ (hostname_of : String → Option String) where
  unfoldable pub allows_url : InstanceUrlAllowlist → (raw_url : String) → Bool
  allows_url al raw_url =
      if not (configured al)
      then true
      else elim (hostname_of raw_url) [ none ↦ false | some host ↦ allows_host al host ]
