-- ===== src/Util/Allowlist/Tests.antt =====
-- A run of the allowlist, and its theorems at one allowlist. No pattern of the runs has a port.

use signoz_mcp_server.Base.{
  String, ◌≡◌, ◌≢◌, ◌⊎◌, refl, Option, none, true, false, [], ◌∷◌, ◌<>◌, trim_space, to_lower,
  bytes_of,
}
use signoz_mcp_server.Base.Strings.{
  cut_prefix, cut_suffix, has_prefix, has_suffix, after_sep, until, split,
}
use signoz_mcp_server.Util.Allowlist.{
  InstanceUrlAllowlist, parse_instance_url_allowlist, parse_entries, add_pattern,
  strip_to_host_pattern, configured, allows_host, matches_suffix,
}
use signoz_mcp_server.Util.Allowlist.Hosts.{In, parsed_allowlist_hosts}

abbrev no_port : String → Option String
no_port s = none

abbrev al : InstanceUrlAllowlist
al = record { exact = "signoz.example.com" ∷ []; suffixes = ".us.signoz.cloud" ∷ [] }

abbrev raw : String
raw = " https://Signoz.example.com/x ,*.us.signoz.cloud"

raw_parses : parse_instance_url_allowlist no_port raw ≡ al
unfolding parse_instance_url_allowlist parse_entries add_pattern strip_to_host_pattern trim_space
    to_lower split until after_sep cut_prefix cut_suffix has_prefix has_suffix
raw_parses = refl

apex_is_not_allowed : allows_host al "us.signoz.cloud" ≡ false
unfolding allows_host configured matches_suffix trim_space to_lower bytes_of has_suffix cut_suffix
apex_is_not_allowed = refl

al_is_configured : configured al ≡ true
unfolding configured
al_is_configured = refl

raw_is_configured : configured (parse_instance_url_allowlist no_port raw) ≡ true
raw_is_configured = rw raw_parses al_is_configured

host_is_allowed : allows_host al "a.US.signoz.cloud" ≡ true
unfolding allows_host configured matches_suffix trim_space to_lower bytes_of has_suffix cut_suffix
host_is_allowed = refl

parsed_allowlist_hosts_example :
    In (to_lower (trim_space "a.US.signoz.cloud")) (parse_instance_url_allowlist no_port raw).exact
    ⊎ ((label : String) × (rest : String) × (label ≢ "")
        × (rest ≢ "")
        × In ("." <> rest) (parse_instance_url_allowlist no_port raw).suffixes
        × (to_lower (trim_space "a.US.signoz.cloud") ≡ label <> ("." <> rest)))
parsed_allowlist_hosts_example =
    parsed_allowlist_hosts no_port raw "a.US.signoz.cloud" raw_is_configured
      (rw raw_parses host_is_allowed)
