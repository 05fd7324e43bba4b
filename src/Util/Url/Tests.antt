-- ===== src/Util/Url/Tests.antt =====
-- Runs of the URL checks, and their theorem at a parser that reads one URL.

use text.Mathlib.TextLemmas.{cons-ne-nil}
use signoz_mcp_server.Base.{
  String, ◌≡◌, inl, inr, refl, Option, some, none, false, to_lower, ◌<>◌, eq_iff, arith,
}
use signoz_mcp_server.Base.Strings.{after_sep, cut_prefix, has_prefix, index, index_any}
use signoz_mcp_server.Util.Url.{
  ParsedUrl, origin, port_of, origin_of, origin_host, origin_of_url, normalize_signoz_url,
  has_explicit_scheme, has_malformed_http_scheme, has_httpish_prefix, with_scheme,
}
use signoz_mcp_server.Util.Url.Origins.{IsOrigin, IsHostText, IsPortText, normalize_signoz_url_iff}

abbrev parsed : ParsedUrl
parsed = record {
  scheme = "HTTPS";
  path = "/";
  raw_query = "";
  force_query = false;
  fragment = "";
  opaque = "";
  raw_path = "";
  has_user = false;
  hostname = "A.b";
  port = "443";
}

abbrev parse : String → Option ParsedUrl
parse s = some parsed

with_scheme_runs :
    (with_scheme "a.b/c" ≡ some "https://a.b/c")
    × (with_scheme "http:/a" ≡ none)
    × (with_scheme "//a" ≡ some "https://a")
unfolding with_scheme has_explicit_scheme has_malformed_http_scheme has_httpish_prefix cut_prefix
    has_prefix index index_any to_lower
with_scheme_runs = (refl, refl, refl)

default_port_dropped : normalize_signoz_url parse " HTTPS://A.b:443/" ≡ origin "https://a.b"
unfolding normalize_signoz_url origin_of_url origin_of origin_host port_of to_lower after_sep
    cut_prefix
default_port_dropped = refl

abbrev address : ParsedUrl
address = record parsed { hostname = "FE80::1"; port = "8443" }

abbrev parse_address : String → Option ParsedUrl
parse_address s = some address

address-IsOrigin : IsOrigin address
unfolding to_lower
address-IsOrigin = record {
  scheme_ok = inr refl;
  path_ok = inr refl;
  no_query = refl;
  no_fragment = refl;
  no_user = refl;
  host_given = λ e. absurd (ground (arith, eq_iff "fe80::1" ""));
  not_localhost = λ e. absurd (ground (arith, eq_iff "fe80::1" "localhost"));
  not_any = λ e. absurd (ground (arith, eq_iff "fe80::1" "0.0.0.0"));
  not_any6 = λ e. absurd (ground (arith, eq_iff "fe80::1" "::"));
}

address-IsHostText : IsHostText (to_lower address.hostname) "[fe80::1]"
unfolding to_lower
address-IsHostText = inl (inr (inr (inr (inr (inl refl)))), (λ h. absurd (omega arith)), refl)

address-IsPortText : IsPortText (to_lower address.scheme) address.port ":8443"
unfolding to_lower
address-IsPortText = inr (
  cons-ne-nil "8" "443",
  (λ h. elim h [
    | inl (scheme, port) ↦ absurd (ground (arith, eq_iff "8443" "80"))
    | inr (scheme, port) ↦ absurd (ground (arith, eq_iff "8443" "443"))
  ]),
  refl,
)

address_text : "https://[fe80::1]:8443" ≡ to_lower address.scheme <> "://" <> "[fe80::1]" <> ":8443"
unfolding to_lower
address_text = refl

normalize_signoz_url_iff_example :
    normalize_signoz_url parse_address "https://[FE80::1]:8443/" ≡ origin "https://[fe80::1]:8443"
normalize_signoz_url_iff_example =
    (normalize_signoz_url_iff parse_address "https://[FE80::1]:8443/" "https://[fe80::1]:8443").1 (
      address, "[fe80::1]", ":8443", refl, address-IsOrigin, address-IsHostText, address-IsPortText,
      address_text,
    )
