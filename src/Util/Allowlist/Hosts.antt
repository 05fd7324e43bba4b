-- ===== src/Util/Allowlist/Hosts.antt =====
-- Which hosts an allowlist allows.

use text.Mathlib.TextLemmas.{nil-append}
use signoz_mcp_server.Base.{
  ◌+◌, String, ◌≡◌, ◌≢◌, ◌↔◌, ◌⊎◌, inl, inr, refl, ◌∙◌, ap, true, ◌&&◌, Option, List, [], ◌∷◌, ltb,
  ◌==◌, ◌<>◌, trim_space, to_lower, length, bytes_of, length-bytes_of, bytes_of-append, arith, All,
  Bool-cases, Option-cases, eq_iff,
}
use signoz_mcp_server.Base.Strings.{cut_prefix, has_suffix, has_suffix_iff}
use signoz_mcp_server.Util.Allowlist.{
  InstanceUrlAllowlist, mem, add_pattern, parse_entries, parse_instance_url_allowlist, configured,
  matches_suffix, allows_host,
}

abbrev pub In : String → List String → Type 0
In x [] = ⊥
In x (y ∷ ys) = (y ≡ x) ⊎ In x ys

-- At least one character, and then one of the suffixes.
pub record EndsIn (host : String) (suffixes : List String) : Type 0 where
  pub label : String
  pub suffix : String
  pub there : In suffix suffixes
  pub named : label ≢ ""
  pub split : host ≡ label <> suffix

mem_iff : (x : String) (xs : List String) → (mem x xs ≡ true) ↔ In x xs
mem_iff x [] = (λ h. absurd cc, λ h. absurd h)
mem_iff x (y ∷ ys) =
    let here = eq_iff y x in let there = mem_iff x ys in (λ h. ground arith, λ h. ground arith)

longer_suffix :
    (host suffix : String)
    → (ltb (length (bytes_of suffix)) (length (bytes_of host)) && has_suffix host suffix ≡ true)
      ↔ ((label : String) × (label ≢ "") × (host ≡ label <> suffix))
longer_suffix host suffix = (
  λ h.
      let (label, e) = (has_suffix_iff host suffix).0 (ground arith) in
      (
        label,
        (λ empty.
            let same : host ≡ suffix = e ∙ rw empty (nil-append suffix) in absurd (ground arith)),
        e,
      ),
  λ (label, named, e).
      let ends = (has_suffix_iff host suffix).1 (label, e) in
      let sizes : length (bytes_of host) ≡ length (bytes_of label) + length (bytes_of suffix) =
        ap (λ s. length (bytes_of s)) e ∙ bytes_of-append label suffix in
      ground (arith, length-bytes_of label named),
)

matches_suffix_iff :
    (host : String) (suffixes : List String)
    → (matches_suffix host suffixes ≡ true) ↔ EndsIn host suffixes
unfolding matches_suffix
matches_suffix_iff host [] = (λ h. absurd cc, λ h. absurd h.there)
matches_suffix_iff host (suffix ∷ suffixes) =
    let (to, from) = matches_suffix_iff host suffixes in
    let (here_to, here_from) = longer_suffix host suffix in
    (
      λ h.
          elim (Bool-cases
            (ltb (length (bytes_of suffix)) (length (bytes_of host)) && has_suffix host suffix)) [
              | inl here ↦
                  let (label, named, e) = here_to here in
                  record {
                    label = label;
                    suffix = suffix;
                    there = inl refl;
                    named = named;
                    split = e;
                  }
              | inr not_here ↦
                  let later = to (ground arith) in
                  record {
                    label = later.label;
                    suffix = later.suffix;
                    there = inr later.there;
                    named = later.named;
                    split = later.split;
                  }
            ],
      λ h. elim (h.there) [
        | inl e ↦ let here = here_from (h.label, h.named, rw e h.split) in rw here refl
        | inr later ↦
            let rest = from (record {
              label = h.label;
              suffix = h.suffix;
              there = later;
              named = h.named;
              split = h.split;
            }) in
            ground arith
      ],
    )

-- A configured allowlist allows a host exactly when its trimmed name in lower case is not empty, and is
-- an exact entry or ends in one of the suffixes with something in front.
pub allows_host_iff :
    (al : InstanceUrlAllowlist) (host : String)
    → configured al ≡ true
    → (allows_host al host ≡ true) ↔ (
        (to_lower (trim_space host) ≢ "")
        × (In (to_lower (trim_space host)) al.exact
            ⊎ EndsIn (to_lower (trim_space host)) al.suffixes))
unfolding allows_host
allows_host_iff al host set =
    let name = to_lower (trim_space host) in
    let blank = eq_iff name "" in
    let exact = mem_iff name al.exact in
    let suffix = matches_suffix_iff name al.suffixes in
    (λ h. (ground arith), λ (named, h). (ground arith))

-- A suffix of a parsed allowlist begins with a dot and has something behind it.
abbrev pub IsDotted : String → Type 0
IsDotted suffix = (rest : String) × (rest ≢ "") × (suffix ≡ "." <> rest)

add_pattern-IsDotted :
    (split_host_port : String → Option String) (pattern : String) (al : InstanceUrlAllowlist)
    → All IsDotted al.suffixes
    → All IsDotted (add_pattern split_host_port pattern al).suffixes
unfolding add_pattern
add_pattern-IsDotted split_host_port pattern al h = elim (Bool-cases (pattern == "")) [
  | inl blank ↦ rw blank h
  | inr filled ↦ elim (Option-cases (cut_prefix pattern "*.")) [
    | inl exact ↦ rw (filled, exact) h
    | inr (rest, wildcard) ↦ elim (Bool-cases (rest == "")) [
      | inl bare ↦ rw (filled, wildcard, bare) h
      | inr named ↦
          let has_rest : rest ≢ "" = (λ e. let blank = (eq_iff rest "").1 e in cc) in
          rw (filled, wildcard, named) ((rest, has_rest, refl), h)
    ]
  ]
]

parse_entries-IsDotted :
    (split_host_port : String → Option String) (entries : List String)
    → All IsDotted (parse_entries split_host_port entries).suffixes
unfolding parse_entries
parse_entries-IsDotted split_host_port [] = tt
parse_entries-IsDotted split_host_port (entry ∷ entries) =
    add_pattern-IsDotted split_host_port _ (parse_entries split_host_port entries)
      (parse_entries-IsDotted split_host_port entries)

dotted :
    (suffix : String) (suffixes : List String)
    → All IsDotted suffixes
    → In suffix suffixes
    → IsDotted suffix
dotted suffix [] h there = absurd there
dotted suffix (other ∷ suffixes) (d, rest) (inl e) = rw⁻¹ e d
dotted suffix (other ∷ suffixes) (d, rest) (inr there) = dotted suffix suffixes rest there

-- With an allowlist that is parsed from any text and configured, a host that is allowed is, trimmed and
-- in lower case, an exact entry, or a name, a dot and the rest of a wildcard, none of them empty.
pub parsed_allowlist_hosts :
    (split_host_port : String → Option String) (raw host : String)
    → configured (parse_instance_url_allowlist split_host_port raw) ≡ true
    → allows_host (parse_instance_url_allowlist split_host_port raw) host ≡ true
    → In (to_lower (trim_space host)) (parse_instance_url_allowlist split_host_port raw).exact
      ⊎ ((label : String) × (rest : String) × (label ≢ "")
          × (rest ≢ "")
          × In ("." <> rest) (parse_instance_url_allowlist split_host_port raw).suffixes
          × (to_lower (trim_space host) ≡ label <> ("." <> rest)))
unfolding parse_instance_url_allowlist
parsed_allowlist_hosts split_host_port raw host set allowed =
    let al = parse_instance_url_allowlist split_host_port raw in
    let (named, either) = (allows_host_iff al host set).0 allowed in
    elim either [
      | inl exact ↦ inl exact
      | inr ends ↦
          let (rest, has_rest, e) =
            dotted ends.suffix al.suffixes (parse_entries-IsDotted split_host_port _) ends.there in
          inr (
            ends.label,
            rest,
            ends.named,
            has_rest,
            rw⁻¹ e ends.there,
            ends.split ∙ ap (λ s. ends.label <> s) e,
          )
    ]
