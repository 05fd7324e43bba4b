-- ===== src/Util/Url/Origins.antt =====
-- Which URLs are origins that the server talks to.

use text.Mathlib.TextLemmas.{append-nil}
use signoz_mcp_server.Base.Strings.{after_sep, cut_prefix, has_prefix}
use signoz_mcp_server.Base.{
  ℕ, code, eqb, refl, ap, sym, ◌∙◌, Bool, ◌&&◌, ◌||◌, true, ◌<>◌, ◌==◌, if◌then◌else◌, Bool-cases,
  String, ◌≡◌, ◌≢◌, ◌↔◌, ◌⊎◌, inl, inr, false, Option, some, eq_iff, to_lower, trim_space, arith,
  Option-cases,
}
use signoz_mcp_server.Util.Url.{
  ParsedUrl, origin, has_colon, origin_host, port_of, origin_of, origin_of_url,
  normalize_signoz_url,
}

-- http or https, a host that is not this machine, and nothing else.
pub record IsOrigin (u : ParsedUrl) : Type 0 where
  pub scheme_ok : (to_lower u.scheme ≡ "http") ⊎ (to_lower u.scheme ≡ "https")
  pub path_ok : (u.path ≡ "") ⊎ (u.path ≡ "/")
  pub no_query : u.raw_query ≡ ""
  pub no_fragment : u.fragment ≡ ""
  pub no_user : u.has_user ≡ false
  pub host_given : to_lower u.hostname ≢ ""
  pub not_localhost : to_lower u.hostname ≢ "localhost"
  pub not_any : to_lower u.hostname ≢ "0.0.0.0"
  pub not_any6 : to_lower u.hostname ≢ "::"

abbrev origin_text : ParsedUrl → String
origin_text u =
    origin_of (to_lower u.scheme) (to_lower u.hostname) (port_of (to_lower u.scheme) u.port)

module _ (u : ParsedUrl) where
  origin_of_url_sound : (o : String) → origin_of_url u ≡ origin o → IsOrigin u × (o ≡ origin_text u)
  unfolding origin_of_url
  origin_of_url_sound o h =
      let http = eq_iff (to_lower u.scheme) "http" in
      let https = eq_iff (to_lower u.scheme) "https" in
      let no_path = eq_iff u.path "" in
      let root = eq_iff u.path "/" in
      let query = eq_iff u.raw_query "" in
      let fragment = eq_iff u.fragment "" in
      let host = eq_iff (to_lower u.hostname) "" in
      let localhost = eq_iff (to_lower u.hostname) "localhost" in
      let zeros = eq_iff (to_lower u.hostname) "0.0.0.0" in
      let zeros6 = eq_iff (to_lower u.hostname) "::" in
      (
        record {
          scheme_ok = ground arith;
          path_ok = ground arith;
          no_query = ground arith;
          no_fragment = ground arith;
          no_user = ground arith;
          host_given = λ e. absurd (ground arith);
          not_localhost = λ e. absurd (ground arith);
          not_any = λ e. absurd (ground arith);
          not_any6 = λ e. absurd (ground arith);
        },
        ground arith,
      )

  origin_of_url_complete : IsOrigin u → origin_of_url u ≡ origin (origin_text u)
  unfolding origin_of_url
  origin_of_url_complete h =
      let http = eq_iff (to_lower u.scheme) "http" in
      let https = eq_iff (to_lower u.scheme) "https" in
      let no_path = eq_iff u.path "" in
      let root = eq_iff u.path "/" in
      let query = eq_iff u.raw_query "" in
      let fragment = eq_iff u.fragment "" in
      let host = eq_iff (to_lower u.hostname) "" in
      let localhost = eq_iff (to_lower u.hostname) "localhost" in
      let zeros = eq_iff (to_lower u.hostname) "0.0.0.0" in
      let zeros6 = eq_iff (to_lower u.hostname) "::" in ground arith

-- Whether a character with this code stands in a text, or at its start.
abbrev pub HasCode : ℕ → String → Type 0
HasCode n String.[] = ⊥
HasCode n (String.◌∷◌ c s) = (code c ≡ n) ⊎ HasCode n s

abbrev pub StartsWith : ℕ → String → Type 0
StartsWith n String.[] = ⊥
StartsWith n (String.◌∷◌ c s) = code c ≡ n

-- A host as it stands in an origin: in brackets if it has a colon and no bracket before it.
abbrev pub IsHostText : (host text : String) → Type 0
IsHostText host text =
    (HasCode b':' host × ¬ StartsWith b'[' host × (text ≡ "[" <> host <> "]"))
    ⊎ ((¬ HasCode b':' host ⊎ StartsWith b'[' host) × (text ≡ host))

abbrev pub IsDefaultPort : (scheme port : String) → Type 0
IsDefaultPort scheme port =
    ((scheme ≡ "http") × (port ≡ "80")) ⊎ ((scheme ≡ "https") × (port ≡ "443"))

-- A port as it stands in an origin: left out if it is the default of the scheme.
abbrev pub IsPortText : (scheme port text : String) → Type 0
IsPortText scheme port text =
    (((port ≡ "") ⊎ IsDefaultPort scheme port) × (text ≡ ""))
    ⊎ ((port ≢ "") × ¬ IsDefaultPort scheme port × (text ≡ ":" <> port))

has_colon_iff : (s : String) → (has_colon s ≡ true) ↔ HasCode b':' s
unfolding after_sep cut_prefix
has_colon_iff String.[] = (λ h. absurd cc, λ h. elim h [ ])
has_colon_iff (String.◌∷◌ c s) = elim (Bool-cases (eqb (code c) b':')) [
  | inl e ↦ (λ h. inl (ground arith), λ h. rw (e, after_sep))
  | inr e ↦
      let (to, from) = has_colon_iff s in
      (
        λ h. inr (to (rw (e, after_sep) at h)),
        λ h. elim h [
          | inl here ↦ absurd (ground arith)
          | inr later ↦ rw (e, after_sep) (from later)
        ],
      )
]

StartsWith-iff : (s : String) → (has_prefix s "[" ≡ true) ↔ StartsWith b'[' s
unfolding has_prefix cut_prefix
StartsWith-iff String.[] = (λ h. absurd cc, λ h. elim h [ ])
StartsWith-iff (String.◌∷◌ c s) = (λ h. ground arith, λ h. ground arith)

origin_host_iff : (host text : String) → IsHostText host text ↔ (text ≡ origin_host host)
unfolding origin_host
origin_host_iff host text =
    let colon = has_colon_iff host in
    let bracket = StartsWith-iff host in
    elim (Bool-cases (has_colon host)) [
      | inr bare ↦ (
        λ h. elim h [
          | inl (c, b, e) ↦ absurd (ground arith)
          | inr (c, e) ↦ rw (bare, origin_host) e
        ],
        λ h. inr (inl (λ c. absurd (ground arith)), rw (bare, origin_host) at h),
      )
      | inl colons ↦ elim (Bool-cases (has_prefix host "[")) [
        | inl closed ↦ (
          λ h. elim h [
            | inl (c, b, e) ↦ absurd (ground arith)
            | inr (c, e) ↦ rw (colons, closed, origin_host) e
          ],
          λ h. inr (inr (bracket.0 closed), rw (colons, closed, origin_host) at h),
        )
        | inr open_text ↦ (
          λ h. elim h [
            | inl (c, b, e) ↦ rw (colons, open_text, origin_host) e
            | inr (c, e) ↦ absurd (ground arith)
          ],
          λ h. inl (
            colon.0 colons,
            (λ b. absurd (ground arith)),
            rw (colons, open_text, origin_host) at h,
          ),
        )
      ]
    ]

abbrev is_default_port : (scheme port : String) → Bool
is_default_port scheme port =
    (scheme == "http" && port == "80") || (scheme == "https" && port == "443")

is_default_port_iff :
    (scheme port : String) → (is_default_port scheme port ≡ true) ↔ IsDefaultPort scheme port
is_default_port_iff scheme port =
    let http = eq_iff scheme "http" in
    let https = eq_iff scheme "https" in
    let eighty = eq_iff port "80" in
    let tls = eq_iff port "443" in (λ h. ground arith, λ h. ground arith)

port_text : (scheme port : String) → String
port_text scheme port = if port_of scheme port == "" then "" else ":" <> port_of scheme port

port_text_iff :
    (scheme port text : String) → IsPortText scheme port text ↔ (text ≡ port_text scheme port)
unfolding port_of port_text
port_text_iff scheme port text =
    let default = is_default_port_iff scheme port in
    let bare = eq_iff port "" in
    elim (Bool-cases (is_default_port scheme port)) [
      | inl known ↦ (
        λ h. elim h [
          | inl (c, e) ↦ rw (known, port_text, port_of) e
          | inr (given, other, e) ↦ absurd (other (default.0 known))
        ],
        λ h. inl (inr (default.0 known), rw (known, port_text, port_of) at h),
      )
      | inr other ↦ elim (Bool-cases (port == "")) [
        | inl empty ↦ (
          λ h. elim h [
            | inl (c, e) ↦ rw (other, empty, port_text, port_of) e
            | inr (given, c, e) ↦ absurd (given (bare.0 empty))
          ],
          λ h. inl (inl (bare.0 empty), rw (other, empty, port_text, port_of) at h),
        )
        | inr given ↦ (
          λ h. elim h [
            | inl (c, e) ↦ absurd (ground arith)
            | inr (c, d, e) ↦ rw (other, given, port_text, port_of) e
          ],
          λ h. inr (
            (λ e. absurd (ground arith)),
            (λ d. absurd (ground arith)),
            rw (other, given, port_text, port_of) at h,
          ),
        )
      ]
    ]

-- The origin in its three parts.
origin_text-parts :
    (scheme host port : String)
    → origin_of scheme host (port_of scheme port)
      ≡ scheme <> "://" <> origin_host host <> port_text scheme port
unfolding origin_of port_text
origin_text-parts scheme host port = elim (Bool-cases (port_of scheme port == "")) [
  | inl e ↦ rw (e, origin_of, port_text, append-nil)
  | inr e ↦ rw (e, origin_of, port_text)
]

-- A text is normalised to an origin exactly when it parses, trimmed, as an http or https URL with a
-- host other than "localhost", "0.0.0.0" and "::" and nothing but a host, a port and a root path. The
-- origin is the scheme and the host in lower case, the host in brackets if it has a colon and no
-- bracket before it, and a colon and the port unless there is none or it is 80 for http or 443 for
-- https.
pub normalize_signoz_url_iff :
    (parse : String → Option ParsedUrl) (raw_url o : String)
    → (normalize_signoz_url parse raw_url ≡ origin o) ↔ (
        (u : ParsedUrl) × (host_text : String) × (port_text : String) × (parse (trim_space raw_url)
          ≡ some u)
        × IsOrigin u
        × IsHostText (to_lower u.hostname) host_text
        × IsPortText (to_lower u.scheme) u.port port_text
        × (o ≡ to_lower u.scheme <> "://" <> host_text <> port_text))
unfolding normalize_signoz_url
normalize_signoz_url_iff parse raw_url o = (
  λ h. elim (Option-cases (parse (trim_space raw_url))) [
    | inl fails ↦ absurd (ground arith)
    | inr (u, parsed) ↦
        let (is_origin, e) = origin_of_url_sound u o (ground arith) in
        let scheme = to_lower u.scheme in
        let host = to_lower u.hostname in
        (
          u,
          origin_host host,
          port_text scheme u.port,
          parsed,
          is_origin,
          (origin_host_iff host _).1 refl,
          (port_text_iff scheme u.port _).1 refl,
          e ∙ origin_text-parts scheme host u.port,
        )
  ],
  λ (u, host_text, ported, parsed, is_origin, hosted, is_ported, e).
      let scheme = to_lower u.scheme in
      let host = to_lower u.hostname in
      let is_host = (origin_host_iff host host_text).0 hosted in
      let is_port = (port_text_iff scheme u.port ported).0 is_ported in
      let whole : o ≡ origin_text u =
        e
        ∙ ap (λ t. scheme <> "://" <> t <> ported) is_host
        ∙ ap (λ t. scheme <> "://" <> origin_host host <> t) is_port
        ∙ sym (origin_text-parts scheme host u.port) in
      rw (parsed, whole, normalize_signoz_url) (origin_of_url_complete u is_origin),
)
