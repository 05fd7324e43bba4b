-- ===== src/Client/Operations/Segments.antt =====
-- The segments of a request's path, as a server reads them.
use text.Mathlib.TextLemmas.{nil-append, append-nil}
use signoz_mcp_server.Base.{
  String, Char, code, ◌≡◌, refl, ap, Bool, true, false, ◌||◌, List, [], ◌∷◌, ◌++◌, map, ◌<>◌, arith,
  eqb, bytes_of, ℕ, utf8,
}
use signoz_mcp_server.Base.Escape.{
  path_unescape, read_escaped, path_unescape-path_escape, path_escape_free, is_separator,
}
use signoz_mcp_server.Base.Query.{Query, encode_query, path_escape}
use signoz_mcp_server.Base.Segments.{
  glue, has_char, split-append, split_whole, until-append, until_whole,
}
use signoz_mcp_server.Base.Strings.{split, until}
use signoz_mcp_server.Client.Operations.{with_alerts_query}

abbrev is_slash : Char → Bool
is_slash c = eqb (code c) b'/'

abbrev ends_path : Char → Bool
ends_path c = eqb (code c) b'?' || eqb (code c) b'#'

-- The segments of a path and query, up to the query, each with its escapes undone.
unfoldable pub segments_of : String → List (List ℕ)
segments_of path = map path_unescape (split is_slash (until ends_path path))

freed :
    (stop : Char → Bool) (s : String)
    → ((c : Char) → is_separator c ≡ false → stop c ≡ false)
    → has_char is_separator s ≡ false
    → has_char stop s ≡ false
unfolding has_char
freed stop String.[] weaker h = refl
freed stop (String.◌∷◌ c s) weaker h =
    let here = weaker c (ground arith) in
    let later = freed stop s weaker (ground arith) in rw (here, later)

no_slash : (id : String) → has_char is_slash (path_escape id) ≡ false
no_slash id = freed is_slash (path_escape id) (λ c h. ground arith) (path_escape_free id)

no_query : (id : String) → has_char ends_path (path_escape id) ≡ false
no_query id = freed ends_path (path_escape id) (λ c h. ground arith) (path_escape_free id)

glue_last :
    (words : List String) (q : String) (qs : List String)
    → glue (words ++ "" ∷ []) (q ∷ qs) ≡ words ++ q ∷ qs
glue_last [] q qs = rw nil-append
glue_last (w ∷ []) q qs = rw nil-append
glue_last (w ∷ v ∷ words) q qs = ap (λ ws. w ∷ ws) (glue_last (v ∷ words) q qs)

map-words :
    (words : List String) (q : String)
    → map path_unescape (words ++ path_escape q ∷ []) ≡ map path_unescape words ++ bytes_of q ∷ []
map-words [] q = rw (path_unescape-path_escape q)
map-words (w ∷ words) q = ap (λ ws. path_unescape w ∷ ws) (map-words words q)

-- An id after a front that ends with a slash is the last segment.
pub id_segments :
    (front : String) (words : List String) (id : String)
    → has_char ends_path front ≡ false
    → split is_slash front ≡ words ++ "" ∷ []
    → segments_of (front <> path_escape id) ≡ map path_unescape words ++ bytes_of id ∷ []
unfolding segments_of
id_segments front words id h parts =
    rw
      (
        until-append ends_path front (path_escape id),
        h,
        until_whole ends_path (path_escape id) (no_query id),
        split-append is_slash front (path_escape id),
        split_whole is_slash (path_escape id) (no_slash id),
        parts,
        glue_last words (path_escape id) [],
      )
      (map-words words id)

-- A query is no segment.
pub query_segments :
    (front : String) (query : Query)
    → has_char ends_path front ≡ true
    → segments_of (front <> encode_query query) ≡ segments_of front
unfolding segments_of
query_segments front query h = rw (until-append ends_path front (encode_query query), h)

pub alerts_segments :
    (query : Query)
    → segments_of (with_alerts_query query "/api/v1/alerts") ≡ segments_of "/api/v1/alerts"
unfolding with_alerts_query segments_of until split has_char
alerts_segments [] = refl
alerts_segments (p ∷ ps) = rw (
  until-append ends_path "/api/v1/alerts" ("?" <> encode_query (p ∷ ps)),
  until-append ends_path "?" (encode_query (p ∷ ps)),
)

pub history_segments :
    (id : String) (query : Query)
    → segments_of
        ("/api/v2/rules/" <> (path_escape id <> ("/history/timeline?" <> encode_query query)))
      ≡ map bytes_of ("" ∷ "api" ∷ "v2" ∷ "rules" ∷ id ∷ "history" ∷ "timeline" ∷ [])
unfolding segments_of until split has_char bytes_of path_unescape read_escaped utf8
history_segments id query = rw (
  until-append ends_path "/api/v2/rules/"
      (path_escape id <> ("/history/timeline?" <> encode_query query)),
  until-append ends_path (path_escape id) ("/history/timeline?" <> encode_query query),
  no_query id,
  until-append ends_path "/history/timeline?" (encode_query query),
  split-append is_slash "/api/v2/rules/" (path_escape id <> "/history/timeline"),
  split-append is_slash (path_escape id) "/history/timeline",
  split_whole is_slash (path_escape id) (no_slash id),
  nil-append,
  append-nil,
  path_unescape-path_escape id,
)
