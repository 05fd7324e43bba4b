-- ===== src/Base/Query.antt =====
-- net/url: QueryEscape, PathEscape and Values.Encode. A query is its keys with their values, in any
-- order; the encoding sorts the keys.
use Prim.Native.Nat.{ℕ, zero, suc, ◌/◌, ◌%◌, Ordering}
use Prim.Native.Char.{Char, code, nul}
use Prim.Native.String.{String, compare}
use mathlib.Core.Path.{◌≡◌, refl}
use mathlib.Core.Bool.{Bool, true, false, ◌&&◌, ◌||◌}
use mathlib.Core.List.{List, [], ◌∷◌}
use signoz_mcp_server.Base.Tests.{leb, eqb, ◌==◌, if◌then◌else◌}
use signoz_mcp_server.Base.Text.{◌<>◌, utf8}

unfoldable pub nth : ℕ → String → Char
nth zero (String.◌∷◌ c s) = c
nth (suc k) (String.◌∷◌ c s) = nth k s
nth zero String.[] = nul
nth (suc k) String.[] = nul

unfoldable pub hex_digit : ℕ → Char
unfolding nth
hex_digit k = nth k "0123456789ABCDEF"

-- A byte as % and two digits, in front of a text.
unfoldable pub percent : ℕ → String → String
percent byte rest =
    String.◌∷◌ "%" (String.◌∷◌ (hex_digit (byte / 16)) (String.◌∷◌ (hex_digit (byte % 16)) rest))

unfoldable pub percents : List ℕ → String → String
percents [] rest = rest
percents (byte ∷ bytes) rest = percent byte (percents bytes rest)

abbrev pub is_unreserved : ℕ → Bool
is_unreserved c =
    (leb 97 c && leb c 122)
    || (leb 65 c && leb c 90)
    || (leb 48 c && leb c 57)
    || eqb c b'-'
    || eqb c b'_'
    || eqb c b'.'
    || eqb c b'~'

-- What url.PathEscape leaves as it is
abbrev pub is_segment_code : ℕ → Bool
is_segment_code c =
    is_unreserved c
    || eqb c b'$'
    || eqb c b'&'
    || eqb c b'+'
    || eqb c b'='
    || eqb c b':'
    || eqb c b'@'

unfoldable pub path_escape : String → String
unfolding percents percent hex_digit
path_escape String.[] = ""
path_escape (String.◌∷◌ c s) =
    let rest = path_escape s in
    if is_segment_code (code c) then String.◌∷◌ c rest else percents (utf8 (code c)) rest

unfoldable pub query_escape : String → String
unfolding percents percent hex_digit
query_escape String.[] = ""
query_escape (String.◌∷◌ c s) =
    let rest = query_escape s in
    if eqb (code c) b' '
    then String.◌∷◌ "+" rest
    else if is_unreserved (code c)
    then String.◌∷◌ c rest
    else percents (utf8 (code c)) rest

abbrev pub Query : Type 0
Query = List (String × List String)

-- Values.Set
unfoldable pub set_param : (key value : String) → Query → Query
set_param key value [] = (key, value ∷ []) ∷ []
set_param key value ((k, vs) ∷ rest) =
    if k == key then (k, value ∷ []) ∷ rest else (k, vs) ∷ set_param key value rest

abbrev is_before : String → String → Bool
is_before a b = elim (compare a b) [ Ordering.lt ↦ true | _ ↦ false ]

pub insert_key : String × List String → Query → Query
insert_key (key, vs) [] = (key, vs) ∷ []
insert_key (key, vs) ((k, ws) ∷ rest) =
    if is_before key k then (key, vs) ∷ (k, ws) ∷ rest else (k, ws) ∷ insert_key (key, vs) rest

pub sort_keys : Query → Query
sort_keys [] = []
sort_keys (p ∷ rest) = insert_key p (sort_keys rest)

-- The pairs of a key, each after an & where something stands before it.
pub encode_values : (key : String) → List String → (first : Bool) → String → String
encode_values key [] first rest = rest
encode_values key (v ∷ vs) first rest =
    (if first then "" else "&")
    <> (query_escape key <> ("=" <> (query_escape v <> encode_values key vs false rest)))

pub encode_from : Query → (first : Bool) → String
encode_from [] first = ""
encode_from ((key, []) ∷ rest) first = encode_from rest first
encode_from ((key, v ∷ vs) ∷ rest) first = encode_values key (v ∷ vs) first (encode_from rest false)

-- Values.Encode
unfoldable pub encode_query : Query → String
unfolding sort_keys encode_from
encode_query query = encode_from (sort_keys query) true

encode_query_runs :
    encode_query (("b", "x y" ∷ []) ∷ ("a", "1/2" ∷ "é" ∷ []) ∷ []) ≡ "a=1%2F2&a=%C3%A9&b=x+y"
unfolding encode_query insert_key encode_values query_escape hex_digit percents percent nth utf8
encode_query_runs = refl
