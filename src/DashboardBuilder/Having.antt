-- ===== src/DashboardBuilder/Having.antt =====
-- pkg/dashboard/dashboardbuilder/normalize.go: the parser of having expressions. The code reads bytes,
-- and compares them with ASCII only; here a text is read by its code points. strconv.ParseFloat is an
-- argument.
pub mod Scans
pub mod Clauses
pub mod Enough
pub mod Joined
mod Tests
use Prim.Native.String
use signoz_mcp_server.Base.{
  ℕ, zero, suc, ◌+◌, ◌-◌, String, Char, code, Bool, true, false, not, ◌&&◌, ◌||◌, Option, none,
  some, List, [], ◌∷◌, ◌++◌, leb, eqb, ◌==◌, ◌<>◌, if◌then◌else◌, trim_space, size,
}
use signoz_mcp_server.Base.Any.{
  Any, Fields, Float64, string, integer, int64, float, object, field, done,
}
use signoz_mcp_server.Base.Decimal.{parse_int}
use signoz_mcp_server.Base.Strings.{cut_prefix}

abbrev pub is_word_char : ℕ → Bool
is_word_char b =
    (leb b'a' b && leb b b'z')
    || (leb b'A' b && leb b b'Z')
    || (leb b'0' b && leb b b'9')
    || eqb b b'_'

-- Whether what is left is empty or begins with no word character.
pub at_boundary : String → Bool
at_boundary String.[] = true
at_boundary (String.◌∷◌ c s) = not (is_word_char (code c))

-- A letter in upper or lower case
abbrev pub is_either : (c upper : ℕ) → Bool
is_either c upper = eqb c upper || eqb c (upper + 32)

pub starts_with : ℕ → String → Bool
starts_with b String.[] = false
starts_with b (String.◌∷◌ c s) = eqb (code c) b

-- What follows the first character is R, and then no word character.
pub is_or_tail : String → Bool
unfolding at_boundary
is_or_tail String.[] = false
is_or_tail (String.◌∷◌ c s) = is_either (code c) b'R' && at_boundary s

pub is_and_tail : String → Bool
unfolding at_boundary
is_and_tail (String.◌∷◌ c (String.◌∷◌ d s)) =
    is_either (code c) b'N' && is_either (code d) b'D' && at_boundary s
is_and_tail _ = false

-- What stands at a character outside quotes and parentheses, with `previous` before it (0 at the
-- start): an OR or ||, or an AND or && with the characters that it has after the first.
pub data Mark : Type 0 where
  plain or_mark : Mark
  and_mark : (more : ℕ) → Mark

unfoldable pub mark_at : (previous c : ℕ) (rest : String) → Mark
unfolding starts_with is_or_tail is_and_tail
mark_at previous c rest =
    if eqb c b'|' && starts_with b'|' rest
    then or_mark
    else if is_either c b'O' && is_or_tail rest && not (is_word_char previous)
    then or_mark
    else if eqb c b'&' && starts_with b'&' rest
    then and_mark 1
    else if is_either c b'A' && is_and_tail rest && not (is_word_char previous)
    then and_mark 2
    else plain

-- The loops' variables: the depth of parentheses, the quote that is open (0 if none), the
-- character before, and how many characters are passed over.
pub record Scan : Type 0 where
  pub depth : ℕ
  pub quote : ℕ
  pub previous : ℕ
  pub skip : ℕ

abbrev pub start : Scan
start = record { depth = 0; quote = 0; previous = 0; skip = 0 }

abbrev pub is_quote : ℕ → Bool
is_quote c = eqb c 39 || eqb c 34

-- Whether the loops test the character: it is not passed over, and stands outside quotes and
-- parentheses, and is none of them.
unfoldable pub is_top_level : Scan → (c : ℕ) → Bool
is_top_level st c =
    eqb st.skip 0
    && eqb st.quote 0
    && eqb st.depth 0
    && not (is_quote c)
    && not (eqb c b'(')
    && not (eqb c b')')

pub is_empty : String → Bool
is_empty String.[] = true
is_empty (String.◌∷◌ c s) = false

-- The variables after a character that ends nothing.
unfoldable pub after : Scan → (c : ℕ) (rest : String) → Scan
unfolding is_empty
after st c rest =
    let moved = record st { previous = c } in
    if not (eqb st.skip 0)
    then record moved { skip = st.skip - 1 }
    else if not (eqb st.quote 0)
    then (if eqb c 92 && not (is_empty rest)
        then record moved { skip = 1 }
        else if eqb c st.quote
        then record moved { quote = 0 }
        else moved)
    else if is_quote c
    then record moved { quote = c }
    else if eqb c b'('
    then record moved { depth = st.depth + 1 }
    else if eqb c b')'
    then record moved { depth = st.depth - 1 }
    else moved

-- A character in front of the first part.
pub onto_first : Char → Option (List String) → Option (List String)
onto_first c none = none
onto_first c (some []) = none
onto_first c (some (p ∷ ps)) = some ((String.◌∷◌ c p) ∷ ps)

pub new_part : Option (List String) → Option (List String)
new_part none = none
new_part (some ps) = some ("" ∷ ps)

-- The mark that counts: only at the top level.
unfoldable pub mark_of : Scan → (c : ℕ) (rest : String) → Mark
unfolding mark_at is_top_level
mark_of st c rest = if is_top_level st c then mark_at st.previous c rest else plain

-- The rest of the part that has begun, and the parts after it. The characters of an AND are
-- dropped: `dropping` of them are left.
unfoldable pub split_from : (dropping : ℕ) → Scan → String → Option (List String)
unfolding onto_first new_part
split_from dropping st String.[] = some ("" ∷ [])
split_from (suc dropping) st (String.◌∷◌ c s) =
    split_from dropping (record st { previous = code c }) s
split_from zero st (String.◌∷◌ c s) = elim (mark_of st (code c) s) [
  | plain ↦ onto_first c (split_from zero (after st (code c) s) s)
  | or_mark ↦ none
  | and_mark more ↦ new_part (split_from more (record st { previous = code c }) s)
]

unfoldable pub split_top_level_and : String → Option (List String)
split_top_level_and s = split_from 0 start s

unfoldable pub boolean_from : Scan → String → Bool
boolean_from st String.[] = false
boolean_from st (String.◌∷◌ c s) = elim (mark_of st (code c) s) [
  | plain ↦ boolean_from (after st (code c) s) s
  | or_mark ↦ true
  | and_mark more ↦ true
]

unfoldable pub contains_top_level_boolean : String → Bool
contains_top_level_boolean s = boolean_from start s

abbrev pub last_code : String → ℕ
last_code String.[] = 0
last_code (String.◌∷◌ c String.[]) = code c
last_code (String.◌∷◌ c (String.◌∷◌ d s)) = last_code (String.◌∷◌ d s)

abbrev pub without_last : String → String
without_last String.[] = ""
without_last (String.◌∷◌ c String.[]) = ""
without_last (String.◌∷◌ c (String.◌∷◌ d s)) = String.◌∷◌ c (without_last (String.◌∷◌ d s))

-- s[1 : len(s)-1]
abbrev pub inner : String → String
inner String.[] = ""
inner (String.◌∷◌ c s) = without_last s

-- Whether no parenthesis closes the first one before the end.
pub encloses : Scan → String → Bool
encloses st String.[] = true
encloses st (String.◌∷◌ c s) =
    let closes =
      eqb st.skip 0 && eqb st.quote 0 && eqb (code c) b')' && eqb st.depth 1 && not (is_empty s) in
    let rest = encloses (after st (code c) s) s in if closes then false else rest

pub is_wrapped : String → Bool
unfolding encloses
is_wrapped String.[] = false
is_wrapped (String.◌∷◌ c String.[]) = false
is_wrapped (String.◌∷◌ c (String.◌∷◌ d s)) =
    eqb (code c) b'('
    && eqb (last_code (String.◌∷◌ d s)) b')'
    && encloses start (String.◌∷◌ c (String.◌∷◌ d s))

-- The loop, on fuel; each round takes two characters off.
unfoldable pub strip_parens : (fuel : ℕ) → String → String
unfolding is_wrapped
strip_parens zero s = s
strip_parens (suc fuel) s = elim (is_wrapped s) [
  | true ↦ strip_parens fuel (trim_space (inner s))
  | false ↦ s
]

unfoldable pub strip_enclosing_parens : String → String
strip_enclosing_parens s = strip_parens (size s) s
