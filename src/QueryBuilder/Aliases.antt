-- ===== src/QueryBuilder/Aliases.antt =====
-- pkg/types/querybuilder.go: the texts that the bounds of a query are read from. A text is read by its
-- code points, where the code reads bytes and compares them with ASCII only.

use signoz_mcp_server.Base.{
  ℕ, ◌+◌, ◌-◌, String, code, Bool, true, false, not, ◌&&◌, ◌||◌, Option, none, some, List, [], ◌∷◌,
  leb, eqb, ◌==◌, if◌then◌else◌, trim_space, to_lower,
}
use signoz_mcp_server.Base.Any.{Any, object, get}
use signoz_mcp_server.Base.Strings.{cut_prefix}
use signoz_mcp_server.DashboardBuilder.Filter.{string_of}

abbrev pub is_formula_identifier_byte : ℕ → Bool
is_formula_identifier_byte b =
    eqb b b'_' || (leb b'a' b && leb b b'z') || (leb b'0' b && leb b b'9')

unfoldable pub ends_identifier : String → Bool
ends_identifier String.[] = true
ends_identifier (String.◌∷◌ c s) = not (is_formula_identifier_byte (code c))

-- The loop: whether the name stands alone at a place of what is left, with `previous` before it (0
-- at the start).
unfoldable pub references_from : (previous : ℕ) (expression name : String) → Bool
unfolding ends_identifier
references_from previous String.[] name = false
references_from previous (String.◌∷◌ c s) name =
    let later = references_from (code c) s name in
    elim (cut_prefix (String.◌∷◌ c s) name) [
      | none ↦ later
      | some rest ↦
          if not (is_formula_identifier_byte previous) && ends_identifier rest then true else later
    ]

unfoldable pub formula_references_query : (expression query_name : String) → Bool
formula_references_query expression query_name =
    let name = to_lower (trim_space query_name) in
    if name == "" then false else references_from 0 (to_lower expression) name

-- The loop's variables: the open quote is 0 if there is none; `skip` characters are passed over.
pub record AliasScan : Type 0 where
  pub depth : ℕ
  pub quote : ℕ
  pub escaped : Bool
  pub skip : ℕ

abbrev pub alias_start : AliasScan
alias_start = record { depth = 0; quote = 0; escaped = false; skip = 0 }

abbrev pub is_alias_quote : ℕ → Bool
is_alias_quote c = eqb c 39 || eqb c 34 || eqb c 96

abbrev pub is_letter : (c lower : ℕ) → Bool
is_letter c lower = eqb c lower || eqb (c + 32) lower

-- Whether " AS " begins here, in upper or lower case.
unfoldable pub begins_alias : String → Bool
begins_alias (String.◌∷◌ c (String.◌∷◌ d (String.◌∷◌ e (String.◌∷◌ f s)))) =
    eqb (code c) 32 && is_letter (code d) b'a' && is_letter (code e) b's' && eqb (code f) 32
begins_alias _ = false

unfoldable pub is_alias_at : AliasScan → String → Bool
unfolding begins_alias
is_alias_at st s = eqb st.skip 0 && eqb st.quote 0 && eqb st.depth 0 && begins_alias s

unfoldable pub after_alias_char : AliasScan → (c : ℕ) (is_alias : Bool) → AliasScan
after_alias_char st c is_alias =
    if not (eqb st.skip 0)
    then record st { skip = st.skip - 1 }
    else if not (eqb st.quote 0)
    then (if st.escaped
        then record st { escaped = false }
        else if eqb c 92
        then record st { escaped = true }
        else if eqb c st.quote
        then record st { quote = 0 }
        else st)
    else if is_alias_quote c
    then record st { quote = c }
    else if eqb c b'('
    then record st { depth = st.depth + 1 }
    else if eqb c b')'
    then record st { depth = st.depth - 1 }
    else if is_alias
    then record st { skip = 3 }
    else st

-- What is in front of the last alias: expression[:topLevelAliasIndex(expression)].
unfoldable pub before_alias : AliasScan → String → Option String
before_alias st String.[] = none
before_alias st (String.◌∷◌ c s) =
    let found = is_alias_at st (String.◌∷◌ c s) in
    let later = before_alias (after_alias_char st (code c) found) s in
    elim later [ some front ↦ some (String.◌∷◌ c front) | none ↦ if found then some "" else none ]

-- The expression without its alias, which has a place behind the first character.
unfoldable pub strip_alias : String → String
strip_alias s = elim (before_alias alias_start s) [
  | none ↦ s
  | some front ↦ if front == "" then s else trim_space front
]

unfoldable pub expression_of : Any → String
expression_of (object m) = string_of (get m "expression")
expression_of _ = ""

unfoldable pub primary_aggregation_expression : List Any → String
unfolding strip_alias expression_of
primary_aggregation_expression [] = ""
primary_aggregation_expression (aggregation ∷ rest) =
    strip_alias (trim_space (expression_of aggregation))
