-- ===== src/DashboardBuilder/Having/Clauses.antt =====
-- pkg/dashboard/dashboardbuilder/normalize.go: the clauses of a having expression.
pub mod Whole
use Prim.Native.String
use signoz_mcp_server.Base.{
  ℕ, zero, suc, String, code, Bool, true, false, not, ◌&&◌, ◌||◌, Option, none, some, List, [], ◌∷◌,
  ◌++◌, leb, eqb, ◌==◌, if◌then◌else◌, trim_space, size,
}
use signoz_mcp_server.Base.Any.{Any, Float64, string, integer, int64, float, object, field, done}
use signoz_mcp_server.Base.Decimal.{parse_int}
use signoz_mcp_server.Base.Strings.{cut_prefix}
use signoz_mcp_server.DashboardBuilder.Having.{
  Scan, start, after, is_top_level, is_quote, last_code, inner, split_top_level_and,
  contains_top_level_boolean, strip_enclosing_parens,
}

pub record HavingClause : Type 0 where
  pub column_name : String
  pub op : String
  pub value : Any

abbrev pub having_ops : List String
having_ops = ">=" ∷ "<=" ∷ "!=" ∷ "=" ∷ ">" ∷ "<" ∷ []

abbrev pub unsupported_ops : List String
unsupported_ops = "<>" ∷ "==" ∷ "=<" ∷ "=>" ∷ []

-- The first of the operators that a text begins with, and what follows it.
pub cut_op : List String → String → Option (String × String)
cut_op [] s = none
cut_op (op ∷ ops) s =
    let later = cut_op ops s in
    elim (cut_prefix s op) [ some rest ↦ some (op, rest) | none ↦ later ]

-- A text at its first operator outside quotes and parentheses.
pub data Cut : Type 0 where
  cut_at : (lhs op rhs : String) → Cut
  unsupported no_operator : Cut

pub is_cut : Option (String × String) → Bool
is_cut (some x) = true
is_cut none = false

pub cut_of : Option (String × String) → Cut
cut_of (some (op, rhs)) = cut_at "" op rhs
cut_of none = no_operator

pub onto_lhs : String → Cut → Cut
onto_lhs c (cut_at lhs op rhs) = cut_at (String.◌++◌ c lhs) op rhs
onto_lhs c unsupported = unsupported
onto_lhs c no_operator = no_operator

unfoldable pub cut_from : Scan → String → Cut
unfolding cut_op is_cut cut_of onto_lhs
cut_from st String.[] = no_operator
cut_from st (String.◌∷◌ c s) =
    let later = onto_lhs (String.◌∷◌ c "") (cut_from (after st (code c) s) s) in
    if is_top_level st (code c)
    then (if is_cut (cut_op unsupported_ops (String.◌∷◌ c s))
        then unsupported
        else if is_cut (cut_op having_ops (String.◌∷◌ c s))
        then cut_of (cut_op having_ops (String.◌∷◌ c s))
        else later)
    else later

abbrev pub first_code : String → ℕ
first_code String.[] = 0
first_code (String.◌∷◌ c s) = code c

module _ (parse_float : String → Option Float64) where
  unfoldable pub parse_having_value : String → Any
  parse_having_value s =
      if leb 2 (size s) && is_quote (first_code s) && eqb (first_code s) (last_code s)
      then string (inner s)
      else elim (parse_int s) [
        | some i ↦ integer int64 i
        | none ↦ elim (parse_float s) [ some f ↦ float f | none ↦ string s ]
      ]

  pub clause_of : Cut → Option HavingClause
  unfolding parse_having_value
  clause_of unsupported = none
  clause_of no_operator = none
  clause_of (cut_at lhs op rhs) =
      if trim_space lhs == "" || trim_space rhs == ""
      then none
      else if contains_top_level_boolean (trim_space rhs)
      then none
      else some record {
        column_name = trim_space lhs;
        op = op;
        value = parse_having_value (trim_space rhs);
      }

  unfoldable pub parse_having_clause : String → Option HavingClause
  unfolding clause_of
  parse_having_clause s =
      let stripped = strip_enclosing_parens (trim_space s) in
      if stripped == "" then none else clause_of (cut_from start stripped)

  pub append_to :
      Option (List HavingClause) → Option (List HavingClause) → Option (List HavingClause)
  append_to (some sub) (some rest) = some (sub ++ rest)
  append_to none rest = none
  append_to (some sub) none = none

  pub one_clause : Option HavingClause → Option (List HavingClause)
  one_clause none = none
  one_clause (some clause) = some (clause ∷ [])

  -- The clauses of one part: those of the group that it wraps, where that can be parsed.
  unfoldable pub parse_part :
      (String → Option (List HavingClause)) → String → Option (List HavingClause)
  unfolding one_clause
  parse_part group p =
      let trimmed = trim_space p in
      let stripped = strip_enclosing_parens trimmed in
      if stripped == trimmed
      then one_clause (parse_having_clause trimmed)
      else elim (group stripped) [
        | some sub ↦ some sub
        | none ↦ one_clause (parse_having_clause trimmed)
      ]

  unfoldable pub parse_parts :
      (String → Option (List HavingClause)) → List String → Option (List HavingClause)
  unfolding append_to
  parse_parts group [] = some []
  parse_parts group (p ∷ ps) = append_to (parse_part group p) (parse_parts group ps)

  -- On fuel, one for each level of groups.
  unfoldable pub parse_expression : (fuel : ℕ) → String → Option (List HavingClause)
  parse_expression zero expr = none
  parse_expression (suc fuel) expr =
      elim (split_top_level_and (strip_enclosing_parens (trim_space expr))) [
        | none ↦ none
        | some parts ↦ parse_parts (parse_expression fuel) parts
      ]

  unfoldable pub parse_having_expression : String → Option (List HavingClause)
  unfolding parse_expression
  parse_having_expression expr = parse_expression (suc (size expr)) expr
