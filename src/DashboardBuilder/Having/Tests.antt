-- ===== src/DashboardBuilder/Having/Tests.antt =====
-- Runs of the parser of having expressions.
use mathlib.Core.Option
use signoz_mcp_server.Base.{
  String, ◌≡◌, refl, Option, none, some, List, [], ◌∷◌, All, map, trim_space, arith,
}
use signoz_mcp_server.Base.Any.{Float64, string, integer, int64}
use signoz_mcp_server.Base.Int.{pos}
use signoz_mcp_server.Base.Decimal.{parse_int}
use signoz_mcp_server.Base.Strings.{cut_prefix}
use signoz_mcp_server.DashboardBuilder.Having.{
  split_top_level_and, split_from, strip_enclosing_parens, strip_parens, contains_top_level_boolean,
  boolean_from, mark_of, after,
}
use signoz_mcp_server.DashboardBuilder.Having.Clauses.{
  HavingClause, parse_having_expression, parse_expression, parse_parts, parse_part,
  parse_having_clause, cut_from,
}
use signoz_mcp_server.DashboardBuilder.Having.Clauses.Whole.{
  IsWhole, parse_having_expression-IsWhole,
}
use signoz_mcp_server.DashboardBuilder.Having.Enough.{round, parse_having_expression_unrolled}
use signoz_mcp_server.DashboardBuilder.Having.Joined.{
  IsOperand, final, join_and, split_top_level_and-join_and,
}

abbrev parse_float : String → Option Float64
parse_float s = none

groups_split :
    split_top_level_and "(a or b) and android > 1 && x = 'p and q'"
    ≡ some ("(a or b) " ∷ " android > 1 " ∷ " x = 'p and q'" ∷ [])
unfolding split_top_level_and split_from mark_of after
groups_split = refl

parses :
    parse_having_expression parse_float "((count() > 5) AND sum(x) != 'a')"
    ≡ some (
        record { column_name = "count()"; op = ">"; value = integer int64 (pos 5) }
        ∷ record { column_name = "sum(x)"; op = "!="; value = string "a" }
        ∷ [])
unfolding parse_having_expression parse_parts parse_part parse_having_clause cut_from
    strip_enclosing_parens strip_parens split_top_level_and split_from contains_top_level_boolean
    boolean_from mark_of after trim_space parse_int cut_prefix
parses = refl

or_refused : parse_having_expression parse_float "(a > 5 OR b < 1)" ≡ none
unfolding parse_having_expression parse_parts parse_part parse_having_clause cut_from
    strip_enclosing_parens strip_parens split_top_level_and split_from contains_top_level_boolean
    boolean_from mark_of after trim_space parse_int cut_prefix
or_refused = refl

abbrev first_operand : String
first_operand = "count() > 5"

abbrev later_operands : List String
later_operands = "sum(x) != 'p and q'" ∷ "(a or b) < 1" ∷ []

operands-IsOperand : All IsOperand (first_operand ∷ later_operands)
unfolding boolean_from mark_of after final
operands-IsOperand =
    ((refl, (refl, refl, refl)), ((refl, (refl, refl, refl)), ((refl, (refl, refl, refl)), tt)))

split_top_level_and-join_and_example :
    Option.map (map trim_space) (split_top_level_and (join_and (first_operand ∷ later_operands)))
    ≡ some (map trim_space (first_operand ∷ later_operands))
split_top_level_and-join_and_example =
    split_top_level_and-join_and first_operand later_operands operands-IsOperand

abbrev grouped : String
grouped = "((count() > 5) AND sum(x) != 'a')"

abbrev grouped_clauses : List HavingClause
grouped_clauses =
    record { column_name = "count()"; op = ">"; value = integer int64 (pos 5) }
    ∷ record { column_name = "sum(x)"; op = "!="; value = string "a" }
    ∷ []

parse_having_expression-IsWhole_example : All IsWhole grouped_clauses
parse_having_expression-IsWhole_example =
    parse_having_expression-IsWhole parse_float grouped grouped_clauses parses

parse_having_expression_unrolled_example :
    (parse_expression parse_float 40 grouped ≡ parse_having_expression parse_float grouped)
    × (parse_having_expression parse_float grouped
        ≡ round parse_float (parse_having_expression parse_float) grouped)
parse_having_expression_unrolled_example =
    parse_having_expression_unrolled parse_float grouped 40 (omega arith)
