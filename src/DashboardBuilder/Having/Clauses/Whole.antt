-- ===== src/DashboardBuilder/Having/Clauses/Whole.antt =====
-- The clauses that are read from a having expression have what a clause needs.

use mathlib.Core.Path.{subst}
use signoz_mcp_server.Base.{
  ℕ, zero, suc, String, code, ◌≡◌, ◌⊎◌, inl, inr, refl, false, Option, none, some, List, [], ◌∷◌,
  ◌++◌, All, ◌==◌, Bool-cases, Option-cases, trim_space, arith, ◌||◌, size,
}
use signoz_mcp_server.Base.Any.{Float64}
use signoz_mcp_server.Base.Strings.{cut_prefix}
use signoz_mcp_server.DashboardBuilder.Having.{
  Scan, start, after, is_top_level, split_top_level_and, strip_enclosing_parens,
  contains_top_level_boolean,
}
use signoz_mcp_server.DashboardBuilder.Having.Clauses.{
  HavingClause, having_ops, unsupported_ops, cut_op, is_cut, cut_of, Cut, cut_at, unsupported,
  no_operator, onto_lhs, cut_from, clause_of, parse_having_clause, parse_part, one_clause,
  append_to, parse_parts, parse_expression, parse_having_expression,
}

abbrev pub IsOneOf : String → List String → Type 0
IsOneOf op [] = ⊥
IsOneOf op (o ∷ ops) = (op ≡ o) ⊎ IsOneOf op ops

cut_op_cases :
    (ops : List String) (s : String)
    → (cut_op ops s ≡ none)
      ⊎ ((op rest : String) × (cut_op ops s ≡ some (op, rest)) × IsOneOf op ops)
unfolding cut_op
cut_op_cases [] s = inl refl
cut_op_cases (o ∷ ops) s = elim (Option-cases (cut_prefix s o)) [
  | inr (rest, e) ↦ inr (o, rest, rw (e, cut_op), inl refl)
  | inl e ↦ elim (cut_op_cases ops s) [
    | inl missed ↦ inl (rw (e, missed, cut_op))
    | inr (op, rest, found, known) ↦ inr (op, rest, rw (e, found, cut_op), inr known)
  ]
]

IsHavingCut : Cut → Type 0
IsHavingCut (cut_at lhs op rhs) = IsOneOf op having_ops
IsHavingCut _ = Unit

onto_lhs-IsHavingCut : (c : String) (cut : Cut) → IsHavingCut cut → IsHavingCut (onto_lhs c cut)
unfolding IsHavingCut onto_lhs
onto_lhs-IsHavingCut c (cut_at lhs op rhs) h = h
onto_lhs-IsHavingCut c unsupported h = tt
onto_lhs-IsHavingCut c no_operator h = tt

cut_from-IsHavingCut : (st : Scan) (s : String) → IsHavingCut (cut_from st s)
unfolding cut_from IsHavingCut
cut_from-IsHavingCut st String.[] = tt
cut_from-IsHavingCut st (String.◌∷◌ c s) =
    let text = String.◌∷◌ c s in
    let later =
      onto_lhs-IsHavingCut (String.◌∷◌ c "") (cut_from (after st (code c) s) s)
        (cut_from-IsHavingCut (after st (code c) s) s) in
    elim (Bool-cases (is_top_level st (code c))) [
      | inr within ↦ rw (within, cut_from) later
      | inl top ↦ elim (Bool-cases (is_cut (cut_op unsupported_ops text))) [
        | inl e ↦ rw (top, e, cut_from, IsHavingCut) tt
        | inr supported ↦ elim (cut_op_cases having_ops text) [
          | inr (op, rest, e, known) ↦ rw (top, supported, e, cut_from, cut_of, IsHavingCut) known
          | inl missed ↦ rw (top, supported, missed, cut_from) later
        ]
      ]
    ]

-- What a clause has: one of the six operators, and a column.
abbrev pub IsWhole : HavingClause → Type 0
IsWhole c = IsOneOf c.op having_ops × ((c.column_name == "") ≡ false)

IsWholeClause : Option HavingClause → Type 0
IsWholeClause none = Unit
IsWholeClause (some c) = IsWhole c

AreWhole : Option (List HavingClause) → Type 0
AreWhole none = Unit
AreWhole (some cs) = All IsWhole cs

module _ (parse_float : String → Option Float64) where
  clause_of-IsWhole : (cut : Cut) → IsHavingCut cut → IsWholeClause (clause_of parse_float cut)
  unfolding clause_of IsWholeClause IsHavingCut
  clause_of-IsWhole unsupported h = tt
  clause_of-IsWhole no_operator h = tt
  clause_of-IsWhole (cut_at lhs op rhs) h =
      elim (Bool-cases (trim_space lhs == "" || trim_space rhs == "")) [
        | inl e ↦ rw (e, IsWholeClause) tt
        | inr e ↦ elim (Bool-cases (contains_top_level_boolean (trim_space rhs))) [
          | inl boolean ↦ rw (e, boolean, IsWholeClause) tt
          | inr plain_value ↦ rw (e, plain_value, IsWholeClause) (h, ground arith)
        ]
      ]

  parse_having_clause-IsWhole : (s : String) → IsWholeClause (parse_having_clause parse_float s)
  unfolding parse_having_clause IsWholeClause
  parse_having_clause-IsWhole s =
      let stripped = strip_enclosing_parens (trim_space s) in
      elim (Bool-cases (stripped == "")) [
        | inl e ↦ rw (e, IsWholeClause) tt
        | inr e ↦
            rw e (clause_of-IsWhole (cut_from start stripped) (cut_from-IsHavingCut start stripped))
      ]

  one_clause-AreWhole :
      (c : Option HavingClause) → IsWholeClause c → AreWhole (one_clause parse_float c)
  unfolding one_clause AreWhole IsWholeClause
  one_clause-AreWhole none h = tt
  one_clause-AreWhole (some c) h = (h, tt)

  All-append :
      (cs ds : List HavingClause) → All IsWhole cs → All IsWhole ds → All IsWhole (cs ++ ds)
  All-append [] ds h k = k
  All-append (c ∷ cs) ds (h, hs) k = (h, All-append cs ds hs k)

  append_to-AreWhole :
      (a b : Option (List HavingClause))
      → AreWhole a
      → AreWhole b
      → AreWhole (append_to parse_float a b)
  unfolding append_to AreWhole
  append_to-AreWhole none b h k = tt
  append_to-AreWhole (some sub) none h k = tt
  append_to-AreWhole (some sub) (some rest) h k = All-append sub rest h k

  parse_part-AreWhole :
      (group : String → Option (List HavingClause)) (p : String)
      → ((s : String) → AreWhole (group s))
      → AreWhole (parse_part parse_float group p)
  unfolding parse_part
  parse_part-AreWhole group p h =
      let trimmed = trim_space p in
      let stripped = strip_enclosing_parens trimmed in
      let single =
        one_clause-AreWhole (parse_having_clause parse_float trimmed)
          (parse_having_clause-IsWhole trimmed) in
      elim (Bool-cases (stripped == trimmed)) [
        | inl e ↦ rw e single
        | inr e ↦ elim (Option-cases (group stripped)) [
          | inl failed ↦ rw (e, failed) single
          | inr (sub, found) ↦ rw (e, found) (subst AreWhole found (h stripped))
        ]
      ]

  parse_parts-AreWhole :
      (group : String → Option (List HavingClause)) (ps : List String)
      → ((s : String) → AreWhole (group s))
      → AreWhole (parse_parts parse_float group ps)
  unfolding parse_parts AreWhole
  parse_parts-AreWhole group [] h = tt
  parse_parts-AreWhole group (p ∷ ps) h =
      append_to-AreWhole (parse_part parse_float group p) (parse_parts parse_float group ps)
        (parse_part-AreWhole group p h) (parse_parts-AreWhole group ps h)

  parse_expression-AreWhole :
      (fuel : ℕ) (expr : String) → AreWhole (parse_expression parse_float fuel expr)
  unfolding parse_expression AreWhole
  parse_expression-AreWhole zero expr = tt
  parse_expression-AreWhole (suc fuel) expr =
      elim (Option-cases (split_top_level_and (strip_enclosing_parens (trim_space expr)))) [
        | inl e ↦ rw (e, parse_expression, AreWhole) tt
        | inr (parts, e) ↦
            rw (e, AreWhole)
              (parse_parts-AreWhole (parse_expression parse_float fuel) parts
                (parse_expression-AreWhole fuel))
      ]

  -- Every clause that is read from a having expression has one of the operators >=, <=, !=, =, > and
  -- <, and a column that is not empty.
  pub parse_having_expression-IsWhole :
      (expr : String) (clauses : List HavingClause)
      → parse_having_expression parse_float expr ≡ some clauses
      → All IsWhole clauses
  unfolding parse_having_expression AreWhole
  parse_having_expression-IsWhole expr clauses h =
      subst AreWhole h (parse_expression-AreWhole (suc (size expr)) expr)
