-- ===== src/DashboardBuilder/Having/Enough.antt =====
-- The parser of having expressions ends: a group is shorter than the part that wraps it.

use mathlib.Core.Path.{subst}
use signoz_mcp_server.Base.{
  ℕ, zero, suc, ◌≤◌, ◌<◌, String, Char, code, ◌≡◌, ◌⊎◌, inl, inr, refl, ap, true, Option, none,
  some, List, [], ◌∷◌, All, eq_iff, arith, Bool-cases, Option-cases, trim_space, size,
  size-trim_space,
}
use signoz_mcp_server.Base.Any.{Float64}
use signoz_mcp_server.DashboardBuilder.Having.{
  Scan, start, after, mark_of, onto_first, new_part, split_from, is_wrapped, inner, without_last,
  split_top_level_and, strip_parens, strip_enclosing_parens,
}
use signoz_mcp_server.DashboardBuilder.Having.Scans.{Mark-cases}
use signoz_mcp_server.DashboardBuilder.Having.Clauses.{
  HavingClause, parse_part, parse_parts, parse_expression, parse_having_expression,
}

size-without_last : (c : Char) (s : String) → size (without_last (String.◌∷◌ c s)) ≡ size s
size-without_last c String.[] = refl
size-without_last c (String.◌∷◌ d s) = ap suc (size-without_last d s)

size-inner : (s : String) → is_wrapped s ≡ true → size (inner s) < size s
unfolding is_wrapped
size-inner String.[] h = absurd cc
size-inner (String.◌∷◌ c String.[]) h = absurd cc
size-inner (String.◌∷◌ c (String.◌∷◌ d s)) h = omega (arith, size-without_last d s)

size-strip_parens : (fuel : ℕ) (s : String) → size (strip_parens fuel s) ≤ size s
unfolding strip_parens
size-strip_parens zero s = omega arith
size-strip_parens (suc fuel) s = elim (Bool-cases (is_wrapped s)) [
  | inl wrapped ↦
      rw (wrapped, strip_parens)
        (omega (
          arith,
          size-strip_parens fuel (trim_space (inner s)),
          size-trim_space (inner s),
          size-inner s wrapped,
        ))
  | inr bare ↦ rw (bare, strip_parens) (omega arith)
]

-- What is stripped is shorter, if it is not the text itself.
strip_parens_cases :
    (fuel : ℕ) (s : String) → (strip_parens fuel s ≡ s) ⊎ (size (strip_parens fuel s) < size s)
unfolding strip_parens
strip_parens_cases zero s = inl refl
strip_parens_cases (suc fuel) s = elim (Bool-cases (is_wrapped s)) [
  | inl wrapped ↦ inr (
      rw (wrapped, strip_parens)
        (omega (
          arith,
          size-strip_parens fuel (trim_space (inner s)),
          size-trim_space (inner s),
          size-inner s wrapped,
        )))
  | inr bare ↦ inl (rw (bare, strip_parens) refl)
]

abbrev IsWithin : ℕ → Option (List String) → Type 0
IsWithin n none = Unit {0}
IsWithin n (some ps) = All (λ p. size p ≤ n) ps

All-within :
    (m n : ℕ) (ps : List String) → m ≤ n → All (λ p. size p ≤ m) ps → All (λ p. size p ≤ n) ps
All-within m n [] h a = tt
All-within m n (p ∷ ps) h (a, rest) = (omega arith, All-within m n ps h rest)

onto_first-IsWithin :
    (c : Char) (n : ℕ) (o : Option (List String)) → IsWithin n o → IsWithin (suc n) (onto_first c o)
unfolding onto_first
onto_first-IsWithin c n none h = tt
onto_first-IsWithin c n (some []) h = tt
onto_first-IsWithin c n (some (p ∷ ps)) (a, rest) =
    (omega arith, All-within n (suc n) ps (omega arith) rest)

new_part-IsWithin :
    (n : ℕ) (o : Option (List String)) → IsWithin n o → IsWithin (suc n) (new_part o)
unfolding new_part
new_part-IsWithin n none h = tt
new_part-IsWithin n (some ps) h = (omega arith, All-within n (suc n) ps (omega arith) h)

later-IsWithin : (n : ℕ) (o : Option (List String)) → IsWithin n o → IsWithin (suc n) o
later-IsWithin n none h = tt
later-IsWithin n (some ps) h = All-within n (suc n) ps (omega arith) h

split_from-IsWithin :
    (dropping : ℕ) (st : Scan) (s : String) → IsWithin (size s) (split_from dropping st s)
unfolding split_from
split_from-IsWithin zero st String.[] = (omega arith, tt)
split_from-IsWithin (suc dropping) st String.[] = (omega arith, tt)
split_from-IsWithin (suc dropping) st (String.◌∷◌ c s) =
    later-IsWithin (size s) (split_from dropping (record st { previous = code c }) s)
      (split_from-IsWithin dropping (record st { previous = code c }) s)
split_from-IsWithin zero st (String.◌∷◌ c s) = elim (Mark-cases (mark_of st (code c) s)) [
  | inl e ↦
      rw (e, split_from)
        (onto_first-IsWithin c (size s) (split_from zero (after st (code c) s) s)
          (split_from-IsWithin zero (after st (code c) s) s))
  | inr (inl e) ↦ rw (e, split_from) tt
  | inr (inr (more, e)) ↦
      rw (e, split_from)
        (new_part-IsWithin (size s) (split_from more (record st { previous = code c }) s)
          (split_from-IsWithin more (record st { previous = code c }) s))
]

-- parseHavingExpression, with what it calls for a wrapped part as an argument
pub round :
    (String → Option Float64)
    → (String → Option (List HavingClause))
    → String
    → Option (List HavingClause)
round parse_float group expr =
    elim (split_top_level_and (strip_enclosing_parens (trim_space expr))) [
      | none ↦ none
      | some parts ↦ parse_parts parse_float group parts
    ]

module _ (parse_float : String → Option Float64) where
  -- Two readers of groups that agree on the texts shorter than a part agree on the part.
  parse_part-agree :
      (f g : String → Option (List HavingClause)) (p : String)
      → ((s : String) → size s < size p → f s ≡ g s)
      → parse_part parse_float f p ≡ parse_part parse_float g p
  unfolding parse_part strip_enclosing_parens
  parse_part-agree f g p agree =
      let trimmed = trim_space p in
      elim (strip_parens_cases (size trimmed) trimmed) [
        | inl same ↦
            rw ((eq_iff (strip_parens (size (trim_space p)) (trim_space p)) (trim_space p)).1 same)
        | inr shorter ↦ rw (
            agree (strip_parens (size (trim_space p)) (trim_space p))
              (omega (arith, size-trim_space p)))
      ]

  parse_parts-agree :
      (f g : String → Option (List HavingClause)) (n : ℕ) (ps : List String)
      → ((s : String) → size s < n → f s ≡ g s)
      → All (λ p. size p ≤ n) ps
      → parse_parts parse_float f ps ≡ parse_parts parse_float g ps
  unfolding parse_parts
  parse_parts-agree f g n [] agree h = refl
  parse_parts-agree f g n (p ∷ ps) agree (a, rest) =
      let first = parse_part-agree f g p (λ s shorter. agree s (omega arith)) in
      let later = parse_parts-agree f g n ps agree rest in rw (first, later)

  round-agree :
      (f g : String → Option (List HavingClause)) (expr : String)
      → ((s : String) → size s < size expr → f s ≡ g s)
      → round parse_float f expr ≡ round parse_float g expr
  unfolding round strip_enclosing_parens split_top_level_and
  round-agree f g expr agree =
      let body = strip_parens (size (trim_space expr)) (trim_space expr) in
      let within = split_from-IsWithin 0 start body in
      let short : size body ≤ size expr = omega (
        arith,
        size-strip_parens (size (trim_space expr)) (trim_space expr),
        size-trim_space expr,
      ) in
      elim (Option-cases (split_from 0 start body)) [
        | inl e ↦ rw (e, round)
        | inr (parts, e) ↦
            rw (e, round)
              (parse_parts-agree f g (size expr) parts agree (
                All-within (size body) (size expr) parts short
                  (subst (λ o. IsWithin (size body) o) e within)))
      ]

  -- Every fuel above the length of the expression gives the same result.
  parse_expression-agree :
      (f g : ℕ) (expr : String)
      → size expr < f
      → size expr < g
      → parse_expression parse_float f expr ≡ parse_expression parse_float g expr
  unfolding parse_expression round
  parse_expression-agree zero g expr h k = elim h [ ]
  parse_expression-agree (suc f) zero expr h k = elim k [ ]
  parse_expression-agree (suc f) (suc g) expr h k =
      round-agree (parse_expression parse_float f) (parse_expression parse_float g) expr
        (λ s shorter. parse_expression-agree f g s (omega arith) (omega arith))

  -- The recursion of the parser ends by itself: the result is that of one round in which every
  -- wrapped part is parsed by the parser itself, and any larger fuel gives it as well.
  pub parse_having_expression_unrolled :
      (expr : String) (fuel : ℕ)
      → size expr < fuel
      → (parse_expression parse_float fuel expr ≡ parse_having_expression parse_float expr)
        × (parse_having_expression parse_float expr
            ≡ round parse_float (parse_having_expression parse_float) expr)
  unfolding parse_having_expression parse_expression round
  parse_having_expression_unrolled expr fuel h = (
    parse_expression-agree fuel (suc (size expr)) expr h (omega arith),
    round-agree (parse_expression parse_float (size expr)) (parse_having_expression parse_float)
        expr
        (λ s shorter. parse_expression-agree (size expr) (suc (size s)) s shorter (omega arith)),
  )
