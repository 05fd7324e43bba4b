-- ===== src/DashboardBuilder/Having/Joined.antt =====
-- Operands that are joined by AND are what the split gives back.

use mathlib.Core.Option
use text.Mathlib.TextLemmas.{nil-append, cons-append}
use signoz_mcp_server.Base.{
  ℕ, String, Char, code, ◌≡◌, ◌⊎◌, inl, inr, refl, ap, false, Option, some, List, [], ◌∷◌, All, map,
  ◌<>◌, eqb, arith, trim_space, trim_space-append_space, trim_space-space,
}
use signoz_mcp_server.DashboardBuilder.Having.{
  Scan, start, after, mark_of, mark_at, is_top_level, starts_with, is_or_tail, is_and_tail,
  at_boundary, is_empty, onto_first, new_part, split_from, boolean_from, split_top_level_and,
}
use signoz_mcp_server.DashboardBuilder.Having.Scans.{Mark-cases, split_whole}

-- A space and what follows it.
abbrev spaced : String → String
spaced t = String.◌∷◌ " " t

abbrev pub and_then : String → String
and_then t = String.◌∷◌ " " (String.◌∷◌ "A" (String.◌∷◌ "N" (String.◌∷◌ "D" (String.◌∷◌ " " t))))

pub join_and : List String → String
join_and [] = ""
join_and (t ∷ []) = t
join_and (t ∷ u ∷ ts) = t <> and_then (join_and (u ∷ ts))

-- The variables of the scan at the end of a text.
unfoldable pub final : Scan → String → Scan
final st String.[] = st
final st (String.◌∷◌ c s) = final (after st (code c) s) s

-- Every quote and parenthesis is closed.
abbrev pub IsClosed : Scan → Type 0
IsClosed st = (st.depth ≡ 0) × (st.quote ≡ 0) × (st.skip ≡ 0)

-- A text without a boolean operator at the top level, with its quotes and parentheses closed.
abbrev pub IsOperand : String → Type 0
IsOperand t = (boolean_from start t ≡ false) × IsClosed (final start t)

starts_with-spaced :
    (b : ℕ) (r t : String) → eqb 32 b ≡ false → starts_with b (r <> spaced t) ≡ starts_with b r
unfolding starts_with
starts_with-spaced b String.[] t h = rw nil-append h
starts_with-spaced b (String.◌∷◌ c r) t h = rw cons-append

at_boundary-spaced : (r t : String) → at_boundary (r <> spaced t) ≡ at_boundary r
unfolding at_boundary
at_boundary-spaced String.[] t = rw nil-append
at_boundary-spaced (String.◌∷◌ c r) t = rw cons-append

is_or_tail-spaced : (r t : String) → is_or_tail (r <> spaced t) ≡ is_or_tail r
unfolding is_or_tail
is_or_tail-spaced String.[] t = rw nil-append
is_or_tail-spaced (String.◌∷◌ c r) t = rw (cons-append, at_boundary-spaced r t)

blank_and_tail : (t : String) → is_and_tail (spaced t) ≡ false
unfolding is_and_tail
blank_and_tail String.[] = refl
blank_and_tail (String.◌∷◌ d r) = refl

is_and_tail-spaced : (r t : String) → is_and_tail (r <> spaced t) ≡ is_and_tail r
unfolding is_and_tail
is_and_tail-spaced String.[] t = rw nil-append (blank_and_tail t)
is_and_tail-spaced (String.◌∷◌ c String.[]) t = rw (cons-append, nil-append) (ground arith)
is_and_tail-spaced (String.◌∷◌ c (String.◌∷◌ d r)) t =
    rw (cons-append, cons-append, at_boundary-spaced r t)

mark_of-spaced : (st : Scan) (c : ℕ) (r t : String) → mark_of st c (r <> spaced t) ≡ mark_of st c r
unfolding mark_of mark_at
mark_of-spaced st c r t = rw (
  starts_with-spaced b'|' r t refl,
  starts_with-spaced b'&' r t refl,
  is_or_tail-spaced r t,
  is_and_tail-spaced r t,
)

-- A quote that is open is one of the two.
abbrev IsQuoting : Scan → Type 0
IsQuoting st = (st.quote ≡ 0) ⊎ (st.quote ≡ 34) ⊎ (st.quote ≡ 39)

after-IsQuoting : (st : Scan) (c : ℕ) (r : String) → IsQuoting st → IsQuoting (after st c r)
unfolding after
after-IsQuoting st c r h = ground arith

after-spaced :
    (st : Scan) (c : ℕ) (r t : String)
    → IsQuoting st
    → IsClosed (final (after st c r) r)
    → after st c (r <> spaced t) ≡ after st c r
unfolding after final is_empty
after-spaced st c String.[] t quoting h = rw nil-append (ground arith)
after-spaced st c (String.◌∷◌ d r) t quoting h = rw cons-append

-- The characters of a text in front of the first part.
onto_all : String → Option (List String) → Option (List String)
onto_all String.[] o = o
onto_all (String.◌∷◌ c s) o = onto_first c (onto_all s o)

split-spaced :
    (st : Scan) (a t : String)
    → IsQuoting st
    → boolean_from st a ≡ false
    → IsClosed (final st a)
    → split_from 0 st (a <> spaced t) ≡ onto_all a (split_from 0 (final st a) (spaced t))
unfolding split_from boolean_from final onto_all
split-spaced st String.[] t quoting h closed = rw nil-append
split-spaced st (String.◌∷◌ c a) t quoting h closed = elim (Mark-cases (mark_of st (code c) a)) [
  | inr (inl e) ↦ absurd (ground arith)
  | inr (inr (more, e)) ↦ absurd (ground arith)
  | inl e ↦
      rw
        (
          cons-append,
          split_from,
          mark_of-spaced st (code c) a t,
          e,
          after-spaced st (code c) a t quoting closed,
        )
        (ap (onto_first c) (
          split-spaced (after st (code c) a) a t (after-IsQuoting st (code c) a quoting)
            (rw (e, boolean_from) at h) closed))
]

-- The variables outside quotes and parentheses.
abbrev open_at : (previous : ℕ) → Scan
open_at previous = record { depth = 0; quote = 0; previous = previous; skip = 0 }

closed-eq : (st : Scan) → IsClosed st → st ≡ open_at st.previous
closed-eq st closed = ground arith

-- A blank before a text leaves it as it is.
split-previous : (u : String) → split_from 0 (open_at 32) u ≡ split_from 0 start u
unfolding split_from mark_of mark_at is_top_level after
split-previous String.[] = refl
split-previous (String.◌∷◌ c s) = refl

split-and :
    (previous : ℕ) (u : String)
    → split_from 0 (open_at previous) (and_then u)
      ≡ onto_first " " (new_part (onto_first " " (split_from 0 start u)))
unfolding split_from mark_of mark_at is_top_level after starts_with is_or_tail is_and_tail
    at_boundary
split-and previous u = ap (λ o. onto_first " " (new_part (onto_first " " o))) (split-previous u)

onto_all-some :
    (a p : String) (ps : List String) → onto_all a (some (p ∷ ps)) ≡ some ((a <> p) ∷ ps)
unfolding onto_all onto_first
onto_all-some String.[] p ps = rw nil-append
onto_all-some (String.◌∷◌ c a) p ps = rw (cons-append, onto_all-some a p ps)

-- The parts, with the blanks that stand around them.
spread : String → List String → List String
spread t [] = t ∷ []
spread t (u ∷ ts) = (t <> " ") ∷ spread (spaced u) ts

onto_first-spread :
    (c : Char) (u : String) (ts : List String)
    → onto_first c (some (spread u ts)) ≡ some (spread (String.◌∷◌ c u) ts)
unfolding spread onto_first
onto_first-spread c u [] = refl
onto_first-spread c u (v ∷ ts) = rw cons-append

split-spread :
    (t : String) (ts : List String)
    → All IsOperand (t ∷ ts)
    → split_from 0 start (join_and (t ∷ ts)) ≡ some (spread t ts)
unfolding join_and spread onto_first new_part
split-spread t [] (h, _) = split_whole start t h.0
split-spread t (u ∷ ts) (h, hs) =
    rw
      (
        split-spaced start t
            (String.◌∷◌ "A" (String.◌∷◌ "N" (String.◌∷◌ "D" (spaced (join_and (u ∷ ts))))))
            (inl refl) h.0 h.1,
        closed-eq (final start t) h.1,
        split-and (final start t).previous (join_and (u ∷ ts)),
        split-spread u ts hs,
        onto_first-spread " " u ts,
      )
      (onto_all-some t " " (spread (spaced u) ts))

map-spread :
    (t : String) (ts : List String) → map trim_space (spread t ts) ≡ map trim_space (t ∷ ts)
unfolding spread
map-spread t [] = refl
map-spread t (u ∷ ts) = rw (trim_space-append_space t, map-spread (spaced u) ts, trim_space-space u)

-- The split of operands joined by " AND " gives those operands, blanks around them aside: at least
-- one operand, each with its quotes and parentheses closed and without an AND, OR, && or || outside
-- them.
pub split_top_level_and-join_and :
    (t : String) (ts : List String)
    → All IsOperand (t ∷ ts)
    → Option.map (map trim_space) (split_top_level_and (join_and (t ∷ ts)))
      ≡ some (map trim_space (t ∷ ts))
unfolding split_top_level_and
split_top_level_and-join_and t ts h = rw (split-spread t ts h, map-spread t ts)
