-- ===== src/DashboardBuilder/Having/Scans.antt =====
-- The two scans of a having expression for boolean operators agree: what is one part has none.

use signoz_mcp_server.Base.{
  ℕ, zero, suc, String, Char, code, ◌≡◌, ◌↔◌, ◌⊎◌, inl, inr, refl, ap, true, false, Option, none,
  some, List, [], ◌∷◌, arith, Bool-cases,
}
use signoz_mcp_server.DashboardBuilder.Having.{
  Mark, plain, or_mark, and_mark, Scan, start, after, mark_of, onto_first, new_part, split_from,
  split_top_level_and, boolean_from, contains_top_level_boolean,
}

pub Mark-cases : (m : Mark) → (m ≡ plain) ⊎ (m ≡ or_mark) ⊎ ((more : ℕ) × (m ≡ and_mark more))
Mark-cases plain = inl refl
Mark-cases or_mark = inr (inl refl)
Mark-cases (and_mark more) = inr (inr (more, refl))

-- A split has a first part.
pub IsSplit : Option (List String) → Type 0
IsSplit o = (o ≡ none) ⊎ ((p : String) × (ps : List String) × (o ≡ some (p ∷ ps)))

onto_first-IsSplit : (c : Char) (o : Option (List String)) → IsSplit o → IsSplit (onto_first c o)
unfolding IsSplit onto_first
onto_first-IsSplit c o (inl e) = inl (rw e)
onto_first-IsSplit c o (inr (p, ps, e)) = inr (String.◌∷◌ c p, ps, rw e)

new_part-IsSplit : (o : Option (List String)) → IsSplit (new_part o)
unfolding IsSplit new_part
new_part-IsSplit none = inl refl
new_part-IsSplit (some ps) = inr ("", ps, refl)

pub split_from-IsSplit :
    (dropping : ℕ) (st : Scan) (s : String) → IsSplit (split_from dropping st s)
unfolding split_from IsSplit
split_from-IsSplit zero st String.[] = inr ("", [], refl)
split_from-IsSplit (suc dropping) st String.[] = inr ("", [], refl)
split_from-IsSplit (suc dropping) st (String.◌∷◌ c s) =
    split_from-IsSplit dropping (record st { previous = code c }) s
split_from-IsSplit zero st (String.◌∷◌ c s) = elim (Mark-cases (mark_of st (code c) s)) [
  | inl e ↦
      rw (e, split_from)
        (onto_first-IsSplit c (split_from zero (after st (code c) s) s)
          (split_from-IsSplit zero (after st (code c) s) s))
  | inr (inl e) ↦ inl (rw (e, split_from))
  | inr (inr (more, e)) ↦
      rw (e, split_from) (new_part-IsSplit (split_from more (record st { previous = code c }) s))
]

-- Two parts at least, or none.
IsApart : Option (List String) → Type 0
IsApart o = (o ≡ none) ⊎ ((p q : String) × (ps : List String) × (o ≡ some (p ∷ q ∷ ps)))

onto_first-IsApart : (c : Char) (o : Option (List String)) → IsApart o → IsApart (onto_first c o)
unfolding IsApart onto_first
onto_first-IsApart c o (inl e) = inl (rw e)
onto_first-IsApart c o (inr (p, q, ps, e)) = inr (String.◌∷◌ c p, q, ps, rw e)

new_part-IsApart : (o : Option (List String)) → IsSplit o → IsApart (new_part o)
unfolding IsApart IsSplit new_part
new_part-IsApart o (inl e) = inl (rw e)
new_part-IsApart o (inr (p, ps, e)) = inr ("", p, ps, rw e)

-- A boolean operator splits, or refuses.
boolean-IsApart : (st : Scan) (s : String) → boolean_from st s ≡ true → IsApart (split_from 0 st s)
unfolding split_from boolean_from
boolean-IsApart st String.[] h = absurd cc
boolean-IsApart st (String.◌∷◌ c s) h = elim (Mark-cases (mark_of st (code c) s)) [
  | inl e ↦
      rw (e, split_from)
        (onto_first-IsApart c (split_from zero (after st (code c) s) s)
          (boolean-IsApart (after st (code c) s) s (rw (e, boolean_from) at h)))
  | inr (inl e) ↦ unfold IsApart in inl (rw (e, split_from))
  | inr (inr (more, e)) ↦
      rw (e, split_from)
        (new_part-IsApart (split_from more (record st { previous = code c }) s)
          (split_from-IsSplit more (record st { previous = code c }) s))
]

pub split_whole :
    (st : Scan) (s : String) → boolean_from st s ≡ false → split_from 0 st s ≡ some (s ∷ [])
unfolding split_from boolean_from onto_first
split_whole st String.[] h = refl
split_whole st (String.◌∷◌ c s) h = elim (Mark-cases (mark_of st (code c) s)) [
  | inl e ↦
      rw (e, split_from)
        (ap (onto_first c) (split_whole (after st (code c) s) s (rw (e, boolean_from) at h)))
  | inr (inl e) ↦ absurd (ground arith)
  | inr (inr (more, e)) ↦ absurd (ground arith)
]

-- An expression is split into itself alone exactly if it contains no AND, OR, && or || outside
-- parentheses and quotes.
pub split_top_level_and_whole_iff :
    (s : String) → (split_top_level_and s ≡ some (s ∷ [])) ↔ (contains_top_level_boolean s ≡ false)
unfolding split_top_level_and contains_top_level_boolean IsApart
split_top_level_and_whole_iff s = (
  λ h. elim (Bool-cases (boolean_from start s)) [
    | inl some_boolean ↦ elim (boolean-IsApart start s some_boolean) [
      | inl e ↦ absurd (ground arith)
      | inr (p, q, ps, e) ↦ absurd (ground arith)
    ]
    | inr no_boolean ↦ no_boolean
  ],
  λ h. split_whole start s h,
)
