-- ===== src/DashboardBuilder/Filter/Identifier.antt =====
-- What it means for a key to be in an expression as an identifier of its own.

use text.Mathlib.TextLemmas.{nil-append, cons-append}
use mathlib.Core.List.{append_assoc}
use signoz_mcp_server.Base.{
  ℕ, zero, suc, ◌+◌, ◌≤◌, ◌<◌, String, Char, ◌≡◌, ◌≢◌, ◌↔◌, refl, sym, ◌∙◌, ap, Bool, true, not,
  ◌&&◌, List, [], ◌∷◌, ◌++◌, length, take, drop, drop-drop, take-append-drop, length-append,
  length-drop, arith, inl, inr, Bool-cases, ◌==◌, ◌<>◌, eq_iff,
}
use signoz_mcp_server.DashboardBuilder.Filter.{
  chars, is_attribute_name_byte, is_boundary, is_standalone, contains_key_as_identifier,
}
use signoz_mcp_server.DashboardBuilder.Filter.Search.{
  is_prefix-append, is_prefix_split, is_prefix-length, StandsAt, contains_from_sound,
  contains_from_complete,
}

-- The last character, if any, is no byte of an attribute name.
abbrev pub ends_at_boundary : List Char → Bool
ends_at_boundary [] = true
ends_at_boundary (c ∷ []) = not (is_attribute_name_byte c)
ends_at_boundary (c ∷ d ∷ s) = ends_at_boundary (d ∷ s)

-- The expression is the key with a text on each side, and neither text extends it.
pub record HasIdentifier (expression key : String) : Type 0 where
  pub before : String
  pub after : String
  pub split : expression ≡ before <> key <> after
  pub apart_before : ends_at_boundary (chars before) ≡ true
  pub apart_after : is_boundary (chars after) ≡ true

text_of : List Char → String
text_of [] = ""
text_of (c ∷ s) = String.◌∷◌ c (text_of s)

text_of-chars : (s : String) → text_of (chars s) ≡ s
unfolding text_of
text_of-chars String.[] = refl
text_of-chars (String.◌∷◌ c s) = ap (String.◌∷◌ c) (text_of-chars s)

chars-text_of : (s : List Char) → chars (text_of s) ≡ s
unfolding text_of
chars-text_of [] = refl
chars-text_of (c ∷ s) = ap (λ t. c ∷ t) (chars-text_of s)

chars-append : (s t : String) → chars (s <> t) ≡ chars s ++ chars t
chars-append String.[] t = rw nil-append
chars-append (String.◌∷◌ c s) t = rw cons-append (ap (λ u. c ∷ u) (chars-append s t))

chars-append_twice : (s t u : String) → chars (s <> t <> u) ≡ chars s ++ (chars t ++ chars u)
chars-append_twice s t u =
    chars-append (s <> t) u
    ∙ ap (λ l. l ++ chars u) (chars-append s t)
    ∙ append_assoc (chars s) (chars t) (chars u)

chars_injective : (s t : String) → chars s ≡ chars t → s ≡ t
chars_injective s t h = sym (text_of-chars s) ∙ ap text_of h ∙ text_of-chars t

length-chars : (key : String) → key ≢ "" → 1 ≤ length (chars key)
length-chars String.[] h = absurd (h refl)
length-chars (String.◌∷◌ c s) h = omega arith

take-append : (xs ys : List Char) → take (length xs) (xs ++ ys) ≡ xs
take-append [] ys = refl
take-append (x ∷ xs) ys = ap (λ l. x ∷ l) (take-append xs ys)

drop-append : (xs ys : List Char) → drop (length xs) (xs ++ ys) ≡ ys
drop-append [] ys = refl
drop-append (x ∷ xs) ys = drop-append xs ys

ends_at_boundary-take :
    (b : ℕ) (s : List Char)
    → b < length s
    → ends_at_boundary (take (suc b) s) ≡ is_boundary (drop b s)
ends_at_boundary-take b [] h = absurd (omega arith)
ends_at_boundary-take zero (c ∷ s) h = refl
ends_at_boundary-take (suc b) (c ∷ []) h = absurd (omega arith)
ends_at_boundary-take (suc b) (c ∷ d ∷ s) h = ends_at_boundary-take b (d ∷ s) (omega arith)

is_standalone_lem :
    (s : List Char) (p q : ℕ)
    → p ≤ length s
    → is_standalone s p q ≡ (ends_at_boundary (take p s) && is_boundary (drop q s))
is_standalone_lem s zero q h = refl
is_standalone_lem s (suc b) q h = rw (ends_at_boundary-take b s (omega arith)) refl

StandsAt-HasIdentifier :
    (expression key : String) (p : ℕ)
    → key ≢ ""
    → StandsAt (chars expression) (chars key) p
    → HasIdentifier expression key
StandsAt-HasIdentifier expression key p named at =
    let e = chars expression in
    let k = chars key in
    let bound : p ≤ length e =
      ground
        (arith, is_prefix-length k (drop p e) at.here, length-drop p e, length-chars key named) in
    let rest = drop (length k) (drop p e) in
    let alone : ends_at_boundary (take p e) && is_boundary (drop (p + length k) e) ≡ true =
      sym (is_standalone_lem e p (p + length k) bound) ∙ at.alone in
    record {
      before = text_of (take p e);
      after = text_of rest;
      split = chars_injective expression (text_of (take p e) <> key <> text_of rest) (
          rw
            (
              chars-append_twice (text_of (take p e)) key (text_of rest),
              chars-text_of (take p e),
              chars-text_of rest,
            )
            (sym (take-append-drop p e)
              ∙ ap (λ l. take p e ++ l) (is_prefix_split k (drop p e) at.here)));
      apart_before = rw (chars-text_of (take p e)) (ground arith);
      apart_after = rw (chars-text_of rest, drop-drop (length k) p e) (ground arith);
    }

HasIdentifier-StandsAt :
    (expression key : String)
    → HasIdentifier expression key
    → (p : ℕ) × StandsAt (chars expression) (chars key) p
HasIdentifier-StandsAt expression key h =
    let b = chars h.before in
    let k = chars key in
    let a = chars h.after in
    let e : chars expression ≡ b ++ (k ++ a) =
      ap chars h.split ∙ chars-append_twice h.before key h.after in
    let bound : length b ≤ length (b ++ (k ++ a)) = omega (arith, length-append b (k ++ a)) in
    (
      length b,
      record {
        here = rw (e, drop-append b (k ++ a)) (is_prefix-append k a);
        alone = rw e (
            is_standalone_lem (b ++ (k ++ a)) (length b) (length b + length k) bound
            ∙ rw
                (
                  take-append b (k ++ a),
                  sym (drop-drop (length k) (length b) (b ++ (k ++ a))),
                  drop-append b (k ++ a),
                  drop-append k a,
                  h.apart_before,
                  h.apart_after,
                )
                refl);
      },
    )

-- A key is found exactly when it is not empty and is in the expression with no byte of an attribute
-- name in front of it and none behind it.
pub contains_key_as_identifier_iff :
    (expression key : String)
    → (contains_key_as_identifier expression key ≡ true)
      ↔ ((key ≢ "") × HasIdentifier expression key)
unfolding contains_key_as_identifier
contains_key_as_identifier_iff expression key = elim (Bool-cases (key == "")) [
  | inl blank ↦
      (λ h. absurd (ground arith), λ (named, has). absurd (named ((eq_iff key "").0 blank)))
  | inr filled ↦
      let named : key ≢ "" = (λ e. absurd (let e' = (eq_iff key "").1 e in cc)) in
      (
        λ h.
            let (p, at) =
              contains_from_sound (suc (length (chars expression))) (chars expression) (chars key) 0
                (rw filled at h) in
            (named, StandsAt-HasIdentifier expression key p named at),
        λ (unused, has).
            let (p, at) = HasIdentifier-StandsAt expression key has in
            rw filled (
              contains_from_complete _ (chars expression) (chars key) 0 p (length-chars key named)
                (omega arith) (omega arith) at),
      )
]
