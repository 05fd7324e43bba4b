-- ===== src/Base/Segments.antt =====
-- Splitting a text that is put together: at the separators of each piece.
use Prim.Native.Char.{Char}
use Prim.Native.String.{String}
use mathlib.Core.Path.{◌≡◌, refl}
use mathlib.Core.Logic.{inl, inr}
use mathlib.Core.Bool.{Bool, true, false, ◌||◌}
use mathlib.Core.List.{List, [], ◌∷◌}
use native.Mathlib.Omega.{arith}
use text.Mathlib.TextLemmas.{nil-append, cons-append}
use signoz_mcp_server.Base.Tests.{if◌then◌else◌, Bool-cases}
use signoz_mcp_server.Base.Text.{◌<>◌}
use signoz_mcp_server.Base.Strings.{until, split, split_first}

-- The last of some parts and the first of the others are one.
abbrev pub glue : List String → List String → List String
glue [] qs = qs
glue (p ∷ []) [] = p ∷ []
glue (p ∷ []) (q ∷ qs) = (p <> q) ∷ qs
glue (p ∷ r ∷ ps) qs = p ∷ glue (r ∷ ps) qs

-- Whether the test holds of a character of the text.
unfoldable pub has_char : (Char → Bool) → String → Bool
has_char stop String.[] = false
has_char stop (String.◌∷◌ c s) = stop c || has_char stop s

module _ (stop : Char → Bool) where
  split_parts : (s : String) → (p : String) × (ps : List String) × (split stop s ≡ p ∷ ps)
  unfolding split
  split_parts String.[] = ("", [], refl)
  split_parts (String.◌∷◌ c s) =
      let (p, ps, e) = split_parts s in
      elim (Bool-cases (stop c)) [
        | inl here ↦ ("", split stop s, rw here)
        | inr later ↦ (String.◌∷◌ c p, ps, rw (later, e))
      ]

  glue-split_first :
      (b : Bool) (c : Char) (p : String) (ps qs : List String)
      → split_first b c (glue (p ∷ ps) qs) ≡ glue (split_first b c (p ∷ ps)) qs
  glue-split_first true c p ps qs = refl
  glue-split_first false c p [] [] = refl
  glue-split_first false c p [] (q ∷ qs) = rw cons-append
  glue-split_first false c p (r ∷ ps) qs = refl

  pub split-append : (a b : String) → split stop (a <> b) ≡ glue (split stop a) (split stop b)
  unfolding split
  split-append String.[] b = let (p, ps, e) = split_parts b in rw (nil-append, e, nil-append)
  split-append (String.◌∷◌ c a) b =
      let (p, ps, e) = split_parts a in
      rw (cons-append, split-append a b, e) (glue-split_first (stop c) c p ps (split stop b))

  -- A text without a separator is one part.
  pub split_whole : (s : String) → has_char stop s ≡ false → split stop s ≡ s ∷ []
  unfolding split has_char
  split_whole String.[] h = refl
  split_whole (String.◌∷◌ c s) h =
      let here : stop c ≡ false = ground arith in
      let later = split_whole s (ground arith) in rw (here, later)

  pub until-append :
      (a b : String)
      → until stop (a <> b) ≡ (if has_char stop a then until stop a else a <> until stop b)
  unfolding until has_char
  until-append String.[] b = rw (nil-append, nil-append)
  until-append (String.◌∷◌ c a) b = elim (Bool-cases (stop c)) [
    | inl here ↦ rw (cons-append, here)
    | inr later ↦ elim (Bool-cases (has_char stop a)) [
      | inl inside ↦ rw (cons-append, later, inside, until-append a b, inside)
      | inr outside ↦ rw (cons-append, later, outside, until-append a b, outside, cons-append)
    ]
  ]

  pub until_whole : (s : String) → has_char stop s ≡ false → until stop s ≡ s
  unfolding until has_char
  until_whole String.[] h = refl
  until_whole (String.◌∷◌ c s) h =
      let here : stop c ≡ false = ground arith in
      let later = until_whole s (ground arith) in rw (here, later)
