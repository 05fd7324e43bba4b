-- ===== src/Base/Strings.antt =====
-- Functions of Go's `strings` on texts, by the first occurrence of what they look for.

use Prim.Native.String.{String}
use Prim.Native.Char.{Char, code}
use Prim.Native.Nat.{ℕ, suc}
use mathlib.Core.Path.{◌≡◌, refl, ap}
use mathlib.Core.Logic.{◌↔◌, inl, inr}
use mathlib.Core.Bool.{Bool, true, false}
use mathlib.Core.Option.{Option, none, some}
use mathlib.Core.List.{List, [] as []ₗ, ◌∷◌ as ◌∷ₗ◌}
use native.Mathlib.Omega.{arith}
use text.Mathlib.TextLemmas.{nil-append, cons-append}
use text.Mathlib.TextEquality.{eq_iff}
use signoz_mcp_server.Base.Tests.{eqb, ◌==◌, if◌then◌else◌, Bool-cases, Option-cases}
use text.Mathlib.TextPositions.{eq_refl}
use signoz_mcp_server.Base.Text.{◌<>◌}

-- strings.CutPrefix(s, prefix)
unfoldable pub cut_prefix : (s prefix : String) → Option String
cut_prefix s String.[] = some s
cut_prefix String.[] (String.◌∷◌ p prefix) = none
cut_prefix (String.◌∷◌ c s) (String.◌∷◌ p prefix) =
    let rest = cut_prefix s prefix in if eqb (code c) (code p) then rest else none

unfoldable pub has_prefix : (s prefix : String) → Bool
has_prefix s prefix = elim (cut_prefix s prefix) [ some rest ↦ true | none ↦ false ]

-- What is left of `s` in front of a suffix.
unfoldable pub cut_suffix : (s suffix : String) → Option String
cut_suffix String.[] suffix = if String.[] == suffix then some String.[] else none
cut_suffix (String.◌∷◌ c s) suffix =
    let rest = cut_suffix s suffix in
    if String.◌∷◌ c s == suffix
    then some String.[]
    else elim rest [ some front ↦ some (String.◌∷◌ c front) | none ↦ none ]

-- strings.HasSuffix(s, suffix)
unfoldable pub has_suffix : (s suffix : String) → Bool
has_suffix s suffix = elim (cut_suffix s suffix) [ some front ↦ true | none ↦ false ]

-- What follows the first `sep`: s[strings.Index(s, sep)+len(sep):]
unfoldable pub after_sep : (s sep : String) → Option String
after_sep String.[] sep = cut_prefix String.[] sep
after_sep (String.◌∷◌ c s) sep =
    let later = after_sep s sep in
    elim (cut_prefix (String.◌∷◌ c s) sep) [ some rest ↦ some rest | none ↦ later ]

abbrev one_more : Option ℕ → Option ℕ
one_more (some n) = some (suc n)
one_more none = none

-- strings.Index and strings.IndexAny, in characters.
unfoldable pub index : (s sep : String) → Option ℕ
index String.[] sep = elim (cut_prefix String.[] sep) [ some rest ↦ some 0 | none ↦ none ]
index (String.◌∷◌ c s) sep =
    let later = index s sep in
    elim (cut_prefix (String.◌∷◌ c s) sep) [ some rest ↦ some 0 | none ↦ one_more later ]

unfoldable pub index_any : String → (Char → Bool) → Option ℕ
index_any String.[] stop = none
index_any (String.◌∷◌ c s) stop =
    let later = index_any s stop in if stop c then some 0 else one_more later

-- What is in front of the first character that the test holds of.
unfoldable pub until : (Char → Bool) → String → String
until stop String.[] = String.[]
until stop (String.◌∷◌ c s) =
    let rest = until stop s in if stop c then String.[] else String.◌∷◌ c rest

abbrev pub split_first : Bool → Char → List String → List String
split_first true c parts = String.[] ∷ₗ parts
split_first false c []ₗ = String.◌∷◌ c String.[] ∷ₗ []ₗ
split_first false c (part ∷ₗ parts) = String.◌∷◌ c part ∷ₗ parts

-- strings.Split(s, sep) at a separator of one character.
unfoldable pub split : (Char → Bool) → String → List String
split is_sep String.[] = String.[] ∷ₗ []ₗ
split is_sep (String.◌∷◌ c s) = split_first (is_sep c) c (split is_sep s)

cut_suffix_sound :
    (s suffix front : String) → cut_suffix s suffix ≡ some front → s ≡ front <> suffix
unfolding cut_suffix
cut_suffix_sound String.[] suffix front h = elim (Bool-cases (String.[] == suffix)) [
  | inr other ↦ absurd (ground arith)
  | inl same ↦
      let empty : String.[] ≡ suffix = (eq_iff "" suffix).0 same in
      let none_left : front ≡ "" = ground arith in rw none_left (rw nil-append empty)
]
cut_suffix_sound (String.◌∷◌ c s) suffix front h = elim (Bool-cases (String.◌∷◌ c s == suffix)) [
  | inl same ↦
      let all : String.◌∷◌ c s ≡ suffix = (eq_iff (String.◌∷◌ c s) suffix).0 same in
      let none_left : front ≡ "" = ground arith in rw none_left (rw nil-append all)
  | inr other ↦ elim (Option-cases (cut_suffix s suffix)) [
    | inl nowhere ↦ absurd (ground arith)
    | inr (rest, found) ↦
        let more : front ≡ String.◌∷◌ c rest = ground arith in
        rw more (rw cons-append (ap (String.◌∷◌ c) (cut_suffix_sound s suffix rest found)))
  ]
]

cut_suffix_self : (s : String) → cut_suffix s s ≡ some ""
unfolding cut_suffix
cut_suffix_self String.[] = refl
cut_suffix_self (String.◌∷◌ c s) = rw (eq_refl (String.◌∷◌ c s)) refl

cut_suffix_complete :
    (front suffix : String) → (other : String) × (cut_suffix (front <> suffix) suffix ≡ some other)
unfolding cut_suffix
cut_suffix_complete String.[] suffix = ("", rw nil-append (cut_suffix_self suffix))
cut_suffix_complete (String.◌∷◌ c front) suffix =
    let (other, found) = cut_suffix_complete front suffix in
    rw cons-append (elim (Bool-cases (String.◌∷◌ c (front <> suffix) == suffix)) [
      | inl same ↦ ("", rw same refl)
      | inr more ↦ (String.◌∷◌ c other, rw (more, found) refl)
    ])

pub has_suffix_iff :
    (s suffix : String) → (has_suffix s suffix ≡ true) ↔ ((front : String) × (s ≡ front <> suffix))
unfolding has_suffix
has_suffix_iff s suffix = (
  λ h. elim (Option-cases (cut_suffix s suffix)) [
    | inl nowhere ↦ absurd (ground arith)
    | inr (front, found) ↦ (front, cut_suffix_sound s suffix front found)
  ],
  λ (front, e).
      rw e (let (other, found) = cut_suffix_complete front suffix in rw (found, has_suffix) refl),
)
