-- ===== src/Base/Text.antt =====
-- Go's `strings` functions that the program calls, on a text as its code points. Texts are valid
-- UTF-8. Letters are lowered as Go does where the result can be ASCII: the ASCII letters, the
-- Kelvin sign and the dotted capital I; they are raised in the same way, with the dotless i and
-- the long s. Another code point is left as it is.
use Prim.Native.Nat.{ℕ, suc, ◌≤◌, ◌+◌, ◌/◌, ◌%◌}
use mathlib.Core.List.{List, [] as []ₗ, ◌∷◌ as ◌∷ₗ◌, ◌++◌ as ◌++ₗ◌}
use Prim.Native.Char.{Char, code}
use Prim.Native.String
use Prim.Native.String.{String, [], ◌∷◌}
use native.Mathlib.Omega.{arith}
use text.Mathlib.TextLemmas.{nil-append, cons-append}
use mathlib.Core.Logic.{◌≢◌, inl, inr}
use signoz_mcp_server.Base.Lists.{length, length-append}
use mathlib.Core.Path.{◌≡◌, refl}
use mathlib.Core.Bool.{Bool, ◌&&◌, ◌||◌}
use signoz_mcp_server.Base.Tests.{ltb, leb, eqb, if◌then◌else◌, Bool-cases}

-- unicode.IsSpace
pub is_space : ℕ → Bool
is_space c =
    eqb c 32
    || (leb 9 c && leb c 13)
    || eqb c 0x85
    || eqb c 0xa0
    || eqb c 0x1680
    || (leb 0x2000 c && leb c 0x200a)
    || eqb c 0x2028
    || eqb c 0x2029
    || eqb c 0x202f
    || eqb c 0x205f
    || eqb c 0x3000

-- The letter of the second text at the place of the first.
letter_from : Char → String → String → Char
letter_from c (u ∷ us) (l ∷ ls) = if eqb (code c) (code u) then l else letter_from c us ls
letter_from c _ _ = c

pub lower_char : Char → Char
unfolding letter_from
lower_char c = letter_from c "ABCDEFGHIJKLMNOPQRSTUVWXYZİK" "abcdefghijklmnopqrstuvwxyzik"

-- strings.ToLower
unfoldable pub to_lower : String → String
unfolding lower_char
to_lower [] = []
to_lower (c ∷ s) = lower_char c ∷ to_lower s

pub upper_char : Char → Char
unfolding letter_from
upper_char c = letter_from c "abcdefghijklmnopqrstuvwxyzıſ" "ABCDEFGHIJKLMNOPQRSTUVWXYZIS"

-- strings.ToUpper
unfoldable pub to_upper : String → String
unfolding upper_char
to_upper [] = []
to_upper (c ∷ s) = upper_char c ∷ to_upper s

trim_left : String → String
trim_left [] = []
trim_left (c ∷ s) = if is_space (code c) then trim_left s else c ∷ s

-- A space is dropped where nothing but spaces follows.
cons_unless_blank : Char → String → String
cons_unless_blank c [] = if is_space (code c) then [] else c ∷ []
cons_unless_blank c (d ∷ s) = c ∷ d ∷ s

trim_right : String → String
trim_right [] = []
trim_right (c ∷ s) = cons_unless_blank c (trim_right s)

-- strings.TrimSpace
unfoldable pub trim_space : String → String
unfolding trim_left trim_right cons_unless_blank is_space
trim_space s = trim_right (trim_left s)

trim_space_runs : trim_space " \t a b \n" ≡ "a b"
unfolding trim_space
trim_space_runs = refl

to_lower_runs : to_lower "GaugeK" ≡ "gaugek"
unfolding to_lower
to_lower_runs = refl

-- Go's `s + t`.
infixl 65 ◌<>◌
abbrev pub ◌<>◌ : String → String → String
s <> t = String.◌++◌ s t

-- A code point in UTF-8.
unfoldable pub utf8 : ℕ → List ℕ
utf8 n =
    if ltb n 0x80
    then n ∷ₗ []ₗ
    else if ltb n 0x800
    then (0xc0 + n / 64) ∷ₗ (0x80 + n % 64) ∷ₗ []ₗ
    else if ltb n 0x10000
    then (0xe0 + n / 4096) ∷ₗ (0x80 + n / 64 % 64) ∷ₗ (0x80 + n % 64) ∷ₗ []ₗ
    else (0xf0 + n / 262144)
      ∷ₗ (0x80 + n / 4096 % 64)
      ∷ₗ (0x80 + n / 64 % 64)
      ∷ₗ (0x80 + n % 64)
      ∷ₗ []ₗ

-- []byte(s)
unfoldable pub bytes_of : String → List ℕ
unfolding utf8
bytes_of [] = []ₗ
bytes_of (c ∷ s) = utf8 (code c) ++ₗ bytes_of s

pub bytes_of-append :
    (s t : String) → length (bytes_of (s <> t)) ≡ length (bytes_of s) + length (bytes_of t)
unfolding bytes_of utf8
bytes_of-append [] t = rw nil-append (omega arith)
bytes_of-append (c ∷ s) t = rw cons-append (
    ground (
      arith,
      length-append (utf8 (code c)) (bytes_of s),
      length-append (utf8 (code c)) (bytes_of (s <> t)),
      bytes_of-append s t,
    ))

pub length-bytes_of : (s : String) → s ≢ [] → 1 ≤ length (bytes_of s)
unfolding bytes_of utf8
length-bytes_of [] h = absurd (h refl)
length-bytes_of (c ∷ s) h = ground (arith, length-append (utf8 (code c)) (bytes_of s))

-- The number of characters.
abbrev pub size : String → ℕ
size [] = 0
size (c ∷ s) = suc (size s)

size-trim_left : (s : String) → size (trim_left s) ≤ size s
unfolding trim_left
size-trim_left [] = omega arith
size-trim_left (c ∷ s) = ground (arith, size-trim_left s)

size-cons_unless_blank : (c : Char) (s : String) → size (cons_unless_blank c s) ≤ suc (size s)
unfolding cons_unless_blank
size-cons_unless_blank c [] = elim (Bool-cases (is_space (code c))) [
  | inl blank ↦ rw blank (omega arith)
  | inr other ↦ rw other (omega arith)
]
size-cons_unless_blank c (d ∷ s) = omega arith

size-trim_right : (s : String) → size (trim_right s) ≤ size s
unfolding trim_right
size-trim_right [] = omega arith
size-trim_right (c ∷ s) = omega (arith, size-cons_unless_blank c (trim_right s), size-trim_right s)

pub size-trim_space : (s : String) → size (trim_space s) ≤ size s
unfolding trim_space
size-trim_space s = omega (arith, size-trim_right (trim_left s), size-trim_left s)

trim_right-space : (s : String) → trim_right (s <> " ") ≡ trim_right s
unfolding trim_right cons_unless_blank is_space
trim_right-space [] = refl
trim_right-space (c ∷ s) = rw (cons-append, trim_right-space s)

trim_right-space_cons : (c : Char) (s : String) → trim_right (c ∷ (s <> " ")) ≡ trim_right (c ∷ s)
unfolding trim_right
trim_right-space_cons c s = rw (trim_right-space s)

-- A blank at either end does not count.
pub trim_space-append_space : (s : String) → trim_space (s <> " ") ≡ trim_space s
unfolding trim_space trim_left trim_right cons_unless_blank is_space
trim_space-append_space [] = refl
trim_space-append_space (c ∷ s) = elim (Bool-cases (is_space (code c))) [
  | inl blank ↦ rw (cons-append, blank) (trim_space-append_space s)
  | inr other ↦ rw (cons-append, other) (trim_right-space_cons c s)
]

pub trim_space-space : (s : String) → trim_space (" " ∷ s) ≡ trim_space s
unfolding trim_space trim_left is_space
trim_space-space s = refl
