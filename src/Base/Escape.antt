-- ===== src/Base/Escape.antt =====
-- Reading an escaped text back: the bytes that a percent-encoded segment stands for.
use Prim.Native.Nat.{ℕ, zero, suc, ◌+◌, ◌*◌, ◌-◌, ◌/◌, ◌%◌, ◌<◌, Ordering, compare}
use Prim.Native.Char.{Char, char, code}
use Prim.Native.String.{String}
use mathlib.Core.Path.{◌≡◌, refl, ap, ◌∙◌}
use mathlib.Core.Logic.{◌⊎◌, inl, inr}
use mathlib.Core.Bool.{Bool, true, false, ◌||◌, ◌&&◌}
use mathlib.Core.List.{List, [], ◌∷◌, ◌++◌}
use native.Mathlib.Omega.{arith, compare-lt, compare-eq}
use signoz_mcp_server.Base.Tests.{leb, eqb, if◌then◌else◌, Bool-cases}
use signoz_mcp_server.Base.Lists.{All}
use signoz_mcp_server.Base.Text.{size, utf8, bytes_of}
use signoz_mcp_server.Base.Segments.{has_char}
use signoz_mcp_server.Base.Query.{is_segment_code, percents, percent, nth, hex_digit, path_escape}

-- A hexadecimal digit, in upper case.
unfoldable pub hex_value : ℕ → ℕ
hex_value c = if leb c 57 then c - 48 else c - 55

-- What was read before: a %, or a % and its first digit.
pub data Reading : Type 0 where
  plain after_percent : Reading
  after_digit : (high : ℕ) → Reading

unfoldable pub read_escaped : Reading → String → List ℕ
unfolding hex_value
read_escaped state String.[] = []
read_escaped plain (String.◌∷◌ c s) =
    let escaped = read_escaped after_percent s in
    let rest = utf8 (code c) ++ read_escaped plain s in if eqb (code c) b'%' then escaped else rest
read_escaped after_percent (String.◌∷◌ c s) = read_escaped (after_digit (hex_value (code c))) s
read_escaped (after_digit high) (String.◌∷◌ c s) =
    (16 * high + hex_value (code c)) ∷ read_escaped plain s

-- url.PathUnescape, as bytes
unfoldable pub path_unescape : String → List ℕ
path_unescape s = read_escaped plain s

Ordering-cases : (o : Ordering) → (o ≡ Ordering.lt) ⊎ (o ≡ Ordering.eq) ⊎ (o ≡ Ordering.gt)
Ordering-cases Ordering.lt = inl refl
Ordering-cases Ordering.eq = inr (inl refl)
Ordering-cases Ordering.gt = inr (inr refl)

code_bound : (c : Char) → code c < 1114112
code_bound (char n p) = elim (Ordering-cases (compare n 55296)) [
  | inl low ↦ omega (arith, compare-lt n 55296 low)
  | inr (inl same) ↦ omega (arith, compare-eq n 55296 same)
  | inr (inr more) ↦ elim (Ordering-cases (compare 57343 n)) [
    | inl past ↦ elim (Ordering-cases (compare n 1114112)) [
      | inl below ↦ compare-lt n 1114112 below
      | inr (inl e) ↦ absurd (rw (more, past, e) at p)
      | inr (inr e) ↦ absurd (rw (more, past, e) at p)
    ]
    | inr (inl e) ↦ absurd (rw (more, e) at p)
    | inr (inr e) ↦ absurd (rw (more, e) at p)
  ]
]

-- The characters of a text are the digits from a number on.
count_up : ℕ → String → Bool
unfolding hex_value
count_up n String.[] = true
count_up n (String.◌∷◌ c s) = eqb (hex_value (code c)) n && count_up (suc n) s

hex_value-nth :
    (n k : ℕ) (s : String) → count_up n s ≡ true → k < size s → hex_value (code (nth k s)) ≡ n + k
unfolding count_up nth
hex_value-nth n k String.[] h bound = absurd (omega arith)
hex_value-nth n zero (String.◌∷◌ c s) h bound = ground arith
hex_value-nth n (suc k) (String.◌∷◌ c s) h bound =
    let later = hex_value-nth (suc n) k s (ground arith) (omega arith) in omega (arith, later)

hex_value-hex_digit : (k : ℕ) → k < 16 → hex_value (code (hex_digit k)) ≡ k
unfolding hex_digit count_up hex_value
hex_value-hex_digit k h = omega (arith, hex_value-nth 0 k "0123456789ABCDEF" refl h)

read_escaped-percents :
    (bytes : List ℕ) (rest : String)
    → All (λ b. b < 256) bytes
    → read_escaped plain (percents bytes rest) ≡ bytes ++ read_escaped plain rest
unfolding read_escaped percents percent
read_escaped-percents [] rest h = refl
read_escaped-percents (byte ∷ bytes) rest (h, hs) =
    let high = hex_value-hex_digit (byte / 16) (omega arith) in
    let low = hex_value-hex_digit (byte % 16) (omega arith) in
    let whole : 16 * (byte / 16) + byte % 16 ≡ byte = omega arith in
    rw (high, low, whole) (ap (λ t. byte ∷ t) (read_escaped-percents bytes rest hs))

utf8_bytes : (n : ℕ) → n < 1114112 → All (λ b. b < 256) (utf8 n)
unfolding utf8
utf8_bytes n h = ground arith

-- Unescaping an escaped segment gives the bytes of the text.
pub path_unescape-path_escape : (s : String) → path_unescape (path_escape s) ≡ bytes_of s
unfolding path_unescape path_escape read_escaped bytes_of
path_unescape-path_escape String.[] = refl
path_unescape-path_escape (String.◌∷◌ c s) = elim (Bool-cases (is_segment_code (code c))) [
  | inl kept ↦
      let no_percent : eqb (code c) b'%' ≡ false = ground arith in
      rw (kept, path_escape, no_percent)
        (ap (λ t. utf8 (code c) ++ t) (path_unescape-path_escape s))
  | inr hidden ↦
      rw (hidden, path_escape)
        (read_escaped-percents (utf8 (code c)) (path_escape s) (utf8_bytes (code c) (code_bound c))
          ∙ ap (λ t. utf8 (code c) ++ t) (path_unescape-path_escape s))
]

-- A character that ends a segment of a path.
abbrev pub is_separator : Char → Bool
is_separator c = eqb (code c) b'/' || eqb (code c) b'?' || eqb (code c) b'#'

nth_free : (k : ℕ) (s : String) → has_char is_separator s ≡ false → is_separator (nth k s) ≡ false
unfolding nth has_char
nth_free zero (String.◌∷◌ c s) h = ground arith
nth_free (suc k) (String.◌∷◌ c s) h = nth_free k s (ground arith)
nth_free zero String.[] h = refl
nth_free (suc k) String.[] h = refl

hex_free : (k : ℕ) → is_separator (hex_digit k) ≡ false
unfolding hex_digit has_char
hex_free k = nth_free k "0123456789ABCDEF" refl

percents_free :
    (bytes : List ℕ) (rest : String)
    → has_char is_separator (percents bytes rest) ≡ has_char is_separator rest
unfolding percents percent has_char
percents_free [] rest = refl
percents_free (byte ∷ bytes) rest =
    let high = hex_free (byte / 16) in
    let low = hex_free (byte % 16) in rw (high, low) (percents_free bytes rest)

-- An escaped segment stays one segment: no character of it ends the segment.
pub path_escape_free : (s : String) → has_char is_separator (path_escape s) ≡ false
unfolding path_escape has_char
path_escape_free String.[] = refl
path_escape_free (String.◌∷◌ c s) = elim (Bool-cases (is_segment_code (code c))) [
  | inl kept ↦
      let free : is_separator c ≡ false = ground arith in
      rw (kept, path_escape, free) (path_escape_free s)
  | inr hidden ↦
      rw (hidden, path_escape) (percents_free (utf8 (code c)) (path_escape s) ∙ path_escape_free s)
]
