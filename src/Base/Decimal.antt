-- ===== src/Base/Decimal.antt =====
-- strconv.ParseInt(s, 10, 64), which strconv.Atoi and json.Number.Int64 are too, and
-- strconv.FormatInt(v, 10). An error is `none`.
use Prim.Native.Nat.{ℕ, zero, suc, ◌+◌, ◌-◌, ◌*◌, ◌/◌, ◌%◌, ◌^◌, ◌≤◌, ◌<◌}
use Prim.Native.Char.{Char, code, nul}
use Prim.Native.String.{String, [], ◌∷◌}
use mathlib.Core.Path.{◌≡◌, refl, ap, ◌∙◌}
use mathlib.Core.Bool.{false, ◌&&◌}
use mathlib.Core.Option.{Option, none, some}
use mathlib.Core.Logic.{◌≢◌, inl, inr}
use native.Mathlib.Omega.{arith}
use native.Mathlib.Nat.{pow-suc, zero-add}
use text.Mathlib.TextEquality.{eq_iff}
use text.Mathlib.TextLemmas.{cons≢nil, cons-ne-nil}
use signoz_mcp_server.Base.Tests.{Bool-cases, ◌==◌, ltb→lt, ltb, leb, eqb, if◌then◌else◌}
use signoz_mcp_server.Base.Int.{ℤ, pos, negsuc, sub_ℕ}
use signoz_mcp_server.Base.Word.{max_int64, IsInt64}

parse_digits : ℕ → String → Option ℕ
parse_digits n [] = some n
parse_digits n (c ∷ s) =
    let rest = parse_digits (n * 10 + (code c - b'0')) s in
    if leb b'0' (code c) && leb (code c) b'9' then rest else none

parse_uint : String → Option ℕ
parse_uint [] = none
parse_uint (c ∷ s) = parse_digits 0 (c ∷ s)

positive : Option ℕ → Option ℤ
positive none = none
positive (some n) = if leb n max_int64 then some (pos n) else none

negative : Option ℕ → Option ℤ
negative none = none
negative (some n) = if leb n (2 ^ 63) then some (sub_ℕ 0 n) else none

unfoldable pub parse_int : String → Option ℤ
unfolding parse_digits parse_uint positive negative
parse_int [] = none
parse_int (c ∷ s) =
    if eqb (code c) b'-'
    then negative (parse_uint s)
    else if eqb (code c) b'+'
    then positive (parse_uint s)
    else positive (parse_uint (c ∷ s))

pick : ℕ → String → Char
pick zero (c ∷ s) = c
pick (suc k) (c ∷ s) = pick k s
pick zero [] = nul
pick (suc k) [] = nul

digit : ℕ → Char
unfolding pick
digit k = pick k "0123456789"

-- The digits of a number before what is written already; a round writes one digit.
format_from : ℕ → ℕ → String → String
format_from zero n out = out
format_from (suc f) n out =
    let rest = format_from f (n / 10) (digit (n % 10) ∷ out) in
    if ltb n 10 then digit n ∷ out else rest

minus : Char
unfolding pick
minus = pick 0 "-"

-- The absolute value of an int64 has 19 digits at most.
format_nat : ℕ → String
format_nat n = format_from 20 n []

pub format_int : ℤ → String
unfolding minus
format_int (pos n) = format_nat n
format_int (negsuc n) = minus ∷ format_nat (suc n)

code-digit : (k : ℕ) → k < 10 → code (digit k) ≡ b'0' + k
unfolding digit
code-digit zero h = refl
code-digit (suc zero) h = refl
code-digit (suc (suc zero)) h = refl
code-digit (suc (suc (suc zero))) h = refl
code-digit (suc (suc (suc (suc zero)))) h = refl
code-digit (suc (suc (suc (suc (suc zero))))) h = refl
code-digit (suc (suc (suc (suc (suc (suc zero)))))) h = refl
code-digit (suc (suc (suc (suc (suc (suc (suc zero))))))) h = refl
code-digit (suc (suc (suc (suc (suc (suc (suc (suc zero)))))))) h = refl
code-digit (suc (suc (suc (suc (suc (suc (suc (suc (suc zero))))))))) h = refl
code-digit (suc (suc (suc (suc (suc (suc (suc (suc (suc (suc k)))))))))) h = absurd (omega arith)

parse_digits-digit :
    (m k : ℕ) (s : String) → k < 10 → parse_digits m (digit k ∷ s) ≡ parse_digits (m * 10 + k) s
unfolding parse_digits
parse_digits-digit m k s h = ground (arith, code-digit k)

tens : (n : ℕ) → n / 10 * 10 + n % 10 ≡ n
tens n = omega arith

parse_digits-format_from :
    (f n : ℕ) (out : String)
    → n < 10 ^ f
    → parse_digits 0 (format_from f n out) ≡ parse_digits n out
unfolding format_from
parse_digits-format_from zero n out h = ap (λ k. parse_digits k out) zero_eq
  where
    zero_eq : 0 ≡ n
    zero_eq = omega arith
parse_digits-format_from (suc f) n out h = elim (Bool-cases (ltb n 10)) [
  | inl last ↦
      rw last
        (parse_digits-digit 0 n out (ltb→lt n 10 last) ∙ ap (λ k. parse_digits k out) (zero-add n))
  | inr more ↦ rw more (
      parse_digits-format_from f (n / 10) (digit (n % 10) ∷ out) (omega (arith, pow-suc 10 f))
      ∙ parse_digits-digit (n / 10) (n % 10) out (omega arith)
      ∙ ap (λ k. parse_digits k out) (tens n))
]

-- What reads as digits has no sign in front.
parse_int_of_digits :
    (s : String) (n : ℕ) → s ≢ "" → parse_digits 0 s ≡ some n → parse_int s ≡ positive (some n)
unfolding parse_int
parse_int_of_digits [] n h e = absurd (h refl)
parse_int_of_digits (c ∷ s) n h e = ground arith

cons-ne : (c : Char) (s : String) → c ∷ s ≢ ""
cons-ne c s e = cons≢nil e

format_from-ne : (f n : ℕ) (out : String) → out ≢ "" → format_from f n out ≢ ""
unfolding format_from
format_from-ne zero n out h = h
format_from-ne (suc f) n out h = elim (Bool-cases (ltb n 10)) [
  | inl last ↦ rw last (cons-ne (digit n) out)
  | inr more ↦ rw more (format_from-ne f (n / 10) (digit (n % 10) ∷ out) (cons-ne _ out))
]

format_from-suc_ne : (f n : ℕ) (out : String) → format_from (suc f) n out ≢ ""
unfolding format_from
format_from-suc_ne f n out = elim (Bool-cases (ltb n 10)) [
  | inl last ↦ rw last (cons-ne (digit n) out)
  | inr more ↦ rw more (format_from-ne f (n / 10) (digit (n % 10) ∷ out) (cons-ne _ out))
]

parse_digits-nil : (n : ℕ) → parse_digits n "" ≡ some n
unfolding parse_digits
parse_digits-nil n = refl

parse_digits-format_nat : (n : ℕ) → n < 10 ^ 20 → parse_digits 0 (format_nat n) ≡ some n
unfolding format_nat
parse_digits-format_nat n h = parse_digits-format_from 20 n "" h ∙ parse_digits-nil n

format_nat-ne : (n : ℕ) → format_nat n ≢ ""
unfolding format_nat
format_nat-ne n = format_from-suc_ne 19 n ""

parse_uint_lem : (s : String) → s ≢ "" → parse_uint s ≡ parse_digits 0 s
unfolding parse_uint
parse_uint_lem [] h = absurd (h refl)
parse_uint_lem (c ∷ s) h = refl

parse_int-minus : (s : String) → parse_int (minus ∷ s) ≡ negative (parse_uint s)
unfolding parse_int minus
parse_int-minus s = refl

negative_lem : (n : ℕ) → IsInt64 (negsuc n) → negative (some (suc n)) ≡ some (negsuc n)
unfolding negative
negative_lem n h = ground arith

positive_lem : (n : ℕ) → n ≤ max_int64 → positive (some n) ≡ some (pos n)
unfolding positive
positive_lem n h = ground arith

-- Reading back a printed int64 gives the number.
pub parse_int-format_int : (a : ℤ) → IsInt64 a → parse_int (format_int a) ≡ some a
unfolding format_int
parse_int-format_int (pos n) h =
    parse_int_of_digits (format_nat n) n (format_nat-ne n) (parse_digits-format_nat n (omega arith))
    ∙ positive_lem n h.upper
parse_int-format_int (negsuc n) h =
    parse_int-minus (format_nat (suc n))
    ∙ ap negative
        (parse_uint_lem _ (format_nat-ne (suc n)) ∙ parse_digits-format_nat (suc n) (omega arith))
    ∙ negative_lem n h

format_int_runs : (format_int (negsuc 119) ≡ "-120") × (format_int (pos 0) ≡ "0")
unfolding format_int format_nat format_from digit minus
format_int_runs = (refl, refl)

parse_int_runs : (parse_int "+007" ≡ some (pos 7)) × (parse_int "9223372036854775808" ≡ none)
unfolding parse_int
parse_int_runs = (refl, refl)

-- What reads as a number is not empty.
pub parse_int-nonempty : (s : String) (a : ℤ) → parse_int s ≡ some a → (s == "") ≡ false
unfolding parse_int
parse_int-nonempty [] a h = cc
parse_int-nonempty (c ∷ s) a h = elim (Bool-cases (c ∷ s == "")) [
  | inl empty ↦ absurd (cons-ne-nil c s ((eq_iff _ "").0 empty))
  | inr full ↦ full
]
