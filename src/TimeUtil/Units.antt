-- ===== src/TimeUtil/Units.antt =====
-- The unit of an epoch value.
use signoz_mcp_server.Base.{
  ℕ, ◌+◌, ◌*◌, ◌/◌, ◌^◌, ◌≤◌, ◌<◌, String, ◌≡◌, ◌∙◌, ap, true, false, Bool-cases, inl, inr, arith,
  ◌==◌, leb, ltb, ltb→lt, if◌then◌else◌,
}
use native.Mathlib.Nat.{mul-zero, zero-mul}
use signoz_mcp_server.Base.Int.{ℤ, pos, ◌*ℤ◌, quo}
use signoz_mcp_server.Base.Word.{wrap64, max_int64, IsInt64, wrap64_of_IsInt64}
use signoz_mcp_server.TimeUtil.{
  normalize_epoch_to_unit, clamped_mul, source_unit_nanos, unit_nanos, millisecond,
}

pub min_max : ℕ → ℤ
min_max n = pos (if leb n max_int64 then n else max_int64)

pub mul_pos : (n k : ℕ) → pos n *ℤ pos k ≡ pos (n * k)
unfolding ◌*ℤ◌
mul_pos n k = ground (arith, mul-zero n, zero-mul k)

pub wrap64_pos : (n : ℕ) → n ≤ max_int64 → wrap64 (pos n) ≡ pos n
wrap64_pos n h = wrap64_of_IsInt64 (pos n) (record { upper = h; lower = omega arith })

-- `fits` says that the guard is the test of the product.
clamped_mul_lem :
    (n k : ℕ)
    → leb n (max_int64 / k) ≡ leb (n * k) max_int64
    → clamped_mul (pos n) k ≡ min_max (n * k)
unfolding clamped_mul quo min_max
clamped_mul_lem n k fits = ground (arith, mul_pos n k, wrap64_pos (n * k))

-- A positive value by the nanoseconds of its unit.
pub units_of : ℕ → ℕ
units_of n =
    if ltb n (10 ^ 11)
    then 10 ^ 9
    else if ltb n (10 ^ 14)
    then 10 ^ 6
    else if ltb n (10 ^ 17)
    then 10 ^ 3
    else 1

source_unit_nanos-pos : (n : ℕ) → source_unit_nanos (pos n) ≡ units_of n
unfolding source_unit_nanos units_of
source_unit_nanos-pos n = ground arith

module _ (n : ℕ) where
  times_second : clamped_mul (pos n) (10 ^ 9) ≡ min_max (n * 10 ^ 9)
  times_second = clamped_mul_lem n (10 ^ 9) (ground arith)

  times_million : clamped_mul (pos n) (10 ^ 6) ≡ min_max (n * 10 ^ 6)
  times_million = clamped_mul_lem n (10 ^ 6) (ground arith)

  times_thousand : clamped_mul (pos n) (10 ^ 3) ≡ min_max (n * 10 ^ 3)
  times_thousand = clamped_mul_lem n (10 ^ 3) (ground arith)

  times_one : clamped_mul (pos n) 1 ≡ min_max (n * 1)
  times_one = clamped_mul_lem n 1 (ground arith)

-- The exact number of nanoseconds or milliseconds, cut off at the largest int64.
pub in_nanos : ℕ → ℕ
in_nanos n = n * units_of n

pub in_millis : ℕ → ℕ
in_millis n = n * units_of n / 10 ^ 6

scale : ℤ → String → ℕ → ℤ
scale raw unit nanos =
    if unit == unit_nanos
    then clamped_mul raw nanos
    else if leb millisecond nanos
    then clamped_mul raw (nanos / millisecond)
    else quo raw (millisecond / nanos)

normalize_epoch_to_unit-scale :
    (n : ℕ) (unit : String)
    → 1 ≤ n
    → normalize_epoch_to_unit (pos n) unit ≡ scale (pos n) unit (units_of n)
unfolding normalize_epoch_to_unit scale
normalize_epoch_to_unit-scale n unit h = rw source_unit_nanos-pos (rw (not_zero n h))
  where
    not_zero : (m : ℕ) → 1 ≤ m → leb (m + 0) 0 ≡ false
    not_zero m k = ground arith

exact : ℕ → String → ℕ → ℤ
exact n unit nanos = if unit == unit_nanos then min_max (n * nanos) else pos (n * nanos / 10 ^ 6)

module _ (n : ℕ) (unit : String) where
  scale_seconds : n < 10 ^ 11 → scale (pos n) unit (10 ^ 9) ≡ exact n unit (10 ^ 9)
  unfolding scale exact min_max
  scale_seconds h = ground (arith, times_second n, times_thousand n)

  scale_millis : n < 10 ^ 14 → scale (pos n) unit (10 ^ 6) ≡ exact n unit (10 ^ 6)
  unfolding scale exact min_max
  scale_millis h = ground (arith, times_million n, times_one n)

  scale_micros : scale (pos n) unit (10 ^ 3) ≡ exact n unit (10 ^ 3)
  unfolding scale exact quo
  scale_micros = ground (arith, times_thousand n)

  scale_nanos : scale (pos n) unit 1 ≡ exact n unit 1
  unfolding scale exact quo
  scale_nanos = ground (arith, times_one n)

scale_units : (n : ℕ) (unit : String) → scale (pos n) unit (units_of n) ≡ exact n unit (units_of n)
unfolding units_of
scale_units n unit = elim (Bool-cases (ltb n (10 ^ 11))) [
  | inl seconds ↦ rw seconds (scale_seconds n unit (ltb→lt _ _ seconds))
  | inr above ↦ elim (Bool-cases (ltb n (10 ^ 14))) [
    | inl millis ↦ rw (above, millis) (scale_millis n unit (ltb→lt _ _ millis))
    | inr higher ↦ elim (Bool-cases (ltb n (10 ^ 17))) [
      | inl micros ↦ rw (above, higher, micros) (scale_micros n unit)
      | inr nanos ↦ rw (above, higher, nanos) (scale_nanos n unit)
    ]
  ]
]

-- For a positive int64, in exact arithmetic: it is the number of nanoseconds that its unit says,
-- and at most the largest int64, where nanoseconds are asked for, and that number in milliseconds,
-- rounded down, where they are not. No product wraps.
pub normalize_epoch_to_unit_exact :
    (n : ℕ) (unit : String)
    → 1 ≤ n
    → n ≤ max_int64
    → normalize_epoch_to_unit (pos n) unit
      ≡ (if unit == unit_nanos then min_max (in_nanos n) else pos (in_millis n))
unfolding in_nanos in_millis exact
normalize_epoch_to_unit_exact n unit h fits =
    normalize_epoch_to_unit-scale n unit h ∙ scale_units n unit

to_millis :
    (n m : ℕ)
    → 1 ≤ n
    → n ≤ max_int64
    → in_millis n ≡ m
    → normalize_epoch_to_unit (pos n) "ms" ≡ pos m
to_millis n m h fits e = normalize_epoch_to_unit_exact n "ms" h fits ∙ ap pos e

-- An instant after March 1973 and before the year 5138, given in seconds, milliseconds or
-- microseconds, is the same number of milliseconds; so it is in nanoseconds, where they fit an
-- int64.
pub same_instant :
    (s : ℕ)
    → 10 ^ 8 ≤ s
    → s < 10 ^ 11
    → (normalize_epoch_to_unit (pos s) "ms" ≡ pos (s * 10 ^ 3))
      × (normalize_epoch_to_unit (pos (s * 10 ^ 3)) "ms" ≡ pos (s * 10 ^ 3))
      × (normalize_epoch_to_unit (pos (s * 10 ^ 6)) "ms" ≡ pos (s * 10 ^ 3))
      × (s * 10 ^ 9 ≤ max_int64
          → normalize_epoch_to_unit (pos (s * 10 ^ 9)) "ms" ≡ pos (s * 10 ^ 3))
same_instant s low high = (
  to_millis s (s * 10 ^ 3) (omega arith) (omega arith) (unfold in_millis units_of in ground arith),
  to_millis (s * 10 ^ 3) (s * 10 ^ 3) (omega arith) (omega arith)
      (unfold in_millis units_of in ground arith),
  to_millis (s * 10 ^ 6) (s * 10 ^ 3) (omega arith) (omega arith)
      (unfold in_millis units_of in ground arith),
  λ fits.
      to_millis (s * 10 ^ 9) (s * 10 ^ 3) (omega arith) fits
        (unfold in_millis units_of in ground arith),
)

in_millis_range :
    (n : ℕ) → 10 ^ 8 ≤ n → n ≤ max_int64 → (10 ^ 11 ≤ in_millis n) × (in_millis n < 10 ^ 14)
unfolding in_millis units_of
in_millis_range n low fits = (ground arith, ground arith)

in_millis_fixed : (m : ℕ) → 10 ^ 11 ≤ m → m < 10 ^ 14 → in_millis m ≡ m
unfolding in_millis units_of
in_millis_fixed m low high = ground arith

-- min_max (in_nanos n), as a natural number.
nanos : ℕ → ℕ
nanos n = if leb (in_nanos n) max_int64 then in_nanos n else max_int64

nanos_range : (n : ℕ) → 10 ^ 8 ≤ n → n ≤ max_int64 → (10 ^ 17 ≤ nanos n) × (nanos n ≤ max_int64)
unfolding nanos in_nanos units_of
nanos_range n low fits = (ground arith, ground arith)

nanos_fixed : (m : ℕ) → 10 ^ 17 ≤ m → m ≤ max_int64 → nanos m ≡ m
unfolding nanos in_nanos units_of
nanos_fixed m low fits = ground arith

to_nanos :
    (n : ℕ) (unit : String)
    → (unit == unit_nanos) ≡ true
    → 1 ≤ n
    → n ≤ max_int64
    → normalize_epoch_to_unit (pos n) unit ≡ pos (nanos n)
unfolding min_max nanos
to_nanos n unit ns h fits = normalize_epoch_to_unit_exact n unit h fits ∙ rw ns

to_unit_millis :
    (n : ℕ) (unit : String)
    → (unit == unit_nanos) ≡ false
    → 1 ≤ n
    → n ≤ max_int64
    → normalize_epoch_to_unit (pos n) unit ≡ pos (in_millis n)
to_unit_millis n unit ms h fits = normalize_epoch_to_unit_exact n unit h fits ∙ rw ms

-- What is normalised fits an int64.
pub normalize_epoch_to_unit-IsInt64 :
    (n : ℕ) (unit : String)
    → 10 ^ 8 ≤ n
    → n ≤ max_int64
    → IsInt64 (normalize_epoch_to_unit (pos n) unit)
normalize_epoch_to_unit-IsInt64 n unit low fits = elim (Bool-cases (unit == unit_nanos)) [
  | inl ns ↦
      rw (to_nanos n unit ns (omega arith) fits)
        (record { upper = (nanos_range n low fits).1; lower = omega arith })
  | inr ms ↦
      rw (to_unit_millis n unit ms (omega arith) fits)
        (record { upper = omega (arith, (in_millis_range n low fits).1); lower = omega arith })
]

-- An int64 of at least 100000000 (a timestamp after March 1973) that is normalised is left alone
-- when it is normalised again in the same unit.
pub normalize_epoch_to_unit_idempotent :
    (n : ℕ) (unit : String)
    → 10 ^ 8 ≤ n
    → n ≤ max_int64
    → normalize_epoch_to_unit (normalize_epoch_to_unit (pos n) unit) unit
      ≡ normalize_epoch_to_unit (pos n) unit
normalize_epoch_to_unit_idempotent n unit low fits = elim (Bool-cases (unit == unit_nanos)) [
  | inl ns ↦
      let range = nanos_range n low fits in
      rw (to_nanos n unit ns (omega arith) fits) (
        to_nanos (nanos n) unit ns (omega (arith, range.0)) range.1
        ∙ ap pos (nanos_fixed (nanos n) range.0 range.1))
  | inr ms ↦
      let range = in_millis_range n low fits in
      rw (to_unit_millis n unit ms (omega arith) fits) (
        to_unit_millis (in_millis n) unit ms (omega (arith, range.0)) (omega (arith, range.1))
        ∙ ap pos (in_millis_fixed (in_millis n) range.0 range.1))
]
