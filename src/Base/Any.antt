-- ===== src/Base/Any.antt =====
-- The values of Go's `any` that reach a tool: what encoding/json decodes an argument to, and the
-- numeric types that a caller inside the program may pass.
use Prim.Native.Nat.{ℕ, ◌^◌}
use Prim.Native.String.{String}
use mathlib.Core.Path.{◌≡◌, sym, ap}
use mathlib.Core.Bool.{Bool, true, false}
use text.Mathlib.TextPositions.{eq_refl}
use mathlib.Core.Option.{Option, none, some}
use text.Mathlib.TextEquality.{eq_iff}
use signoz_mcp_server.Base.Tests.{◌==◌, ltb, leb, if◌then◌else◌, Bool-cases}
use mathlib.Core.Logic.{◌≢◌, inl, inr}
use signoz_mcp_server.Base.Int.{ℤ, pos, sub_ℕ}

-- A float64 as the conversions see it: the sign, the absolute value with its fraction cut off,
-- and whether there was no fraction.
pub data Float64 : Type 0 where
  nan : Float64
  infinite : Bool → Float64
  finite : (negative : Bool) (whole : ℕ) (integral : Bool) → Float64

-- int64(f) on amd64: what does not fit becomes the least integer.
unfoldable pub float_to_int64 : Float64 → ℤ
float_to_int64 (finite false whole _) = if ltb whole (2 ^ 63) then pos whole else sub_ℕ 0 (2 ^ 63)
float_to_int64 (finite true whole _) =
    if leb whole (2 ^ 63) then sub_ℕ 0 whole else sub_ℕ 0 (2 ^ 63)
float_to_int64 _ = sub_ℕ 0 (2 ^ 63)

pub data IntType : Type 0 where
  int int8 int16 int32 int64 uint uint8 uint16 uint32 uint64 : IntType

-- `number` is json.Number, a text.
mutual
  pub data Any : Type 0 where
    nil : Any
    bool : Bool → Any
    integer : IntType → ℤ → Any
    float : Float64 → Any
    number : String → Any
    string : String → Any
    array : Anys → Any
    object : Fields → Any

  pub data Anys : Type 0 where
    end : Anys
    item : Any → Anys → Anys

  pub data Fields : Type 0 where
    done : Fields
    field : String → Any → Fields → Fields

-- v, ok := m[key]
unfoldable pub get? : Fields → String → Option Any
get? done key = none
get? (field k v m) key = if k == key then some v else get? m key

-- m[key]; a missing key reads as nil.
unfoldable pub get : Fields → String → Any
get done key = nil
get (field k v m) key = if k == key then v else get m key

pub get?-field_self : (key : String) (v : Any) (m : Fields) → get? (field key v m) key ≡ some v
unfolding get?
get?-field_self key v m = rw (eq_refl key)

pub get?-field_next :
    (key other : String) (v : Any) (m : Fields)
    → (other == key) ≡ false
    → get? (field other v m) key ≡ get? m key
unfolding get?
get?-field_next key other v m h = rw h

-- m[key] = v; a new key comes last.
unfoldable pub set : Fields → String → Any → Fields
set done key v = field key v done
set (field k u m) key v = if k == key then field k v m else field k u (set m key v)

pub get-set_self : (m : Fields) (key : String) (v : Any) → get (set m key v) key ≡ v
unfolding get set
get-set_self done key v = rw (eq_refl key)
get-set_self (field k u m) key v = elim (Bool-cases (k == key)) [
  | inl same ↦ rw (same, set, same, get)
  | inr other ↦ rw (other, set, other, get) (get-set_self m key v)
]

pub get-set_other :
    (m : Fields) (key other : String) (v : Any)
    → (key == other) ≡ false
    → get (set m key v) other ≡ get m other
unfolding get set
get-set_other done key other v h = rw h
get-set_other (field k u m) key other v h = elim (Bool-cases (k == key)) [
  | inl same ↦
      let equal : k ≡ key = (eq_iff k key).0 same in
      let apart : (k == other) ≡ false = rw (sym equal) at h in rw (same, set, apart, get)
  | inr missed ↦ elim (Bool-cases (k == other)) [
    | inl found ↦ rw (missed, set, found, get)
    | inr next ↦ rw (missed, set, next, get) (get-set_other m key other v h)
  ]
]

pub set-set : (m : Fields) (key : String) (v w : Any) → set (set m key v) key w ≡ set m key w
unfolding set
set-set done key v w = rw (eq_refl key)
set-set (field k u m) key v w = elim (Bool-cases (k == key)) [
  | inl same ↦ rw (same, set, same, set)
  | inr missed ↦ rw (missed, set, missed, set) (ap (field k u) (set-set m key v w))
]

-- Writing what stands there changes nothing.
pub set_same : (m : Fields) (key : String) (v : Any) → get m key ≡ v → v ≢ nil → set m key v ≡ m
unfolding get set
set_same done key v h present = absurd (present (sym h))
set_same (field k u m) key v h present = elim (Bool-cases (k == key)) [
  | inl same ↦ rw (same, set) (let e : u ≡ v = rw (same, get) at h in ap (λ w. field k w m) (sym e))
  | inr missed ↦
      rw (missed, set) (ap (field k u) (set_same m key v (rw (missed, get) at h) present))
]
