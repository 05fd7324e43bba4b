-- ===== src/Paginate.antt =====
-- pkg/paginate/paginate.go. Go's `int` is a 64-bit integer. The encoding of a response to JSON is
-- left out: `wrap` gives the response that is encoded.
pub mod Bounds
pub mod Pages
mod Tests
use signoz_mcp_server.Base.{
  ℕ, ◌-◌, String, Bool, true, false, not, ◌||◌, ◌&&◌, Option, none, some, List, [], ◌==◌, ltb, leb,
  if◌then◌else◌, length, take, drop,
}
use signoz_mcp_server.Base.Int.{ℤ, pos, negsuc, ◌+ℤ◌, leb_ℤ, ltb_ℤ, eqb_ℤ, pos_part}
use signoz_mcp_server.Base.Word.{wrap64}
use signoz_mcp_server.Base.Decimal.{parse_int}
use signoz_mcp_server.Base.Any.{
  Any, Fields, Float64, float_to_int64, nil, integer, float, number, string, object, int, int64,
  get,
}

abbrev pub default_limit : ℤ
default_limit = pos 50

abbrev pub default_offset : ℤ
default_offset = pos 0

abbrev pub max_limit : ℤ
max_limit = pos 1000

pub record Metadata : Type 0 where
  pub total : ℤ
  pub offset : ℤ
  pub limit : ℤ
  pub has_more : Bool
  pub next_offset : ℤ

pub record Response (A : Type 0) : Type 0 where
  pub items : List A
  pub pagination : Metadata

-- `absent` is (0, false, true), `malformed` is (0, true, false).
pub data LooseInt : Type 0 where
  absent malformed : LooseInt
  given : ℤ → LooseInt

abbrev or_malformed : Option ℤ → LooseInt
or_malformed none = malformed
or_malformed (some n) = given n

pub parse_loose_int : Any → LooseInt
parse_loose_int nil = absent
parse_loose_int (integer int n) = given n
parse_loose_int (integer int64 n) = given n
parse_loose_int (float f) = given (float_to_int64 f)
parse_loose_int (number s) = or_malformed (parse_int s)
parse_loose_int (string s) = if s == "" then absent else or_malformed (parse_int s)
parse_loose_int _ = malformed

pub record Params : Type 0 where
  pub limit : ℤ
  pub offset : ℤ
  pub clamped : Bool

-- The limit, and whether it was clamped.
pub limit_of : LooseInt → ℤ × Bool
limit_of (given v) =
    if ltb_ℤ (pos 0) v
    then (if ltb_ℤ max_limit v then (max_limit, true) else (v, false))
    else (default_limit, false)
limit_of _ = (default_limit, false)

pub offset_of : LooseInt → ℤ
offset_of (given v) = if leb_ℤ (pos 0) v then v else default_offset
offset_of _ = default_offset

pub parse_params_clamped : Any → Params
unfolding limit_of offset_of
parse_params_clamped (object m) =
    let (limit, clamped) = limit_of (parse_loose_int (get m "limit")) in
    record {
      limit = limit;
      offset = offset_of (parse_loose_int (get m "offset"));
      clamped = clamped;
    }
parse_params_clamped _ = record { limit = default_limit; offset = default_offset; clamped = false }

-- (limit, offset)
pub parse_params : Any → ℤ × ℤ
unfolding parse_params_clamped
parse_params args = let p = parse_params_clamped args in (p.limit, p.offset)

module _ {A : Type 0} where
  -- arr[lo:hi] of a slice with no spare capacity; `none` is the panic of bounds out of range.
  pub slice : List A → ℤ → ℤ → Option (List A)
  slice arr lo hi =
      if leb_ℤ (pos 0) lo && leb_ℤ lo hi && leb_ℤ hi (pos (length arr))
      then some (take (pos_part hi - pos_part lo) (drop (pos_part lo) arr))
      else none

  pub array : List A → ℤ → ℤ → Option (List A)
  unfolding slice
  array arr offset limit =
      let len = pos (length arr) in
      let end = wrap64 (offset +ℤ limit) in
      if leb_ℤ limit (pos 0) || leb_ℤ len offset
      then some []
      else slice arr offset (if ltb_ℤ len end then len else end)

  pub wrap : List A → ℤ → ℤ → ℤ → Response A
  wrap items total offset limit =
      let sum = wrap64 (offset +ℤ limit) in
      let next_offset = if leb_ℤ total sum then negsuc 0 else sum in
      record {
        items = items;
        pagination = record {
          total = total;
          offset = offset;
          limit = limit;
          has_more = not (eqb_ℤ next_offset (negsuc 0));
          next_offset = next_offset;
        };
      }
