-- ===== src/Paginate/Bounds.antt =====
-- The limit and the offset that a request asks for.
use signoz_mcp_server.Base.{◌≡◌, refl, arith, true, ◌↔◌}
use signoz_mcp_server.Base.Int.{ℤ, pos, ◌≤ℤ◌, ◌<ℤ◌}
use signoz_mcp_server.Base.Any.{Any, Fields, object, get}
use signoz_mcp_server.Paginate.{
  LooseInt, given, absent, malformed, limit_of, offset_of, parse_loose_int, parse_params_clamped,
  parse_params, max_limit,
}

limit_of_bounds : (v : LooseInt) → (pos 1 ≤ℤ (limit_of v).0) × ((limit_of v).0 ≤ℤ max_limit)
unfolding limit_of
limit_of_bounds (given v) = ground arith
limit_of_bounds absent = ground arith
limit_of_bounds malformed = ground arith

offset_of_bounds : (v : LooseInt) → pos 0 ≤ℤ offset_of v
unfolding offset_of
offset_of_bounds (given v) = ground arith
offset_of_bounds absent = ground arith
offset_of_bounds malformed = ground arith

limit_of_iff :
    (n : LooseInt)
    → (((limit_of n).1 ≡ true) ↔ ((v : ℤ) × (n ≡ given v) × (max_limit <ℤ v)))
      × ((limit_of n).1 ≡ true → (limit_of n).0 ≡ max_limit)
unfolding limit_of
limit_of_iff (given v) =
    ((λ h. (v, refl, ground arith), λ (w, same, big). ground arith), λ h. ground arith)
limit_of_iff absent = ((λ h. cc, λ (w, same, big). cc), λ h. cc)
limit_of_iff malformed = ((λ h. cc, λ (w, same, big). cc), λ h. cc)

-- Whatever the arguments are, the limit is between 1 and 1000 and the offset is not negative.
pub parse_params_bounds :
    (args : Any)
    → (pos 1 ≤ℤ (parse_params args).0)
      × ((parse_params args).0 ≤ℤ max_limit)
      × (pos 0 ≤ℤ (parse_params args).1)
unfolding parse_params
parse_params_bounds (object m) =
    let bounds = limit_of_bounds (parse_loose_int (get m "limit")) in
    (unfold limit_of in bounds.0, bounds.1, offset_of_bounds (parse_loose_int (get m "offset")))
parse_params_bounds _ = ground arith

-- The limit is clamped exactly when the arguments ask for more than 1000, and then it is 1000.
pub parse_params_clamped_iff :
    (m : Fields)
    → (((parse_params_clamped (object m)).clamped ≡ true)
        ↔ ((v : ℤ) × (parse_loose_int (get m "limit") ≡ given v) × (max_limit <ℤ v)))
      × ((parse_params_clamped (object m)).clamped ≡ true
          → (parse_params_clamped (object m)).limit ≡ max_limit)
unfolding parse_params_clamped
parse_params_clamped_iff m = limit_of_iff (parse_loose_int (get m "limit"))
