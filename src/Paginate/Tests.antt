-- ===== src/Paginate/Tests.antt =====
-- Runs of the pagination, and the theorems at concrete arguments.
use signoz_mcp_server.Base.{ℕ, ◌≡◌, refl, true, false, some, none, List, [], ◌∷◌, arith}
use signoz_mcp_server.Base.Int.{pos, negsuc, ◌+ℤ◌, ◌<ℤ◌}
use signoz_mcp_server.Base.Word.{max_int64, wrap64}
use signoz_mcp_server.Base.Any.{
  Fields, object, field, done, string, float, finite, float_to_int64, get,
}
use signoz_mcp_server.Base.Decimal.{parse_int}
use signoz_mcp_server.Paginate.{parse_loose_int, parse_params, array, wrap}
use signoz_mcp_server.Paginate.Pages.{collect, collect_all, wrap_overflow}

abbrev asked : Fields
asked = field "limit" (string "5000") (field "offset" (float (finite false 2 true)) done)

abbrev letters : List ℕ
letters = 10 ∷ 11 ∷ 12 ∷ 13 ∷ 14 ∷ []

parse_params_runs : parse_params (object asked) ≡ (pos 1000, pos 2)
unfolding parse_params parse_loose_int get parse_int float_to_int64
parse_params_runs = refl

array_runs :
    (array letters (pos 3) (pos 2) ≡ some (13 ∷ 14 ∷ []))
    × (array letters (pos 4) (pos 9) ≡ some (14 ∷ []))
    × (array letters (negsuc 0) (pos 2) ≡ none)
unfolding array wrap64 ◌+ℤ◌
array_runs = (refl, refl, refl)

collect_all_example : collect 6 letters (pos 0) (pos 2) ≡ some letters
collect_all_example = collect_all letters 2 (omega arith) (omega arith)

wrap_overflow_example :
    ((wrap letters (pos 5) (pos max_int64) (pos 50)).pagination.has_more ≡ true)
    × ((wrap letters (pos 5) (pos max_int64) (pos 50)).pagination.next_offset <ℤ pos 0)
wrap_overflow_example =
    wrap_overflow letters 5 max_int64 50 (omega arith) (omega arith) (omega arith)
