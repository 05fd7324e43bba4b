-- ===== src/DashboardBuilder/Validate/Accepted.antt =====
-- What the checks of validate.go accept.
use signoz_mcp_server.Base.{◌≡◌, refl, List, [], ◌∷◌, ◌++◌}
use signoz_mcp_server.Base.Int.{ℤ, pos, int_laws, ◌+ℤ◌, ◌≤ℤ◌, ◌<ℤ◌}
use signoz_mcp_server.Base.Word.{wrap64, wrap64_of_IsInt64}
use signoz_mcp_server.DashboardBuilder.Types.{grid_columns}

pub append_nil : {A : Type 0} (xs ys : List A) → xs ++ ys ≡ [] → (xs ≡ []) × (ys ≡ [])
append_nil [] ys h = (refl, h)
append_nil (x ∷ xs) ys h = absurd cc

-- A sum that is on the grid does not wrap.
pub sum_on_grid :
    (x w : ℤ) → pos 0 ≤ℤ x → pos 0 <ℤ w → x +ℤ w ≤ℤ grid_columns → wrap64 (x +ℤ w) ≡ x +ℤ w
sum_on_grid x w hx hw h =
    wrap64_of_IsInt64 (x +ℤ w) (record { upper = grind int_laws; lower = grind int_laws })
