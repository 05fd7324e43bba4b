-- ===== src/DashboardBuilder/Variables/Orders.antt =====
-- The orders that variables get, and what a variable with nothing set becomes.

use signoz_mcp_server.Base.{
  ℕ, suc, ◌+◌, ◌≤◌, String, ◌≡◌, ◌≢◌, ◌⊎◌, refl, true, false, Option, none, some, List, [], ◌∷◌,
  map, All, length, eq_iff, arith,
}
use signoz_mcp_server.Base.Int.{ℤ, pos, ◌+ℤ◌}
use signoz_mcp_server.Base.Word.{wrap64, max_int64}
use signoz_mcp_server.DashboardBuilder.Types.{
  Map, DashboardVariable, valid_dynamic_variable_sources,
}
use signoz_mcp_server.DashboardBuilder.Errors.{is_one_of}
use signoz_mcp_server.DashboardBuilder.Variables.{
  next_order, variable_defaults, apply_variable_defaults, default_variables,
}
use signoz_mcp_server.DashboardBuilder.Validate.{validate_variable, contains_space}

abbrev pub orders : Map DashboardVariable → List (Option ℤ)
orders vars = map (λ entry. (entry.1).order) vars

-- n, n + 1 and so on, one for each variable.
abbrev pub orders_from {ℓ} : {A : Type ℓ} → ℕ → List A → List (Option ℤ)
orders_from n [] = []
orders_from n (x ∷ xs) = some (pos n) ∷ orders_from (suc n) xs

abbrev pub IsUnordered : Map DashboardVariable → Type 0
IsUnordered vars = All (λ entry. (entry.1).order ≡ none) vars

plus_one : (n : ℕ) → suc n ≤ max_int64 → wrap64 (pos n +ℤ pos 1) ≡ pos (suc n)
unfolding wrap64 ◌+ℤ◌
plus_one n h = ground arith

orders-apply_variable_defaults :
    (new_id : String → String) (multi show : Option (List String)) (n : ℕ)
    (vars : Map DashboardVariable)
    → n + length vars ≤ max_int64
    → IsUnordered vars
    → orders (apply_variable_defaults new_id multi show (pos n) vars) ≡ orders_from n vars
unfolding apply_variable_defaults variable_defaults next_order
orders-apply_variable_defaults new_id multi show n [] room h = refl
orders-apply_variable_defaults new_id multi show n ((key, v) ∷ vars) room (unset, h) = simp (
  unset,
  next_order,
  plus_one n (omega arith),
  orders-apply_variable_defaults new_id multi show (suc n) vars (omega arith) h,
)

-- Where no variable has an order, and there are at most as many as an int64 counts, the variables are
-- numbered from 0 in the order of the iteration.
pub orders-default_variables :
    (new_id : String → String) (multi show : Option (List String)) (vars : Map DashboardVariable)
    → length vars ≤ max_int64
    → IsUnordered vars
    → orders (default_variables new_id multi show vars) ≡ orders_from 0 vars
unfolding default_variables
orders-default_variables new_id multi show vars room h =
    orders-apply_variable_defaults new_id multi show 0 vars (omega arith) h

-- A variable with no type and no sort is valid once its defaults are filled in, at any order, where its key
-- has no space, its dynamic source is not set or valid, and the new id is not empty.
pub variable_defaults-valid :
    (new_id : String → String) (multi show : Option (List String)) (key : String) (order : ℤ)
    (v : DashboardVariable)
    → v.type ≡ ""
    → v.sort ≡ ""
    → contains_space key ≡ false
    → (v.dynamic_variables_source ≡ "")
      ⊎ (is_one_of v.dynamic_variables_source valid_dynamic_variable_sources ≡ true)
    → new_id key ≢ ""
    → validate_variable key (variable_defaults new_id multi show key order v) ≡ []
unfolding variable_defaults validate_variable
variable_defaults-valid new_id multi show key order v no_type no_sort no_space source named =
    let id_set = eq_iff v.id "" in
    let new_set = eq_iff (new_id key) "" in
    let source_set = eq_iff v.dynamic_variables_source "" in simp (no_type, no_sort) (ground arith)

-- A variable with no order and one with the order 0 get the same order where the iteration meets the
-- first one first, and the orders 0 and 1 where it meets it last.
pub default_variables_collide :
    (new_id : String → String) (multi show : Option (List String)) (key other : String)
    (v w : DashboardVariable)
    → v.order ≡ none
    → w.order ≡ some (pos 0)
    → (orders (default_variables new_id multi show ((key, v) ∷ (other, w) ∷ []))
        ≡ some (pos 0) ∷ some (pos 0) ∷ [])
      × (orders (default_variables new_id multi show ((other, w) ∷ (key, v) ∷ []))
          ≡ some (pos 0) ∷ some (pos 1) ∷ [])
unfolding default_variables apply_variable_defaults variable_defaults next_order ◌+ℤ◌ wrap64
default_variables_collide new_id multi show key other v w unset set =
    (simp (unset, set) refl, simp (unset, set) refl)
