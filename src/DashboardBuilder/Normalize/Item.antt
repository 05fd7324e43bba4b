-- ===== src/DashboardBuilder/Normalize/Item.antt =====
-- A filter item that has been healed is left as it is by a second pass.
use signoz_mcp_server.Base.{
  String, ◌≡◌, ◌⊎◌, inl, inr, refl, ap, ◌∙◌, Bool, true, false, Bool-cases,
}
use mathlib.Core.Logic.{◌≢◌}
use signoz_mcp_server.Base.Any.{
  Any, Anys, Fields, nil, bool, integer, float, number, string, array, object, end, item, get,
  get-set_self, get-set_other, set_same,
}
use signoz_mcp_server.Base.Strings.{has_prefix}
use signoz_mcp_server.DashboardBuilder.Normalize.{
  normalize_key, with_key, unwrap_variable, with_value, normalize_filter_item,
}
use signoz_mcp_server.DashboardBuilder.Normalize.Again.{normalize_key-again}

is_nil : Any → Bool
is_nil nil = true
is_nil _ = false

object-apart : (m : Fields) → object m ≢ nil
unfolding is_nil
object-apart m e = let bad : false ≡ true = ap is_nil e in absurd cc

array-apart : (items : Anys) → array items ≢ nil
unfolding is_nil
array-apart items e = let bad : false ≡ true = ap is_nil e in absurd cc

string-apart : (s : String) → string s ≢ nil
unfolding is_nil
string-apart s e = let bad : false ≡ true = ap is_nil e in absurd cc

keyed : Any → Any
keyed (object key) = object (normalize_key key)
keyed v = v

get-with_key : (m : Fields) (v : Any) → get m "key" ≡ v → get (with_key m v) "key" ≡ keyed v
unfolding with_key keyed
get-with_key m (object key) h = get-set_self m "key" (object (normalize_key key))
get-with_key m nil h = h
get-with_key m (bool b) h = h
get-with_key m (integer t i) h = h
get-with_key m (float f) h = h
get-with_key m (number s) h = h
get-with_key m (string s) h = h
get-with_key m (array items) h = h

with_key_done : (m : Fields) (v : Any) → get m "key" ≡ keyed v → with_key m (keyed v) ≡ m
unfolding with_key keyed
with_key_done m (object key) h =
    rw (normalize_key-again key)
      (set_same m "key" (object (normalize_key key)) h (object-apart (normalize_key key)))
with_key_done m nil h = refl
with_key_done m (bool b) h = refl
with_key_done m (integer t i) h = refl
with_key_done m (float f) h = refl
with_key_done m (number s) h = refl
with_key_done m (string s) h = refl
with_key_done m (array items) h = refl

get-with_key_other : (m : Fields) (v : Any) → get (with_key m v) "value" ≡ get m "value"
unfolding with_key
get-with_key_other m (object key) = get-set_other m "key" "value" (object (normalize_key key)) refl
get-with_key_other m nil = refl
get-with_key_other m (bool b) = refl
get-with_key_other m (integer t i) = refl
get-with_key_other m (float f) = refl
get-with_key_other m (number s) = refl
get-with_key_other m (string s) = refl
get-with_key_other m (array items) = refl

get-with_value :
    (m : Fields) (v : Any) → get m "value" ≡ v → get (with_value m v) "value" ≡ unwrap_variable v
unfolding with_value unwrap_variable
get-with_value m (array items) h = get-set_self m "value" (unwrap_variable (array items))
get-with_value m nil h = h
get-with_value m (bool b) h = h
get-with_value m (integer t i) h = h
get-with_value m (float f) h = h
get-with_value m (number s) h = h
get-with_value m (string s) h = h
get-with_value m (object key) h = h

get-with_value_other : (m : Fields) (v : Any) → get (with_value m v) "key" ≡ get m "key"
unfolding with_value
get-with_value_other m (array items) =
    get-set_other m "value" "key" (unwrap_variable (array items)) refl
get-with_value_other m nil = refl
get-with_value_other m (bool b) = refl
get-with_value_other m (integer t i) = refl
get-with_value_other m (float f) = refl
get-with_value_other m (number s) = refl
get-with_value_other m (string s) = refl
get-with_value_other m (object key) = refl

unwrap_cases : (v : Any) → (unwrap_variable v ≡ v) ⊎ ((s : String) × (unwrap_variable v ≡ string s))
unfolding unwrap_variable
unwrap_cases (array (item (string s) end)) = elim (Bool-cases (has_prefix s "$")) [
  | inl e ↦ inr (s, rw e)
  | inr e ↦ inl (rw e)
]
unwrap_cases (array end) = inl refl
unwrap_cases (array (item (string s) (item v items))) = inl refl
unwrap_cases (array (item nil items)) = inl refl
unwrap_cases (array (item (bool b) items)) = inl refl
unwrap_cases (array (item (integer t i) items)) = inl refl
unwrap_cases (array (item (float f) items)) = inl refl
unwrap_cases (array (item (number s) items)) = inl refl
unwrap_cases (array (item (array vs) items)) = inl refl
unwrap_cases (array (item (object m) items)) = inl refl
unwrap_cases nil = inl refl
unwrap_cases (bool b) = inl refl
unwrap_cases (integer t i) = inl refl
unwrap_cases (float f) = inl refl
unwrap_cases (number s) = inl refl
unwrap_cases (string s) = inl refl
unwrap_cases (object m) = inl refl

with_value_kept :
    (m : Fields) (v : Any) → get m "value" ≡ v → unwrap_variable v ≡ v → with_value m v ≡ m
unfolding with_value
with_value_kept m (array items) h e = rw e (set_same m "value" (array items) h (array-apart items))
with_value_kept m nil h e = refl
with_value_kept m (bool b) h e = refl
with_value_kept m (integer t i) h e = refl
with_value_kept m (float f) h e = refl
with_value_kept m (number s) h e = refl
with_value_kept m (string s) h e = refl
with_value_kept m (object key) h e = refl

with_value_done :
    (m : Fields) (v : Any)
    → get m "value" ≡ unwrap_variable v
    → with_value m (unwrap_variable v) ≡ m
unfolding with_value
with_value_done m v h = elim (unwrap_cases v) [
  | inl e ↦ with_value_kept m (unwrap_variable v) h (ap unwrap_variable e)
  | inr (s, e) ↦ rw e
]

pub normalize_filter_item-again :
    (m : Fields) → normalize_filter_item (normalize_filter_item m) ≡ normalize_filter_item m
unfolding normalize_filter_item
normalize_filter_item-again m =
    let keyed_item = with_key m (get m "key") in
    let healed = with_value keyed_item (get m "value") in
    let key : get healed "key" ≡ keyed (get m "key") =
      get-with_value_other keyed_item (get m "value") ∙ get-with_key m (get m "key") refl in
    let value : get healed "value" ≡ unwrap_variable (get m "value") =
      get-with_value keyed_item (get m "value") (get-with_key_other m (get m "key")) in
    ap (λ v. with_value (with_key healed v) (get healed "value")) key
    ∙ ap (λ h. with_value h (get healed "value")) (with_key_done healed (get m "key") key)
    ∙ ap (with_value healed) value
    ∙ with_value_done healed (get m "value") value
