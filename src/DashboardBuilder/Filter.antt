-- ===== src/DashboardBuilder/Filter.antt =====
-- The filter check of pkg/dashboard/dashboardbuilder/validate.go. A text is read as its code
-- points: a code point outside ASCII is no byte of an attribute name, nor is any of its bytes.
mod Search
pub mod Identifier
mod Consistency
mod Tests
use Prim.Native.String
use signoz_mcp_server.Base.{
  ℕ, zero, suc, ◌+◌, ◌-◌, String, Char, code, Bool, true, false, not, ◌&&◌, ◌||◌, Option, none,
  some, List, [], ◌∷◌, length, drop, leb, eqb, ◌==◌, ◌<>◌, if◌then◌else◌, trim_space,
}
use mathlib.Core.Option
use signoz_mcp_server.Base.Any.{Any, Anys, Fields, string, array, object, end, item, done, get}
use signoz_mcp_server.DashboardBuilder.Errors.{FieldError, unless, inconsistent}

abbrev pub chars : String → List Char
chars String.[] = []
chars (String.◌∷◌ c s) = c ∷ chars s

abbrev pub is_prefix : List Char → List Char → Bool
is_prefix [] s = true
is_prefix (c ∷ key) [] = false
is_prefix (c ∷ key) (d ∷ s) = eqb (code c) (code d) && is_prefix key s

-- strings.Index
pub index : List Char → List Char → Option ℕ
index [] key = if is_prefix key [] then some 0 else none
index (c ∷ s) key = if is_prefix key (c ∷ s) then some 0 else Option.map suc (index s key)

pub is_attribute_name_byte : Char → Bool
is_attribute_name_byte c =
    let b = code c in
    (leb b'a' b && leb b b'z')
    || (leb b'A' b && leb b b'Z')
    || (leb b'0' b && leb b b'9')
    || eqb b b'_'
    || eqb b b'.'

-- Whether the first character that is left, if any, is no byte of an attribute name.
abbrev pub is_boundary : List Char → Bool
is_boundary [] = true
is_boundary (c ∷ s) = not (is_attribute_name_byte c)

-- pos == 0 or the character before `pos`, and the character at `end_pos` or the end of the text.
abbrev pub is_standalone : (expression : List Char) (pos end_pos : ℕ) → Bool
is_standalone expression zero end_pos = is_boundary (drop end_pos expression)
is_standalone expression (suc before) end_pos =
    is_boundary (drop before expression) && is_boundary (drop end_pos expression)

-- The loop, on fuel; each round moves idx forward.
pub contains_from : ℕ → (expression key : List Char) (idx : ℕ) → Bool
contains_from zero expression key idx = false
contains_from (suc fuel) expression key idx =
    if leb (idx + length key) (length expression)
    then elim (index (drop idx expression) key) [
      | none ↦ false
      | some i ↦
          if is_standalone expression (idx + i) (idx + i + length key)
          then true
          else contains_from fuel expression key (suc (idx + i))
    ]
    else false

pub contains_key_as_identifier : (expression key : String) → Bool
contains_key_as_identifier expression key =
    if key == ""
    then false
    else contains_from (suc (length (chars expression))) (chars expression) (chars key) 0

-- s, _ := v.(string), and the same of a map.
abbrev pub string_of : Any → String
string_of (string s) = s
string_of _ = ""

abbrev pub fields_of : Any → Fields
fields_of (object m) = m
fields_of _ = done

-- A []map[string]any that a caller builds is the same array of objects here.
pub filter_items_slice : Any → Anys
filter_items_slice (array items) = items
filter_items_slice _ = end

-- The key name of an item, "" where the loop goes on to the next item.
pub item_key : Any → String
item_key (object m) = string_of (get (fields_of (get m "key")) "key")
item_key _ = ""

pub missing_keys : String → Anys → List String
missing_keys expression end = []
missing_keys expression (item it items) =
    let rest = missing_keys expression items in
    let key = item_key it in
    if key == "" || contains_key_as_identifier expression key then rest else key ∷ rest

abbrev pub is_empty {ℓ} : {A : Type ℓ} → List A → Bool
is_empty [] = true
is_empty (x ∷ xs) = false

-- No items have no missing key, so the early return on them is not told apart.
pub validate_filter_expression_consistency : (prefix : String) → Fields → List FieldError
validate_filter_expression_consistency prefix qd =
    let expression = string_of (get (fields_of (get qd "filter")) "expression") in
    if trim_space expression == ""
    then []
    else let missing =
        missing_keys expression (filter_items_slice (get (fields_of (get qd "filters")) "items")) in
      unless (is_empty missing) (prefix <> ".filter.expression") (inconsistent missing expression)
