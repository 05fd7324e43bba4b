-- ===== src/DashboardBuilder/Normalize/Again.antt =====
-- A filter key that has been healed is left as it is by a second pass.
use signoz_mcp_server.Base.{
  String, ◌≡◌, inl, inr, refl, sym, ap, ◌∙◌, true, false, ◌==◌, eq_iff, arith, Bool-cases,
}
use signoz_mcp_server.Base.Any.{Fields, get}
use signoz_mcp_server.DashboardBuilder.Filter.{string_of}
use signoz_mcp_server.DashboardBuilder.Normalize.{
  is_separated, filled_data_type, with_data_type, with_id, normalize_key,
}
use signoz_mcp_server.DashboardBuilder.Normalize.Keys.{
  get-with_data_type, get-with_id, data_type-filled, filled-kept, filled_blank, with_id_done,
  with_data_type_done, with_id-separated, with_id_unnamed,
}

-- The fields of a healed key.
abbrev name_of : Fields → String
name_of key = string_of (get key "key")

abbrev id_of : Fields → String
id_of key = string_of (get key "id")

abbrev data_type_of : Fields → String
data_type_of key = string_of (get key "dataType")

abbrev new_type : Fields → String
new_type key = filled_data_type (data_type_of key) (id_of key) (name_of key)

normalize_key_other :
    (key : Fields) (other : String)
    → ("dataType" == other) ≡ false
    → ("id" == other) ≡ false
    → get (normalize_key key) other ≡ get key other
unfolding normalize_key
normalize_key_other key other h k =
    let typed = with_data_type key (data_type_of key) (new_type key) in
    get-with_id typed (id_of key) (name_of key) (new_type key) (string_of (get key "type")) other k
    ∙ get-with_data_type key (data_type_of key) (new_type key) other h

normalize_key-data_type : (key : Fields) → data_type_of (normalize_key key) ≡ new_type key
unfolding normalize_key
normalize_key-data_type key =
    let typed = with_data_type key (data_type_of key) (new_type key) in
    ap string_of (
      get-with_id typed (id_of key) (name_of key) (new_type key) (string_of (get key "type"))
        "dataType" refl)
    ∙ data_type-filled key (data_type_of key) (new_type key) refl
        (filled-kept (data_type_of key) (id_of key) (name_of key))

normalize_key-id :
    (key : Fields) → (name_of key == "") ≡ false → is_separated (id_of (normalize_key key)) ≡ true
unfolding normalize_key
normalize_key-id key named =
    let typed = with_data_type key (data_type_of key) (new_type key) in
    with_id-separated typed (id_of key) (name_of key) (new_type key) (string_of (get key "type"))
      (ap string_of (get-with_data_type key (data_type_of key) (new_type key) "id" refl)) named

normalize_key_unnamed :
    (key : Fields) → (name_of key == "") ≡ true → id_of (normalize_key key) ≡ id_of key
unfolding normalize_key
normalize_key_unnamed key e =
    let typed = with_data_type key (data_type_of key) (new_type key) in
    ap id_of (
      with_id_unnamed typed (id_of key) (name_of key) (new_type key) (string_of (get key "type")) e)
    ∙ ap string_of (get-with_data_type key (data_type_of key) (new_type key) "id" refl)

old_blank : (old id name : String) → (filled_data_type old id name == "") ≡ true → old ≡ ""
old_blank old id name h = elim (Bool-cases (old == "")) [
  | inl e ↦ (eq_iff old "").0 e
  | inr e ↦ let same = filled-kept old id name e in absurd (ground arith)
]

-- A data type that is still missing is missing again.
missing_again :
    (key : Fields)
    → (data_type_of (normalize_key key) == "") ≡ true
    → (new_type (normalize_key key) == "") ≡ true
missing_again key h =
    let blank : (new_type key == "") ≡ true = rw (normalize_key-data_type key) at h in
    let unnamed = filled_blank (data_type_of key) (id_of key) (name_of key) blank in
    let named : name_of (normalize_key key) ≡ name_of key =
      ap string_of (normalize_key_other key "key" refl refl) in
    let old = old_blank (data_type_of key) (id_of key) (name_of key) blank in
    let same : new_type (normalize_key key) ≡ new_type key =
      rw
        (
          normalize_key-data_type key,
          normalize_key_unnamed key unnamed,
          named,
          (eq_iff (new_type key) "").0 blank,
        )
        (ap (λ o. filled_data_type o (id_of key) (name_of key)) (sym old)
          ∙ (eq_iff (new_type key) "").0 blank) in
    rw same blank

pub normalize_key-again : (key : Fields) → normalize_key (normalize_key key) ≡ normalize_key key
unfolding normalize_key
normalize_key-again key =
    let healed = normalize_key key in
    let typed =
      with_data_type_done healed (data_type_of healed) (new_type healed) (missing_again key) in
    ap
      (λ k.
        with_id k (id_of healed) (name_of healed) (new_type healed) (string_of (get healed "type")))
      typed
    ∙ with_id_done healed (id_of healed) (name_of healed) (new_type healed)
        (string_of (get healed "type"))
        (λ named. normalize_key-id key (rw (normalize_key_other key "key" refl refl) at named))
