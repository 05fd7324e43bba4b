-- ===== src/DashboardBuilder/Normalize/Keys.antt =====
-- What filling in the data type and the id of a filter key leaves, and when it changes nothing.
use text.Mathlib.TextLemmas.{nil-append, cons-append}
use signoz_mcp_server.Base.{
  String, ◌≡◌, inl, inr, sym, ◌∙◌, true, false, not, ◌&&◌, ◌||◌, ◌==◌, ◌<>◌, eq_iff, arith,
  Bool-cases, Option-cases,
}
use signoz_mcp_server.Base.Any.{Fields, string, get, get-set_self, get-set_other}
use signoz_mcp_server.Base.Strings.{cut_prefix, after_sep}
use signoz_mcp_server.DashboardBuilder.Filter.{string_of}
use signoz_mcp_server.DashboardBuilder.Normalize.{
  is_separated, second_part, filled_data_type, with_data_type, with_id, is_some,
}

is_separated-joined : (a b : String) → is_separated (a <> ("--" <> b)) ≡ true
unfolding is_separated after_sep cut_prefix is_some
is_separated-joined String.[] b = rw (nil-append, cons-append, cons-append)
is_separated-joined (String.◌∷◌ c a) b =
    rw (cons-append, is_separated, after_sep)
      (elim (Option-cases (cut_prefix (String.◌∷◌ c (a <> ("--" <> b))) "--")) [
        | inl e ↦ rw (e, is_some) (is_separated-joined a b)
        | inr (rest, e) ↦ rw (e, is_some)
      ])

pub get-with_data_type :
    (key : Fields) (old new other : String)
    → ("dataType" == other) ≡ false
    → get (with_data_type key old new) other ≡ get key other
unfolding with_data_type
get-with_data_type key old new other h = elim (Bool-cases (old == "" && not (new == ""))) [
  | inl e ↦ rw (e, with_data_type) (get-set_other key "dataType" other (string new) h)
  | inr e ↦ rw (e, with_data_type)
]

pub get-with_id :
    (key : Fields) (id name data_type type other : String)
    → ("id" == other) ≡ false
    → get (with_id key id name data_type type) other ≡ get key other
unfolding with_id
get-with_id key id name data_type type other h =
    elim (Bool-cases (not (name == "") && (id == "" || not (is_separated id)))) [
      | inl e ↦
          rw (e, with_id)
            (get-set_other key "id" other (string (name <> ("--" <> (data_type <> ("--" <> type)))))
              h)
      | inr e ↦ rw (e, with_id)
    ]

pub data_type-filled :
    (key : Fields) (old new : String)
    → string_of (get key "dataType") ≡ old
    → ((old == "") ≡ false → new ≡ old)
    → string_of (get (with_data_type key old new) "dataType") ≡ new
unfolding with_data_type
data_type-filled key old new h kept = elim (Bool-cases (old == "" && not (new == ""))) [
  | inl e ↦ rw (e, with_data_type, get-set_self key "dataType" (string new))
  | inr e ↦
      rw (e, with_data_type, h)
        (elim (Bool-cases (old == "")) [
          | inl blank ↦
              let none_new : (new == "") ≡ true = ground arith in
              (eq_iff old "").0 blank ∙ sym ((eq_iff new "").0 none_new)
          | inr given ↦ sym (kept given)
        ])
]

pub filled-kept : (old id name : String) → (old == "") ≡ false → filled_data_type old id name ≡ old
unfolding filled_data_type
filled-kept old id name h = rw h

-- A data type that is known is filled with itself.
filled-again :
    (old id name : String)
    → (filled_data_type old id name == "") ≡ false
    → (other : String)
    → filled_data_type (filled_data_type old id name) other name ≡ filled_data_type old id name
filled-again old id name h other = filled-kept (filled_data_type old id name) other name h

-- What is not known has no name, and no second part of an id.
pub filled_blank :
    (old id name : String) → (filled_data_type old id name == "") ≡ true → (name == "") ≡ true
unfolding filled_data_type
filled_blank old id name h = elim (Bool-cases (name == "")) [
  | inl e ↦ e
  | inr e ↦ elim (Bool-cases (old == "")) [
    | inr given ↦ absurd (ground arith)
    | inl blank ↦ elim (Bool-cases (second_part id == "")) [
      | inr part ↦ absurd (ground arith)
      | inl no_part ↦ let bad : ("string" == "") ≡ true = rw (blank, no_part, e) at h in absurd cc
    ]
  ]
]

separated-apart : (id : String) → is_separated id ≡ true → (id == "") ≡ false
unfolding is_separated after_sep cut_prefix is_some
separated-apart id h = elim (Bool-cases (id == "")) [
  | inl blank ↦ let bad : is_separated "" ≡ true = rw ((eq_iff id "").0 blank) at h in absurd cc
  | inr apart ↦ apart
]

pub with_id_done :
    (key : Fields) (id name data_type type : String)
    → ((name == "") ≡ false → is_separated id ≡ true)
    → with_id key id name data_type type ≡ key
unfolding with_id
with_id_done key id name data_type type h = elim (Bool-cases (name == "")) [
  | inl e ↦ rw e
  | inr e ↦ rw (e, separated-apart id (h e), h e)
]

pub with_data_type_done :
    (key : Fields) (old new : String)
    → ((old == "") ≡ true → (new == "") ≡ true)
    → with_data_type key old new ≡ key
unfolding with_data_type
with_data_type_done key old new h = elim (Bool-cases (old == "")) [
  | inl e ↦ rw (e, h e)
  | inr e ↦ rw e
]

-- The id of a key with a name has a separator.
pub with_id-separated :
    (key : Fields) (id name data_type type : String)
    → string_of (get key "id") ≡ id
    → (name == "") ≡ false
    → is_separated (string_of (get (with_id key id name data_type type) "id")) ≡ true
unfolding with_id
with_id-separated key id name data_type type h named =
    elim (Bool-cases (id == "" || not (is_separated id))) [
      | inl e ↦
          rw
            (
              named,
              e,
              with_id,
              get-set_self key "id" (string (name <> ("--" <> (data_type <> ("--" <> type))))),
            )
            (is_separated-joined name (data_type <> ("--" <> type)))
      | inr e ↦ rw (named, e, with_id, h) (ground arith)
    ]

pub with_id_unnamed :
    (key : Fields) (id name data_type type : String)
    → (name == "") ≡ true
    → with_id key id name data_type type ≡ key
unfolding with_id
with_id_unnamed key id name data_type type e = rw e
