-- ===== src/DashboardBuilder/Validate/Names.antt =====
-- Sets of ids: membership, and the ids that a loop has seen.
use signoz_mcp_server.Base.{
  String, ◌≡◌, ◌≢◌, ◌↔◌, ◌⊎◌, inl, inr, refl, sym, Bool, true, false, List, [], ◌∷◌, All, arith,
  Bool-cases, ◌==◌, eq_iff,
}
use signoz_mcp_server.DashboardBuilder.Errors.{is_one_of}
use signoz_mcp_server.DashboardBuilder.Validate.{add_id}

abbrev pub In : String → List String → Type 0
In x [] = ⊥
In x (y ∷ ys) = (x ≡ y) ⊎ In x ys

abbrev pub Distinct : List String → Type 0
Distinct [] = Unit
Distinct (x ∷ xs) = ¬ In x xs × Distinct xs

pub is_one_of_iff : (x : String) (xs : List String) → (is_one_of x xs ≡ true) ↔ In x xs
is_one_of_iff x [] = (λ h. absurd cc, λ h. absurd h)
is_one_of_iff x (y ∷ ys) =
    let here = eq_iff x y in
    let there = is_one_of_iff x ys in (λ h. ground arith, λ h. ground arith)

pub not_true : (b : Bool) → ¬ (b ≡ true) → b ≡ false
not_true true h = absurd (h refl)
not_true false h = refl

pub In-add_id :
    (x id : String) (seen : List String) → id ≢ "" → In x (add_id id seen) ↔ ((x ≡ id) ⊎ In x seen)
In-add_id x id seen named =
    let filled : (id == "") ≡ false = not_true _ (λ e. named ((eq_iff id "").0 e)) in
    elim (Bool-cases (is_one_of id seen)) [
      | inl here ↦
          let old = (is_one_of_iff id seen).0 here in
          rw (filled, here) (λ h. inr h, λ h. elim h [ inl e ↦ rw e old | inr h ↦ h ])
      | inr new ↦ rw (filled, new) (λ h. h, λ h. h)
    ]

abbrev pub Fresh : List String → List String → Type 0
Fresh seen ids = All (λ id. ¬ In id seen) ids

pub Fresh-add_id :
    (id : String) (seen xs : List String)
    → id ≢ ""
    → Fresh (add_id id seen) xs ↔ (¬ In id xs × Fresh seen xs)
Fresh-add_id id seen [] named = (λ h. (λ e. e, tt), λ h. tt)
Fresh-add_id id seen (x ∷ xs) named =
    let (to, from) = In-add_id x id seen named in
    let (rest_to, rest_from) = Fresh-add_id id seen xs named in
    (
      λ (new, rest).
          let (apart, fresh) = rest_to rest in
          (
            λ h. elim h [ inl e ↦ new (from (inl (sym e))) | inr there ↦ apart there ],
            (λ h. new (from (inr h)), fresh),
          ),
      λ (apart, (new, fresh)). (
        λ h. elim (to h) [ inl e ↦ apart (inl (sym e)) | inr there ↦ new there ],
        rest_from (λ h. apart (inr h), fresh),
      ),
    )

pub Fresh-nil : (xs : List String) → Fresh [] xs
Fresh-nil [] = tt
Fresh-nil (x ∷ xs) = (λ e. e, Fresh-nil xs)
