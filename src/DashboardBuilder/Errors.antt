-- ===== src/DashboardBuilder/Errors.antt =====
-- pkg/dashboard/dashboardbuilder/errors.go and isOneOf of validate.go. The errors that Validate
-- adds up are a list, in the order in which they are added; a message is a constructor that holds
-- what its text is formatted from.
use Prim.Native.Nat.{ℕ}
use signoz_mcp_server.Base.{
  String, Bool, true, false, List, [], ◌∷◌, ◌++◌, ◌==◌, ◌<>◌, if◌then◌else◌,
}
use signoz_mcp_server.Base.Int.{ℤ, pos}
use signoz_mcp_server.Base.Decimal.{format_int}

pub data Message : Type 0 where
  required empty spaces_in_key required_for_widgets not_a_string no_query_data : Message
  must_be : (wanted got : String) → Message
  not_one_of : (allowed : List String) (got : String) → Message
  required_for : (variable_type : String) → Message
  duplicate_widget duplicate_layout unknown_widget missing_layout not_a_row : String → Message
  not_a_number : String → Message
  required_when no_queries : (query_type : String) → Message
  inconsistent : (missing : List String) (expression : String) → Message
  negative not_positive : ℤ → Message
  exceeds_grid : (x w sum : ℤ) → Message

pub record FieldError : Type 0 where
  pub field : String
  pub message : Message

-- An error unless the condition holds.
abbrev pub unless : Bool → String → Message → List FieldError
unless true field message = []
unless false field message = record { field = field; message = message } ∷ []

abbrev pub is_one_of : String → List String → Bool
is_one_of val [] = false
is_one_of val (a ∷ allowed) = if val == a then true else is_one_of val allowed

-- prefix[i]
abbrev pub indexed : String → ℕ → String
indexed prefix i = prefix <> "[" <> format_int (pos i) <> "]"

-- The errors of a loop over a slice.
abbrev pub each {ℓ} : {A : Type ℓ} → (ℕ → A → List FieldError) → ℕ → List A → List FieldError
each check i [] = []
each check i (x ∷ xs) = check i x ++ each check (ℕ.suc i) xs
