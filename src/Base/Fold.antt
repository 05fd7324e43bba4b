-- ===== src/Base/Fold.antt =====
-- strings.EqualFold. A text is compared by its code points, with the ASCII letters and the two other
-- letters that fold to one of them (the long s and the Kelvin sign) in lower case: where one of the
-- texts is ASCII that is Go's folding. Other letters are compared as they stand.
use Prim.Native.Nat.{ℕ, ◌+◌}
use Prim.Native.Char.{code}
use Prim.Native.String.{String}
use mathlib.Core.Path.{◌≡◌, refl}
use mathlib.Core.Logic.{◌↔◌}
use mathlib.Core.Bool.{Bool, true, false, ◌&&◌}
use mathlib.Core.List.{List, [], ◌∷◌, map}
use native.Mathlib.Omega.{arith}
use signoz_mcp_server.Base.Tests.{leb, eqb, if◌then◌else◌}

abbrev pub codes : String → List ℕ
codes String.[] = []
codes (String.◌∷◌ c s) = code c ∷ codes s

unfoldable pub same_codes : List ℕ → List ℕ → Bool
same_codes [] [] = true
same_codes (a ∷ xs) (b ∷ ys) = eqb a b && same_codes xs ys
same_codes _ _ = false

pub same_codes_iff : (xs ys : List ℕ) → (same_codes xs ys ≡ true) ↔ (xs ≡ ys)
unfolding same_codes
same_codes_iff [] [] = (λ h. refl, λ h. refl)
same_codes_iff [] (y ∷ ys) = (λ h. absurd cc, λ h. absurd cc)
same_codes_iff (x ∷ xs) [] = (λ h. absurd cc, λ h. absurd cc)
same_codes_iff (x ∷ xs) (y ∷ ys) =
    (λ h. ground (arith, same_codes_iff xs ys), λ h. ground (arith, same_codes_iff xs ys))

abbrev pub fold_code : ℕ → ℕ
fold_code c =
    if leb 65 c && leb c 90
    then c + 32
    else if eqb c 0x17f
    then 115
    else if eqb c 0x212a
    then 107
    else c

-- strings.EqualFold(s, t)
unfoldable pub equal_fold : (s t : String) → Bool
unfolding same_codes
equal_fold s t = same_codes (map fold_code (codes s)) (map fold_code (codes t))
