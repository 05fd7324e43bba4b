-- ===== src/DashboardBuilder/Filter/Search.antt =====
-- The search of a key in an expression, position by position.
use text.Mathlib.TextEquality.{Char-path}
use signoz_mcp_server.Base.{
  ℕ, zero, suc, ◌+◌, ◌-◌, ◌≤◌, ◌<◌, Char, ◌≡◌, ◌≢◌, refl, true, some, List, [], ◌∷◌, ◌++◌, length,
  drop, drop-drop, arith, inl, inr, Bool-cases, Option-cases, length-drop,
}
use signoz_mcp_server.DashboardBuilder.Filter.{is_prefix, index, is_standalone, contains_from}

pub is_prefix-append : (key s : List Char) → is_prefix key (key ++ s) ≡ true
is_prefix-append [] s = refl
is_prefix-append (c ∷ key) s = ground (arith, is_prefix-append key s)

pub is_prefix_split : (key s : List Char) → is_prefix key s ≡ true → s ≡ key ++ drop (length key) s
is_prefix_split [] s h = refl
is_prefix_split (c ∷ key) [] h = absurd cc
is_prefix_split (c ∷ key) (d ∷ s) h =
    let same : d ≡ c = Char-path d c (ground arith) in
    let rest : s ≡ key ++ drop (length key) s = is_prefix_split key s (ground arith) in cc

pub is_prefix-length : (key s : List Char) → is_prefix key s ≡ true → length key ≤ length s
is_prefix-length [] s h = omega arith
is_prefix-length (c ∷ key) [] h = absurd cc
is_prefix-length (c ∷ key) (d ∷ s) h = omega (arith, is_prefix-length key s (ground arith))

index_sound : (s key : List Char) (i : ℕ) → index s key ≡ some i → is_prefix key (drop i s) ≡ true
unfolding index
index_sound [] key i h = ground arith
index_sound (c ∷ s) key i h = elim (Bool-cases (is_prefix key (c ∷ s))) [
  | inl here ↦ (let e : i ≡ 0 = ground arith in rw e here)
  | inr not_here ↦ elim (Option-cases (index s key)) [
    | inl nowhere ↦ absurd (ground arith)
    | inr (k, found) ↦ (let e : i ≡ suc k = ground arith in rw e (index_sound s key k found))
  ]
]

-- The first position is at most any other.
index_complete :
    (s key : List Char) (j : ℕ)
    → is_prefix key (drop j s) ≡ true
    → (i : ℕ) × (index s key ≡ some i) × (i ≤ j)
unfolding index
index_complete [] key zero h = (0, rw h refl, omega arith)
index_complete [] key (suc j) h = (0, rw h refl, omega arith)
index_complete (c ∷ s) key zero h = (0, rw h refl, omega arith)
index_complete (c ∷ s) key (suc j) h = elim (Bool-cases (is_prefix key (c ∷ s))) [
  | inl here ↦ (0, rw here refl, omega arith)
  | inr not_here ↦
      let (i, found, first) = index_complete s key j h in
      (suc i, rw (not_here, found) refl, omega arith)
]

-- Where the key stands on its own at a position of the expression.
pub record StandsAt (expression key : List Char) (p : ℕ) : Type 0 where
  pub here : is_prefix key (drop p expression) ≡ true
  pub alone : is_standalone expression p (p + length key) ≡ true

pub contains_from_sound :
    (fuel : ℕ) (expression key : List Char) (idx : ℕ)
    → contains_from fuel expression key idx ≡ true
    → (p : ℕ) × StandsAt expression key p
unfolding contains_from
contains_from_sound zero expression key idx h = absurd cc
contains_from_sound (suc fuel) expression key idx h =
    elim (Option-cases (index (drop idx expression) key)) [
      | inl nowhere ↦ absurd ground arith
      | inr (i, found) ↦
          elim (Bool-cases (is_standalone expression (idx + i) (idx + i + length key))) [
            | inl alone ↦ (
              idx + i,
              record {
                here =
                    rw⁻¹ (drop-drop i idx expression)
                      (index_sound (drop idx expression) key i found);
                alone = alone;
              },
            )
            | inr joined ↦ contains_from_sound fuel expression key (suc (idx + i)) (ground arith)
          ]
    ]

-- Fuel for every character that is left, and one more, is enough.
pub contains_from_complete :
    (fuel : ℕ) (expression key : List Char) (idx p : ℕ)
    → 1 ≤ length key
    → length expression < fuel + idx
    → idx ≤ p
    → StandsAt expression key p
    → contains_from fuel expression key idx ≡ true
unfolding contains_from
contains_from_complete zero expression key idx p named enough le at =
    absurd ground
      (arith, is_prefix-length key (drop p expression) at.here, length-drop p expression)
contains_from_complete (suc fuel) expression key idx p named enough le at =
    let bound : p + length key ≤ length expression =
      ground (arith, is_prefix-length key (drop p expression) at.here, length-drop p expression) in
    let back : idx + (p - idx) ≡ p = omega arith in
    let (i, found, first) =
      index_complete (drop idx expression) key (p - idx)
        (rw (drop-drop (p - idx) idx expression, back) at.here) in
    elim (Bool-cases (is_standalone expression (idx + i) (idx + i + length key))) [
      | inl alone ↦ ground arith
      | inr joined ↦
          let other : idx + i ≢ p = (λ e. absurd (ground arith)) in
          let later =
            contains_from_complete fuel expression key (suc (idx + i)) p named (omega arith)
              (omega arith) at in
          ground arith
    ]
