-- ===== src/Floats.antt =====
-- Python's floats, which the language here does not have: the operations that the program uses, and
-- the facts on which the theorems rest. The order is total, so NaN is left out.
use open_range.Base.{
  ℕ, String, Bool, true, false, Option, ◌≡◌, ◌≤◌, List, [], ◌∷◌, not, if◌then◌else◌,
}

pub record Floats : Type 1 where
  pub F : Type 0
  pub of_ℕ : ℕ → F
  pub add : F → F → F
  pub sub : F → F → F
  pub mul : F → F → F
  -- `a / b`, where the program has made sure that `b` is no zero.
  pub div : F → F → F
  pub neg : F → F
  pub absolute : F → F
  pub leb : F → F → Bool
  pub beq : F → F → Bool
  -- `round(a)`, cut off at 0.
  pub round_ℕ : F → ℕ
  -- A literal `m / 10 ^ k` of the program.
  pub literal : ℕ → ℕ → F
  -- `float.__repr__`, `float(text)` (none for the ValueError), and `{x:.2f}`.
  pub repr : F → String
  pub parse : String → Option F
  pub fixed2 : F → String
  pub leb_total : (a b : F) → leb a b ≡ false → leb b a ≡ true
  pub leb_trans : (a b c : F) → leb a b ≡ true → leb b c ≡ true → leb a c ≡ true
  pub zero-leb-one : leb (of_ℕ 0) (of_ℕ 1) ≡ true
  -- A quotient of counts grows with the numerator: rounding is monotone.
  pub div_mono : (k m n : ℕ) → k ≤ m → leb (div (of_ℕ k) (of_ℕ n)) (div (of_ℕ m) (of_ℕ n)) ≡ true

module _ (fl : Floats) where
  open fl use {F, leb, add, of_ℕ}

  -- `a < b`
  abbrev pub less : F → F → Bool
  less a b = not (leb b a)

  -- `max(a, b)` and `min(a, b)`: the first, unless the second is strictly beyond it.
  abbrev pub max_of : F → F → F
  max_of a b = if less a b then b else a

  abbrev pub min_of : F → F → F
  min_of a b = if less b a then b else a

  -- `sum(xs)`
  unfoldable pub sum_from : F → List F → F
  sum_from acc [] = acc
  sum_from acc (x ∷ xs) = sum_from (add acc x) xs
