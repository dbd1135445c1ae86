-- ===== src/Curriculum/Difficulty.antt =====
-- src/openrange/core/curriculum.py: directions, and the steps of difficulty of `_grow_snapshot`.
use open_range.Base.{
  suc, String, [], ◌∷◌, Bool, true, false, ◌&&◌, Option, none, some, Dict, map, Result, ok, err,
  raised, value_error, ◌>>=◌, if◌then◌else◌,
}
use open_range.Value.{Value, bool, int, float, str, dict, pos, negsuc, to_dict}
use open_range.Floats.{Floats, max_of, min_of}
use open_range.Sdk.{PackPrior}

pub data Direction : Type 0 where
  harden : Direction
  soften : Direction
  diversify : Direction

abbrev pub direction_value : Direction → String
direction_value harden = "harden"
direction_value soften = "soften"
direction_value diversify = "diversify"

abbrev pub as_dict : Option Value → Option (Dict String Value)
as_dict (some (dict fs)) = some (to_dict fs)
as_dict _ = none

module _ (fl : Floats) where
  open fl use {F, of_ℕ, add, neg, beq, literal, repr, parse}

  -- `float(v)`
  unfoldable pub to_float : Value → Result F
  to_float (float t) = elim (parse t) [ none ↦ err value_error | some x ↦ ok x ]
  to_float (str t) = elim (parse t) [ none ↦ err value_error | some x ↦ ok x ]
  to_float (int (pos n)) = ok (of_ℕ n)
  to_float (int (negsuc n)) = ok (neg (of_ℕ (suc n)))
  to_float (bool b) = ok (if b then of_ℕ 1 else of_ℕ 0)
  to_float _ = err (raised "TypeError")

  -- `_DIFFICULTY_STEP`: 0.2 up, 0.2 down, and no step to diversify.
  unfoldable pub difficulty_step : Direction → Option F
  difficulty_step harden = some (literal 2 1)
  difficulty_step soften = some (neg (literal 2 1))
  difficulty_step diversify = none

  -- `min(1.0, max(0.0, x))`
  unfoldable pub clamp : F → F
  clamp x = min_of fl (of_ℕ 1) (max_of fl (of_ℕ 0) x)

  -- The dict comprehension of `_grow_snapshot`.
  unfoldable pub step_difficulty : F → Dict String Value → Result (Dict String F)
  unfolding clamp to_float
  step_difficulty step [] = ok []
  step_difficulty step ((k, v) ∷ d) = do
    x ← to_float v
    rest ← step_difficulty step d
    ok ((k, clamp (add x step)) ∷ rest)

  -- `a == v` for a float and a value: a text equals no number.
  unfoldable pub float_eq : F → Value → Bool
  float_eq x (float t) = elim (parse t) [ none ↦ false | some y ↦ beq x y ]
  float_eq x (int (pos n)) = beq x (of_ℕ n)
  float_eq x (int (negsuc n)) = beq x (neg (of_ℕ (suc n)))
  float_eq x (bool b) = beq x (if b then of_ℕ 1 else of_ℕ 0)
  float_eq x _ = false

  -- `stepped == difficulty`: the comprehension kept the keys.
  unfoldable pub same_difficulty : Dict String F → Dict String Value → Bool
  unfolding float_eq
  same_difficulty [] [] = true
  same_difficulty ((k, x) ∷ d) ((k', v) ∷ d') = float_eq x v && same_difficulty d d'
  same_difficulty _ _ = false

  abbrev pub float_values : Dict String F → Dict String Value
  float_values = map (λ e. (e.0, float (repr e.1)))

  -- `dict(carried) if isinstance(carried, dict) else dict(baseline.difficulty)`
  unfoldable pub difficulty_of : Option Value → PackPrior F → Dict String Value
  unfolding to_dict
  difficulty_of carried baseline = elim (as_dict carried) [
    | none ↦ float_values baseline.difficulty
    | some d ↦ d
  ]
