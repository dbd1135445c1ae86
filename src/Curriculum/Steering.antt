-- ===== src/Curriculum/Steering.antt =====
-- src/openrange/core/curriculum.py: `direction_from_reports` and the clamp of a stepped difficulty.
use open_range.Base.{
  ℕ, ◌≤◌, String, List, [], ◌∷◌, true, Option, none, some, Dict, ok, >>=-eq-ok, ok-injective,
  length, All, if◌then◌else◌, ◌≡◌, subst, arith,
}
use open_range.Value.{Value}
use open_range.Floats.{Floats}
use open_range.Sdk.{EpisodeReport}
use open_range.Curriculum.{count_passed, direction_from_reports}
use open_range.Curriculum.Difficulty.{
  Direction, harden, soften, diversify, clamp, to_float, step_difficulty,
}

-- From easier to harder, with no direction below all.
abbrev pub hardness : Option Direction → ℕ
hardness none = 0
hardness (some soften) = 1
hardness (some diversify) = 2
hardness (some harden) = 3

module _ (fl : Floats) where
  open fl use {F, of_ℕ, leb, div, add}

  abbrev direction_at : F → F → F → Option Direction
  direction_at hard soft rate =
      if leb hard rate then some harden else if leb rate soft then some soften else some diversify

  direction_at_mono :
      (hard soft low high : F)
      → leb low high ≡ true
      → hardness (direction_at hard soft low) ≤ hardness (direction_at hard soft high)
  direction_at_mono hard soft low high up =
      ground (arith, fl.leb_trans hard low high, fl.leb_trans low high soft)

  -- Among as many reports, more passed ones never give an easier direction, whatever the thresholds.
  pub direction_from_reports_mono :
      (hard soft : F) (rs ss : List EpisodeReport)
      → length rs ≡ length ss
      → count_passed rs ≤ count_passed ss
      → hardness (direction_from_reports fl hard soft rs)
        ≤ hardness (direction_from_reports fl hard soft ss)
  unfolding direction_from_reports
  direction_from_reports_mono hard soft [] ss same le = omega arith
  direction_from_reports_mono hard soft (r ∷ rs) [] same le = omega (arith, same)
  direction_from_reports_mono hard soft (r ∷ rs) (s ∷ ss) same le =
      let low = div (of_ℕ (count_passed (r ∷ rs))) (of_ℕ (length (r ∷ rs))) in
      let high = div (of_ℕ (count_passed (s ∷ ss))) (of_ℕ (length (s ∷ ss))) in
      let up : leb low high ≡ true =
        subst (λ n. leb low (div (of_ℕ (count_passed (s ∷ ss))) (of_ℕ n)) ≡ true) same
          (fl.div_mono (count_passed (r ∷ rs)) (count_passed (s ∷ ss)) (length (r ∷ rs)) le) in
      direction_at_mono hard soft low high up

  -- Between the two ends.
  abbrev pub IsUnit : F → Type 0
  IsUnit x = (leb (of_ℕ 0) x ≡ true) × (leb x (of_ℕ 1) ≡ true)

  clamp-IsUnit : (x : F) → IsUnit (clamp fl x)
  unfolding clamp
  clamp-IsUnit x = (
    ground (
      arith,
      fl.zero-leb-one,
      fl.leb_total x (of_ℕ 0),
      fl.leb_total (of_ℕ 0) (of_ℕ 0),
      fl.leb_total x (of_ℕ 1),
      fl.leb_total (of_ℕ 1) x,
    ),
    ground (
      arith,
      fl.zero-leb-one,
      fl.leb_total x (of_ℕ 0),
      fl.leb_total (of_ℕ 1) (of_ℕ 1),
      fl.leb_total x (of_ℕ 1),
      fl.leb_total (of_ℕ 1) x,
    ),
  )

  -- `_grow_snapshot` steps every difficulty to a number between 0 and 1.
  pub step_difficulty-All :
      (step : F) (d : Dict String Value) (stepped : Dict String F)
      → step_difficulty fl step d ≡ ok stepped
      → All (λ e. IsUnit e.1) stepped
  unfolding step_difficulty
  step_difficulty-All step [] stepped h = subst (All (λ e. IsUnit e.1)) (ok-injective h) tt
  step_difficulty-All step ((k, v) ∷ d) stepped h =
      let (x, _, tail) = >>=-eq-ok (to_float fl v) _ h in
      let (rest, q, done) = >>=-eq-ok (step_difficulty fl step d) _ tail in
      subst (All (λ e. IsUnit e.1)) (ok-injective done)
        (clamp-IsUnit (add x step), step_difficulty-All step d rest q)
