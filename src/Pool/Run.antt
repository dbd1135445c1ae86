-- ===== src/Pool/Run.antt =====
-- src/openrange/pool.py: `EvalPool`, the pass rates, and the loop of `run_pool_curriculum`. The
-- trainer keeps a state of its own: it is called with the number of the round.
use open_range.Base.{
  ℕ, zero, suc, String, List, [], ◌∷◌, Bool, Option, none, some, get, values, is_empty, length,
  Result, ok, ◌>>=◌, if◌then◌else◌, pair_eq,
}
use open_range.Value.{Value}
use open_range.Floats.{Floats, sum_from}
use open_range.Sdk.{Snapshot, EpisodeReport, Pack}
use open_range.Curriculum.{count_passed}
use open_range.Pool.{
  key_of, Member, PromptRow, RoundReports, rows_for, snapshots_of, WorldPool, round_rows,
}
use open_range.Pool.Rounds.{Settings, update_pool}

abbrev pub RunRound : Type 0
RunRound = ℕ → List PromptRow → List Snapshot → Result RoundReports

pub record RoundMetrics (F : Type 0) : Type 0 where
  pub train_solve_rate : F
  pub held_out_solve_rate : Option F
  pub frontier_capped : Bool
  pub difficulty_gain : Option F

-- The members of an `EvalPool`, which no method changes.
abbrev pub EvalPool : Type 0 → Type 0
EvalPool F = List (Member F)

-- The groups of reports of the members that have some: `reports[m.key] for m … if m.key in reports`.
unfoldable pub eval_groups : {F : Type 0} → EvalPool F → RoundReports → List (List EpisodeReport)
eval_groups [] reports = []
eval_groups (m ∷ members) reports =
    let rest = eval_groups members reports in
    elim (get (key_of m) reports) [ none ↦ rest | some g ↦ g ∷ rest ]

module _ (fl : Floats) where
  open fl use {F, of_ℕ, sub, div}

  -- The rates of the groups that are not empty.
  unfoldable pub rates_of : List (List EpisodeReport) → List F
  unfolding count_passed
  rates_of [] = []
  rates_of ([] ∷ groups) = rates_of groups
  rates_of ((r ∷ rs) ∷ groups) =
      div (of_ℕ (count_passed (r ∷ rs))) (of_ℕ (length (r ∷ rs))) ∷ rates_of groups

  unfoldable pub mean_pass_rate : List (List EpisodeReport) → F
  unfolding rates_of sum_from
  mean_pass_rate groups =
      let rates = rates_of groups in
      if is_empty rates then of_ℕ 0 else div (sum_from fl (of_ℕ 0) rates) (of_ℕ (length rates))

  unfoldable pub solve_rate : EvalPool F → RoundReports → F
  unfolding mean_pass_rate eval_groups
  solve_rate members reports = mean_pass_rate (eval_groups members reports)

  -- `RoundMetrics.generalization_gap`
  unfoldable pub generalization_gap : RoundMetrics F → Option F
  generalization_gap m = elim m.held_out_solve_rate [
    | none ↦ none
    | some held_out ↦ some (sub m.train_solve_rate held_out)
  ]

  module _ (digest : Value → String) (show : Value → String) where
    -- The held-out worlds are measured, if there are any.
    abbrev pub measure_held_out : Option (EvalPool F) → RunRound → ℕ → ℕ → Result (Option F)
    measure_held_out none measure round num_generations = ok none
    measure_held_out (some []) measure round num_generations = ok none
    measure_held_out (some (m ∷ ms)) measure round num_generations = do
      reports ← measure round (rows_for (m ∷ ms) num_generations) (snapshots_of (m ∷ ms))
      ok (some (solve_rate (m ∷ ms) reports))

    -- `rounds` rounds are left; `round` counts those that are done.
    unfoldable pub run_rounds :
        ℕ
        → ℕ
        → WorldPool fl
        → RunRound
        → RunRound
        → Pack F
        → ℕ
        → ℕ
        → Settings F
        → Option (EvalPool F)
        → Result (WorldPool fl × List (RoundMetrics F))
    run_rounds zero round pool run_round measure pack groups num_generations settings eval_pool =
        ok (pool, [])
    run_rounds (suc rounds) round pool run_round measure pack groups num_generations settings
          eval_pool =
        do
          let rows = round_rows fl pool groups num_generations
          reports ← run_round round rows (snapshots_of (values pool.members))
          held_out ← measure_held_out eval_pool measure round num_generations
          (pool', capped) ← update_pool fl digest show pool reports pack settings
          (final, metrics) ←
              run_rounds rounds (suc round) pool' run_round measure pack groups num_generations
                settings eval_pool
          ok (
            final,
            record {
              train_solve_rate = mean_pass_rate (values reports);
              held_out_solve_rate = held_out;
              frontier_capped = capped;
              difficulty_gain = pool'.last_difficulty_gain;
            }
                ∷ metrics,
          )

    abbrev pub or_else : Option RunRound → RunRound → RunRound
    or_else none run_round = run_round
    or_else (some eval_round) run_round = eval_round

    unfoldable pub run_pool_curriculum :
        WorldPool fl
        → RunRound
        → ℕ
        → Pack F
        → ℕ
        → ℕ
        → Settings F
        → Option (EvalPool F)
        → Option RunRound
        → Result (WorldPool fl × List (RoundMetrics F))
    run_pool_curriculum pool run_round rounds pack groups num_generations settings eval_pool
          eval_round =
        run_rounds rounds 0 pool run_round (or_else eval_round run_round) pack groups
          num_generations settings eval_pool
