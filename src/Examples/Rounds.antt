-- ===== src/Examples/Rounds.antt =====
-- A pool seeded from one manifest and run for a round.
use open_range.Base.{
  String, List, [], ◌∷◌, true, none, some, Result, ok, length, get, put, ◌≡◌, refl,
}
use open_range.Value.{Value, ℤ, pos}
use open_range.Schema.{parent_chain, merge_attrs, check_attr}
use open_range.Wire.{sorted_nodes, node_data, sorted_items, sorted_edges, edge_data}
use open_range.Sdk.{Snapshot}
use open_range.Training.{episode_reward}
use open_range.Admit.{admit}
use open_range.Curriculum.Difficulty.{harden}
use open_range.Curriculum.Evolve.{auto_evolve}
use open_range.Pool.{
  WorldPool, RoundReports, PromptRow, members_from, by_priority, ran_of, round_rows, reprioritize,
}
use open_range.Pool.Keys.{IsIndexed}
use open_range.Pool.Rounds.{
  Settings, seed, gated_members, update_pool, grow, grow_each, compose_gate,
}
use open_range.Pool.Run.{RunRound, RoundMetrics, run_pool_curriculum, run_rounds}
use open_range.Pool.Indexed.{run_pool_curriculum-IsIndexed}
use open_range.Examples.Millis.{millis}
use open_range.Examples.Packs.{digest_of, pack}

abbrev blank : WorldPool millis
blank = record { members = []; max_size = 0; mix_floor = pos 0; last_difficulty_gain = none }

abbrev pool_in : Result (WorldPool millis) → WorldPool millis
pool_in (ok p) = p
pool_in _ = blank

abbrev difficulty : Snapshot → ℤ
difficulty s = pos (length s.graph.nodes)

abbrev shown : Value → String
shown v = "value"

seeded : WorldPool millis
seeded = pool_in (seed millis digest_of shown pack ([] ∷ []) difficulty 4 none (pos 250) 2 none)

seeds : seed millis digest_of shown pack ([] ∷ []) difficulty 4 none (pos 250) 2 none ≡ ok seeded
unfolding seeded seed gated_members admit members_from get put parent_chain merge_attrs check_attr
seeds = refl

-- Every row is solved.
reports_for : List PromptRow → RoundReports
reports_for [] = []
reports_for (r ∷ rs) =
    (
      (r.snapshot_id, r.task_id),
      record {
        snapshot_id = r.snapshot_id;
        task_id = r.task_id;
        episode_result = record { success = true; subgoals = []; reason = "" };
        final_state = [];
        agent_summary = "";
      }
          ∷ [],
    )
    ∷ reports_for rs

abbrev solver : RunRound
solver n rows snapshots = ok (reports_for rows)

abbrev settings : Settings ℤ
settings = record {
  difficulty_fn = difficulty;
  policy = λ rs. ok (some harden);
  gate = none;
  gate_factory = none;
  evolve_top = 1;
  max_repairs = 2;
  reward_fn = episode_reward millis;
}

abbrev pool_after : Result (WorldPool millis × List (RoundMetrics ℤ)) → WorldPool millis
pool_after (ok (p, m)) = p
pool_after _ = blank

abbrev metrics_after : Result (WorldPool millis × List (RoundMetrics ℤ)) → List (RoundMetrics ℤ)
metrics_after (ok (p, m)) = m
metrics_after _ = []

abbrev curriculum : Result (WorldPool millis × List (RoundMetrics ℤ))
curriculum = run_pool_curriculum millis digest_of shown seeded solver 1 pack 1 1 settings none none

runs :
    run_pool_curriculum millis digest_of shown seeded solver 1 pack 1 1 settings none none
    ≡ ok (pool_after curriculum, metrics_after curriculum)
unfolding seeded seed gated_members admit members_from get put parent_chain merge_attrs check_attr
    run_pool_curriculum run_rounds update_pool grow grow_each by_priority ran_of reports_for
    round_rows digest_of sorted_nodes node_data sorted_items sorted_edges edge_data reprioritize
    compose_gate auto_evolve
runs = refl

run_pool_curriculum-IsIndexed_example :
    IsIndexed (pool_after curriculum).members × (length (metrics_after curriculum) ≡ 1)
run_pool_curriculum-IsIndexed_example =
    run_pool_curriculum-IsIndexed millis digest_of shown pack ([] ∷ []) difficulty 4 none (pos 250)
      2 none seeded (pool_after curriculum) solver 1 1 1 settings none none
      (metrics_after curriculum) seeds runs
