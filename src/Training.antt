-- ===== src/Training.antt =====
-- src/openrange/training.py: an episode's outcome as a reward and a trajectory.
use open_range.Base.{
  ℕ, suc, String, List, [], ◌∷◌, Bool, Option, Dict, map, values, is_empty, length, if◌then◌else◌,
}
use open_range.Value.{Value}
use open_range.Floats.{Floats, sum_from}
use open_range.Sdk.{EpisodeReport, passed}

pub record Reward (F : Type 0) : Type 0 where
  pub scalar : F
  pub components : Dict String F

-- `AgentTurn` of src/openrange/core/episode.py.
pub record AgentTurn : Type 0 where
  pub message : Option String
  pub tool_calls : List (Dict String Value)
  pub tool_results : List (Dict String Value)
  pub metadata : Dict String Value

pub record TrajectoryStep : Type 0 where
  pub index : ℕ
  pub message : Option String
  pub tool_calls : List (Dict String Value)
  pub tool_results : List (Dict String Value)
  pub metadata : Dict String Value

pub record Trajectory (F : Type 0) : Type 0 where
  pub snapshot_id : String
  pub task_id : String
  pub steps : List TrajectoryStep
  pub reward : Reward F
  pub success : Bool
  pub reason : String

-- `for i, turn in enumerate(turns)`
unfoldable pub steps_from : ℕ → List AgentTurn → List TrajectoryStep
steps_from i [] = []
steps_from i (turn ∷ turns) =
    record {
      index = i;
      message = turn.message;
      tool_calls = turn.tool_calls;
      tool_results = turn.tool_results;
      metadata = turn.metadata;
    }
    ∷ steps_from (suc i) turns

module _ (fl : Floats) where
  open fl use {F, of_ℕ, div}

  abbrev pub components_of : Dict String Bool → Dict String F
  components_of = map (λ e. (e.0, if e.1 then of_ℕ 1 else of_ℕ 0))

  unfoldable pub episode_reward : EpisodeReport → Reward F
  unfolding sum_from
  episode_reward report =
      let components = components_of report.episode_result.subgoals in
      record {
        scalar =
            if passed report
            then of_ℕ 1
            else if is_empty components
            then of_ℕ 0
            else div (sum_from fl (of_ℕ 0) (values components)) (of_ℕ (length components));
        components = components;
      }

  unfoldable pub episode_trajectory : EpisodeReport → List AgentTurn → Trajectory F
  unfolding episode_reward steps_from
  episode_trajectory report turns = record {
    snapshot_id = report.snapshot_id;
    task_id = report.task_id;
    steps = steps_from 0 turns;
    reward = episode_reward report;
    success = passed report;
    reason = report.episode_result.reason;
  }
