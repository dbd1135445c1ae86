-- ===== src/Episode/Service.antt =====
-- src/openrange/core/episode.py: the constructor of `EpisodeService`, its hook at the exit of the
-- process, and the dicts of reports and turns.
use open_range.Base.{
  ℕ, max, String, [], ◌∷◌, Bool, true, false, Option, none, some, Dict, map, values, Result, ok,
  err, episode_error, if◌then◌else◌,
}
use open_range.Value.{Value, pos, dict, fields_of}
use open_range.Floats.{Floats}
use open_range.Sdk.{Backing, Pack}
use open_range.Episode.{RunningEpisode, CostedReport, ActorTurn, stop, Outside, Config, State}
use open_range.Episode.Actions.{
  Action, return, ask, attempt, alter, get_state, for_each, ◌>>=◌, ◌>>◌,
}
use open_range.Episode.Stops.{evict_warm}

-- Either a backend for NPCs or a model for one, not both.
abbrev has_backend : Option String → Option String → Result Bool
has_backend (some backend) (some model) = err episode_error
has_backend none none = ok false
has_backend _ _ = ok true

-- `EpisodeService.__init__`: a backend is a name here.
unfoldable new_config :
    {F : Type 0}
    → Pack F
    → String
    → Bool
    → Option String
    → Option String
    → Backing
    → ℕ
    → Dict String ℕ
    → Result (Config F)
new_config pack run_root dashboard npc_agent_backend npc_llm_model backing warm_capacity factories =
    elim (has_backend npc_agent_backend npc_llm_model) [
      | err e ↦ err e
      | ok npc_backend ↦ ok (record {
        pack = pack;
        run_root = run_root;
        dashboard = dashboard;
        npc_backend = npc_backend;
        backing = backing;
        warm_capacity = max 1 warm_capacity;
        factories = factories;
      })
    ]

unfoldable new_state : {F W : Type 0} → W → State F W
new_state world = record { episodes = []; warm = []; reports = []; world = world; calls = [] }

module _ (fl : Floats) {W : Type 0} (out : Outside fl.F W) (config : Config fl.F) where
  open fl use {F}

  abbrev exited : RunningEpisode F → Result (Unit {0}) → Action F W Unit
  exited running (err e) = return tt
  exited running (ok _) = alter running.handle.id (λ r. record r { stopped = true })

  unfoldable exit_running : RunningEpisode F → Action F W Unit
  exit_running running =
      if running.stopped
      then return tt
      else attempt (ask out (stop running.runtime)) >>= exited running

  -- `_atexit_stop_episodes`, while the service is there.
  unfoldable at_exit : Action F W Unit
  at_exit = do s ← get_state; for_each (values s.episodes) exit_running; evict_warm fl out config

  -- `EpisodeReport.as_dict`
  unfoldable report_dict : CostedReport F → Dict String Value
  report_dict costed =
      ("snapshot_id", Value.str costed.report.snapshot_id)
      ∷ ("task_id", Value.str costed.report.task_id)
      ∷ (
        "episode_result",
        dict (
            fields_of (
              ("success", Value.bool costed.report.episode_result.success)
              ∷ (
                "subgoals",
                dict (
                    fields_of (
                      map (λ (e : String × Bool). (e.0, Value.bool e.1))
                        costed.report.episode_result.subgoals)),
              )
              ∷ ("reason", Value.str costed.report.episode_result.reason)
              ∷ [])),
      )
      ∷ ("final_state", dict (fields_of costed.report.final_state))
      ∷ ("agent_summary", Value.str costed.report.agent_summary)
      ∷ (
        "cost",
        dict (
            fields_of (
              ("wall_seconds", Value.float (fl.repr costed.cost.wall_seconds))
              ∷ ("realize_seconds", Value.float (fl.repr costed.cost.realize_seconds))
              ∷ ("turns", Value.int (pos costed.cost.turns))
              ∷ [])),
      )
      ∷ []

abbrev mapping_or_null : Option (Dict String Value) → Value
mapping_or_null none = Value.null
mapping_or_null (some d) = dict (fields_of d)

-- `ActorTurn.as_dict`
unfoldable turn_dict : ActorTurn → Dict String Value
turn_dict turn =
    ("task_id", Value.str turn.task_id)
    ∷ ("actor_id", Value.str turn.actor_id)
    ∷ ("actor_kind", Value.str turn.actor_kind)
    ∷ ("target", Value.str turn.target)
    ∷ ("action", dict (fields_of turn.action))
    ∷ ("observation", mapping_or_null turn.observation)
    ∷ ("state", mapping_or_null turn.state)
    ∷ ("metadata", dict (fields_of turn.metadata))
    ∷ []
