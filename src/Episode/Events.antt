-- ===== src/Episode/Events.antt =====
-- src/openrange/core/episode.py: what the service tells the dashboard, the drain of a runtime's events,
-- and the readings of a running episode.
use open_range.Base.{
  String, List, [], ◌∷◌, Bool, true, Option, none, some, Dict, get, Result, ok, err, episode_error,
  if◌then◌else◌, string_eq,
}
use open_range.Value.{Value}
use open_range.Episode.{
  Event, EpisodeHandle, RunningEpisode, ActorTurn, record_turn, poll_events, terminal, Outside,
  Config,
}
use open_range.Episode.Actions.{Action, return, ask, attempt, for_each, ◌>>=◌, ◌>>◌}

abbrev first_entrypoint : List String → String
first_entrypoint [] = "world"
first_entrypoint (e ∷ _) = e

module _ {F W : Type 0} (out : Outside F W) (config : Config F) where
  -- `dashboard.record_turn`, if there is a dashboard.
  abbrev pub tell_dashboard : ActorTurn → Action F W Unit
  tell_dashboard turn = if config.dashboard then ask out (record_turn turn) else return tt

  -- `_record_system`
  unfoldable pub record_system :
      RunningEpisode F
      → Dict String Value
      → Option (Dict String Value)
      → Option (Dict String Value)
      → Action F W Unit
  record_system running action observation state = tell_dashboard (record {
    task_id = running.task.id;
    actor_id = "runtime";
    actor_kind = "system";
    target = "environment";
    action = action;
    observation = observation;
    state = state;
    metadata = [];
  })

  -- `_record_world_event`
  unfoldable pub record_world_event : RunningEpisode F → Event → Action F W Unit
  record_world_event running event = tell_dashboard (record {
    task_id = running.task.id;
    actor_id = "agent";
    actor_kind = "agent";
    target = first_entrypoint running.task.entrypoints;
    action = event;
    observation = none;
    state = none;
    metadata = ("source", Value.str "runtime_event") ∷ [];
  })

  abbrev pub drained : RunningEpisode F → Result (List Event) → Action F W (List Event)
  drained running (err e) = return []
  drained running (ok events) = do for_each events (record_world_event running); return events

  -- `_drain_events`
  unfoldable pub drain_events : RunningEpisode F → Action F W (List Event)
  drain_events running = attempt (ask out (poll_events running.runtime)) >>= drained running

  -- `_terminal_state`
  unfoldable pub terminal_state : RunningEpisode F → Action F W (Bool × Option String)
  terminal_state running =
      if running.stopped then return (true, some "stopped") else ask out (terminal running.runtime)

abbrev pub found : {F : Type 0} → Option (RunningEpisode F) → Result (RunningEpisode F)
found none = err episode_error
found (some running) = ok running

-- `_require`
unfoldable pub require : {F W : Type 0} → EpisodeHandle → Action F W (RunningEpisode F)
require episode s = (found (get episode.id s.episodes), s)
