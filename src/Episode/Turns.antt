-- ===== src/Episode/Turns.antt =====
-- src/openrange/core/episode.py: what a harness does with an episode that runs.
use open_range.Base.{
  ℕ, zero, suc, String, List, [], ◌++◌, Bool, true, false, not, ◌&&◌, Option, none, some, get,
  is_empty, Result, ok, err, Error, episode_error, if◌then◌else◌, ◌==◌, string_eq,
}
use open_range.Value.{Value}
use open_range.Training.{AgentTurn}
use open_range.Episode.{
  Event, Surface, EpisodeHandle, Observation, TickRequest, TickResult, Until, AdvanceRequest,
  EpisodeUpdate, RunningEpisode, Outside, Config, State,
}
use open_range.Episode.Actions.{Action, return, throw, alter, ◌>>=◌, ◌>>◌}
use open_range.Episode.Manifests.{observation_metadata}
use open_range.Episode.Events.{drain_events, terminal_state, require}
use open_range.Episode.Actors.{step_npcs}

abbrev pub summary_after : Option String → String → String
summary_after none summary = summary
summary_after (some message) summary = if message == "" then summary else message

module _ {F W : Type 0} where
  -- `EpisodeService.surface`
  unfoldable pub surface_of : EpisodeHandle → Action F W Surface
  surface_of episode = require episode >>= λ running. return running.surface_cache

  abbrev text_at : String → Surface → Action F W String
  text_at key surface = elim (get key surface) [
    | some (Value.str text) ↦ return text
    | _ ↦ throw episode_error
  ]

  unfoldable pub base_url : EpisodeHandle → Action F W String
  base_url episode = require episode >>= λ running. text_at "base_url" running.surface_cache

  unfoldable pub solver_root : EpisodeHandle → Action F W String
  solver_root episode = require episode >>= λ running. text_at "solver_root" running.surface_cache

  -- `EpisodeService.record_turn`
  unfoldable pub note_turn : EpisodeHandle → AgentTurn → Action F W Unit
  note_turn episode turn = do
    running ← require episode
    alter running.handle.id (λ r. record r { turns = suc r.turns })
    alter running.handle.id
        (λ r. record r { agent_summary = summary_after turn.message r.agent_summary })

-- `except EpisodeError`
abbrev pub is_episode_error : Error → Bool
is_episode_error Error.episode_error = true
is_episode_error _ = false

-- `req.until in ("observation", "event", "idle")`
unfoldable pub yields_on_events : Until → Bool
yields_on_events Until.terminal = false
yields_on_events _ = true

module _ {F W : Type 0} (out : Outside F W) (config : Config F) where
  unfoldable pub observe : EpisodeHandle → Action F W Observation
  observe episode = do
    running ← require episode
    events ← drain_events out config running
    return (record {
      visible_state = running.surface_cache;
      events = events;
      metadata = observation_metadata running.surface_cache;
    })

  unfoldable pub tick : EpisodeHandle → TickRequest → Action F W TickResult
  tick episode req = do
    running ← require episode
    if req.process_npcs then step_npcs out config running else return tt
    events ← drain_events out config running
    state ← terminal_state out config running
    return (record { events = events; done = state.0; terminal_reason = state.1 })

  abbrev pub burst : RunningEpisode F → List Event → Option Observation
  burst running events =
      some (record { visible_state = running.surface_cache; events = events; metadata = [] })

  -- `for _ in range(req.max_ticks)`: `left` ticks are left, and `all_events` were seen.
  unfoldable pub advance_from : RunningEpisode F → Until → List Event → ℕ → Action F W EpisodeUpdate
  advance_from running until all_events zero = return (record {
    observation = none;
    events = all_events;
    done = false;
    terminal_reason = some "max_ticks";
  })
  advance_from running until all_events (suc left) = do
    events ← drain_events out config running
    state ← terminal_state out config running
    if state.0
        then return (record {
          observation = burst running events;
          events = all_events ++ events;
          done = true;
          terminal_reason = state.1;
        })
        else if yields_on_events until && not (is_empty events)
        then return (record {
          observation = burst running events;
          events = all_events ++ events;
          done = false;
          terminal_reason = none;
        })
        else advance_from running until (all_events ++ events) left

  unfoldable pub advance : EpisodeHandle → AdvanceRequest → Action F W EpisodeUpdate
  advance episode req = do
    running ← require episode
    advance_from running req.until [] req.max_ticks

  abbrev pub goes_on : Result TickResult → Action F W Bool
  goes_on (ok _) = return true
  goes_on (err e) = if is_episode_error e then return false else throw e

  -- One round of `_auto_tick_loop`: whether the thread goes on.
  unfoldable pub auto_tick_round : EpisodeHandle → Action F W Bool
  auto_tick_round episode s =
      let ticked : Result TickResult × State F W =
        tick episode (record { max_events = none; process_npcs = true; process_timers = true }) s in
      goes_on ticked.0 ticked.1
