-- ===== src/Episode/Phases/Lifecycle.antt =====
-- src/openrange/core/episode.py: the life of an episode under any sequence of calls of the service.
use open_range.Base.{
  ◌≡◌, refl, ℕ, zero, suc, String, List, [], ◌++◌, Bool, true, false, not, ◌&&◌, Option, none,
  is_empty, Result, ok, err, string_eq,
}
use open_range.Floats.{Floats}
use open_range.Sdk.{Snapshot}
use open_range.Training.{AgentTurn}
use open_range.Episode.{
  EpisodeHandle, EpisodeCheckpoint, TickRequest, TickResult, Until, AdvanceRequest, RunningEpisode,
  CostedReport, Event, Outside, Config, ErrorTexts, State,
}
use open_range.Episode.Actions.{Action}
use open_range.Episode.Turns.{
  note_turn, summary_after, yields_on_events, observe, tick, advance_from, advance, auto_tick_round,
  is_episode_error, goes_on,
}
use open_range.Episode.Starts.{start_episode, take_checkpoint, restore_episode}
use open_range.Episode.Stops.{stop_episode, check_episode, close}
use open_range.Episode.Quiet.{
  Grows-same, Quiet-trans, Quiets, bind-Quiets, return-Quiets, throw-Quiets, alter-Quiets,
  if-Quiets,
}
use open_range.Episode.Quiet.Helpers.{
  drain_events-Quiets, terminal_state-Quiets, step_npcs-Quiets, require-Quiets,
}
use open_range.Episode.Phases.{
  Phase, stopped, phases, Quiet-Same, Allowed, stays, begins, ends, drops, Steps, Same-Steps,
}
use open_range.Episode.Phases.Begin.{FreshId}
use open_range.Episode.Phases.Restore.{
  start_episode-Steps, take_checkpoint-Quiets, restore_episode-Steps,
}
use open_range.Episode.Phases.End.{stop_episode-Steps, check_episode-Steps}
use open_range.Episode.Phases.Close.{close-Steps}

-- A call of the service; `auto_ticks` is a round of the thread of the auto tick. `fork` is a
-- checkpoint and its restoration.
pub data Operation : Type 0 where
  starts : Snapshot → Option String → Operation
  stops checks observes checkpoints auto_ticks : EpisodeHandle → Operation
  records : EpisodeHandle → AgentTurn → Operation
  ticks : EpisodeHandle → TickRequest → Operation
  advances : EpisodeHandle → AdvanceRequest → Operation
  restores : EpisodeCheckpoint → Operation
  closes : Operation

module _ {F W : Type 0} where
  pub note_turn-Quiets :
      (episode : EpisodeHandle) (turn : AgentTurn) → Quiets {F = F} {W = W} (note_turn episode turn)
  unfolding note_turn
  note_turn-Quiets episode turn = bind-Quiets _ _ (require-Quiets episode) λ running.
      bind-Quiets _ _
        (alter-Quiets running.handle.id (λ r. record r { turns = suc r.turns })
          (λ r. Grows-same refl refl refl refl refl refl refl))
        λ _.
          alter-Quiets running.handle.id
            (λ r. record r { agent_summary = summary_after turn.message r.agent_summary })
            (λ r. Grows-same refl refl refl refl refl refl refl)

module _ {F W : Type 0} (out : Outside F W) (config : Config F) where
  pub observe-Quiets : (episode : EpisodeHandle) → Quiets (observe out config episode)
  unfolding observe
  observe-Quiets episode =
      bind-Quiets _ _ (require-Quiets episode) λ running.
        bind-Quiets _ _ (drain_events-Quiets out config running) λ events. return-Quiets _

  pub tick-Quiets :
      (episode : EpisodeHandle) (req : TickRequest) → Quiets (tick out config episode req)
  unfolding tick
  tick-Quiets episode req = bind-Quiets _ _ (require-Quiets episode) λ running.
      bind-Quiets _ _
        (if-Quiets req.process_npcs _ _ (step_npcs-Quiets out config running) (return-Quiets tt))
        λ _. bind-Quiets _ _ (drain_events-Quiets out config running) λ events.
          bind-Quiets _ _ (terminal_state-Quiets out config running) λ state. return-Quiets _

  advance_from-Quiets :
      (running : RunningEpisode F) (until : Until) (seen : List Event) (left : ℕ)
      → Quiets (advance_from out config running until seen left)
  unfolding advance_from
  advance_from-Quiets running until seen zero = return-Quiets _
  advance_from-Quiets running until seen (suc left) =
      bind-Quiets _ _ (drain_events-Quiets out config running) λ events.
        bind-Quiets _ _ (terminal_state-Quiets out config running) λ state.
          if-Quiets state.0 _ _ (return-Quiets _) (
            if-Quiets (yields_on_events until && not (is_empty events)) _ _ (return-Quiets _)
              (advance_from-Quiets running until (seen ++ events) left))

  pub advance-Quiets :
      (episode : EpisodeHandle) (req : AdvanceRequest) → Quiets (advance out config episode req)
  unfolding advance
  advance-Quiets episode req =
      bind-Quiets _ _ (require-Quiets episode)
        λ running. advance_from-Quiets running req.until [] req.max_ticks

  goes_on-Quiets : (r : Result TickResult) → Quiets {F = F} {W = W} (goes_on out config r)
  goes_on-Quiets (ok _) = return-Quiets true
  goes_on-Quiets (err e) =
      if-Quiets (is_episode_error e) _ _ (return-Quiets false) (throw-Quiets Bool e)

  pub auto_tick_round-Quiets :
      (episode : EpisodeHandle) → Quiets (auto_tick_round out config episode)
  unfolding auto_tick_round
  auto_tick_round-Quiets episode s =
      let every : TickRequest = record {
        max_events = none;
        process_npcs = true;
        process_timers = true;
      } in
      Quiet-trans (tick-Quiets episode every s)
        (goes_on-Quiets (tick out config episode every s).0 (tick out config episode every s).1)

module _ (fl : Floats) {W : Type 0} (out : Outside fl.F W) (config : Config fl.F)
    (texts : ErrorTexts) where
  open fl use {F}

  -- The state after a call, whether it returns or raises.
  unfoldable pub after_call : Operation → State F W → State F W
  after_call (starts snapshot task_id) s = (start_episode fl out config snapshot task_id s).1
  after_call (stops episode) s = (stop_episode fl out config texts episode s).1
  after_call (checks episode) s = (check_episode fl out config texts episode s).1
  after_call (observes episode) s = (observe out config episode s).1
  after_call (checkpoints episode) s = (take_checkpoint fl out config episode s).1
  after_call (auto_ticks episode) s = (auto_tick_round out config episode s).1
  after_call (records episode turn) s = (note_turn episode turn s).1
  after_call (ticks episode req) s = (tick out config episode req s).1
  after_call (advances episode req) s = (advance out config episode req s).1
  after_call (restores point) s = (restore_episode fl out config point s).1
  after_call closes s = (close fl out config s).1

  quiet-Steps : {A : Type 0} (m : Action F W A) (s : State F W) → Quiets m → Steps s (m s).1
  quiet-Steps m s q = Same-Steps s (m s).1 (Quiet-Same (q s))

  -- Under every call, whether it returns or raises, each episode stays in its phase or takes one
  -- step: unknown to running, running to stopped with a report, or running to unknown (when the
  -- service is closed); if `uuid4` gives no id that the service has seen.
  pub after_call-Steps :
      (op : Operation) (s : State F W) → FreshId fl out config s → Steps s (after_call op s)
  unfolding after_call
  after_call-Steps (starts snapshot task_id) s fresh =
      start_episode-Steps fl out config snapshot task_id s fresh
  after_call-Steps (stops episode) s fresh = stop_episode-Steps fl out config texts episode s
  after_call-Steps (checks episode) s fresh = check_episode-Steps fl out config texts episode s
  after_call-Steps (observes episode) s fresh =
      quiet-Steps (observe out config episode) s (observe-Quiets out config episode)
  after_call-Steps (checkpoints episode) s fresh =
      quiet-Steps (take_checkpoint fl out config episode) s
        (take_checkpoint-Quiets fl out config episode)
  after_call-Steps (auto_ticks episode) s fresh =
      quiet-Steps (auto_tick_round out config episode) s (auto_tick_round-Quiets out config episode)
  after_call-Steps (records episode turn) s fresh =
      quiet-Steps (note_turn episode turn) s (note_turn-Quiets episode turn)
  after_call-Steps (ticks episode req) s fresh =
      quiet-Steps (tick out config episode req) s (tick-Quiets out config episode req)
  after_call-Steps (advances episode req) s fresh =
      quiet-Steps (advance out config episode req) s (advance-Quiets out config episode req)
  after_call-Steps (restores point) s fresh = restore_episode-Steps fl out config point s fresh
  after_call-Steps closes s fresh = close-Steps fl out config s

  -- Some calls, one after the other, with new ids.
  pub data Reaches : State F W → State F W → Type 0 where
    here : {s : State F W} → Reaches s s
    next :
        {s t : State F W} (op : Operation)
        → FreshId fl out config s
        → Reaches (after_call op s) t
        → Reaches s t

  stopped-Allowed :
      {p q : Phase F} {report : CostedReport F}
      → Allowed p q
      → p ≡ stopped report
      → q ≡ stopped report
  stopped-Allowed stays was = was
  stopped-Allowed begins was = cc
  stopped-Allowed ends was = cc
  stopped-Allowed drops was = cc

  -- A stopped episode keeps its report through all later calls, if `uuid4` gives only new ids.
  pub Reaches-stopped :
      (id : String) (report : CostedReport F) {s t : State F W}
      → Reaches s t
      → phases s id ≡ stopped report
      → phases t id ≡ stopped report
  Reaches-stopped id report here was = was
  Reaches-stopped id report {s} (next op fresh later) was =
      Reaches-stopped id report later (stopped-Allowed (after_call-Steps op s fresh id) was)
