-- ===== src/Episode/Quiet/Helpers.antt =====
-- src/openrange/core/episode.py and src/openrange/npc.py: the helpers that are quiet.
use open_range.Base.{
  refl, ℕ, zero, suc, String, List, [], ◌∷◌, Bool, true, false, Option, none, some, Dict, get,
  is_some, Result, ok, err, npc_error, string_eq,
}
use open_range.Value.{Value}
use open_range.Episode.{
  Event, EpisodeHandle, RunningEpisode, Outside, Config, ActorTurn, record_turn, poll_events,
  terminal, npc_requires_llm, npc_broken_reason, npc_kind, npc_start, npc_step, npc_stop,
  start_thread, join_thread, make_npc,
}
use open_range.Episode.Events.{
  tell_dashboard, record_system, record_world_event, drained, drain_events, terminal_state, require,
}
use open_range.Episode.Npcs.{
  make_with, resolve, resolve_slots, resolve_entry, resolve_manifest_npcs, npc_type_of,
  npc_count_of, npc_config_of, slot_config,
}
use open_range.Episode.Actors.{
  record_npc_broken, record_if_broken, begin_npc, start_npcs, after_step, step_npc, step_npcs,
  stop_npcs, start_auto_tick, stop_auto_tick, join_ticking,
}
use open_range.Episode.Quiet.{
  Grows-same, Quiets, Quiet-refl, bind-Quiets, attempt-Quiets, suppress-Quiets, return-Quiets,
  throw-Quiets, lift-Quiets, ask-Quiets, if-Quiets, alter-Quiets, for_each-Quiets,
}

module _ {F W : Type 0} (out : Outside F W) (config : Config F) where
  tell_dashboard-Quiets : (turn : ActorTurn) → Quiets (tell_dashboard out config turn)
  tell_dashboard-Quiets turn =
      if-Quiets config.dashboard _ _ (ask-Quiets out (record_turn turn)) (return-Quiets tt)

  pub record_system-Quiets :
      (running : RunningEpisode F) (action : Dict String Value)
      (seen state : Option (Dict String Value))
      → Quiets (record_system out config running action seen state)
  unfolding record_system
  record_system-Quiets running action seen state s = tell_dashboard-Quiets _ s

  record_world_event-Quiets :
      (running : RunningEpisode F) (e : Event) → Quiets (record_world_event out config running e)
  unfolding record_world_event
  record_world_event-Quiets running e s = tell_dashboard-Quiets _ s

  drained-Quiets :
      (running : RunningEpisode F) (r : Result (List Event)) → Quiets (drained out config running r)
  drained-Quiets running (err e) = return-Quiets []
  drained-Quiets running (ok events) =
      bind-Quiets _ _
        (for_each-Quiets events (record_world_event out config running)
          (record_world_event-Quiets running))
        (λ _. return-Quiets events)

  pub drain_events-Quiets : (running : RunningEpisode F) → Quiets (drain_events out config running)
  unfolding drain_events
  drain_events-Quiets running =
      bind-Quiets _ _ (attempt-Quiets _ (ask-Quiets out (poll_events running.runtime)))
        (drained-Quiets running)

  pub terminal_state-Quiets :
      (running : RunningEpisode F) → Quiets (terminal_state out config running)
  unfolding terminal_state
  terminal_state-Quiets running =
      if-Quiets running.stopped _ _ (return-Quiets _) (ask-Quiets out (terminal running.runtime))

  record_npc_broken-Quiets :
      (running : RunningEpisode F) (npc : ℕ) → Quiets (record_npc_broken out config running npc)
  unfolding record_npc_broken
  record_npc_broken-Quiets running npc = bind-Quiets _ _ (ask-Quiets out (npc_kind npc)) λ kind.
      bind-Quiets _ _ (ask-Quiets out (npc_broken_reason npc))
        λ reason. record_system-Quiets running _ _ _

  record_if_broken-Quiets :
      (running : RunningEpisode F) (npc : ℕ) (already_broken : Bool)
      → Quiets (record_if_broken out config running npc already_broken)
  record_if_broken-Quiets running npc true = return-Quiets tt
  record_if_broken-Quiets running npc false =
      bind-Quiets _ _ (ask-Quiets out (npc_broken_reason npc)) λ broken.
        if-Quiets (is_some broken) _ _ (record_npc_broken-Quiets running npc) (return-Quiets tt)

  begin_npc-Quiets :
      (running : RunningEpisode F) (npc : ℕ) → Quiets (begin_npc out config running npc)
  unfolding begin_npc
  begin_npc-Quiets running npc = bind-Quiets _ _ (ask-Quiets out (npc_requires_llm npc)) λ llm.
      bind-Quiets _ _ (ask-Quiets out (npc_start npc _ _))
        λ _. record_if_broken-Quiets running npc false

  after_step-Quiets :
      (running : RunningEpisode F) (npc : ℕ) (already_broken : Bool) (r : Result (Unit {0}))
      → Quiets (after_step out config running npc already_broken r)
  after_step-Quiets running npc already_broken (err e) = return-Quiets tt
  after_step-Quiets running npc already_broken (ok _) =
      record_if_broken-Quiets running npc already_broken

  step_npc-Quiets :
      (running : RunningEpisode F) (npc : ℕ) → Quiets (step_npc out config running npc)
  unfolding step_npc
  step_npc-Quiets running npc = bind-Quiets _ _ (ask-Quiets out (npc_broken_reason npc)) λ before.
      bind-Quiets _ _ (attempt-Quiets _ (ask-Quiets out (npc_step npc running.surface_cache)))
        λ r. after_step-Quiets running npc (is_some before) r

  pub step_npcs-Quiets : (running : RunningEpisode F) → Quiets (step_npcs out config running)
  unfolding step_npcs
  step_npcs-Quiets running = for_each-Quiets running.npcs _ (step_npc-Quiets running)

  pub stop_npcs-Quiets : (running : RunningEpisode F) → Quiets (stop_npcs out config running)
  unfolding stop_npcs
  stop_npcs-Quiets running =
      bind-Quiets _ _
        (for_each-Quiets running.npcs _ λ npc. suppress-Quiets _ (ask-Quiets out (npc_stop npc)))
        λ _.
          alter-Quiets _ (λ r. record r { npcs = [] })
            (λ r. Grows-same refl refl refl refl refl refl refl)

  pub start_auto_tick-Quiets :
      (running : RunningEpisode F) (rate : F) → Quiets (start_auto_tick out config running rate)
  unfolding start_auto_tick
  start_auto_tick-Quiets running rate =
      bind-Quiets _ _
        (alter-Quiets _ (λ r. record r { tick_rate = some rate })
          (λ r. Grows-same refl refl refl refl refl refl refl))
        λ _. ask-Quiets out (start_thread running.handle rate)

  join_ticking-Quiets :
      (running : RunningEpisode F) (o : Option F) → Quiets (join_ticking out config running o)
  join_ticking-Quiets running none = return-Quiets tt
  join_ticking-Quiets running (some rate) =
      bind-Quiets _ _ (ask-Quiets out (join_thread running.handle)) λ _.
        alter-Quiets _ (λ r. record r { tick_rate = none })
          (λ r. Grows-same refl refl refl refl refl refl refl)

  pub stop_auto_tick-Quiets :
      (running : RunningEpisode F) → Quiets (stop_auto_tick out config running)
  unfolding stop_auto_tick
  stop_auto_tick-Quiets running = join_ticking-Quiets running running.tick_rate

  make_with-Quiets :
      (settings : Dict String Value) (o : Option ℕ)
      → Quiets (make_with out config.factories settings o)
  make_with-Quiets settings none = throw-Quiets ℕ npc_error
  make_with-Quiets settings (some factory) =
      bind-Quiets _ _ (ask-Quiets out (make_npc factory settings)) λ made. lift-Quiets _

  resolve-Quiets :
      (npc_id : String) (settings : Dict String Value)
      → Quiets (resolve out config.factories npc_id settings)
  unfolding resolve
  resolve-Quiets npc_id settings = make_with-Quiets settings (get npc_id config.factories)

  resolve_slots-Quiets :
      (npc_type : String) (count index left : ℕ) (settings : Dict String Value)
      → Quiets (resolve_slots out config.factories npc_type count index left settings)
  unfolding resolve_slots
  resolve_slots-Quiets npc_type count index zero settings = return-Quiets []
  resolve_slots-Quiets npc_type count index (suc left) settings =
      bind-Quiets _ _ (resolve-Quiets npc_type (slot_config count index settings)) λ npc.
        bind-Quiets _ _ (resolve_slots-Quiets npc_type count (suc index) left settings)
          λ npcs. return-Quiets (npc ∷ npcs)

  resolve_entry-Quiets :
      (entry : Dict String Value) → Quiets (resolve_entry out config.factories entry)
  unfolding resolve_entry
  resolve_entry-Quiets entry = bind-Quiets _ _ (lift-Quiets (npc_type_of entry)) λ npc_type.
      bind-Quiets _ _ (lift-Quiets (npc_count_of entry)) λ count.
        bind-Quiets _ _ (lift-Quiets (npc_config_of entry))
          λ settings. resolve_slots-Quiets npc_type count 0 count settings

  resolve_manifest_npcs-Quiets :
      (entries : List (Dict String Value))
      → Quiets (resolve_manifest_npcs out config.factories entries)
  unfolding resolve_manifest_npcs
  resolve_manifest_npcs-Quiets [] = return-Quiets []
  resolve_manifest_npcs-Quiets (entry ∷ entries) =
      bind-Quiets _ _ (resolve_entry-Quiets entry)
        λ npcs. bind-Quiets _ _ (resolve_manifest_npcs-Quiets entries) λ more. return-Quiets _

  pub start_npcs-Quiets : (running : RunningEpisode F) → Quiets (start_npcs out config running)
  unfolding start_npcs
  start_npcs-Quiets running = bind-Quiets _ _ (resolve_manifest_npcs-Quiets _) λ npcs.
      bind-Quiets _ _ (for_each-Quiets npcs _ (begin_npc-Quiets running)) λ _.
        alter-Quiets _ (λ r. record r { npcs = npcs })
          (λ r. Grows-same refl refl refl refl refl refl refl)

-- `_require`
pub require-Quiets :
    {F W : Type 0} (episode : EpisodeHandle) → Quiets {F = F} {W = W} (require episode)
unfolding require
require-Quiets episode s = Quiet-refl s
