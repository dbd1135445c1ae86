-- ===== src/Episode/Capacity/Always.antt =====
-- src/openrange/core/episode.py: the capacity of the warm pool under every call of the service.
use open_range.Base.{
  refl, ◌&&◌, values, backwards, Option, none, some, is_some, Result, ok, err, Error, string_eq,
  arith, episode_error,
}
use open_range.Floats.{Floats}
use open_range.Episode.{
  EpisodeHandle, EpisodeCheckpoint, RunningEpisode, CostedReport, Outside, Config, ErrorTexts,
  State, stop, perf_counter, surface, restore,
}
use open_range.Episode.Actions.{Action, throw, lift, get_state, ◌>>=◌}
use open_range.Episode.Starts.{undo_start, restored, restore_episode, take_checkpoint}
use open_range.Episode.Stops.{
  cached_report, stop_live, stop_required, cached_or_stop, stop_episode, cached_or_check,
  check_episode, evict_warm, close,
}
use open_range.Episode.Quiet.{
  Quiets, ask-Quiets, attempt-Quiets, suppress-Quiets, lift-Quiets, throw-Quiets, alter-Quiets,
  Grows-same, for_each-Quiets,
}
use open_range.Episode.Quiet.Helpers.{
  record_system-Quiets, drain_events-Quiets, stop_npcs-Quiets, stop_auto_tick-Quiets,
  require-Quiets,
}
use open_range.Episode.Phases.{set_stopped-Quiets}
use open_range.Episode.Phases.Restore.{take_checkpoint-Quiets}
use open_range.Episode.Phases.Grades.{set_result-Quiets, grade-Quiets, reload-Quiets}
use open_range.Episode.Phases.Lifecycle.{
  Operation, starts, stops, checks, observes, checkpoints, auto_ticks, records, ticks, advances,
  restores, closes, after_call, observe-Quiets, tick-Quiets, advance-Quiets, auto_tick_round-Quiets,
  note_turn-Quiets,
}
use open_range.Episode.Turns.{observe, tick, advance, auto_tick_round, note_turn}
use open_range.Episode.Keeps.{
  Keeps, bind-Keeps, if-Keeps, return-Keeps, get_state-Keeps, bind-Quiet-Keeps,
}
use open_range.Episode.Closing.Closed.{evicted-HasNoWarm}
use open_range.Episode.Phases.Close.{close_running-Quiets}
use open_range.Episode.Capacity.{
  IsWithin, still-IsWithin, set_episodes-IsWithin, quiet-IsWithin, start_episode-IsWithin,
  conclude_episode-IsWithin, stop_or_stash-IsWithin,
}

module _ (fl : Floats) {W : Type 0} (out : Outside fl.F W) (config : Config fl.F)
    (texts : ErrorTexts) where
  open fl use {F}

  abbrev Within : State F W → Type 0
  Within = IsWithin fl out config

  -- A quiet call before the rest.
  quietly :
      {A B : Type 0} (m : Action F W A) (rest : A → Action F W B)
      → Quiets m
      → ((x : A) → Keeps Within (rest x))
      → Keeps Within (m >>= rest)
  quietly m rest = bind-Quiet-Keeps Within m rest (still-IsWithin fl out config)

  stop_live-IsWithin :
      (episode : EpisodeHandle) (running : RunningEpisode F)
      → Keeps Within (stop_live fl out config texts episode running)
  unfolding stop_live
  stop_live-IsWithin episode running = quietly _ _ (stop_auto_tick-Quiets out config running) λ _.
      quietly _ _ (stop_npcs-Quiets out config running) λ _.
        quietly _ _ (drain_events-Quiets out config running) λ _.
          quietly _ _ (grade-Quiets fl out config texts running) λ grading.
            quietly _ _ (set_result-Quiets fl out config texts running.handle.id grading.1) λ _.
              quietly _ _ (ask-Quiets out perf_counter) λ stopped_at.
                quietly _ _
                  (alter-Quiets running.handle.id (λ r. record r { stopped_at = stopped_at })
                    (λ r. Grows-same refl refl refl refl refl refl refl))
                  λ _.
                    bind-Keeps Within _ _ (stop_or_stash-IsWithin fl out config texts running) λ _.
                      quietly _ _ (set_stopped-Quiets running.handle.id) λ _.
                        quietly _ _ (record_system-Quiets out config running _ _ _) λ _.
                          quietly _ _ (reload-Quiets fl out config texts running)
                            λ ended. conclude_episode-IsWithin fl out config episode.id _

  stop_required-IsWithin :
      (episode : EpisodeHandle) (running : RunningEpisode F)
      → Keeps Within (stop_required fl out config texts episode running)
  unfolding stop_required
  stop_required-IsWithin episode running =
      if-Keeps Within (is_some running.episode_result && running.stopped) _ _
        (conclude_episode-IsWithin fl out config episode.id _) (stop_live-IsWithin episode running)

  cached_or_stop-IsWithin :
      (episode : EpisodeHandle) (cached : Option (CostedReport F)) (o : Option (RunningEpisode F))
      → Keeps Within (cached_or_stop fl out config texts episode cached o)
  cached_or_stop-IsWithin episode cached (some running) = stop_required-IsWithin episode running
  cached_or_stop-IsWithin episode (some cached) none = return-Keeps Within cached
  cached_or_stop-IsWithin episode none none =
      quiet-IsWithin fl out config (throw episode_error)
        (throw-Quiets (CostedReport F) episode_error)

  stop_episode-IsWithin :
      (episode : EpisodeHandle) → Keeps Within (stop_episode fl out config texts episode)
  unfolding stop_episode
  stop_episode-IsWithin episode =
      bind-Keeps Within _ _ (get_state-Keeps Within) λ s. cached_or_stop-IsWithin episode _ _

  cached_or_check-IsWithin :
      (episode : EpisodeHandle) (cached : Option (CostedReport F))
      → Keeps Within (cached_or_check fl out config texts episode cached)
  cached_or_check-IsWithin episode (some cached) = return-Keeps Within cached
  cached_or_check-IsWithin episode none = quietly _ _ (require-Quiets episode) λ running.
      if-Keeps Within (is_some running.episode_result && running.stopped) _ _
        (quiet-IsWithin fl out config (lift (cached_report fl out config running)) (lift-Quiets _))
        (stop_episode-IsWithin episode)

  check_episode-IsWithin :
      (episode : EpisodeHandle) → Keeps Within (check_episode fl out config texts episode)
  unfolding check_episode
  check_episode-IsWithin episode =
      bind-Keeps Within _ _ (get_state-Keeps Within) λ s. cached_or_check-IsWithin episode _

  undo_start-IsWithin :
      (running : RunningEpisode F) (exc : Error)
      → Keeps Within (undo_start fl out config running exc)
  unfolding undo_start
  undo_start-IsWithin running exc = quietly _ _ (record_system-Quiets out config running _ _ _) λ _.
      quietly _ _ (stop_auto_tick-Quiets out config running) λ _.
        quietly _ _ (stop_npcs-Quiets out config running) λ _.
          quietly _ _ (suppress-Quiets _ (ask-Quiets out (stop running.runtime))) λ _.
            quietly _ _ (set_stopped-Quiets running.handle.id) λ _.
              bind-Keeps Within _ _ (get_state-Keeps Within) λ s.
                bind-Keeps Within _ _ (set_episodes-IsWithin fl out config _)
                  λ _. quiet-IsWithin fl out config (throw exc) (throw-Quiets EpisodeHandle exc)

  restored-IsWithin :
      (running : RunningEpisode F) (r : Result (Unit {0}))
      → Keeps Within (restored fl out config running r)
  restored-IsWithin running (err exc) = undo_start-IsWithin running exc
  restored-IsWithin running (ok _) =
      quietly _ _ (ask-Quiets out (surface running.runtime)) λ surface_mapping.
        quietly _ _
          (alter-Quiets running.handle.id (λ r. record r { surface_cache = surface_mapping })
            (λ r. Grows-same refl refl refl refl refl refl refl))
          λ _. return-Keeps Within running.handle

  restore_episode-IsWithin :
      (point : EpisodeCheckpoint) → Keeps Within (restore_episode fl out config point)
  unfolding restore_episode
  restore_episode-IsWithin point = bind-Keeps Within _ _ (get_state-Keeps Within) λ s.
      quietly _ _ (lift-Quiets _) λ running.
        bind-Keeps Within _ _ (start_episode-IsWithin fl out config running.snapshot _)
          λ new_handle. quietly _ _ (require-Quiets new_handle) λ new_running.
            quietly _ _
              (attempt-Quiets _ (ask-Quiets out (restore new_running.runtime point.state)))
              λ r. restored-IsWithin new_running r

  evict_warm-IsWithin : Keeps Within (evict_warm fl out config)
  unfolding evict_warm get_state ◌>>=◌
  evict_warm-IsWithin s within =
      rw (evicted-HasNoWarm fl out config (backwards s.warm) s refl) (omega arith)

  close-IsWithin : Keeps Within (close fl out config)
  unfolding close
  close-IsWithin = bind-Keeps Within _ _ (get_state-Keeps Within) λ s.
      quietly _ _ (for_each-Quiets (values s.episodes) _ (close_running-Quiets fl out config))
        λ _. bind-Keeps Within _ _ (set_episodes-IsWithin fl out config _) λ _. evict_warm-IsWithin

  -- Every call of the service, whether it returns or raises, keeps the number of warm runtimes within
  -- the capacity.
  pub after_call-IsWithin :
      (op : Operation) (s : State F W)
      → IsWithin fl out config s
      → IsWithin fl out config (after_call fl out config texts op s)
  unfolding after_call
  after_call-IsWithin (starts snapshot task_id) s =
      start_episode-IsWithin fl out config snapshot task_id s
  after_call-IsWithin (stops episode) s = stop_episode-IsWithin episode s
  after_call-IsWithin (checks episode) s = check_episode-IsWithin episode s
  after_call-IsWithin (observes episode) s =
      quiet-IsWithin fl out config (observe out config episode) (observe-Quiets out config episode)
        s
  after_call-IsWithin (checkpoints episode) s =
      quiet-IsWithin fl out config (take_checkpoint fl out config episode)
        (take_checkpoint-Quiets fl out config episode) s
  after_call-IsWithin (auto_ticks episode) s =
      quiet-IsWithin fl out config (auto_tick_round out config episode)
        (auto_tick_round-Quiets out config episode) s
  after_call-IsWithin (records episode turn) s =
      quiet-IsWithin fl out config (note_turn episode turn) (note_turn-Quiets episode turn) s
  after_call-IsWithin (ticks episode req) s =
      quiet-IsWithin fl out config (tick out config episode req)
        (tick-Quiets out config episode req) s
  after_call-IsWithin (advances episode req) s =
      quiet-IsWithin fl out config (advance out config episode req)
        (advance-Quiets out config episode req) s
  after_call-IsWithin (restores point) s = restore_episode-IsWithin point s
  after_call-IsWithin closes s = close-IsWithin s
