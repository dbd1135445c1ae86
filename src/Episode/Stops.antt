-- ===== src/Episode/Stops.antt =====
-- src/openrange/core/episode.py: how an episode ends. The warm worlds, `stop_episode`,
-- `check_episode` and `close`.
use open_range.Base.{
  ℕ, String, [], ◌∷◌, ◌++◌, Bool, true, false, ◌&&◌, Option, none, some, Dict, get, put, pop,
  values, backwards, is_some, length, ltb, Result, ok, err, Error, assertion_error, episode_error,
  if◌then◌else◌, string_eq, format,
}
use open_range.Value.{Value}
use open_range.Floats.{Floats}
use open_range.Sdk.{EpisodeResult, task_family, TaskFamily}
use open_range.Episode.{
  EpisodeHandle, RunningEpisode, CostedReport, poolable, collect, stop, perf_counter, Outside,
  Config, ErrorTexts,
}
use open_range.Episode.Actions.{
  Action, return, throw, lift, get_state, ask, attempt, suppress, set_episodes, set_warm,
  set_reports, alter, reload, for_each, ◌>>=◌, ◌>>◌,
}
use open_range.Episode.Events.{record_system, drain_events, require}
use open_range.Episode.Actors.{stop_npcs, stop_auto_tick}

-- `self._warm[k] = v` and `move_to_end(k)`.
unfoldable pub put_last : {V : Type 0} → String → V → Dict String V → Dict String V
put_last k v d = pop k d ++ ((k, v) ∷ [])

module _ (fl : Floats) {W : Type 0} (out : Outside fl.F W) (config : Config fl.F) where
  open fl use {F, sub}

  -- `while len(self._warm) > self._warm_capacity: …`
  unfoldable pub trim_warm : Dict String ℕ → Action F W Unit
  trim_warm [] = return tt
  trim_warm (evicted ∷ rest) =
      if ltb config.warm_capacity (length (evicted ∷ rest))
      then (do set_warm rest; suppress (ask out (stop evicted.1)); trim_warm rest)
      else return tt

  abbrev pub stash : RunningEpisode F → Bool → Action F W Bool
  stash running false = return false
  stash running true = do
    s ← get_state
    let warm = put_last running.snapshot.snapshot_id running.runtime s.warm
    set_warm warm
    trim_warm warm
    return true

  -- `_stash_warm`
  unfoldable pub stash_warm : RunningEpisode F → Action F W Bool
  stash_warm running = ask out (poolable running.runtime) >>= stash running

  -- `while self._warm: … popitem()`: the last first.
  unfoldable pub evict_each : Dict String ℕ → Action F W Unit
  evict_each [] = return tt
  evict_each (last ∷ before) = do
    set_warm (backwards before)
    suppress (ask out (stop last.1))
    evict_each before

  -- `_evict_warm`
  unfoldable pub evict_warm : Action F W Unit
  evict_warm = do s ← get_state; evict_each (backwards s.warm)

  abbrev pub report_with : RunningEpisode F → EpisodeResult → Dict String Value → CostedReport F
  report_with running episode_result final_state = record {
    report = record {
      snapshot_id = running.snapshot.snapshot_id;
      task_id = running.task.id;
      episode_result = episode_result;
      final_state = final_state;
      agent_summary = running.agent_summary;
    };
    cost = record {
      wall_seconds = sub running.stopped_at running.started_at;
      realize_seconds = sub running.realized_at running.started_at;
      turns = running.turns;
    };
  }

  -- `_cached_report`
  unfoldable pub cached_report : RunningEpisode F → Result (CostedReport F)
  cached_report running = elim running.episode_result [
    | none ↦ err assertion_error
    | some episode_result ↦ elim running.final_state [
      | none ↦ err assertion_error
      | some final_state ↦ ok (report_with running episode_result final_state)
    ]
  ]

  abbrev pub check_with :
      Option (TaskFamily F) → RunningEpisode F → Dict String Value → Result EpisodeResult
  check_with none running final_state = ok (record {
    success = false;
    subgoals = [];
    reason = format (
        "pack '" ∷ config.pack.id ∷ "' has no TaskFamily '" ∷ running.task.success_check ∷ "'"
        ∷ []);
  })
  check_with (some family) running final_state =
      family.check_success running.snapshot.graph running.task final_state

  -- `_check_success`
  unfoldable pub check_success : RunningEpisode F → Dict String Value → Result EpisodeResult
  check_success running final_state =
      check_with (task_family config.pack.task_families running.task.success_check) running
        final_state

  -- The report is cached, and the running entry goes.
  unfoldable pub conclude_episode : String → Result (CostedReport F) → Action F W (CostedReport F)
  conclude_episode id cached = do
    report ← lift cached
    s ← get_state
    set_reports (put id report s.reports)
    set_episodes (pop id s.episodes)
    return report

  module _ (texts : ErrorTexts) where
    -- The `except` of the grading: a crash becomes a failed grade.
    unfoldable pub failed_grade :
        RunningEpisode F
        → Dict String Value
        → Error
        → Action F W (Dict String Value × EpisodeResult)
    failed_grade running final_state exc = do
      alter running.handle.id (λ r. record r { final_state = some final_state })
      record_system out config running (("grade_error", Value.str (texts.type_name exc)) ∷ [])
          (some (("reason", Value.str (texts.str_of_error exc)) ∷ [])) none
      return (
        final_state,
        record {
          success = false;
          subgoals = [];
          reason = format ("grading failed: " ∷ texts.repr_of_error exc ∷ []);
        },
      )

    abbrev pub graded :
        RunningEpisode F
        → Dict String Value
        → Result EpisodeResult
        → Action F W (Dict String Value × EpisodeResult)
    graded running final_state (err exc) = failed_grade running final_state exc
    graded running final_state (ok episode_result) = return (final_state, episode_result)

    abbrev pub collected :
        RunningEpisode F
        → Result (Dict String Value)
        → Action F W (Dict String Value × EpisodeResult)
    collected running (err exc) = failed_grade running [] exc
    collected running (ok final_state) = do
      alter running.handle.id (λ r. record r { final_state = some final_state })
      graded running final_state (check_success running final_state)

    -- The `try` of `stop_episode` around `collect` and the check.
    unfoldable pub grade : RunningEpisode F → Action F W (Dict String Value × EpisodeResult)
    grade running = attempt (ask out (collect running.runtime)) >>= collected running

    abbrev pub stopped_or_recorded : RunningEpisode F → Result (Unit {0}) → Action F W Unit
    stopped_or_recorded running (ok _) = return tt
    stopped_or_recorded running (err exc) =
        record_system out config running (("stop_error", Value.str (texts.type_name exc)) ∷ [])
          (some (("reason", Value.str (texts.str_of_error exc)) ∷ [])) none

    -- A failed stop must not mask the result.
    unfoldable pub stop_or_stash : RunningEpisode F → Action F W Unit
    stop_or_stash running = do
      stashed ← stash_warm running
      if stashed
          then return tt
          else attempt (ask out (stop running.runtime)) >>= stopped_or_recorded running

    -- `stop_episode` of an episode that was not stopped before.
    unfoldable pub stop_live : EpisodeHandle → RunningEpisode F → Action F W (CostedReport F)
    stop_live episode running = do
      stop_auto_tick out config running
      stop_npcs out config running
      drain_events out config running
      grading ← grade running
      alter running.handle.id (λ r. record r { episode_result = some grading.1 })
      stopped_at ← ask out perf_counter
      alter running.handle.id (λ r. record r { stopped_at = stopped_at })
      stop_or_stash running
      alter running.handle.id (λ r. record r { stopped = true })
      record_system out config running (("finish", Value.bool true) ∷ []) none (some grading.0)
      ended ← reload running
      conclude_episode episode.id (cached_report ended)

    -- `stop_episode` of an episode that is there.
    unfoldable pub stop_required : EpisodeHandle → RunningEpisode F → Action F W (CostedReport F)
    stop_required episode running =
        if is_some running.episode_result && running.stopped
        then conclude_episode episode.id (cached_report running)
        else stop_live episode running

    abbrev pub cached_or_stop :
        EpisodeHandle
        → Option (CostedReport F)
        → Option (RunningEpisode F)
        → Action F W (CostedReport F)
    cached_or_stop episode cached (some running) = stop_required episode running
    cached_or_stop episode (some cached) none = return cached
    cached_or_stop episode none none = throw episode_error

    -- The cached report is returned only if the episode is not among the running ones.
    unfoldable pub stop_episode : EpisodeHandle → Action F W (CostedReport F)
    stop_episode episode = do
      s ← get_state
      cached_or_stop episode (get episode.id s.reports) (get episode.id s.episodes)

    abbrev pub cached_or_check :
        EpisodeHandle → Option (CostedReport F) → Action F W (CostedReport F)
    cached_or_check episode (some cached) = return cached
    cached_or_check episode none = do
      running ← require episode
      if is_some running.episode_result && running.stopped
          then lift (cached_report running)
          else stop_episode episode

    unfoldable pub check_episode : EpisodeHandle → Action F W (CostedReport F)
    check_episode episode = get_state >>= λ s. cached_or_check episode (get episode.id s.reports)

  -- The body of the loop of `close`.
  unfoldable pub close_running : RunningEpisode F → Action F W Unit
  close_running running = do
    stop_auto_tick out config running
    stop_npcs out config running
    if running.stopped then return tt else (do
      suppress (ask out (stop running.runtime))
      alter running.handle.id (λ r. record r { stopped = true }))

  unfoldable pub close : Action F W Unit
  close = do s ← get_state; for_each (values s.episodes) close_running; set_episodes []; evict_warm
