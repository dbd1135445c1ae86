-- ===== src/Episode/Starts.antt =====
-- src/openrange/core/episode.py: how an episode begins. The acquisition of a runtime,
-- `start_episode`, and the copies through `checkpoint`, `restore` and `fork`.
use open_range.Base.{
  ℕ, String, [], ◌∷◌, true, false, Option, none, some, get, put, pop, is_empty, Result, ok, err,
  Error, episode_error, if◌then◌else◌, string_eq, format,
}
use open_range.Value.{Value}
use open_range.Floats.{Floats}
use open_range.Sdk.{TaskSpec, Snapshot}
use open_range.Episode.{
  EpisodeHandle, EpisodeCheckpoint, RunningEpisode, Surface, realize, reset, reset_episode, surface,
  checkpoint, restore, stop, perf_counter, uuid4, path_exists, mkdir, Outside, Config,
}
use open_range.Episode.Actions.{
  Action, return, throw, lift, get_state, ask, attempt, suppress, set_episodes, set_warm, alter,
  ◌>>=◌, ◌>>◌,
}
use open_range.Episode.Manifests.{resolve_task, observation_metadata, manifest_auto_tick_rate}
use open_range.Episode.Events.{record_system, found, require}
use open_range.Episode.Actors.{start_npcs, stop_npcs, start_auto_tick, stop_auto_tick}

module _ (fl : Floats) {W : Type 0} (out : Outside fl.F W) (config : Config fl.F) where
  open fl use {F, of_ℕ}

  -- The call on a runtime that is stopped when it raises.
  abbrev pub or_stopped : {A : Type 0} → ℕ → Result A → Action F W A
  or_stopped runtime (ok x) = return x
  or_stopped runtime (err e) = suppress (ask out (stop runtime)) >> throw e

  -- A runtime that is realized and reset.
  unfoldable pub boot : Snapshot → Action F W ℕ
  boot snapshot = do
    runtime ← ask out (realize snapshot.graph config.backing)
    attempt (ask out (reset runtime)) >>= or_stopped runtime
    return runtime

  abbrev pub warm_or_boot : Snapshot → ℕ → Result (Unit {0}) → Action F W ℕ
  warm_or_boot snapshot warm (ok _) = return warm
  warm_or_boot snapshot warm (err e) = suppress (ask out (stop warm)) >> boot snapshot

  -- The warm runtime of the snapshot leaves the pool.
  abbrev pub take_warm : Snapshot → Option ℕ → Action F W ℕ
  take_warm snapshot none = boot snapshot
  take_warm snapshot (some warm) =
      attempt (ask out (reset_episode warm)) >>= warm_or_boot snapshot warm

  -- `_acquire_runtime`
  unfoldable pub acquire_runtime : Snapshot → Action F W ℕ
  acquire_runtime snapshot = do
    s ← get_state
    set_warm (pop snapshot.snapshot_id s.warm)
    take_warm snapshot (get snapshot.snapshot_id s.warm)

  -- The directory of an episode, which is made.
  unfoldable pub make_episode_root : TaskSpec → String → Action F W String
  make_episode_root task episode_id = do
    let candidate = format (config.run_root ∷ "/" ∷ task.id ∷ [])
    taken ← ask out (path_exists candidate)
    let episode_root = if taken then format (candidate ∷ "-" ∷ episode_id ∷ []) else candidate
    ask out (mkdir episode_root)
    return episode_root

  abbrev pub handle_of : String → Snapshot → TaskSpec → EpisodeHandle
  handle_of id snapshot task = record {
    id = id;
    snapshot_id = snapshot.snapshot_id;
    task_id = task.id;
  }

  -- The entry that `start_episode` makes.
  abbrev pub new_running :
      EpisodeHandle → Snapshot → TaskSpec → ℕ → String → Surface → F → F → RunningEpisode F
  new_running handle snapshot task runtime run_root surface_cache started_at realized_at = record {
    handle = handle;
    snapshot = snapshot;
    task = task;
    runtime = runtime;
    run_root = run_root;
    surface_cache = surface_cache;
    agent_summary = "";
    final_state = none;
    episode_result = none;
    tick_rate = none;
    npcs = [];
    stopped = false;
    started_at = started_at;
    realized_at = realized_at;
    stopped_at = of_ℕ 0;
    turns = 0;
  }

  abbrev pub start_ticking : RunningEpisode F → Option F → Action F W Unit
  start_ticking running none = return tt
  start_ticking running (some rate) = start_auto_tick out config running rate

  -- What `start_episode` does once the entry stands among the episodes.
  unfoldable pub announce : RunningEpisode F → Action F W Unit
  announce running = do
    record_system out config running (("reset", Value.bool true) ∷ []) none
        (some (("run_root", Value.str running.run_root) ∷ []))
    record_system out config running (("start", Value.str "runtime") ∷ [])
        (some (observation_metadata running.surface_cache)) none
    start_npcs out config running
    start_ticking running (manifest_auto_tick_rate fl running.snapshot)

  unfoldable pub start_task : Snapshot → TaskSpec → Action F W EpisodeHandle
  start_task snapshot task = do
    episode_id ← ask out uuid4
    episode_root ← make_episode_root task episode_id
    started_at ← ask out perf_counter
    runtime ← acquire_runtime snapshot
    surface_mapping ← attempt (ask out (surface runtime)) >>= or_stopped runtime
    realized_at ← ask out perf_counter
    let handle = handle_of episode_id snapshot task
    let running =
        new_running handle snapshot task runtime episode_root surface_mapping started_at realized_at
    s ← get_state
    set_episodes (put episode_id running s.episodes)
    announce running
    return handle

  unfoldable pub start_episode : Snapshot → Option String → Action F W EpisodeHandle
  start_episode snapshot task_id = do
    task ← lift (resolve_task snapshot task_id)
    if is_empty task.entrypoints then throw episode_error else start_task snapshot task

  -- `EpisodeService.checkpoint`
  unfoldable pub take_checkpoint : EpisodeHandle → Action F W EpisodeCheckpoint
  take_checkpoint episode = do
    running ← require episode
    state ← ask out (checkpoint running.runtime)
    id ← ask out uuid4
    return (record {
      id = id;
      episode_id = episode.id;
      snapshot_id = running.snapshot.snapshot_id;
      task_id = running.task.id;
      state = state;
    })

  -- The `except` of `restore`: the fresh episode goes, and the exception goes on.
  unfoldable pub undo_start : RunningEpisode F → Error → Action F W EpisodeHandle
  undo_start running exc = do
    record_system out config running (("restore_error", Value.bool true) ∷ [])
        (some (("reason", Value.str "runtime.restore() raised") ∷ [])) none
    stop_auto_tick out config running
    stop_npcs out config running
    suppress (ask out (stop running.runtime))
    alter running.handle.id (λ r. record r { stopped = true })
    s ← get_state
    set_episodes (pop running.handle.id s.episodes)
    throw exc

  abbrev pub restored : RunningEpisode F → Result (Unit {0}) → Action F W EpisodeHandle
  restored running (err exc) = undo_start running exc
  restored running (ok _) = do
    surface_mapping ← ask out (surface running.runtime)
    alter running.handle.id (λ r. record r { surface_cache = surface_mapping })
    return running.handle

  -- `EpisodeService.restore`
  unfoldable pub restore_episode : EpisodeCheckpoint → Action F W EpisodeHandle
  restore_episode point = do
    s ← get_state
    running ← lift (found (get point.episode_id s.episodes))
    new_handle ← start_episode running.snapshot (some running.task.id)
    new_running ← require new_handle
    attempt (ask out (restore new_running.runtime point.state)) >>= restored new_running

  unfoldable pub fork : EpisodeHandle → Action F W EpisodeHandle
  fork episode = take_checkpoint episode >>= restore_episode
