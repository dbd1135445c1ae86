-- ===== src/Episode/Actors.antt =====
-- src/openrange/core/episode.py: the NPCs of a running episode, and its auto tick.
use open_range.Base.{
  ℕ, String, [], ◌∷◌, Bool, true, false, ◌&&◌, Option, none, some, Dict, contains, put, is_some,
  Result, ok, err, if◌then◌else◌, string_eq,
}
use open_range.Value.{Value}
use open_range.Episode.{
  Surface, RunningEpisode, npc_requires_llm, npc_broken_reason, npc_kind, npc_start, npc_step,
  npc_stop, start_thread, join_thread, Outside, Config,
}
use open_range.Episode.Actions.{
  Action, return, ask, attempt, suppress, alter, for_each, ◌>>=◌, ◌>>◌,
}
use open_range.Episode.Events.{record_system}
use open_range.Episode.Manifests.{manifest_npc_entries}
use open_range.Episode.Npcs.{resolve_manifest_npcs}

-- `base_context.setdefault(key, value)` for the entries of the surface.
unfoldable pub with_surface : Dict String Value → Surface → Dict String Value
with_surface context [] = context
with_surface context (e ∷ surface) =
    with_surface (if contains e.0 context then context else put e.0 e.1 context) surface

-- The recorder of actions that the context holds too is no value; what it records is the dashboard's.
unfoldable pub npc_context : {F : Type 0} → RunningEpisode F → Dict String Value
npc_context running =
    with_surface
      (("episode_id", Value.str running.handle.id)
        ∷ ("snapshot_id", Value.str running.snapshot.snapshot_id)
        ∷ ("task_id", Value.str running.task.id)
        ∷ [])
      running.surface_cache

abbrev reason_or_empty : Option String → String
reason_or_empty none = ""
reason_or_empty (some reason) = reason

module _ {F W : Type 0} (out : Outside F W) (config : Config F) where
  -- `_record_npc_broken`
  unfoldable pub record_npc_broken : RunningEpisode F → ℕ → Action F W Unit
  record_npc_broken running npc = do
    kind ← ask out (npc_kind npc)
    reason ← ask out (npc_broken_reason npc)
    record_system out config running (("npc_broken", Value.str kind) ∷ [])
        (some (("reason", Value.str (reason_or_empty reason)) ∷ [])) none

  abbrev pub record_if_broken : RunningEpisode F → ℕ → Bool → Action F W Unit
  record_if_broken running npc true = return tt
  record_if_broken running npc false = do
    broken ← ask out (npc_broken_reason npc)
    if is_some broken then record_npc_broken running npc else return tt

  unfoldable pub begin_npc : RunningEpisode F → ℕ → Action F W Unit
  begin_npc running npc = do
    llm ← ask out (npc_requires_llm npc)
    ask out (npc_start npc (npc_context running) (llm && config.npc_backend))
    record_if_broken running npc false

  -- `_start_npcs`
  unfoldable pub start_npcs : RunningEpisode F → Action F W Unit
  start_npcs running = do
    npcs ← resolve_manifest_npcs out config.factories (manifest_npc_entries running.snapshot)
    for_each npcs (begin_npc running)
    alter running.handle.id (λ r. record r { npcs = npcs })

  abbrev pub after_step : RunningEpisode F → ℕ → Bool → Result (Unit {0}) → Action F W Unit
  after_step running npc already_broken (err e) = return tt
  after_step running npc already_broken (ok _) = record_if_broken running npc already_broken

  unfoldable pub step_npc : RunningEpisode F → ℕ → Action F W Unit
  step_npc running npc = do
    before ← ask out (npc_broken_reason npc)
    stepped ← attempt (ask out (npc_step npc running.surface_cache))
    after_step running npc (is_some before) stepped

  -- `_step_npcs`
  unfoldable pub step_npcs : RunningEpisode F → Action F W Unit
  step_npcs running = for_each running.npcs (step_npc running)

  -- `_stop_npcs`
  unfoldable pub stop_npcs : RunningEpisode F → Action F W Unit
  stop_npcs running = do
    for_each running.npcs (λ npc. suppress (ask out (npc_stop npc)))
    alter running.handle.id (λ r. record r { npcs = [] })

  -- `_start_auto_tick`, whose thread runs `_auto_tick_loop`.
  unfoldable pub start_auto_tick : RunningEpisode F → F → Action F W Unit
  start_auto_tick running rate = do
    alter running.handle.id (λ r. record r { tick_rate = some rate })
    ask out (start_thread running.handle rate)

  abbrev pub join_ticking : RunningEpisode F → Option F → Action F W Unit
  join_ticking running none = return tt
  join_ticking running (some rate) = do
    ask out (join_thread running.handle)
    alter running.handle.id (λ r. record r { tick_rate = none })

  -- `_stop_auto_tick`. To set the event raises nothing; `join` raises for a thread that was not
  -- started, as one is whose `start` raised, and then the thread stays with the episode.
  unfoldable pub stop_auto_tick : RunningEpisode F → Action F W Unit
  stop_auto_tick running = join_ticking running running.tick_rate
