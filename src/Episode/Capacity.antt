-- ===== src/Episode/Capacity.antt =====
-- src/openrange/core/episode.py: the pool of warm runtimes never holds more than its capacity.
pub mod Always
use open_range.Base.{
  ◌≡◌, ◌∙◌, ◌≤◌, ℕ, String, [], ◌∷◌, Bool, true, false, ◌&&◌, Option, Bool-cases, Dict, get, pop,
  length, ltb, is_empty, Result, inl, inr, if◌then◌else◌, ◌==◌, string_eq, arith, episode_error,
}
use open_range.Floats.{Floats}
use open_range.Sdk.{Snapshot, TaskSpec}
use open_range.Episode.{
  EpisodeHandle, RunningEpisode, CostedReport, Outside, Config, ErrorTexts, State, poolable, uuid4,
  perf_counter,
}
use open_range.Episode.Actions.{
  Action, return, throw, get_state, set_warm, set_episodes, set_reports, ◌>>=◌,
}
use open_range.Episode.Starts.{take_warm, acquire_runtime, start_task, start_episode}
use open_range.Episode.Stops.{
  put_last, trim_warm, stash, stash_warm, stop_or_stash, conclude_episode,
}
use open_range.Episode.Quiet.{Quiet, Quiets, ask-Quiets, lift-Quiets, throw-Quiets}
use open_range.Episode.Phases.Begin.{
  take_warm-Quiets, make_episode_root-Quiets, surface-Quiets, announce-Quiets,
}
use open_range.Episode.Phases.Grades.{stop_or_record-Quiets}
use open_range.Episode.Keeps.{
  Keeps, bind-Keeps, if-Keeps, return-Keeps, get_state-Keeps, bind-Quiet-Keeps, then_still,
}
use open_range.Episode.Closing.{past}
use open_range.Episode.Closing.Closed.{set_warm-warm, stopped-warm}
use open_range.Episode.Reports.Total.{suppress-Totals}
use open_range.Episode.Reports.Total.Helpers.{set_warm-Totals}

length-pop : {V : Type 0} (k : String) (d : Dict String V) → length (pop k d) ≤ length d
unfolding pop
length-pop k [] = omega arith
length-pop k (e ∷ d) = ground (arith, length-pop k d)

module _ (fl : Floats) {W : Type 0} (out : Outside fl.F W) (config : Config fl.F) where
  open fl use {F}

  abbrev pub IsWithin : State F W → Type 0
  IsWithin s = length s.warm ≤ config.warm_capacity

  pub still-IsWithin : (s t : State F W) → Quiet s t → IsWithin s → IsWithin t
  still-IsWithin s t quiet within = rw quiet.same_warm within

  pub set_episodes-IsWithin : (d : Dict String (RunningEpisode F)) → Keeps IsWithin (set_episodes d)
  unfolding set_episodes
  set_episodes-IsWithin d s within = within

  set_reports-IsWithin : (d : Dict String (CostedReport F)) → Keeps IsWithin (set_reports d)
  unfolding set_reports
  set_reports-IsWithin d s within = within

  pub quiet-IsWithin : {A : Type 0} (m : Action F W A) → Quiets m → Keeps IsWithin m
  quiet-IsWithin m quiet s = still-IsWithin s (m s).1 (quiet s)

  -- The oldest go until the rest fits.
  trim_warm-IsWithin :
      (d : Dict String ℕ) (s : State F W) → s.warm ≡ d → IsWithin (trim_warm fl out config d s).1
  unfolding trim_warm return
  trim_warm-IsWithin [] s same = rw same (omega arith)
  trim_warm-IsWithin (evicted ∷ rest) s same =
      elim (Bool-cases (ltb config.warm_capacity (length (evicted ∷ rest)))) [
        | inl over ↦ rw over (
            past IsWithin _ _ s (set_warm-Totals fl out config rest) λ _.
              past IsWithin _ _ _ (suppress-Totals _) λ _.
                trim_warm-IsWithin rest _
                  (stopped-warm fl out config evicted.1 _ ∙ set_warm-warm fl out config rest s))
        | inr fits ↦ rw fits (rw same (ground arith))
      ]

  stashed-IsWithin :
      (running : RunningEpisode F) (warm : Dict String ℕ) (s : State F W)
      → IsWithin ((set_warm warm >>= λ _. trim_warm fl out config warm >>= λ _. return true) s).1
  stashed-IsWithin running warm s = past IsWithin _ _ s (set_warm-Totals fl out config warm) λ _.
      then_still IsWithin _ _ _ (trim_warm-IsWithin warm _ (set_warm-warm fl out config warm s))
        λ _. return-Keeps IsWithin true

  stash-IsWithin :
      (running : RunningEpisode F) (b : Bool) → Keeps IsWithin (stash fl out config running b)
  unfolding get_state ◌>>=◌
  stash-IsWithin running false s within = return-Keeps IsWithin false s within
  stash-IsWithin running true s within =
      stashed-IsWithin running (put_last running.snapshot.snapshot_id running.runtime s.warm) s

  stash_warm-IsWithin :
      (running : RunningEpisode F) → Keeps IsWithin (stash_warm fl out config running)
  unfolding stash_warm
  stash_warm-IsWithin running =
      bind-Quiet-Keeps IsWithin _ _ still-IsWithin (ask-Quiets out (poolable running.runtime))
        (stash-IsWithin running)

  popped-IsWithin :
      (k : String) (s : State F W) → IsWithin s → IsWithin (set_warm (pop k s.warm) s).1
  unfolding set_warm
  popped-IsWithin k s within = omega (arith, length-pop k s.warm)

  taken-IsWithin :
      (snapshot : Snapshot) (s : State F W)
      → IsWithin s
      → IsWithin
          ((set_warm (pop snapshot.snapshot_id s.warm) >>= λ _.
              take_warm fl out config snapshot (get snapshot.snapshot_id s.warm))
            s).1
  taken-IsWithin snapshot s within =
      then_still IsWithin _ _ s (popped-IsWithin snapshot.snapshot_id s within) λ _.
        quiet-IsWithin (take_warm fl out config snapshot (get snapshot.snapshot_id s.warm))
          (take_warm-Quiets fl out config snapshot (get snapshot.snapshot_id s.warm))

  acquire_runtime-IsWithin :
      (snapshot : Snapshot) → Keeps IsWithin (acquire_runtime fl out config snapshot)
  unfolding acquire_runtime get_state ◌>>=◌
  acquire_runtime-IsWithin snapshot s within = taken-IsWithin snapshot s within

  start_task-IsWithin :
      (snapshot : Snapshot) (task : TaskSpec)
      → Keeps IsWithin (start_task fl out config snapshot task)
  unfolding start_task
  start_task-IsWithin snapshot task =
      bind-Quiet-Keeps IsWithin _ _ still-IsWithin (ask-Quiets out uuid4) λ id.
        bind-Quiet-Keeps IsWithin _ _ still-IsWithin
          (make_episode_root-Quiets fl out config task id)
          λ root.
            bind-Quiet-Keeps IsWithin _ _ still-IsWithin (ask-Quiets out perf_counter) λ started_at.
              bind-Keeps IsWithin _ _ (acquire_runtime-IsWithin snapshot) λ runtime.
                bind-Quiet-Keeps IsWithin _ _ still-IsWithin (surface-Quiets fl out config runtime)
                  λ surface_mapping.
                    bind-Quiet-Keeps IsWithin _ _ still-IsWithin (ask-Quiets out perf_counter)
                      λ realized_at. bind-Keeps IsWithin _ _ (get_state-Keeps IsWithin) λ now.
                        bind-Keeps IsWithin _ _ (set_episodes-IsWithin _) λ _.
                          bind-Quiet-Keeps IsWithin _ _ still-IsWithin
                            (announce-Quiets fl out config _) λ _. return-Keeps IsWithin _

  pub start_episode-IsWithin :
      (snapshot : Snapshot) (task_id : Option String)
      → Keeps IsWithin (start_episode fl out config snapshot task_id)
  unfolding start_episode
  start_episode-IsWithin snapshot task_id =
      bind-Quiet-Keeps IsWithin _ _ still-IsWithin (lift-Quiets _) λ task.
        if-Keeps IsWithin (is_empty task.entrypoints) _ _
          (quiet-IsWithin (throw episode_error) (throw-Quiets EpisodeHandle episode_error))
          (start_task-IsWithin snapshot task)

  pub conclude_episode-IsWithin :
      (id : String) (cached : Result (CostedReport F))
      → Keeps IsWithin (conclude_episode fl out config id cached)
  unfolding conclude_episode
  conclude_episode-IsWithin id cached =
      bind-Quiet-Keeps IsWithin _ _ still-IsWithin (lift-Quiets cached) λ report.
        bind-Keeps IsWithin _ _ (get_state-Keeps IsWithin) λ s.
          bind-Keeps IsWithin _ _ (set_reports-IsWithin _)
            λ _. bind-Keeps IsWithin _ _ (set_episodes-IsWithin _) λ _. return-Keeps IsWithin report

  module _ (texts : ErrorTexts) where
    pub stop_or_stash-IsWithin :
        (running : RunningEpisode F) → Keeps IsWithin (stop_or_stash fl out config texts running)
    unfolding stop_or_stash
    stop_or_stash-IsWithin running =
        bind-Keeps IsWithin _ _ (stash_warm-IsWithin running) λ stashed.
          if-Keeps IsWithin stashed _ _ (return-Keeps IsWithin tt)
            λ s. still-IsWithin s _ (stop_or_record-Quiets fl out config texts running s)
