-- ===== src/Episode/Phases/Begin.antt =====
-- src/openrange/core/episode.py: what `start_episode`, `checkpoint` and `restore` do to the phases.
use open_range.Base.{
  ◌≡◌, refl, ◌∙◌, ap, ℕ, String, Bool, true, false, Option, none, some, Bool-cases, Dict, get, put,
  contains, get-put, is_some, is_empty, Result, ok, err, inl, inr, ◌⊎◌, if◌then◌else◌, ◌==◌,
  string_eq, episode_error,
}
use mathlib.Core.Path.{fun_ext}
use open_range.Floats.{Floats}
use open_range.Sdk.{TaskSpec, Snapshot}
use open_range.Episode.{
  EpisodeHandle, RunningEpisode, Outside, Config, State, realize, reset, reset_episode, uuid4,
  path_exists, mkdir, perf_counter, stop, surface,
}
use open_range.Episode.Actions.{
  attempt, suppress, Action, return, throw, lift, ask, get_state, set_episodes, then_run, ◌>>=◌,
}
use open_range.Episode.Manifests.{resolve_task}
use open_range.Episode.Starts.{
  or_stopped, boot, warm_or_boot, take_warm, acquire_runtime, make_episode_root, handle_of,
  start_ticking, announce, start_task, start_episode,
}
use open_range.Episode.Quiet.{
  Quiet, Quiets, bind-Quiets, return-Quiets, throw-Quiets, ask-Quiets, attempt-Quiets,
  suppress-Quiets,
}
use open_range.Episode.Quiet.Helpers.{
  record_system-Quiets, start_npcs-Quiets, start_auto_tick-Quiets,
}
use open_range.Episode.Phases.{
  unknown, phases, view, Same, Sames, Quiet-Same, Quiets-Sames, bind-Sames, ask-Sames,
  get_state-Sames, set_warm-Sames, bind_after,
}

module _ {F W : Type 0} where
  -- A new entry stands among the running ones, under an id that was unknown.
  pub record Started (s s' : State F W) (id : String) : Type 0 where
    pub was_unknown : phases s id ≡ unknown
    pub now : view s' ≡ (λ j. if id == j then true else contains j s.episodes, s.reports)
    pub entry : (r : RunningEpisode F) × (get id s'.episodes ≡ some r) × (r.handle.id ≡ id)

  -- A start that raises may leave the entry behind.
  abbrev pub Outcome : State F W → Result EpisodeHandle × State F W → Type 0
  Outcome s (err e, s') = Same s s' ⊎ ((id : String) × Started s s' id)
  Outcome s (ok handle, s') = Started s s' handle.id

  -- A call that changes no phase, before the rest.
  bind-Outcome :
      {A : Type 0} (s s' : State F W) (m : Action F W A) (rest : A → Action F W EpisodeHandle)
      → Same s s'
      → Sames m
      → ((x : A) (s'' : State F W) → (m s').0 ≡ ok x → Same s s'' → Outcome s (rest x s''))
      → Outcome s ((m >>= rest) s')
  bind-Outcome s s' m rest same keeps later =
      bind_after (Outcome s) s s' m rest same keeps (λ e s'' kept. inl kept) later

module _ (fl : Floats) {W : Type 0} (out : Outside fl.F W) (config : Config fl.F) where
  open fl use {F}

  -- An id that `uuid4` gives is new to the service.
  abbrev pub FreshId : State F W → Type 0
  FreshId s = (id : String) → (out uuid4 s.world).0 ≡ ok id → phases s id ≡ unknown

  stop-Quiets : (runtime : ℕ) → Quiets (suppress (ask out (stop runtime)))
  stop-Quiets runtime = suppress-Quiets _ (ask-Quiets out (stop runtime))

  pub or_stopped-Quiets :
      {A : Type 0} (runtime : ℕ) (r : Result A) → Quiets (or_stopped fl out config runtime r)
  or_stopped-Quiets runtime (ok x) = return-Quiets x
  or_stopped-Quiets {A} runtime (err e) =
      bind-Quiets _ _ (stop-Quiets runtime) λ _. throw-Quiets A e

  boot-Quiets : (snapshot : Snapshot) → Quiets (boot fl out config snapshot)
  unfolding boot
  boot-Quiets snapshot =
      bind-Quiets _ _ (ask-Quiets out (realize snapshot.graph config.backing)) λ runtime.
        bind-Quiets _ _
          (bind-Quiets _ _ (attempt-Quiets _ (ask-Quiets out (reset runtime)))
            (or_stopped-Quiets runtime))
          λ _. return-Quiets runtime

  warm_or_boot-Quiets :
      (snapshot : Snapshot) (warm : ℕ) (r : Result (Unit {0}))
      → Quiets (warm_or_boot fl out config snapshot warm r)
  warm_or_boot-Quiets snapshot warm (ok _) = return-Quiets warm
  warm_or_boot-Quiets snapshot warm (err e) =
      bind-Quiets _ _ (stop-Quiets warm) λ _. boot-Quiets snapshot

  pub take_warm-Quiets :
      (snapshot : Snapshot) (o : Option ℕ) → Quiets (take_warm fl out config snapshot o)
  take_warm-Quiets snapshot none = boot-Quiets snapshot
  take_warm-Quiets snapshot (some warm) =
      bind-Quiets _ _ (attempt-Quiets _ (ask-Quiets out (reset_episode warm)))
        (warm_or_boot-Quiets snapshot warm)

  acquire_runtime-Sames : (snapshot : Snapshot) → Sames (acquire_runtime fl out config snapshot)
  unfolding acquire_runtime
  acquire_runtime-Sames snapshot = bind-Sames _ _ get_state-Sames λ s.
      bind-Sames _ _ (set_warm-Sames _) λ _.
        Quiets-Sames (take_warm fl out config snapshot (get snapshot.snapshot_id s.warm))
          (take_warm-Quiets snapshot (get snapshot.snapshot_id s.warm))

  pub make_episode_root-Quiets :
      (task : TaskSpec) (id : String) → Quiets (make_episode_root fl out config task id)
  unfolding make_episode_root
  make_episode_root-Quiets task id =
      bind-Quiets _ _ (ask-Quiets out (path_exists _))
        λ taken. bind-Quiets _ _ (ask-Quiets out (mkdir _)) λ _. return-Quiets _

  pub surface-Quiets :
      (runtime : ℕ)
      → Quiets (attempt (ask out (surface runtime)) >>= or_stopped fl out config runtime)
  surface-Quiets runtime =
      bind-Quiets _ _ (attempt-Quiets _ (ask-Quiets out (surface runtime)))
        (or_stopped-Quiets runtime)

  start_ticking-Quiets :
      (running : RunningEpisode F) (o : Option F) → Quiets (start_ticking fl out config running o)
  start_ticking-Quiets running none = return-Quiets tt
  start_ticking-Quiets running (some rate) = start_auto_tick-Quiets out config running rate

  pub announce-Quiets : (running : RunningEpisode F) → Quiets (announce fl out config running)
  unfolding announce
  announce-Quiets running = bind-Quiets _ _ (record_system-Quiets out config running _ _ _) λ _.
      bind-Quiets _ _ (record_system-Quiets out config running _ _ _) λ _.
        bind-Quiets _ _ (start_npcs-Quiets out config running) λ _. start_ticking-Quiets running _

  is_some-if :
      (b : Bool) (r : RunningEpisode F) (o : Option (RunningEpisode F))
      → is_some (if b then some r else o) ≡ (if b then true else is_some o)
  is_some-if true r o = refl
  is_some-if false r o = refl

  contains-put :
      (id j : String) (running : RunningEpisode F) (d : Dict String (RunningEpisode F))
      → contains j (put id running d) ≡ (if id == j then true else contains j d)
  contains-put id j running d =
      ap is_some (get-put id j running d) ∙ is_some-if (id == j) running (get j d)

  put-Started :
      (s s' s'' : State F W) (id : String) (running : RunningEpisode F)
      → running.handle.id ≡ id
      → phases s id ≡ unknown
      → Same s s'
      → Quiet (record s' { episodes = put id running s'.episodes }) s''
      → Started s s'' id
  put-Started s s' s'' id running is_its was same quiet = record {
    was_unknown = was;
    now =
        Quiet-Same quiet
        ∙ ap (λ v. (v, s'.reports))
            (fun_ext λ j.
              contains-put id j running s'.episodes
              ∙ ap (λ v. if id == j then true else v.0 j) same)
        ∙ ap (λ v. (λ (j : String). if id == j then true else contains j s.episodes, v.1)) same;
    entry =
        let (r, e, g) =
          quiet.later id running
            (get-put id id running s'.episodes ∙ (rw ((string_eq.beq_iff id id).1 refl) refl)) in
        (r, e, ap (λ h. h.id) g.same_handle ∙ is_its);
  }

  -- The entry is put, and announced.
  announced-Outcome :
      (s s' : State F W) (handle : EpisodeHandle) (running : RunningEpisode F)
      (r : Result (Unit {0}) × State F W)
      → running.handle.id ≡ handle.id
      → phases s handle.id ≡ unknown
      → Same s s'
      → Quiet (record s' { episodes = put handle.id running s'.episodes }) r.1
      → Outcome s (then_run r (λ _. return handle))
  unfolding return
  announced-Outcome s s' handle running (err e, s'') is_its was same quiet =
      inr (handle.id, put-Started s s' s'' handle.id running is_its was same quiet)
  announced-Outcome s s' handle running (ok _, s'') is_its was same quiet =
      put-Started s s' s'' handle.id running is_its was same quiet

  put_and_announce-Outcome :
      (s s' : State F W) (handle : EpisodeHandle) (running : RunningEpisode F)
      → running.handle.id ≡ handle.id
      → phases s handle.id ≡ unknown
      → Same s s'
      → Outcome s (
          (get_state >>= λ now. set_episodes (put handle.id running now.episodes) >>= λ _.
          announce fl out config running >>= λ _. return handle)
            s')
  unfolding get_state set_episodes ◌>>=◌
  put_and_announce-Outcome s s' handle running is_its was same =
      announced-Outcome s s' handle running (announce fl out config running _) is_its was same
        (announce-Quiets running _)

  start_task-Outcome :
      (snapshot : Snapshot) (task : TaskSpec) (s : State F W)
      → FreshId s
      → Outcome s (start_task fl out config snapshot task s)
  unfolding start_task ask
  start_task-Outcome snapshot task s fresh =
      bind-Outcome s s _ _ refl (ask-Sames out uuid4) λ id s1 is_id e1.
        bind-Outcome s s1 _ _ e1
          (Quiets-Sames (make_episode_root fl out config task id)
            (make_episode_root-Quiets task id))
          λ root s2 _ e2.
            bind-Outcome s s2 _ _ e2 (ask-Sames out perf_counter) λ started_at s3 _ e3.
              bind-Outcome s s3 _ _ e3 (acquire_runtime-Sames snapshot) λ runtime s4 _ e4.
                bind-Outcome s s4 _ _ e4
                  (Quiets-Sames
                    (attempt (ask out (surface runtime)) >>= or_stopped fl out config runtime)
                    (surface-Quiets runtime))
                  λ surface_mapping s5 _ e5.
                    bind-Outcome s s5 _ _ e5 (ask-Sames out perf_counter) λ realized_at s6 _ e6.
                      put_and_announce-Outcome s s6 (handle_of fl out config id snapshot task) _
                        refl (fresh id is_id) e6

  resolved-Outcome :
      (snapshot : Snapshot) (s : State F W) (r : Result TaskSpec)
      → FreshId s
      → Outcome s (
          then_run
            (r, s)
            λ task.
              if is_empty task.entrypoints
              then throw episode_error
              else start_task fl out config snapshot task)
  unfolding throw
  resolved-Outcome snapshot s (err e) fresh = inl refl
  resolved-Outcome snapshot s (ok task) fresh = elim (Bool-cases (is_empty task.entrypoints)) [
    | inl t ↦ rw t (inl refl)
    | inr f ↦ rw f (start_task-Outcome snapshot task s fresh)
  ]

  pub start_episode-Outcome :
      (snapshot : Snapshot) (task_id : Option String) (s : State F W)
      → FreshId s
      → Outcome s (start_episode fl out config snapshot task_id s)
  unfolding start_episode lift ◌>>=◌
  start_episode-Outcome snapshot task_id s fresh =
      resolved-Outcome snapshot s (resolve_task snapshot task_id) fresh
