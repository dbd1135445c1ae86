-- ===== src/Episode/Phases/Restore.antt =====
-- src/openrange/core/episode.py: `start_episode`, `checkpoint` and `restore` as steps of the life of
-- episodes.
use open_range.Base.{
  ◌≡◌, refl, sym, ◌∙◌, ap, subst, String, Bool, true, false, Option, none, some, Bool-cases, Dict,
  get, pop, contains, get-pop, is_some, Result, ok, err, Error, inl, inr, if◌then◌else◌, ◌==◌,
  string_eq, none≢some, some-injective,
}
use open_range.Floats.{Floats}
use open_range.Sdk.{Snapshot}
use open_range.Value.{Value}
use open_range.Episode.{
  EpisodeHandle, EpisodeCheckpoint, RunningEpisode, Outside, Config, State, uuid4, surface, restore,
  checkpoint,
}
use open_range.Episode.Actions.{throw, lift, ask, attempt, get_state, set_episodes, then_run, ◌>>=◌}
use open_range.Episode.Events.{found, require}
use open_range.Episode.Starts.{
  start_episode, take_checkpoint, undo_start, restored, restore_episode,
}
use open_range.Episode.Quiet.{Quiets, bind-Quiets, return-Quiets, ask-Quiets, Grows-same}
use open_range.Episode.Quiet.Helpers.{
  record_system-Quiets, stop_npcs-Quiets, stop_auto_tick-Quiets, require-Quiets,
}
use open_range.Episode.Phases.{
  unknown, live, phases, phase_from, absent_lem, Same, Same-phases, bind-Sames, return-Sames,
  ask-Sames, stop-Sames, attempt-Sames, alter-Sames, set_stopped-Sames, bind_after, quiet_after,
  Allowed, stays, begins, Steps, Same-Steps,
}
use open_range.Episode.Phases.Begin.{Started, Outcome, FreshId, start_episode-Outcome}

if-if : (b c : Bool) → (if b then false else if b then true else c) ≡ (if b then false else c)
if-if true c = refl
if-if false c = refl

module _ {F : Type 0} where
  is_some-if_none :
      (b : Bool) (o : Option (RunningEpisode F))
      → is_some (if b then none else o) ≡ (if b then false else is_some o)
  is_some-if_none true o = refl
  is_some-if_none false o = refl

  pub contains-pop :
      (id j : String) (d : Dict String (RunningEpisode F))
      → contains j (pop id d) ≡ (if id == j then false else contains j d)
  contains-pop id j d = ap is_some (get-pop id j d) ∙ is_some-if_none (id == j) (get j d)

module _ {F W : Type 0} where
  put-Allowed :
      (s : State F W) (id j : String)
      → phases s id ≡ unknown
      → Allowed
          (phases s j)
          (phase_from (if id == j then true else contains j s.episodes) (get j s.reports))
  put-Allowed s id j was = elim (Bool-cases (id == j)) [
    | inl t ↦ rw t (
        subst (λ p. Allowed p live) (sym (ap (phases s) (sym ((string_eq.beq_iff id j).0 t)) ∙ was))
          begins)
    | inr f ↦ rw f stays
  ]

  pop-Allowed :
      (s : State F W) (id j : String)
      → phases s id ≡ unknown
      → Allowed
          (phases s j)
          (phase_from (if id == j then false else contains j s.episodes) (get j s.reports))
  pop-Allowed s id j was = elim (Bool-cases (id == j)) [
    | inl t ↦
        let gone : contains j s.episodes ≡ false =
          ap (λ k. contains k s.episodes) (sym ((string_eq.beq_iff id j).0 t))
          ∙ absent_lem _ (get id s.reports) was in
        rw (t, gone) stays
    | inr f ↦ rw f stays
  ]

  Started-Steps : (s s' : State F W) (id : String) → Started s s' id → Steps s s'
  Started-Steps s s' id started j =
      subst (Allowed (phases s j)) (sym (ap (λ v. phase_from (v.0 j) (get j v.1)) started.now))
        (put-Allowed s id j started.was_unknown)

  Same-Started-Steps :
      (s s' s'' : State F W) (id : String) → Started s s' id → Same s' s'' → Steps s s''
  Same-Started-Steps s s' s'' id started same j =
      subst (Allowed (phases s j)) (sym (Same-phases s' s'' same j))
        (Started-Steps s s' id started j)

  Outcome-Steps : (s : State F W) (r : Result EpisodeHandle × State F W) → Outcome s r → Steps s r.1
  Outcome-Steps s (err e, s') (inl same) = Same-Steps s s' same
  Outcome-Steps s (err e, s') (inr (id, started)) = Started-Steps s s' id started
  Outcome-Steps s (ok handle, s') started = Started-Steps s s' handle.id started

  -- The fresh entry is popped again.
  popped-Steps :
      (s s' s'' : State F W) (id : String)
      → Started s s' id
      → Same s' s''
      → Steps s (record s'' { episodes = pop id s''.episodes })
  popped-Steps s s' s'' id started same j =
      subst (Allowed (phases s j))
        (sym (
          ap (λ b. phase_from b (get j s''.reports)) (contains-pop id j s''.episodes)
          ∙ ap (λ v. phase_from (if id == j then false else v.0 j) (get j v.1)) (same ∙ started.now)
          ∙ ap (λ b. phase_from b (get j s.reports)) (if-if (id == j) (contains j s.episodes))))
        (pop-Allowed s id j started.was_unknown)

module _ (fl : Floats) {W : Type 0} (out : Outside fl.F W) (config : Config fl.F) where
  open fl use {F}

  pub start_episode-Steps :
      (snapshot : Snapshot) (task_id : Option String) (s : State F W)
      → FreshId fl out config s
      → Steps s (start_episode fl out config snapshot task_id s).1
  start_episode-Steps snapshot task_id s fresh =
      Outcome-Steps s _ (start_episode-Outcome fl out config snapshot task_id s fresh)

  pub take_checkpoint-Quiets :
      (episode : EpisodeHandle) → Quiets (take_checkpoint fl out config episode)
  unfolding take_checkpoint
  take_checkpoint-Quiets episode = bind-Quiets _ _ (require-Quiets episode) λ running.
      bind-Quiets _ _ (ask-Quiets out (checkpoint running.runtime))
        λ state. bind-Quiets _ _ (ask-Quiets out uuid4) λ id. return-Quiets _

  pop_and_throw-Steps :
      (s s' s'' : State F W) (id : String) (running : RunningEpisode F) (exc : Error)
      → Started s s' id
      → running.handle.id ≡ id
      → Same s' s''
      → Steps s
          ((get_state >>= λ now. set_episodes (pop running.handle.id now.episodes) >>= λ _.
              throw {A = EpisodeHandle} exc)
            s'').1
  unfolding get_state set_episodes throw ◌>>=◌
  pop_and_throw-Steps s s' s'' id running exc started is_its same =
      subst (λ k. Steps s (record s'' { episodes = pop k s''.episodes })) (sym is_its)
        (popped-Steps s s' s'' id started same)

  -- The exception of `restore` takes the fresh entry away, unless another interrupts it.
  undo_start-Steps :
      (s s' s'' : State F W) (id : String) (running : RunningEpisode F) (exc : Error)
      → Started s s' id
      → running.handle.id ≡ id
      → Same s' s''
      → Steps s (undo_start fl out config running exc s'').1
  unfolding undo_start
  undo_start-Steps s s' s'' id running exc started is_its same =
      let Fits : Result EpisodeHandle × State F W → Type 0 = (λ r. Steps s r.1) in
      let fails : (e : Error) (t : State F W) → Same s' t → Steps s t =
        (λ e t kept. Same-Started-Steps s s' t id started kept) in
      quiet_after Fits s' s'' _ _ same (record_system-Quiets out config running _ _ _) fails
        λ _ s1 _ e1.
          quiet_after Fits s' s1 _ _ e1 (stop_auto_tick-Quiets out config running) fails
            λ _ s2 _ e2.
              quiet_after Fits s' s2 _ _ e2 (stop_npcs-Quiets out config running) fails λ _ s3 _ e3.
                bind_after Fits s' s3 _ _ e3 (stop-Sames out running.runtime) fails λ _ s4 _ e4.
                  bind_after Fits s' s4 _ _ e4 (set_stopped-Sames running.handle.id) fails
                    λ _ s5 _ e5. pop_and_throw-Steps s s' s5 id running exc started is_its e5

  restored-Steps :
      (s s' s'' : State F W) (id : String) (running : RunningEpisode F) (r : Result (Unit {0}))
      → Started s s' id
      → running.handle.id ≡ id
      → Same s' s''
      → Steps s (restored fl out config running r s'').1
  restored-Steps s s' s'' id running (err exc) started is_its same =
      undo_start-Steps s s' s'' id running exc started is_its same
  restored-Steps s s' s'' id running (ok _) started is_its same =
      Same-Started-Steps s s' (restored fl out config running (ok tt) s'').1 id started (
        bind-Sames _ _ (ask-Sames out (surface running.runtime))
          (λ surface_mapping.
            bind-Sames _ _
              (alter-Sames running.handle.id (λ r. record r { surface_cache = surface_mapping })
                (λ r. Grows-same refl refl refl refl refl refl refl))
              (λ _. return-Sames running.handle))
          s''
        ∙ same)

  -- The fresh entry is found again, and the runtime restored.
  found-Steps :
      (s s' : State F W) (id : String) (state : Value) (o : Option (RunningEpisode F))
      (r : RunningEpisode F)
      → Started s s' id
      → o ≡ some r
      → r.handle.id ≡ id
      → Steps s
          (then_run
            (found o, s')
            λ new_running.
              attempt (ask out (restore new_running.runtime state))
              >>= restored fl out config new_running).1
  found-Steps s s' id state none r started e is_its = absurd (none≢some e)
  found-Steps s s' id state (some running) r started e is_its =
      bind_after (λ q. Steps s q.1) s' s' _ _ refl
        (attempt-Sames out (restore running.runtime state))
        (λ exc s'' same. Same-Started-Steps s s' s'' id started same)
        λ q s'' _ same.
          restored-Steps s s' s'' id running q started
            (ap (λ x. x.handle.id) (some-injective e) ∙ is_its) same

  -- What follows the start.
  begun-Steps :
      (s : State F W) (state : Value) (r : Result EpisodeHandle × State F W)
      → Outcome s r
      → Steps s
          (then_run r λ new_handle. require new_handle >>= λ new_running.
            attempt (ask out (restore new_running.runtime state))
            >>= restored fl out config new_running).1
  unfolding require ◌>>=◌
  begun-Steps s state (err e, s') outcome = Outcome-Steps s (err e, s') outcome
  begun-Steps s state (ok handle, s') started =
      found-Steps s s' handle.id state (get handle.id s'.episodes) started.entry.0 started
        started.entry.1 started.entry.2

  origin-Steps :
      (s : State F W) (state : Value) (o : Option (RunningEpisode F))
      → FreshId fl out config s
      → Steps s
          (then_run
            (found o, s)
            λ running.
              start_episode fl out config running.snapshot (some running.task.id) >>= λ new_handle.
              require new_handle >>= λ new_running.
              attempt (ask out (restore new_running.runtime state))
              >>= restored fl out config new_running).1
  unfolding ◌>>=◌
  origin-Steps s state none fresh = Same-Steps s s refl
  origin-Steps s state (some running) fresh =
      begun-Steps s state _
        (start_episode-Outcome fl out config running.snapshot (some running.task.id) s fresh)

  pub restore_episode-Steps :
      (point : EpisodeCheckpoint) (s : State F W)
      → FreshId fl out config s
      → Steps s (restore_episode fl out config point s).1
  unfolding restore_episode get_state lift ◌>>=◌
  restore_episode-Steps point s fresh =
      origin-Steps s point.state (get point.episode_id s.episodes) fresh
