-- ===== src/Episode/Phases/End.antt =====
-- src/openrange/core/episode.py: `stop_episode` and `check_episode` as steps of the life of episodes.
use open_range.Base.{
  ◌≡◌, refl, sym, ◌∙◌, ap, subst, String, [], ◌∷◌, Bool, true, false, ◌&&◌, Option, none, some,
  Bool-cases, Dict, get, put, pop, contains, get-put, is_some, Result, ok, err, Error, inl, inr,
  if◌then◌else◌, ◌==◌, string_eq,
}
use open_range.Floats.{Floats}
use open_range.Sdk.{EpisodeResult}
use open_range.Value.{Value}
use open_range.Episode.{
  EpisodeHandle, RunningEpisode, CostedReport, Outside, Config, ErrorTexts, State, perf_counter,
}
use open_range.Episode.Actions.{
  Action, return, throw, lift, ask, alter, reload, then_run, get_state, set_episodes, set_reports,
  ◌>>=◌,
}
use open_range.Episode.Events.{record_system, found, require}
use open_range.Episode.Stops.{
  cached_report, conclude_episode, stop_or_stash, stop_live, stop_required, cached_or_stop,
  stop_episode, cached_or_check, check_episode,
}
use open_range.Episode.Quiet.{Grows-same, ask-Quiets, alter-Quiets}
use open_range.Episode.Quiet.Helpers.{
  record_system-Quiets, drain_events-Quiets, stop_npcs-Quiets, stop_auto_tick-Quiets,
}
use open_range.Episode.Phases.{
  phases, phase_from, Same, set_stopped-Sames, bind_after, quiet_after, Allowed, stays, ends, Steps,
  Same-Steps,
}
use open_range.Episode.Phases.Restore.{contains-pop}
use open_range.Episode.Phases.Grades.{
  set_result-Quiets, grade-Quiets, stop_or_stash-Sames, reload-Quiets,
}

module _ {F : Type 0} where
  -- An episode that ran has stopped with its report.
  ended-Allowed :
      (id j : String) (report : CostedReport F) (v : (String → Bool) × Dict String (CostedReport F))
      → v.0 id ≡ true
      → Allowed (phase_from (v.0 j) (get j v.1)) (
          phase_from
            (if id == j then false else v.0 j)
            (if id == j then some report else get j v.1))
  ended-Allowed id j report v runs = elim (Bool-cases (id == j)) [
    | inl t ↦
        let was : v.0 j ≡ true = ap v.0 (sym ((string_eq.beq_iff id j).0 t)) ∙ runs in
        rw (t, was) ends
    | inr f ↦ rw f stays
  ]

module _ {F W : Type 0} where
  ended-Steps :
      (s s' : State F W) (id : String) (report : CostedReport F)
      → contains id s.episodes ≡ true
      → Same s s'
      → Steps s (record s' { reports = put id report s'.reports; episodes = pop id s'.episodes })
  ended-Steps s s' id report runs same j =
      subst (Allowed (phases s j))
        (sym (
          ap (λ b. phase_from b (get j (put id report s'.reports))) (contains-pop id j s'.episodes)
          ∙ ap (phase_from (if id == j then false else contains j s'.episodes))
              (get-put id j report s'.reports)
          ∙ ap
              (λ v.
                phase_from (if id == j then false else v.0 j)
                  (if id == j then some report else get j v.1))
              same))
        (ended-Allowed id j report (λ k. contains k s.episodes, s.reports) runs)

module _ (fl : Floats) {W : Type 0} (out : Outside fl.F W) (config : Config fl.F) where
  open fl use {F}

  conclude_episode-Steps :
      (s s' : State F W) (id : String) (cached : Result (CostedReport F))
      → contains id s.episodes ≡ true
      → Same s s'
      → Steps s (conclude_episode fl out config id cached s').1
  unfolding conclude_episode lift get_state set_reports set_episodes return ◌>>=◌
  conclude_episode-Steps s s' id (err e) runs same = Same-Steps s s' same
  conclude_episode-Steps s s' id (ok report) runs same = ended-Steps s s' id report runs same

  module _ (texts : ErrorTexts) where
    -- From the grade on.
    graded-Steps :
        (episode : EpisodeHandle) (running : RunningEpisode F) (s s' : State F W)
        (grading : Dict String Value × EpisodeResult)
        → contains episode.id s.episodes ≡ true
        → Same s s'
        → Steps s
            ((alter running.handle.id (λ r. record r { episode_result = some grading.1 }) >>= λ _.
                ask out perf_counter >>= λ stopped_at.
                alter running.handle.id (λ r. record r { stopped_at = stopped_at }) >>= λ _.
                stop_or_stash fl out config texts running >>= λ _.
                alter running.handle.id (λ r. record r { stopped = true }) >>= λ _.
                record_system out config running
                  (("finish", Value.bool true) ∷ [])
                  none
                  (some grading.0)
                >>= λ _. reload running >>= λ ended.
                    conclude_episode fl out config episode.id (cached_report fl out config ended))
              s').1
    graded-Steps episode running s s' grading runs same =
        let Fits : Result (CostedReport F) × State F W → Type 0 = (λ r. Steps s r.1) in
        let fails : (e : Error) (t : State F W) → Same s t → Steps s t =
          (λ e t kept. Same-Steps s t kept) in
        quiet_after Fits s s' _ _ same
          (set_result-Quiets fl out config texts running.handle.id grading.1) fails
          λ _ s1 _ e1.
            quiet_after Fits s s1 _ _ e1 (ask-Quiets out perf_counter) fails λ stopped_at s2 _ e2.
              quiet_after Fits s s2 _ _ e2
                (alter-Quiets running.handle.id (λ r. record r { stopped_at = stopped_at })
                  (λ r. Grows-same refl refl refl refl refl refl refl))
                fails
                λ _ s3 _ e3.
                  bind_after Fits s s3 _ _ e3 (stop_or_stash-Sames fl out config texts running)
                    fails
                    λ _ s4 _ e4.
                      bind_after Fits s s4 _ _ e4 (set_stopped-Sames running.handle.id) fails
                        λ _ s5 _ e5.
                          quiet_after Fits s s5 _ _ e5
                            (record_system-Quiets out config running _ _ _) fails
                            λ _ s6 _ e6.
                              quiet_after Fits s s6 _ _ e6
                                (reload-Quiets fl out config texts running) fails
                                λ ended s7 _ e7. conclude_episode-Steps s s7 episode.id _ runs e7

    stop_live-Steps :
        (episode : EpisodeHandle) (running : RunningEpisode F) (s : State F W)
        → contains episode.id s.episodes ≡ true
        → Steps s (stop_live fl out config texts episode running s).1
    unfolding stop_live
    stop_live-Steps episode running s runs =
        let Fits : Result (CostedReport F) × State F W → Type 0 = (λ r. Steps s r.1) in
        let fails : (e : Error) (t : State F W) → Same s t → Steps s t =
          (λ e t same. Same-Steps s t same) in
        quiet_after Fits s s _ _ refl (stop_auto_tick-Quiets out config running) fails λ _ s1 _ e1.
          quiet_after Fits s s1 _ _ e1 (stop_npcs-Quiets out config running) fails λ _ s2 _ e2.
            quiet_after Fits s s2 _ _ e2 (drain_events-Quiets out config running) fails λ _ s3 _ e3.
              quiet_after Fits s s3 _ _ e3 (grade-Quiets fl out config texts running) fails
                λ grading s4 _ e4. graded-Steps episode running s s4 grading runs e4

    if-Steps :
        {A : Type 0} (b : Bool) (s : State F W) (m n : Action F W A)
        → Steps s (m s).1
        → Steps s (n s).1
        → Steps s ((if b then m else n) s).1
    if-Steps true s m n p q = p
    if-Steps false s m n p q = q

    stop_required-Steps :
        (episode : EpisodeHandle) (running : RunningEpisode F) (s : State F W)
        → contains episode.id s.episodes ≡ true
        → Steps s (stop_required fl out config texts episode running s).1
    unfolding stop_required
    stop_required-Steps episode running s runs =
        if-Steps (is_some running.episode_result && running.stopped) s _ _
          (conclude_episode-Steps s s episode.id _ runs refl)
          (stop_live-Steps episode running s runs)

    cached_or_stop-Steps :
        (episode : EpisodeHandle) (s : State F W) (cached : Option (CostedReport F))
        (o : Option (RunningEpisode F))
        → get episode.id s.episodes ≡ o
        → Steps s (cached_or_stop fl out config texts episode cached o s).1
    unfolding return throw
    cached_or_stop-Steps episode s cached (some running) e =
        stop_required-Steps episode running s (ap is_some e)
    cached_or_stop-Steps episode s (some cached) none e = Same-Steps s s refl
    cached_or_stop-Steps episode s none none e = Same-Steps s s refl

    pub stop_episode-Steps :
        (episode : EpisodeHandle) (s : State F W)
        → Steps s (stop_episode fl out config texts episode s).1
    unfolding stop_episode get_state ◌>>=◌
    stop_episode-Steps episode s =
        cached_or_stop-Steps episode s (get episode.id s.reports) (get episode.id s.episodes) refl

    found-Steps :
        (episode : EpisodeHandle) (s : State F W) (o : Option (RunningEpisode F))
        → Steps s
            (then_run
              (found o, s)
              λ running.
                if is_some running.episode_result && running.stopped
                then lift (cached_report fl out config running)
                else stop_episode fl out config texts episode).1
    unfolding lift
    found-Steps episode s none = Same-Steps s s refl
    found-Steps episode s (some running) =
        if-Steps (is_some running.episode_result && running.stopped) s _ _ (Same-Steps s s refl)
          (stop_episode-Steps episode s)

    cached_or_check-Steps :
        (episode : EpisodeHandle) (s : State F W) (cached : Option (CostedReport F))
        → Steps s (cached_or_check fl out config texts episode cached s).1
    unfolding return require ◌>>=◌
    cached_or_check-Steps episode s (some cached) = Same-Steps s s refl
    cached_or_check-Steps episode s none = found-Steps episode s (get episode.id s.episodes)

    pub check_episode-Steps :
        (episode : EpisodeHandle) (s : State F W)
        → Steps s (check_episode fl out config texts episode s).1
    unfolding check_episode get_state ◌>>=◌
    check_episode-Steps episode s = cached_or_check-Steps episode s (get episode.id s.reports)
