-- ===== src/Episode/Reports/Total/Stopping.antt =====
-- src/openrange/core/episode.py: `stop_episode` of a running episode always gives a report.
use open_range.Base.{
  ◌≡◌, refl, sym, ◌∙◌, ap, ℕ, String, [], ◌∷◌, Bool, true, false, ◌&&◌, Option, none, some, Dict,
  get, is_some, subst, Result, ok, err, Error, if◌then◌else◌, string_eq,
}
use open_range.Floats.{Floats}
use open_range.Sdk.{EpisodeResult}
use open_range.Value.{Value}
use open_range.Episode.{
  EpisodeHandle, RunningEpisode, CostedReport, Outside, Config, ErrorTexts, State, poolable,
  collect, perf_counter,
}
use open_range.Episode.Actions.{
  Action, return, lift, ask, attempt, alter, reload, value_or, get_state, set_episodes, set_reports,
  ◌>>=◌,
}
use open_range.Episode.Events.{record_system}
use open_range.Episode.Stops.{
  report_with, stash_warm, cached_report, conclude_episode, failed_grade, graded, collected, grade,
  stopped_or_recorded, stop_or_stash, stop_live, stop_required, cached_or_stop, stop_episode,
}
use open_range.Episode.Quiet.{ask-Quiets, attempt-Quiets, bind-Quiets, return-Quiets}
use open_range.Episode.Quiet.Helpers.{
  record_system-Quiets, drain_events-Quiets, stop_npcs-Quiets, stop_auto_tick-Quiets,
}
use open_range.Episode.Phases.Grades.{graded-Quiets, stop_or_record-Quiets}
use open_range.Episode.Reports.Total.Helpers.{
  record_system-Totals, drain_events-Totals, stop_npcs-Totals, stop_auto_tick-Totals,
  stash_warm-Laters, stash-Totals, if-Totals, if-Laters, return-Laters,
}
use open_range.Episode.Reports.Total.{
  kept-Returns, quiet-Returns, quiet_rest-Leads, IsThere-Grows, IsFilled-Grows, IsDone-Grows,
  Returns, IsJoinable, Totals, bind-Returns, bind-Totals, return-Totals, alter-Totals,
  attempt-Totals, Holds, IsThere, IsFilled, IsDone, Laters, bind-Laters, Leads, bind-Leads,
  Holds-Later, altered-Holds,
}

module _ (fl : Floats) {W : Type 0} (out : Outside fl.F W) (config : Config fl.F)
    (undisplayed : config.dashboard ≡ false) (texts : ErrorTexts) where
  open fl use {F}

  failed_grade-Totals :
      (running : RunningEpisode F) (final_state : Dict String Value) (exc : Error)
      → Totals (failed_grade fl out config texts running final_state exc)
  unfolding failed_grade
  failed_grade-Totals running final_state exc = bind-Totals _ _ (alter-Totals _ _) λ _.
      bind-Totals _ _ (record_system-Totals fl out config undisplayed running _ _ _)
        λ _. return-Totals _

  graded-Totals :
      (running : RunningEpisode F) (final_state : Dict String Value) (r : Result EpisodeResult)
      → Totals (graded fl out config texts running final_state r)
  graded-Totals running final_state (err exc) = failed_grade-Totals running final_state exc
  graded-Totals running final_state (ok episode_result) = return-Totals _

  collected-Totals :
      (running : RunningEpisode F) (r : Result (Dict String Value))
      → Totals (collected fl out config texts running r)
  collected-Totals running (err exc) = failed_grade-Totals running [] exc
  collected-Totals running (ok final_state) =
      bind-Totals _ _ (alter-Totals _ _) λ _. graded-Totals running final_state _

  grade-Totals : (running : RunningEpisode F) → Totals (grade fl out config texts running)
  unfolding grade
  grade-Totals running = bind-Totals _ _ (attempt-Totals _) (collected-Totals running)

  stopped_or_recorded-Totals :
      (running : RunningEpisode F) (r : Result (Unit {0}))
      → Totals (stopped_or_recorded fl out config texts running r)
  stopped_or_recorded-Totals running (ok _) = return-Totals tt
  stopped_or_recorded-Totals running (err exc) =
      record_system-Totals fl out config undisplayed running _ _ _

  -- The calls that may raise outside of every `try`: the question whether a runtime is poolable, and
  -- the clock.
  abbrev pub IsAnswering : Type 0
  IsAnswering =
      ((runtime : ℕ) (w : W) → Returns (out (poolable runtime) w).0)
      × ((w : W) → Returns (out perf_counter w).0)

  module _ (answering : IsAnswering) where
    poolable-Totals : (runtime : ℕ) → Totals (ask out (poolable runtime))
    unfolding ask
    poolable-Totals runtime s = answering.0 runtime s.world

    clock-Totals : Totals (ask out perf_counter)
    unfolding ask
    clock-Totals s = answering.1 s.world

    stop_or_stash-Totals :
        (running : RunningEpisode F) → Totals (stop_or_stash fl out config texts running)
    unfolding stop_or_stash stash_warm
    stop_or_stash-Totals running =
        bind-Totals _ _
          (bind-Totals _ _ (poolable-Totals running.runtime) (stash-Totals fl out config running))
          λ stashed.
            if-Totals fl out config stashed _ _ (return-Totals tt)
              (bind-Totals _ _ (attempt-Totals _) (stopped_or_recorded-Totals running))

    stop_or_stash-Laters :
        (running : RunningEpisode F) → Laters (stop_or_stash fl out config texts running)
    unfolding stop_or_stash
    stop_or_stash-Laters running =
        bind-Laters _ _ (stash_warm-Laters fl out config running) λ stashed.
          if-Laters fl out config stashed _ _ (return-Laters fl out config tt)
            λ s. (stop_or_record-Quiets fl out config texts running s).later

    -- The grade leaves a final state in the entry.
    fill-Leads :
        (id : String) (final_state : Dict String Value)
        → Leads
            (Holds id IsThere)
            (Holds id IsFilled)
            (alter {F = F} {W = W} id (λ r. record r { final_state = some final_state }))
    fill-Leads id final_state =
        altered-Holds id IsThere IsFilled (λ r. record r { final_state = some final_state })
          λ r _. refl

    failed_grade-Leads :
        (running : RunningEpisode F) (final_state : Dict String Value) (exc : Error)
        → Leads
            (Holds running.handle.id IsThere)
            (Holds running.handle.id IsFilled)
            (failed_grade fl out config texts running final_state exc)
    unfolding failed_grade
    failed_grade-Leads running final_state exc =
        quiet_rest-Leads (Holds running.handle.id IsThere) running.handle.id IsFilled _ _
          IsFilled-Grows (alter-Totals _ _) (fill-Leads running.handle.id final_state)
          λ _. bind-Quiets _ _ (record_system-Quiets out config running _ _ _) λ _. return-Quiets _

    collected-Leads :
        (running : RunningEpisode F) (r : Result (Dict String Value))
        → Leads
            (Holds running.handle.id IsThere)
            (Holds running.handle.id IsFilled)
            (collected fl out config texts running r)
    collected-Leads running (err exc) = failed_grade-Leads running [] exc
    collected-Leads running (ok final_state) =
        quiet_rest-Leads (Holds running.handle.id IsThere) running.handle.id IsFilled _ _
          IsFilled-Grows (alter-Totals _ _) (fill-Leads running.handle.id final_state)
          λ _. graded-Quiets fl out config texts running final_state _

    grade-Leads :
        (running : RunningEpisode F)
        → Leads
            (Holds running.handle.id IsThere)
            (Holds running.handle.id IsFilled)
            (grade fl out config texts running)
    unfolding grade
    grade-Leads running =
        bind-Leads (Holds running.handle.id IsThere) (Holds running.handle.id IsThere)
          (Holds running.handle.id IsFilled) _ _ (attempt-Totals _)
          (λ s.
            Holds-Later running.handle.id IsThere IsThere-Grows s
              (attempt (ask out (collect running.runtime)) s).1
              (attempt-Quiets (ask out (collect running.runtime))
                (ask-Quiets out (collect running.runtime)) s).later)
          (collected-Leads running)

    report-Returns :
        (r : RunningEpisode F) (o : Option EpisodeResult) (p : Option (Dict String Value))
        → is_some o ≡ true
        → is_some p ≡ true
        → r.episode_result ≡ o
        → r.final_state ≡ p
        → Returns (cached_report fl out config r)
    unfolding cached_report
    report-Returns r (some episode_result) (some final_state) g f e h =
        (report_with fl out config r episode_result final_state, rw (e, h) refl)
    report-Returns r none p g f e h = cc
    report-Returns r (some _) none g f e h = cc

    cached_report-Returns :
        (r : RunningEpisode F) → IsDone r → Returns (cached_report fl out config r)
    cached_report-Returns r (graded, filled) =
        report-Returns r r.episode_result r.final_state graded filled refl refl

    conclude_episode-Returns :
        (id : String) (s : State F W) (cached : Result (CostedReport F))
        → Returns cached
        → Returns (conclude_episode fl out config id cached s).0
    unfolding conclude_episode lift get_state set_reports set_episodes return ◌>>=◌
    conclude_episode-Returns id s (err e) (report, h) = cc
    conclude_episode-Returns id s (ok report) _ = (report, refl)

    reloaded-Returns :
        (id : String) (running : RunningEpisode F) (s : State F W)
        → Holds running.handle.id IsDone s
        → Returns
            ((reload running >>= λ ended.
                conclude_episode fl out config id (cached_report fl out config ended))
              s).0
    unfolding reload ◌>>=◌
    reloaded-Returns id running s (r, e, done) = conclude_episode-Returns id s _ (
        subst (λ o. Returns (cached_report fl out config (value_or running o))) (sym e)
          (cached_report-Returns r done))

    graded-Returns :
        (episode : EpisodeHandle) (running : RunningEpisode F) (s : State F W)
        (grading : Dict String Value × EpisodeResult)
        → Holds running.handle.id IsFilled s
        → Returns
            ((alter running.handle.id (λ r. record r { episode_result = some grading.1 }) >>= λ _.
                ask out perf_counter >>= λ stopped_at.
                alter running.handle.id (λ r. record r { stopped_at = stopped_at }) >>= λ _.
                stop_or_stash fl out config texts running >>= λ _.
                alter running.handle.id (λ r. record r { stopped = true }) >>= λ _.
                record_system out config running
                  (("finish", Value.bool true) ∷ [])
                  none
                  (some grading.0)
                >>= λ _. reload running >>= λ ended.
                    conclude_episode fl out config episode.id (cached_report fl out config ended))
              s).0
    graded-Returns episode running s grading filled =
        let id : String = running.handle.id in
        let Done : State F W → Type 0 = Holds id IsDone in
        bind-Returns (Holds id IsFilled) Done _ _ s filled (alter-Totals _ _)
          (altered-Holds id IsFilled IsDone (λ r. record r { episode_result = some grading.1 })
            (λ r h. (refl, h)))
          λ _ s1 h1.
            quiet-Returns id IsDone _ _ s1 IsDone-Grows h1 clock-Totals
              (ask-Quiets out perf_counter)
              λ stopped_at s2 h2.
                bind-Returns Done Done _ _ s2 h2 (alter-Totals _ _)
                  (altered-Holds id IsDone IsDone (λ r. record r { stopped_at = stopped_at })
                    (λ r h. h))
                  λ _ s3 h3.
                    kept-Returns id IsDone _ _ s3 IsDone-Grows h3 (stop_or_stash-Totals running)
                      (stop_or_stash-Laters running)
                      λ _ s4 h4.
                        bind-Returns Done Done _ _ s4 h4 (alter-Totals _ _)
                          (altered-Holds id IsDone IsDone (λ r. record r { stopped = true })
                            (λ r h. h))
                          λ _ s5 h5.
                            quiet-Returns id IsDone _ _ s5 IsDone-Grows h5
                              (record_system-Totals fl out config undisplayed running _ _ _)
                              (record_system-Quiets out config running _ _ _)
                              λ _ s6 h6. reloaded-Returns episode.id running s6 h6

    stop_live-Returns :
        (episode : EpisodeHandle) (running : RunningEpisode F) (s : State F W)
        → IsJoinable out running
        → Holds running.handle.id IsThere s
        → Returns (stop_live fl out config texts episode running s).0
    unfolding stop_live
    stop_live-Returns episode running s joins there =
        let id : String = running.handle.id in
        quiet-Returns id IsThere _ _ s IsThere-Grows there
          (stop_auto_tick-Totals fl out config running joins)
          (stop_auto_tick-Quiets out config running)
          λ _ s1 h1.
            quiet-Returns id IsThere _ _ s1 IsThere-Grows h1
              (stop_npcs-Totals fl out config running) (stop_npcs-Quiets out config running)
              λ _ s2 h2.
                quiet-Returns id IsThere _ _ s2 IsThere-Grows h2
                  (drain_events-Totals fl out config undisplayed running)
                  (drain_events-Quiets out config running)
                  λ _ s3 h3.
                    bind-Returns (Holds id IsThere) (Holds id IsFilled) _ _ s3 h3
                      (grade-Totals running) (grade-Leads running)
                      λ grading s4 h4. graded-Returns episode running s4 grading h4

    and_false : (b : Bool) → (b && false) ≡ false
    and_false true = refl
    and_false false = refl

    else-Returns :
        {A : Type 0} (b : Bool) (m n : Action F W A) (s : State F W)
        → b ≡ false
        → Returns (n s).0
        → Returns ((if b then m else n) s).0
    else-Returns true m n s f total = cc
    else-Returns false m n s f total = total

    stop_required-Returns :
        (episode : EpisodeHandle) (running : RunningEpisode F) (s : State F W)
        → running.stopped ≡ false
        → IsJoinable out running
        → Holds running.handle.id IsThere s
        → Returns (stop_required fl out config texts episode running s).0
    unfolding stop_required
    stop_required-Returns episode running s goes joins there =
        else-Returns (is_some running.episode_result && running.stopped) _ _ s
          (ap (λ stopped. is_some running.episode_result && stopped) goes ∙ and_false _)
          (stop_live-Returns episode running s joins there)

    -- Without a dashboard, the stop of an episode that runs returns a report, whatever the runtime
    -- raises in its poll, its collection, its stop or its check, and whatever an NPC raises; if the
    -- runtime says whether it can be pooled, the clock gives the time, and the thread of the episode, if
    -- it has one, was started, so that to join it raises nothing.
    pub stop_episode_total :
        (episode : EpisodeHandle) (running : RunningEpisode F) (s : State F W)
        → get episode.id s.episodes ≡ some running
        → running.handle.id ≡ episode.id
        → running.stopped ≡ false
        → IsJoinable out running
        → Returns (stop_episode fl out config texts episode s).0
    unfolding stop_episode get_state ◌>>=◌
    stop_episode_total episode running s e is_its goes joins =
        subst
          (λ o.
            Returns (cached_or_stop fl out config texts episode (get episode.id s.reports) o s).0)
          (sym e)
          (stop_required-Returns episode running s goes joins
            (running, ap (λ id. get id s.episodes) is_its ∙ e, tt))
