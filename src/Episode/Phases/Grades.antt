-- ===== src/Episode/Phases/Grades.antt =====
-- src/openrange/core/episode.py: the grading of an episode and the stop of its runtime change no phase.
use open_range.Base.{refl, String, [], some, Dict, Result, ok, err, Error, string_eq}
use open_range.Floats.{Floats}
use open_range.Sdk.{EpisodeResult}
use open_range.Value.{Value}
use open_range.Episode.{RunningEpisode, Outside, Config, ErrorTexts, collect, stop}
use open_range.Episode.Actions.{ask, attempt, alter, reload, ◌>>=◌}
use open_range.Episode.Stops.{
  check_success, failed_grade, graded, collected, grade, stopped_or_recorded, stop_or_stash,
}
use open_range.Episode.Quiet.{
  Quiet-refl, Quiets, bind-Quiets, return-Quiets, ask-Quiets, attempt-Quiets, alter-Quiets,
}
use open_range.Episode.Quiet.Helpers.{record_system-Quiets}
use open_range.Episode.Phases.{Sames, Quiets-Sames, bind-Sames, return-Sames, if-Sames}
use open_range.Episode.Phases.Warm.{stash_warm-Sames}

module _ (fl : Floats) {W : Type 0} (out : Outside fl.F W) (config : Config fl.F) where
  open fl use {F}

  module _ (texts : ErrorTexts) where
    set_final_state-Quiets :
        (id : String) (final_state : Dict String Value)
        → Quiets (alter {F = F} {W = W} id (λ r. record r { final_state = some final_state }))
    set_final_state-Quiets id final_state =
        alter-Quiets id (λ r. record r { final_state = some final_state })
          λ r. record {
            same_handle = refl;
            same_snapshot = refl;
            same_task = refl;
            same_runtime = refl;
            keeps_result = λ h. h;
            keeps_state = λ h. refl;
            keeps_stopped = λ h. h;
          }

    pub set_result-Quiets :
        (id : String) (episode_result : EpisodeResult)
        → Quiets (alter {F = F} {W = W} id (λ r. record r { episode_result = some episode_result }))
    set_result-Quiets id episode_result =
        alter-Quiets id (λ r. record r { episode_result = some episode_result })
          λ r. record {
            same_handle = refl;
            same_snapshot = refl;
            same_task = refl;
            same_runtime = refl;
            keeps_result = λ h. refl;
            keeps_state = λ h. h;
            keeps_stopped = λ h. h;
          }

    failed_grade-Quiets :
        (running : RunningEpisode F) (final_state : Dict String Value) (exc : Error)
        → Quiets (failed_grade fl out config texts running final_state exc)
    unfolding failed_grade
    failed_grade-Quiets running final_state exc =
        bind-Quiets _ _ (set_final_state-Quiets running.handle.id final_state)
          λ _. bind-Quiets _ _ (record_system-Quiets out config running _ _ _) λ _. return-Quiets _

    pub graded-Quiets :
        (running : RunningEpisode F) (final_state : Dict String Value) (r : Result EpisodeResult)
        → Quiets (graded fl out config texts running final_state r)
    graded-Quiets running final_state (err exc) = failed_grade-Quiets running final_state exc
    graded-Quiets running final_state (ok episode_result) = return-Quiets _

    collected-Quiets :
        (running : RunningEpisode F) (r : Result (Dict String Value))
        → Quiets (collected fl out config texts running r)
    collected-Quiets running (err exc) = failed_grade-Quiets running [] exc
    collected-Quiets running (ok final_state) =
        bind-Quiets _ _ (set_final_state-Quiets running.handle.id final_state)
          λ _. graded-Quiets running final_state (check_success fl out config running final_state)

    pub grade-Quiets : (running : RunningEpisode F) → Quiets (grade fl out config texts running)
    unfolding grade
    grade-Quiets running =
        bind-Quiets _ _ (attempt-Quiets _ (ask-Quiets out (collect running.runtime)))
          (collected-Quiets running)

    stopped_or_recorded-Quiets :
        (running : RunningEpisode F) (r : Result (Unit {0}))
        → Quiets (stopped_or_recorded fl out config texts running r)
    stopped_or_recorded-Quiets running (ok _) = return-Quiets tt
    stopped_or_recorded-Quiets running (err exc) = record_system-Quiets out config running _ _ _

    pub stop_or_record-Quiets :
        (running : RunningEpisode F)
        → Quiets (
            attempt (ask out (stop running.runtime))
            >>= stopped_or_recorded fl out config texts running)
    stop_or_record-Quiets running =
        bind-Quiets _ _ (attempt-Quiets _ (ask-Quiets out (stop running.runtime)))
          (stopped_or_recorded-Quiets running)

    stop_or_record-Sames :
        (running : RunningEpisode F)
        → Sames (
            attempt (ask out (stop running.runtime))
            >>= stopped_or_recorded fl out config texts running)
    stop_or_record-Sames running =
        Quiets-Sames
          (attempt (ask out (stop running.runtime))
            >>= stopped_or_recorded fl out config texts running)
          (stop_or_record-Quiets running)

    pub stop_or_stash-Sames :
        (running : RunningEpisode F) → Sames (stop_or_stash fl out config texts running)
    unfolding stop_or_stash
    stop_or_stash-Sames running =
        bind-Sames _ _ (stash_warm-Sames fl out config running)
          λ stashed. if-Sames stashed _ _ (return-Sames tt) (stop_or_record-Sames running)

    pub reload-Quiets : (running : RunningEpisode F) → Quiets (reload {F = F} {W = W} running)
    unfolding reload
    reload-Quiets running s = Quiet-refl s
