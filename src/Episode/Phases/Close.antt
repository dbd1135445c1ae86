-- ===== src/Episode/Phases/Close.antt =====
-- src/openrange/core/episode.py: `close` as steps of the life of episodes.
use open_range.Base.{
  ◌≡◌, refl, sym, ◌∙◌, ap, subst, String, [], Bool, true, false, Option, none, some, get, values,
  contains, string_eq,
}
use open_range.Floats.{Floats}
use open_range.Episode.{RunningEpisode, CostedReport, Outside, Config, State, stop}
use open_range.Episode.Actions.{for_each, get_state, set_episodes, ◌>>=◌}
use open_range.Episode.Stops.{close_running, close, evict_warm}
use open_range.Episode.Quiet.{
  Quiets, bind-Quiets, return-Quiets, ask-Quiets, suppress-Quiets, if-Quiets, for_each-Quiets,
}
use open_range.Episode.Quiet.Helpers.{stop_npcs-Quiets, stop_auto_tick-Quiets}
use open_range.Episode.Phases.{
  phases, Same-phases, phase_from, Same, set_stopped-Quiets, quiet_after, Allowed, stays, ends,
  drops, Steps, Same-Steps,
}
use open_range.Episode.Phases.Warm.{evict_warm-Sames}

module _ (fl : Floats) {W : Type 0} (out : Outside fl.F W) (config : Config fl.F) where
  open fl use {F}

  pub close_running-Quiets :
      (running : RunningEpisode F) → Quiets (close_running fl out config running)
  unfolding close_running
  close_running-Quiets running = bind-Quiets _ _ (stop_auto_tick-Quiets out config running) λ _.
      bind-Quiets _ _ (stop_npcs-Quiets out config running) λ _.
        if-Quiets running.stopped _ _ (return-Quiets tt) (
          bind-Quiets _ _ (suppress-Quiets _ (ask-Quiets out (stop running.runtime)))
            λ _. set_stopped-Quiets running.handle.id)

  closed-Allowed :
      (b : Bool) (cached : Option (CostedReport F))
      → Allowed (phase_from b cached) (phase_from false cached)
  closed-Allowed true none = drops
  closed-Allowed true (some report) = ends
  closed-Allowed false cached = stays

  cleared_phases :
      (s : State F W) (id : String)
      → phases (record s { episodes = [] }) id ≡ phase_from false (get id s.reports)
  unfolding get
  cleared_phases s id = refl

  cleared-Steps :
      (s s' : State F W)
      → Same s s'
      → Steps s ((set_episodes [] >>= λ _. evict_warm fl out config) s').1
  unfolding set_episodes ◌>>=◌
  cleared-Steps s s' same j =
      let cleared : State F W = record s' { episodes = [] } in
      subst (Allowed (phases s j))
        (sym (
          Same-phases cleared (evict_warm fl out config cleared).1
            (evict_warm-Sames fl out config cleared) j
          ∙ cleared_phases s' j
          ∙ ap (λ v. phase_from false (get j v.1)) same))
        (closed-Allowed (contains j s.episodes) (get j s.reports))

  values_closed-Steps :
      (s : State F W)
      → Steps s
          ((for_each (values s.episodes) (close_running fl out config) >>= λ _.
              set_episodes [] >>= λ _. evict_warm fl out config)
            s).1
  values_closed-Steps s =
      quiet_after (λ r. Steps s r.1) s s _ _ refl
        (for_each-Quiets (values s.episodes) (close_running fl out config) close_running-Quiets)
        (λ e t same. Same-Steps s t same) λ _ t _ same. cleared-Steps s t same

  pub close-Steps : (s : State F W) → Steps s (close fl out config s).1
  unfolding close get_state ◌>>=◌
  close-Steps s = values_closed-Steps s
