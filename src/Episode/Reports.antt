-- ===== src/Episode/Reports.antt =====
-- src/openrange/core/episode.py: the report of a stopped episode. A second stop and a check give it
-- again, and a stop gives one whatever the runtime, the grader and the NPCs raise.
pub mod Total
use open_range.Base.{
  ◌≡◌, refl, ◌∙◌, ap, String, [], ◌∷◌, Bool, true, false, ◌&&◌, Option, none, some, get, get-put,
  get-pop, is_some, Result, ok, err, ok-injective, if◌then◌else◌, ◌==◌, string_eq,
}
use open_range.Floats.{Floats}
use open_range.Episode.{
  EpisodeHandle, RunningEpisode, CostedReport, Outside, Config, ErrorTexts, State,
}
use open_range.Episode.Actions.{
  Action, then_run, return, throw, lift, get_state, set_episodes, set_reports, ◌>>=◌,
}
use open_range.Episode.Stops.{
  conclude_episode, stop_live, stop_required, cached_or_stop, stop_episode, check_episode,
}

module _ {F W : Type 0} where
  -- What holds of the state after a call that returned: of `m >>= rest`, if after every `rest`.
  abbrev pub Ensures : {A : Type 0} → (A → State F W → Type 0) → Action F W A → Type 0
  Ensures {A} P m = (s : State F W) (x : A) → (m s).0 ≡ ok x → P x (m s).1

  then_Ensures :
      {A B : Type 0} (P : B → State F W → Type 0) (r : Result A × State F W)
      (rest : A → Action F W B)
      → ((x : A) → Ensures P (rest x))
      → (y : B) → (then_run r rest).0 ≡ ok y
      → P y (then_run r rest).1
  then_Ensures P (err e, s) rest later y h = cc
  then_Ensures P (ok x, s) rest later y h = later x s y h

  pub bind-Ensures :
      {A B : Type 0} (P : B → State F W → Type 0) (m : Action F W A) (rest : A → Action F W B)
      → ((x : A) → Ensures P (rest x))
      → Ensures P (m >>= rest)
  unfolding ◌>>=◌
  bind-Ensures P m rest later s = then_Ensures P (m s) rest later

  pub if-Ensures :
      {A : Type 0} (P : A → State F W → Type 0) (b : Bool) (m n : Action F W A)
      → Ensures P m
      → Ensures P n
      → Ensures P (if b then m else n)
  if-Ensures P true m n p q = p
  if-Ensures P false m n p q = q

  -- The episode is not running, and its report is cached.
  abbrev pub IsCached : String → CostedReport F → State F W → Type 0
  IsCached id report s = (get id s.episodes ≡ none) × (get id s.reports ≡ some report)

module _ (fl : Floats) {W : Type 0} (out : Outside fl.F W) (config : Config fl.F) where
  open fl use {F}

  conclude_episode-Ensures :
      (id : String) (cached : Result (CostedReport F))
      → Ensures (IsCached id) (conclude_episode fl out config id cached)
  unfolding conclude_episode lift get_state set_reports set_episodes return ◌>>=◌
  conclude_episode-Ensures id (err e) s report h = cc
  conclude_episode-Ensures id (ok report') s report h =
      let same : id == id ≡ true = (string_eq.beq_iff id id).1 refl in
      (
        get-pop id id s.episodes ∙ (rw same refl),
        get-put id id report' s.reports ∙ (rw same (ap some (ok-injective h))),
      )

  module _ (texts : ErrorTexts) where
    stop_live-Ensures :
        (episode : EpisodeHandle) (running : RunningEpisode F)
        → Ensures (IsCached episode.id) (stop_live fl out config texts episode running)
    unfolding stop_live
    stop_live-Ensures episode running = bind-Ensures (IsCached episode.id) _ _ λ _.
        bind-Ensures (IsCached episode.id) _ _ λ _. bind-Ensures (IsCached episode.id) _ _ λ _.
          bind-Ensures (IsCached episode.id) _ _ λ _. bind-Ensures (IsCached episode.id) _ _ λ _.
            bind-Ensures (IsCached episode.id) _ _ λ _. bind-Ensures (IsCached episode.id) _ _ λ _.
              bind-Ensures (IsCached episode.id) _ _ λ _.
                bind-Ensures (IsCached episode.id) _ _ λ _.
                  bind-Ensures (IsCached episode.id) _ _ λ _.
                    bind-Ensures (IsCached episode.id) _ _
                      λ ended. conclude_episode-Ensures episode.id _

    stop_required-Ensures :
        (episode : EpisodeHandle) (running : RunningEpisode F)
        → Ensures (IsCached episode.id) (stop_required fl out config texts episode running)
    unfolding stop_required
    stop_required-Ensures episode running =
        if-Ensures (IsCached episode.id) (is_some running.episode_result && running.stopped) _ _
          (conclude_episode-Ensures episode.id _) (stop_live-Ensures episode running)

    cached_or_stop-IsCached :
        (episode : EpisodeHandle) (s : State F W) (report : CostedReport F)
        (cached : Option (CostedReport F)) (o : Option (RunningEpisode F))
        → get episode.id s.reports ≡ cached
        → get episode.id s.episodes ≡ o
        → (cached_or_stop fl out config texts episode cached o s).0 ≡ ok report
        → IsCached episode.id report (cached_or_stop fl out config texts episode cached o s).1
    unfolding return throw
    cached_or_stop-IsCached episode s report cached (some running) c e h =
        stop_required-Ensures episode running s report h
    cached_or_stop-IsCached episode s report (some report') none c e h =
        (e, c ∙ ap some (ok-injective h))
    cached_or_stop-IsCached episode s report none none c e h = cc

    pub stop_episode-IsCached :
        (episode : EpisodeHandle) (s : State F W) (report : CostedReport F)
        → (stop_episode fl out config texts episode s).0 ≡ ok report
        → IsCached episode.id report (stop_episode fl out config texts episode s).1
    unfolding stop_episode get_state ◌>>=◌
    stop_episode-IsCached episode s report h =
        cached_or_stop-IsCached episode s report (get episode.id s.reports)
          (get episode.id s.episodes) refl refl h

    stop_episode_cached :
        (episode : EpisodeHandle) (s : State F W) (report : CostedReport F)
        → IsCached episode.id report s
        → stop_episode fl out config texts episode s ≡ (ok report, s)
    unfolding stop_episode get_state return ◌>>=◌
    stop_episode_cached episode s report (gone, cached) = rw (gone, cached) refl

    check_episode_cached :
        (episode : EpisodeHandle) (s : State F W) (report : CostedReport F)
        → get episode.id s.reports ≡ some report
        → check_episode fl out config texts episode s ≡ (ok report, s)
    unfolding check_episode get_state return ◌>>=◌
    check_episode_cached episode s report cached = rw cached refl

    -- After a stop that returned a report, a second stop and a check return the same report, make no
    -- call and change nothing.
    pub stop_episode_again :
        (episode : EpisodeHandle) (s : State F W) (report : CostedReport F)
        → (stop_episode fl out config texts episode s).0 ≡ ok report
        → (stop_episode fl out config texts episode (stop_episode fl out config texts episode s).1
            ≡ (ok report, (stop_episode fl out config texts episode s).1))
          × (check_episode fl out config texts episode
                (stop_episode fl out config texts episode s).1
              ≡ (ok report, (stop_episode fl out config texts episode s).1))
    stop_episode_again episode s report h =
        let kept : IsCached episode.id report (stop_episode fl out config texts episode s).1 =
          stop_episode-IsCached episode s report h in
        (stop_episode_cached episode _ report kept, check_episode_cached episode _ report kept.1)
