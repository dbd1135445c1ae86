-- ===== src/Episode/Closing/Closed.antt =====
-- src/openrange/core/episode.py: after `close` the service holds nothing, and every runtime that it
-- had was stopped.
use open_range.Base.{
  ◌≡◌, refl, sym, ◌∙◌, subst, ◌⊎◌, inl, inr, ℕ, String, List, [], ◌∷◌, Memᴰ, All, All-intro, true,
  Bool-cases, Dict, values, backwards, backwards-Memᴰ, append-nil_right,
}
use open_range.Floats.{Floats}
use open_range.Episode.{RunningEpisode, Outside, Config, State, stop}
use open_range.Episode.Actions.{
  return, ask, suppress, get_state, set_episodes, set_warm, for_each, ◌>>=◌,
}
use open_range.Episode.Stops.{evict_each, evict_warm, close_running, close}
use open_range.Episode.Keeps.{Keeps, bind-Keeps, return-Keeps}
use open_range.Episode.Quiet.{for_each-Quiets}
use open_range.Episode.Phases.Close.{close_running-Quiets}
use open_range.Episode.Reports.Total.{
  IsJoinable, Totals, bind-Totals, return-Totals, suppress-Totals,
}
use open_range.Episode.Reports.Total.Helpers.{set_warm-Totals}
use open_range.Episode.Closing.{
  Asked, past, evict_each-Asked, evict_each-Keeps, loop-Asked, close_running-Totals,
}

module _ (fl : Floats) {W : Type 0} (out : Outside fl.F W) (config : Config fl.F) where
  open fl use {F}

  abbrev HasNoEpisodes : State F W → Type 0
  HasNoEpisodes s = s.episodes ≡ []

  set_warm-HasNoEpisodes : (d : Dict String ℕ) → Keeps HasNoEpisodes (set_warm {F = F} {W = W} d)
  unfolding set_warm
  set_warm-HasNoEpisodes d s none_left = none_left

  stopped-HasNoEpisodes : (runtime : ℕ) → Keeps HasNoEpisodes (suppress (ask out (stop runtime)))
  unfolding suppress ask
  stopped-HasNoEpisodes runtime s none_left = none_left

  evict_each-HasNoEpisodes : (d : Dict String ℕ) → Keeps HasNoEpisodes (evict_each fl out config d)
  unfolding evict_each
  evict_each-HasNoEpisodes [] = return-Keeps HasNoEpisodes tt
  evict_each-HasNoEpisodes (last ∷ before) =
      bind-Keeps HasNoEpisodes _ _ (set_warm-HasNoEpisodes _) λ _.
        bind-Keeps HasNoEpisodes _ _ (stopped-HasNoEpisodes last.1)
          λ _. evict_each-HasNoEpisodes before

  abbrev HasNoWarm : State F W → Type 0
  HasNoWarm s = s.warm ≡ []

  pub set_warm-warm : (d : Dict String ℕ) (s : State F W) → (set_warm d s).1.warm ≡ d
  unfolding set_warm
  set_warm-warm d s = refl

  pub stopped-warm :
      (runtime : ℕ) (s : State F W) → (suppress (ask out (stop runtime)) s).1.warm ≡ s.warm
  unfolding suppress ask
  stopped-warm runtime s = refl

  -- The last entry goes, and then the rest.
  evict_each-HasNoWarm :
      (d : Dict String ℕ) (s : State F W)
      → s.warm ≡ backwards d
      → HasNoWarm (evict_each fl out config d s).1
  unfolding evict_each return backwards
  evict_each-HasNoWarm [] s same = same
  evict_each-HasNoWarm (last ∷ before) s same =
      past HasNoWarm _ _ s (set_warm-Totals fl out config _) λ _.
        past HasNoWarm _ _ _ (suppress-Totals _) λ _.
          evict_each-HasNoWarm before _ (stopped-warm last.1 _ ∙ set_warm-warm (backwards before) s)

  backwards-nil : {A : Type 0} (xs : List A) → backwards xs ≡ [] → xs ≡ []
  unfolding backwards
  backwards-nil [] e = refl
  backwards-nil (x ∷ xs) e =
      let last : x ∷ [] ≡ [] = append-nil_right (backwards xs) (x ∷ []) e in cc

  pub evicted-HasNoWarm :
      (d : Dict String ℕ) (s : State F W)
      → backwards s.warm ≡ d
      → HasNoWarm (evict_each fl out config d s).1
  unfolding evict_each return
  evicted-HasNoWarm [] s e = backwards-nil s.warm e
  evicted-HasNoWarm (last ∷ before) s e =
      past HasNoWarm _ _ s (set_warm-Totals fl out config _) λ _.
        past HasNoWarm _ _ _ (suppress-Totals _) λ _.
          evict_each-HasNoWarm before _ (stopped-warm last.1 _ ∙ set_warm-warm (backwards before) s)

  -- Nothing is left, and every runtime was stopped: of an episode, unless it was stopped before, and
  -- of a warm world.
  abbrev pub IsClosed : State F W → State F W → Type 0
  IsClosed s t =
      (t.episodes ≡ [])
      × (t.warm ≡ [])
      × All (λ (r : RunningEpisode F). (r.stopped ≡ true) ⊎ Asked (stop r.runtime) t)
          (values s.episodes)
      × All (λ (e : String × ℕ). Asked (stop e.1) t) s.warm

  cleared-IsClosed :
      (s s' : State F W)
      → s'.warm ≡ s.warm
      → ((r : RunningEpisode F)
          → Memᴰ r (values s.episodes)
          → (r.stopped ≡ true) ⊎ Asked (stop r.runtime) s')
      → IsClosed s ((set_episodes [] >>= λ _. evict_warm fl out config) s').1
  unfolding set_episodes evict_warm get_state ◌>>=◌
  cleared-IsClosed s s' same asked =
      let cleared : State F W = record s' { episodes = [] } in
      (
        evict_each-HasNoEpisodes (backwards s'.warm) cleared refl,
        evicted-HasNoWarm (backwards s'.warm) cleared refl,
        All-intro _ (values s.episodes) (λ r m. elim (asked r m) [
          | inl was ↦ inl was
          | inr made ↦
              inr (evict_each-Keeps fl out config (stop r.runtime) (backwards s'.warm) cleared made)
        ]),
        All-intro _ s.warm (λ e m.
            evict_each-Asked fl out config e (backwards s'.warm) cleared
              (backwards-Memᴰ e s'.warm (subst (λ d. Memᴰ e d) (sym same) m))),
      )

  loop-Totals :
      (xs : List (RunningEpisode F))
      → All (IsJoinable out) xs
      → Totals (for_each xs (close_running fl out config))
  unfolding for_each
  loop-Totals [] joins = return-Totals tt
  loop-Totals (x ∷ xs) joins =
      bind-Totals _ _ (close_running-Totals fl out config x joins.0) λ _. loop-Totals xs joins.1

  looped-IsClosed :
      (s : State F W)
      → All (IsJoinable out) (values s.episodes)
      → IsClosed s
          ((for_each (values s.episodes) (close_running fl out config) >>= λ _.
              set_episodes [] >>= λ _. evict_warm fl out config)
            s).1
  looped-IsClosed s joins = past (IsClosed s) _ _ s (loop-Totals (values s.episodes) joins) λ _.
      cleared-IsClosed s _
        (for_each-Quiets (values s.episodes) (close_running fl out config)
          (close_running-Quiets fl out config) s).same_warm
        λ r m. elim (Bool-cases r.stopped) [
          | inl was ↦ inl was
          | inr goes ↦ inr (loop-Asked fl out config r (values s.episodes) s joins m goes)
        ]

  -- If the thread of every episode that has one was started, so that to join it raises nothing, then
  -- after `close` the service has no episode and no warm world, and it has asked the runtime of every
  -- episode that was not stopped, and every warm one, to stop, whatever they and the NPCs raise.
  pub close-IsClosed :
      (s : State F W)
      → All (IsJoinable out) (values s.episodes)
      → IsClosed s (close fl out config s).1
  unfolding close get_state ◌>>=◌
  close-IsClosed s joins = looped-IsClosed s joins
