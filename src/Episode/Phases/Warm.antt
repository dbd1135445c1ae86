-- ===== src/Episode/Phases/Warm.antt =====
-- src/openrange/core/episode.py: the pool of warm runtimes changes no phase, and keeps its capacity.
use open_range.Base.{ℕ, String, [], ◌∷◌, Bool, true, false, Dict, length, ltb, string_eq}
use open_range.Floats.{Floats}
use open_range.Episode.{RunningEpisode, Outside, Config, poolable}
use open_range.Episode.Stops.{trim_warm, stash, stash_warm, evict_each, evict_warm}
use open_range.Episode.Phases.{
  Sames, bind-Sames, return-Sames, ask-Sames, stop-Sames, if-Sames, get_state-Sames, set_warm-Sames,
}

module _ (fl : Floats) {W : Type 0} (out : Outside fl.F W) (config : Config fl.F) where
  open fl use {F}

  trim_warm-Sames : (d : Dict String ℕ) → Sames (trim_warm fl out config d)
  unfolding trim_warm
  trim_warm-Sames [] = return-Sames tt
  trim_warm-Sames (evicted ∷ rest) =
      if-Sames (ltb config.warm_capacity (length (evicted ∷ rest))) _ _
        (bind-Sames _ _ (set_warm-Sames rest)
          λ _. bind-Sames _ _ (stop-Sames out evicted.1) λ _. trim_warm-Sames rest)
        (return-Sames tt)

  stash-Sames : (running : RunningEpisode F) (b : Bool) → Sames (stash fl out config running b)
  stash-Sames running false = return-Sames false
  stash-Sames running true = bind-Sames _ _ get_state-Sames λ s.
      bind-Sames _ _ (set_warm-Sames _)
        λ _. bind-Sames _ _ (trim_warm-Sames _) λ _. return-Sames true

  pub stash_warm-Sames : (running : RunningEpisode F) → Sames (stash_warm fl out config running)
  unfolding stash_warm
  stash_warm-Sames running =
      bind-Sames _ _ (ask-Sames out (poolable running.runtime)) (stash-Sames running)

  evict_each-Sames : (d : Dict String ℕ) → Sames (evict_each fl out config d)
  unfolding evict_each
  evict_each-Sames [] = return-Sames tt
  evict_each-Sames (last ∷ before) =
      bind-Sames _ _ (set_warm-Sames _)
        λ _. bind-Sames _ _ (stop-Sames out last.1) λ _. evict_each-Sames before

  pub evict_warm-Sames : Sames (evict_warm fl out config)
  unfolding evict_warm
  evict_warm-Sames = bind-Sames _ _ get_state-Sames λ s. evict_each-Sames _
