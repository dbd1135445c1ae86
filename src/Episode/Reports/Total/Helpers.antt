-- ===== src/Episode/Reports/Total/Helpers.antt =====
-- src/openrange/core/episode.py: the helpers of `stop_episode` raise nothing, without a dashboard.
use open_range.Base.{
  ◌≡◌, refl, ℕ, String, List, [], ◌∷◌, Bool, true, false, Option, none, some, Dict, length, ltb,
  is_some, Result, ok, err, if◌then◌else◌, string_eq,
}
use open_range.Floats.{Floats}
use open_range.Value.{Value}
use open_range.Episode.{
  Event, RunningEpisode, Outside, Config, ActorTurn, Call, poolable, stop, join_thread,
}
use open_range.Episode.Actions.{Action, return, ask, suppress, get_state, set_warm}
use open_range.Episode.Events.{
  tell_dashboard, record_system, record_world_event, drained, drain_events,
}
use open_range.Episode.Actors.{stop_npcs, stop_auto_tick, join_ticking}
use open_range.Episode.Stops.{trim_warm, stash, stash_warm}
use open_range.Episode.Quiet.{Quiets, ask-Quiets, suppress-Quiets}
use open_range.Episode.Reports.Total.{
  Returns, IsJoinable, Totals, bind-Totals, return-Totals, alter-Totals, suppress-Totals,
  attempt-Totals, for_each-Totals, Laters, bind-Laters, fixed-Laters,
}

module _ (fl : Floats) {W : Type 0} (out : Outside fl.F W) (config : Config fl.F) where
  open fl use {F}

  pub stop_npcs-Totals : (running : RunningEpisode F) → Totals (stop_npcs out config running)
  unfolding stop_npcs
  stop_npcs-Totals running =
      bind-Totals _ _ (for_each-Totals running.npcs _ λ npc. suppress-Totals _)
        λ _. alter-Totals _ _

  pub if-Totals :
      {A : Type 0} (b : Bool) (m n : Action F W A)
      → Totals m
      → Totals n
      → Totals (if b then m else n)
  if-Totals true m n p q = p
  if-Totals false m n p q = q

  pub set_warm-Totals : (d : Dict String ℕ) → Totals (set_warm {F = F} {W = W} d)
  unfolding set_warm
  set_warm-Totals d s = (tt, refl)

  pub get_state-Totals : Totals (get_state {F = F} {W = W})
  unfolding get_state
  get_state-Totals s = (s, refl)

  ask-Totals : (call : Call F) → ((w : W) → Returns (out call w).0) → Totals (ask out call)
  unfolding ask
  ask-Totals call answers s = answers s.world

  join_ticking-Totals :
      (running : RunningEpisode F) (o : Option F)
      → (is_some o ≡ true → (w : W) → Returns (out (join_thread running.handle) w).0)
      → Totals (join_ticking out config running o)
  join_ticking-Totals running none joins = return-Totals tt
  join_ticking-Totals running (some rate) joins =
      bind-Totals _ _ (ask-Totals (join_thread running.handle) (joins refl)) λ _. alter-Totals _ _

  pub stop_auto_tick-Totals :
      (running : RunningEpisode F)
      → IsJoinable out running
      → Totals (stop_auto_tick out config running)
  unfolding stop_auto_tick
  stop_auto_tick-Totals running joins = join_ticking-Totals running running.tick_rate joins

  -- The warm pool touches no entry.
  pub if-Laters :
      {A : Type 0} (b : Bool) (m n : Action F W A)
      → Laters m
      → Laters n
      → Laters (if b then m else n)
  if-Laters true m n p q = p
  if-Laters false m n p q = q

  pub return-Laters : {A : Type 0} (x : A) → Laters (return {F = F} {W = W} x)
  unfolding return
  return-Laters x = fixed-Laters (return x) λ s. refl

  set_warm-Laters : (d : Dict String ℕ) → Laters (set_warm {F = F} {W = W} d)
  unfolding set_warm
  set_warm-Laters d = fixed-Laters (set_warm d) λ s. refl

  get_state-Laters : Laters (get_state {F = F} {W = W})
  unfolding get_state
  get_state-Laters = fixed-Laters get_state λ s. refl

  pub quiet-Laters : {A : Type 0} (m : Action F W A) → Quiets m → Laters m
  quiet-Laters m q s = (q s).later

  stop-Laters : (runtime : ℕ) → Laters (suppress (ask out (stop runtime)))
  stop-Laters runtime =
      quiet-Laters (suppress (ask out (stop runtime)))
        (suppress-Quiets (ask out (stop runtime)) (ask-Quiets out (stop runtime)))

  trim_warm-Laters : (d : Dict String ℕ) → Laters (trim_warm fl out config d)
  unfolding trim_warm
  trim_warm-Laters [] = return-Laters tt
  trim_warm-Laters (evicted ∷ rest) =
      if-Laters (ltb config.warm_capacity (length (evicted ∷ rest))) _ _
        (bind-Laters _ _ (set_warm-Laters rest)
          λ _. bind-Laters _ _ (stop-Laters evicted.1) λ _. trim_warm-Laters rest)
        (return-Laters tt)

  stash-Laters : (running : RunningEpisode F) (b : Bool) → Laters (stash fl out config running b)
  stash-Laters running false = return-Laters false
  stash-Laters running true = bind-Laters _ _ get_state-Laters λ s.
      bind-Laters _ _ (set_warm-Laters _)
        λ _. bind-Laters _ _ (trim_warm-Laters _) λ _. return-Laters true

  pub stash_warm-Laters : (running : RunningEpisode F) → Laters (stash_warm fl out config running)
  unfolding stash_warm
  stash_warm-Laters running =
      bind-Laters _ _
        (quiet-Laters (ask out (poolable running.runtime))
          (ask-Quiets out (poolable running.runtime)))
        (stash-Laters running)

  trim_warm-Totals : (d : Dict String ℕ) → Totals (trim_warm fl out config d)
  unfolding trim_warm
  trim_warm-Totals [] = return-Totals tt
  trim_warm-Totals (evicted ∷ rest) =
      if-Totals (ltb config.warm_capacity (length (evicted ∷ rest))) _ _
        (bind-Totals _ _ (set_warm-Totals rest)
          λ _. bind-Totals _ _ (suppress-Totals _) λ _. trim_warm-Totals rest)
        (return-Totals tt)

  pub stash-Totals :
      (running : RunningEpisode F) (b : Bool) → Totals (stash fl out config running b)
  stash-Totals running false = return-Totals false
  stash-Totals running true = bind-Totals _ _ get_state-Totals λ s.
      bind-Totals _ _ (set_warm-Totals _)
        λ _. bind-Totals _ _ (trim_warm-Totals _) λ _. return-Totals true

module _ (fl : Floats) {W : Type 0} (out : Outside fl.F W) (config : Config fl.F)
    (undisplayed : config.dashboard ≡ false) where
  open fl use {F}

  tell_dashboard-Totals : (turn : ActorTurn) → Totals (tell_dashboard out config turn)
  tell_dashboard-Totals turn = rw undisplayed (return-Totals tt)

  pub record_system-Totals :
      (running : RunningEpisode F) (action : Dict String Value)
      (seen state : Option (Dict String Value))
      → Totals (record_system out config running action seen state)
  unfolding record_system
  record_system-Totals running action seen state s = tell_dashboard-Totals _ s

  record_world_event-Totals :
      (running : RunningEpisode F) (e : Event) → Totals (record_world_event out config running e)
  unfolding record_world_event
  record_world_event-Totals running e s = tell_dashboard-Totals _ s

  drained-Totals :
      (running : RunningEpisode F) (r : Result (List Event)) → Totals (drained out config running r)
  drained-Totals running (err e) = return-Totals []
  drained-Totals running (ok events) =
      bind-Totals _ _ (for_each-Totals events _ (record_world_event-Totals running))
        λ _. return-Totals events

  pub drain_events-Totals : (running : RunningEpisode F) → Totals (drain_events out config running)
  unfolding drain_events
  drain_events-Totals running = bind-Totals _ _ (attempt-Totals _) (drained-Totals running)
