-- ===== src/Episode/Closing.antt =====
-- src/openrange/core/episode.py: `close` leaves nothing running.
pub mod Closed
use open_range.Base.{
  ◌≡◌, sym, ◌∙◌, ap, subst, ℕ, String, List, [], ◌∷◌, ◌++◌, Memᴰ, All, Bool, true, false, Option,
  none, some, Dict, get, append-Memᴰ, snoc-Memᴰ, Result, ok, err, if◌then◌else◌, string_eq,
}
use open_range.Floats.{Floats}
use open_range.Episode.{RunningEpisode, Call, Outside, Config, State, stop, npc_stop, join_thread}
use open_range.Episode.Actions.{
  Action, then_run, ask, suppress, alter, altered, set_warm, for_each, ◌>>=◌,
}
use open_range.Episode.Actors.{stop_npcs, stop_auto_tick, join_ticking}
use open_range.Episode.Stops.{evict_each, close_running}
use open_range.Episode.Keeps.{
  Keeps, bind-Keeps, if-Keeps, return-Keeps, suppress-Keeps, for_each-Keeps,
}
use open_range.Episode.Reports.Total.{
  Returns, IsJoinable, Totals, bind-Totals, return-Totals, suppress-Totals, alter-Totals,
}
use open_range.Episode.Reports.Total.Helpers.{
  if-Totals, set_warm-Totals, stop_npcs-Totals, stop_auto_tick-Totals,
}

module _ {F W : Type 0} where
  -- The call was made.
  abbrev pub Asked : Call F → State F W → Type 0
  Asked call s = Memᴰ call s.calls

  then_past :
      {A B : Type 0} (P : State F W → Type 0) (r : Result A × State F W) (rest : A → Action F W B)
      → Returns r.0
      → ((x : A) → P (rest x r.1).1)
      → P (then_run r rest).1
  then_past P (err e, s) rest (x, h) holds = cc
  then_past P (ok x, s) rest total holds = holds x

  -- A call that returns, before the rest.
  pub past :
      {A B : Type 0} (P : State F W → Type 0) (m : Action F W A) (rest : A → Action F W B)
      (s : State F W)
      → Totals m
      → ((x : A) → P (rest x (m s).1).1)
      → P ((m >>= rest) s).1
  unfolding ◌>>=◌
  past P m rest s total holds = then_past P (m s) rest (total s) holds

  ask-Keeps :
      (call : Call F) (out : Outside F W) (other : Call F) → Keeps (Asked call) (ask out other)
  unfolding ask
  ask-Keeps call out other s asked = append-Memᴰ (other ∷ []) asked

  altered-Keeps :
      (call : Call F) (id : String) (change : RunningEpisode F → RunningEpisode F) (s : State F W)
      (o : Option (RunningEpisode F))
      → Asked call s
      → Asked call (altered id change o s)
  altered-Keeps call id change s none asked = asked
  altered-Keeps call id change s (some r) asked = asked

  alter-Keeps :
      (call : Call F) (id : String) (change : RunningEpisode F → RunningEpisode F)
      → Keeps (Asked call) (alter {F = F} {W = W} id change)
  unfolding alter
  alter-Keeps call id change s asked = altered-Keeps call id change s (get id s.episodes) asked

  set_warm-Keeps :
      (call : Call F) (d : Dict String ℕ) → Keeps (Asked call) (set_warm {F = F} {W = W} d)
  unfolding set_warm
  set_warm-Keeps call d s asked = asked

  stopped-Asked :
      (out : Outside F W) (runtime : ℕ) (s : State F W)
      → Asked (stop runtime) (suppress (ask out (stop runtime)) s).1
  unfolding suppress ask
  stopped-Asked out runtime s = snoc-Memᴰ (stop runtime) s.calls

module _ (fl : Floats) {W : Type 0} (out : Outside fl.F W) (config : Config fl.F) where
  open fl use {F}

  module _ (call : Call F) where
    stopped-Keeps : (runtime : ℕ) → Keeps (Asked call) (suppress (ask out (stop runtime)))
    stopped-Keeps runtime =
        suppress-Keeps (Asked call) (ask out (stop runtime)) (ask-Keeps call out (stop runtime))

    npc_stopped-Keeps : (npc : ℕ) → Keeps (Asked call) (suppress (ask out (npc_stop npc)))
    npc_stopped-Keeps npc =
        suppress-Keeps (Asked call) (ask out (npc_stop npc)) (ask-Keeps call out (npc_stop npc))

    join_ticking-Keeps :
        (running : RunningEpisode F) (o : Option F)
        → Keeps (Asked call) (join_ticking out config running o)
    join_ticking-Keeps running none = return-Keeps (Asked call) tt
    join_ticking-Keeps running (some rate) =
        bind-Keeps (Asked call) _ _ (ask-Keeps call out (join_thread running.handle))
          λ _. alter-Keeps call _ _

    stop_auto_tick-Keeps :
        (running : RunningEpisode F) → Keeps (Asked call) (stop_auto_tick out config running)
    unfolding stop_auto_tick
    stop_auto_tick-Keeps running = join_ticking-Keeps running running.tick_rate

    stop_npcs-Keeps :
        (running : RunningEpisode F) → Keeps (Asked call) (stop_npcs out config running)
    unfolding stop_npcs
    stop_npcs-Keeps running =
        bind-Keeps (Asked call) _ _ (for_each-Keeps (Asked call) running.npcs _ npc_stopped-Keeps)
          λ _. alter-Keeps call _ _

    close_running-Keeps :
        (running : RunningEpisode F) → Keeps (Asked call) (close_running fl out config running)
    unfolding close_running
    close_running-Keeps running = bind-Keeps (Asked call) _ _ (stop_auto_tick-Keeps running) λ _.
        bind-Keeps (Asked call) _ _ (stop_npcs-Keeps running) λ _.
          if-Keeps (Asked call) running.stopped _ _ (return-Keeps (Asked call) tt) (
            bind-Keeps (Asked call) _ _ (stopped-Keeps running.runtime)
              λ _. alter-Keeps call running.handle.id (λ r. record r { stopped = true }))

    pub evict_each-Keeps : (d : Dict String ℕ) → Keeps (Asked call) (evict_each fl out config d)
    unfolding evict_each
    evict_each-Keeps [] = return-Keeps (Asked call) tt
    evict_each-Keeps (last ∷ before) =
        bind-Keeps (Asked call) _ _ (set_warm-Keeps call _)
          λ _. bind-Keeps (Asked call) _ _ (stopped-Keeps last.1) λ _. evict_each-Keeps before

  evict_rest-Asked :
      (runtime other : ℕ) (before : Dict String ℕ) (s : State F W)
      → runtime ≡ other
      → Asked
          (stop runtime)
          ((suppress (ask out (stop other)) >>= λ _. evict_each fl out config before) s).1
  evict_rest-Asked runtime other before s same =
      past (Asked (stop runtime)) _ _ s (suppress-Totals _) λ _.
        evict_each-Keeps (stop runtime) before _ (
          subst (λ r. Asked (stop runtime) (suppress (ask out (stop r)) s).1) same
            (stopped-Asked out runtime s))

  mark_after-Asked :
      (runtime : ℕ) (id : String) (s : State F W)
      → Asked
          (stop runtime)
          ((suppress (ask out (stop runtime)) >>= λ _. alter id (λ r. record r { stopped = true }))
            s).1
  mark_after-Asked runtime id s = past (Asked (stop runtime)) _ _ s (suppress-Totals _) λ _.
      alter-Keeps (stop runtime) id (λ r. record r { stopped = true }) _
        (stopped-Asked out runtime s)

  else_past :
      (P : State F W → Type 0) (b : Bool) (m n : Action F W Unit) (s : State F W)
      → b ≡ false
      → P (n s).1
      → P ((if b then m else n) s).1
  else_past P true m n s f holds = cc
  else_past P false m n s f holds = holds

  pub close_running-Totals :
      (running : RunningEpisode F)
      → IsJoinable out running
      → Totals (close_running fl out config running)
  unfolding close_running
  close_running-Totals running joins =
      bind-Totals _ _ (stop_auto_tick-Totals fl out config running joins) λ _.
        bind-Totals _ _ (stop_npcs-Totals fl out config running) λ _.
          if-Totals fl out config running.stopped _ _ (return-Totals tt)
            (bind-Totals _ _ (suppress-Totals _) λ _. alter-Totals _ _)

  evict_each-Totals : (d : Dict String ℕ) → Totals (evict_each fl out config d)
  unfolding evict_each
  evict_each-Totals [] = return-Totals tt
  evict_each-Totals (last ∷ before) =
      bind-Totals _ _ (set_warm-Totals fl out config _)
        λ _. bind-Totals _ _ (suppress-Totals _) λ _. evict_each-Totals before

  -- What `evict_each` goes through is stopped.
  pub evict_each-Asked :
      (e : String × ℕ) (d : Dict String ℕ) (s : State F W)
      → Memᴰ e d
      → Asked (stop e.1) (evict_each fl out config d s).1
  unfolding evict_each
  evict_each-Asked e [] s m = elim m [ ]
  evict_each-Asked e (last ∷ before) s (Memᴰ.head same) =
      past (Asked (stop e.1)) _ _ s (set_warm-Totals fl out config _)
        λ _. evict_rest-Asked e.1 last.1 before _ (ap (λ (x : String × ℕ). x.1) same)
  evict_each-Asked e (last ∷ before) s (Memᴰ.tail m) =
      past (Asked (stop e.1)) _ _ s (set_warm-Totals fl out config _)
        λ _. past (Asked (stop e.1)) _ _ _ (suppress-Totals _) λ _. evict_each-Asked e before _ m

  close_running-Asked :
      (running : RunningEpisode F) (s : State F W)
      → IsJoinable out running
      → running.stopped ≡ false
      → Asked (stop running.runtime) (close_running fl out config running s).1
  unfolding close_running
  close_running-Asked running s joins goes =
      past (Asked (stop running.runtime)) _ _ s (stop_auto_tick-Totals fl out config running joins)
        λ _. past (Asked (stop running.runtime)) _ _ _ (stop_npcs-Totals fl out config running) λ _.
          else_past (Asked (stop running.runtime)) running.stopped _ _ _ goes
            (mark_after-Asked running.runtime running.handle.id _)

  pub loop-Asked :
      (running : RunningEpisode F) (xs : List (RunningEpisode F)) (s : State F W)
      → All (IsJoinable out) xs
      → Memᴰ running xs
      → running.stopped ≡ false
      → Asked (stop running.runtime) (for_each xs (close_running fl out config) s).1
  unfolding for_each
  loop-Asked running [] s joins m goes = elim m [ ]
  loop-Asked running (x ∷ xs) s joins (Memᴰ.head same) goes =
      past (Asked (stop running.runtime)) _ _ s (close_running-Totals x joins.0) λ _.
        for_each-Keeps (Asked (stop running.runtime)) xs _
          (close_running-Keeps (stop running.runtime)) _
          (subst (λ y. Asked (stop running.runtime) (close_running fl out config y s).1) same
            (close_running-Asked running s (subst (IsJoinable out) (sym same) joins.0) goes))
  loop-Asked running (x ∷ xs) s joins (Memᴰ.tail m) goes =
      past (Asked (stop running.runtime)) _ _ s (close_running-Totals x joins.0)
        λ _. loop-Asked running xs _ joins.1 m goes
