-- ===== src/Episode/Advancing.antt =====
-- src/openrange/core/episode.py: what `advance` returns, told by the ticks it makes.
mod Splits
use open_range.Base.{
  ◌≡◌, ◌≢◌, refl, sym, ◌∙◌, ap, subst, ℕ, zero, suc, ◌<◌, List, [], ◌∷◌, ◌++◌, append_assoc,
  append-nil, Bool, true, false, not, ◌&&◌, Option, none, some, get, is_empty, String, Bool-cases,
  inl, inr, Result, ok, ok-injective, if◌then◌else◌, string_eq, arith,
}
use open_range.Episode.{
  Event, Until, AdvanceRequest, Observation, EpisodeHandle, EpisodeUpdate, RunningEpisode, Outside,
  Config, State, terminal,
}
use open_range.Episode.Actions.{Action, ask, then_run, return, ◌>>=◌}
use open_range.Episode.Events.{drain_events, terminal_state, found, require}
use open_range.Episode.Advancing.Splits.{
  events_assoc, waits_lem, has_events, goes_on_lem, bind-split, if-split,
}
use open_range.Episode.Turns.{yields_on_events, advance_from, advance}

abbrev pub update_of : Option Observation → List Event → Bool → Option String → EpisodeUpdate
update_of observation events done reason = record {
  observation = observation;
  events = events;
  done = done;
  terminal_reason = reason;
}

module _ {F W : Type 0} (out : Outside F W) (config : Config F) (running : RunningEpisode F) where
  -- The answer to whether the world is at its end: that of the runtime, unless the episode is stopped.
  pub data Answers (s : State F W) (done : Bool) (reason : Option String) (t : State F W)
      : Type 0 where
    stopped :
        running.stopped ≡ true
        → done ≡ true
        → reason ≡ some "stopped"
        → t ≡ s
        → Answers s done reason t
    asked :
        running.stopped ≡ false
        → ask out (terminal running.runtime) s ≡ (ok (done, reason), t)
        → Answers s done reason t

  stopped-Answers :
      (s : State F W) (done : Bool) (reason : Option String) (t : State F W)
      → running.stopped ≡ true
      → return {A = Bool × Option String} (true, some "stopped") s ≡ (ok (done, reason), t)
      → Answers s done reason t
  unfolding return
  stopped-Answers s done reason t was h =
      let answer : ◌≡◌ {A = Bool × Option String} (true, some "stopped") (done, reason) =
        ok-injective (ap (λ r. r.0) h) in
      stopped was (sym (ap (λ p. p.0) answer)) (sym (ap (λ p. p.1) answer)) (sym (ap (λ r. r.1) h))

  terminal_state-Answers :
      (s : State F W) (done : Bool) (reason : Option String) (t : State F W)
      → terminal_state out config running s ≡ (ok (done, reason), t)
      → Answers s done reason t
  unfolding terminal_state
  terminal_state-Answers s done reason t h = elim (Bool-cases running.stopped) [
    | inl was ↦ stopped-Answers s done reason t was (rw (terminal_state, was) at h)
    | inr goes ↦ asked goes (rw (terminal_state, goes) at h)
  ]

  -- A tick: the events that are drained, and then whether the world is at its end.
  pub record IsTick (s : State F W) (events : List Event) (done : Bool) (reason : Option String)
      (t : State F W) : Type 0 where
    pub between : State F W
    pub drains : drain_events out config running s ≡ (ok events, between)
    pub answers : Answers between done reason t

  module _ (until : Until) where
    -- Ticks after which `advance` goes on: none is at the end, and none brings events that the
    -- request waits for.
    pub data Passes : ℕ → List Event → State F W → State F W → Type 0 where
      nothing : {s : State F W} → Passes 0 [] s s
      pass :
          {n : ℕ} {before : List Event} {s t v : State F W} (events : List Event)
          (reason : Option String)
          → IsTick s events false reason t
          → (until ≢ Until.terminal → events ≡ [])
          → Passes n before t v
          → Passes (suc n) (events ++ before) s v

    abbrev pub seen_in : List Event → Option Observation
    seen_in events =
        some (record { visible_state = running.surface_cache; events = events; metadata = [] })

    -- The update after at most `ticks` ticks, with the state in which the last of them leaves.
    pub data IsUpdate (ticks : ℕ) (seen : List Event) (s : State F W) (u : EpisodeUpdate)
        (t : State F W) : Type 0 where
      finished :
          {n : ℕ} {before : List Event} {m : State F W} (events : List Event)
          (reason : Option String)
          → n < ticks
          → Passes n before s m
          → IsTick m events true reason t
          → u ≡ update_of (seen_in events) (seen ++ (before ++ events)) true reason
          → IsUpdate ticks seen s u t
      interrupted :
          {n : ℕ} {before : List Event} {m : State F W} (events : List Event)
          (reason : Option String)
          → n < ticks
          → Passes n before s m
          → IsTick m events false reason t
          → until ≢ Until.terminal
          → events ≢ []
          → u ≡ update_of (seen_in events) (seen ++ (before ++ events)) false none
          → IsUpdate ticks seen s u t
      ran_out :
          {all : List Event}
          → Passes ticks all s t
          → u ≡ update_of none (seen ++ all) false (some "max_ticks")
          → IsUpdate ticks seen s u t

    -- A tick more before.
    later-IsUpdate :
        (left : ℕ) (seen events : List Event) (reason : Option String) (s m : State F W)
        (u : EpisodeUpdate) (t : State F W)
        → IsTick s events false reason m
        → (until ≢ Until.terminal → events ≡ [])
        → IsUpdate left (seen ++ events) m u t
        → IsUpdate (suc left) seen s u t
    later-IsUpdate left seen events reason s m u t tick goes
          (finished {before = before} es r lt p end e) =
        finished es r (omega (arith, lt)) (pass events reason tick goes p) end
          (e ∙ ap (λ xs. update_of (seen_in es) xs true r) (events_assoc seen events before es))
    later-IsUpdate left seen events reason s m u t tick goes
          (interrupted {before = before} es r lt p end waits some_events e) =
        interrupted es r (omega (arith, lt)) (pass events reason tick goes p) end waits some_events
          (e ∙ ap (λ xs. update_of (seen_in es) xs false none) (events_assoc seen events before es))
    later-IsUpdate left seen events reason s m u t tick goes (ran_out {all = all} p e) =
        ran_out (pass events reason tick goes p)
          (e ∙ ap (λ xs. update_of none xs false (some "max_ticks")) (append_assoc seen events all))

    -- What holds of a call that returns an update.
    abbrev Fits : ℕ → List Event → State F W → Result EpisodeUpdate × State F W → Type 0
    Fits left seen s r = (u : EpisodeUpdate) → r.0 ≡ ok u → IsUpdate left seen s u r.1

    IsTick-of :
        (s between t : State F W) (events : List Event) (state : Bool × Option String) (done : Bool)
        → drain_events out config running s ≡ (ok events, between)
        → terminal_state out config running between ≡ (ok state, t)
        → state.0 ≡ done
        → IsTick s events done state.1 t
    IsTick-of s between t events state done drains ends e = record {
      between = between;
      drains = drains;
      answers =
          terminal_state-Answers between done state.1 t
            (subst (λ b. terminal_state out config running between ≡ (ok (b, state.1), t)) e ends);
    }

    advance_from-Fits :
        (seen : List Event) (left : ℕ) (s : State F W)
        → Fits left seen s (advance_from out config running until seen left s)
    unfolding advance_from return
    advance_from-Fits seen zero s = λ u h. ran_out nothing (
        sym (ok-injective h)
        ∙ ap (λ xs. update_of none xs false (some "max_ticks")) (sym (append-nil seen)))
    advance_from-Fits seen (suc left) s =
        bind-split (Fits (suc left) seen s) _ _ s (λ e t u h. cc)
          λ events between drains.
            bind-split (Fits (suc left) seen s) _ _ between (λ e t u h. cc)
              λ state t ends.
                if-split (Fits (suc left) seen s) state.0 _ _ t
                  (λ over u h.
                    finished events state.1 (omega arith) nothing
                      (IsTick-of s between t events state true drains ends over)
                      (sym (ok-injective h)))
                  λ on.
                    let tick : IsTick s events false state.1 t =
                      IsTick-of s between t events state false drains ends on in
                    if-split (Fits (suc left) seen s)
                      (yields_on_events until && not (is_empty events)) _ _ t
                      (λ yields u h.
                        interrupted events state.1 (omega arith) nothing tick
                          (waits_lem until (ground arith)) (has_events events (ground arith))
                          (sym (ok-injective h)))
                      λ goes u h.
                        later-IsUpdate left seen events state.1 s t u _ tick
                          (goes_on_lem until events goes)
                          (advance_from-Fits (seen ++ events) left t u h)

module _ {F W : Type 0} (out : Outside F W) (config : Config F) where
  abbrev ticking : AdvanceRequest → RunningEpisode F → Action F W EpisodeUpdate
  ticking req running = advance_from out config running req.until [] req.max_ticks

  found-Fits :
      (episode : EpisodeHandle) (req : AdvanceRequest) (s : State F W) (u : EpisodeUpdate)
      (o : Option (RunningEpisode F))
      → get episode.id s.episodes ≡ o
      → (then_run (found o, s) (ticking req)).0 ≡ ok u
      → (running : RunningEpisode F) × (get episode.id s.episodes ≡ some running)
        × IsUpdate out config running req.until req.max_ticks [] s u
            (then_run (found o, s) (ticking req)).1
  found-Fits episode req s u none there h = cc
  found-Fits episode req s u (some running) there h =
      (running, there, advance_from-Fits out config running req.until [] req.max_ticks s u h)

  -- When `advance` returns an update, the episode was running, and the update tells of its ticks in
  -- order. Before the last, none was at the end of the world or brought events that the request waits
  -- for. The last, within `max_ticks`, was at the end, and the update is done with its reason; or
  -- brought such events, and the update is not done. Both show the events of the last tick and list
  -- those of all. Or `max_ticks` such ticks were made, and the update has no observation. The end is
  -- what the runtime answers to `terminal`, or that the episode is stopped. The state is that which
  -- the last tick leaves.
  pub advance-IsUpdate :
      (episode : EpisodeHandle) (req : AdvanceRequest) (s : State F W) (u : EpisodeUpdate)
      → (advance out config episode req s).0 ≡ ok u
      → (running : RunningEpisode F) × (get episode.id s.episodes ≡ some running)
        × IsUpdate out config running req.until req.max_ticks [] s u
            (advance out config episode req s).1
  unfolding advance require ◌>>=◌
  advance-IsUpdate episode req s u h = found-Fits episode req s u (get episode.id s.episodes) refl h
