-- ===== src/Episode/Phases.antt =====
-- src/openrange/core/episode.py: the life of an episode as a caller of the service sees it. What is
-- left out of it are the runtimes, the warm worlds, and what an entry holds.
pub mod Warm
pub mod Begin
pub mod Restore
pub mod Grades
pub mod End
pub mod Close
pub mod Lifecycle
use open_range.Base.{
  ◌≡◌, refl, sym, subst, Error, ◌∙◌, ap, ℕ, String, [], ◌∷◌, Bool, true, false, Option, none, some,
  Bool-cases, Dict, get, keys, any, contains, ◌||◌, Result, ok, err, inl, inr, if◌then◌else◌, ◌==◌,
  string_eq,
}
use mathlib.Core.Path.{fun_ext}
use open_range.Episode.{RunningEpisode, CostedReport, State, Outside, Call, stop}
use open_range.Episode.Actions.{
  Action, return, ask, suppress, attempt, alter, then_run, get_state, set_warm, ◌>>=◌,
}
use open_range.Episode.Quiet.{
  Grows, alter-Quiets, Quiet, Quiets, return-Quiets, ask-Quiets, suppress-Quiets, attempt-Quiets,
}

-- Unknown to the service, or running, or stopped with its report.
pub data Phase (F : Type 0) : Type 0 where
  unknown : Phase F
  live : Phase F
  stopped : CostedReport F → Phase F

module _ {F : Type 0} where
  abbrev pub phase_from : Bool → Option (CostedReport F) → Phase F
  phase_from true cached = live
  phase_from false none = unknown
  phase_from false (some report) = stopped report

  pub absent_lem :
      (b : Bool) (cached : Option (CostedReport F)) → phase_from b cached ≡ unknown → b ≡ false
  absent_lem true cached h = cc
  absent_lem false cached h = refl

  -- The steps of the life of an episode.
  pub data Allowed : Phase F → Phase F → Type 0 where
    stays : {p : Phase F} → Allowed p p
    begins : Allowed unknown live
    ends : {report : CostedReport F} → Allowed live (stopped report)
    drops : Allowed live unknown

module _ {F W : Type 0} where
  abbrev pub phases : State F W → String → Phase F
  phases s id = phase_from (contains id s.episodes) (get id s.reports)

  -- The ids that are running, and the reports: all that a phase depends on.
  abbrev pub view : State F W → (String → Bool) × Dict String (CostedReport F)
  view s = (λ id. contains id s.episodes, s.reports)

  abbrev pub Same : State F W → State F W → Type 0
  Same s s' = view s' ≡ view s

  pub Same-phases : (s s' : State F W) → Same s s' → (id : String) → phases s' id ≡ phases s id
  Same-phases s s' same id = ap (λ v. phase_from (v.0 id) (get id v.1)) same

  abbrev pub Sames : {A : Type 0} → Action F W A → Type 0
  Sames m = (s : State F W) → Same s (m s).1

  then_Same :
      {A B : Type 0} (s : State F W) (r : Result A × State F W) (rest : A → Action F W B)
      → Same s r.1
      → ((x : A) → Sames (rest x))
      → Same s (then_run r rest).1
  then_Same s (err e, s') rest q later = q
  then_Same s (ok x, s') rest q later = later x s' ∙ q

  pub bind-Sames :
      {A B : Type 0} (m : Action F W A) (rest : A → Action F W B)
      → Sames m
      → ((x : A) → Sames (rest x))
      → Sames (m >>= rest)
  unfolding ◌>>=◌
  bind-Sames m rest q later s = then_Same s (m s) rest (q s) later

contains-keys :
    {V : Type 0} (k : String) (d : Dict String V) → contains k d ≡ any (λ j. j == k) (keys d)
unfolding get any
contains-keys k [] = refl
contains-keys k (e ∷ d) = elim (Bool-cases (e.0 == k)) [
  | inl t ↦ rw t refl
  | inr f ↦ rw f (contains-keys k d)
]

module _ {F W : Type 0} where
  -- What is quiet changes no phase.
  pub Quiet-Same : {s s' : State F W} → Quiet s s' → Same s s'
  Quiet-Same {s} {s'} q =
      let running : (λ id. contains id s'.episodes) ≡ (λ id. contains id s.episodes) = fun_ext λ id.
        contains-keys id s'.episodes
        ∙ ap (any (λ j. j == id)) q.same_keys
        ∙ sym (contains-keys id s.episodes) in
      rw (running, q.same_reports) refl

  pub Quiets-Sames : {A : Type 0} (m : Action F W A) → Quiets m → Sames m
  Quiets-Sames m q s = Quiet-Same (q s)

  pub get_state-Sames : Sames (get_state {F = F} {W = W})
  unfolding get_state
  get_state-Sames s = refl

  pub set_warm-Sames : (d : Dict String ℕ) → Sames (set_warm {F = F} {W = W} d)
  unfolding set_warm
  set_warm-Sames d s = refl

  pub return-Sames : {A : Type 0} (x : A) → Sames (return {F = F} {W = W} x)
  return-Sames x = Quiets-Sames (return x) (return-Quiets x)

  pub ask-Sames : (out : Outside F W) (call : Call F) → Sames (ask out call)
  ask-Sames out call = Quiets-Sames (ask out call) (ask-Quiets out call)

  pub alter-Sames :
      (id : String) (change : RunningEpisode F → RunningEpisode F)
      → ((r : RunningEpisode F) → Grows r (change r))
      → Sames (alter {F = F} {W = W} id change)
  alter-Sames id change grows = Quiets-Sames (alter id change) (alter-Quiets id change grows)

  -- `running.stopped = True`
  pub set_stopped-Quiets :
      (id : String) → Quiets (alter {F = F} {W = W} id (λ r. record r { stopped = true }))
  set_stopped-Quiets id =
      alter-Quiets id (λ r. record r { stopped = true })
        λ r. record {
          same_handle = refl;
          same_snapshot = refl;
          same_task = refl;
          same_runtime = refl;
          keeps_result = λ h. h;
          keeps_state = λ h. h;
          keeps_stopped = λ h. refl;
        }

  pub set_stopped-Sames :
      (id : String) → Sames (alter {F = F} {W = W} id (λ r. record r { stopped = true }))
  set_stopped-Sames id =
      Quiets-Sames (alter id (λ r. record r { stopped = true })) (set_stopped-Quiets id)

  -- A suppressed stop of a runtime.
  pub stop-Sames : (out : Outside F W) (runtime : ℕ) → Sames (suppress (ask out (stop runtime)))
  stop-Sames out runtime =
      Quiets-Sames (suppress (ask out (stop runtime)))
        (suppress-Quiets (ask out (stop runtime)) (ask-Quiets out (stop runtime)))

  pub if-Sames :
      {A : Type 0} (b : Bool) (m n : Action F W A) → Sames m → Sames n → Sames (if b then m else n)
  if-Sames true m n p q = p
  if-Sames false m n p q = q

  pub attempt-Sames : (out : Outside F W) (call : Call F) → Sames (attempt (ask out call))
  attempt-Sames out call =
      Quiets-Sames (attempt (ask out call)) (attempt-Quiets (ask out call) (ask-Quiets out call))

  then_after :
      {A B : Type 0} (Q : Result B × State F W → Type 0) (s : State F W) (r : Result A × State F W)
      (rest : A → Action F W B)
      → Same s r.1
      → ((e : Error) (s' : State F W) → Same s s' → Q (err e, s'))
      → ((x : A) (s' : State F W) → r.0 ≡ ok x → Same s s' → Q (rest x s'))
      → Q (then_run r rest)
  then_after Q s (err e, s') rest same fails goes_on = fails e s' same
  then_after Q s (ok x, s') rest same fails goes_on = goes_on x s' refl same

  -- A call that changes no phase, before the rest: what holds at its exceptions and after it.
  pub bind_after :
      {A B : Type 0} (Q : Result B × State F W → Type 0) (s s' : State F W) (m : Action F W A)
      (rest : A → Action F W B)
      → Same s s'
      → Sames m
      → ((e : Error) (s'' : State F W) → Same s s'' → Q (err e, s''))
      → ((x : A) (s'' : State F W) → (m s').0 ≡ ok x → Same s s'' → Q (rest x s''))
      → Q ((m >>= rest) s')
  unfolding ◌>>=◌
  bind_after Q s s' m rest same keeps fails goes_on =
      then_after Q s (m s') rest (keeps s' ∙ same) fails goes_on

  pub quiet_after :
      {A B : Type 0} (Q : Result B × State F W → Type 0) (s s' : State F W) (m : Action F W A)
      (rest : A → Action F W B)
      → Same s s'
      → Quiets m
      → ((e : Error) (s'' : State F W) → Same s s'' → Q (err e, s''))
      → ((x : A) (s'' : State F W) → (m s').0 ≡ ok x → Same s s'' → Q (rest x s''))
      → Q ((m >>= rest) s')
  quiet_after Q s s' m rest same q = bind_after Q s s' m rest same (Quiets-Sames m q)

  -- Every episode takes a step of its life, or none.
  abbrev pub Steps : State F W → State F W → Type 0
  Steps s s' = (id : String) → Allowed (phases s id) (phases s' id)

  pub Same-Steps : (s s' : State F W) → Same s s' → Steps s s'
  Same-Steps s s' same id = subst (Allowed (phases s id)) (sym (Same-phases s s' same id)) stays
