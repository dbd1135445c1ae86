-- ===== src/Episode/Actions.antt =====
-- src/openrange/core/episode.py: a method of the service as an action: a function from the state to a
-- result or an exception, and the state after it. An exception keeps what was changed before it.
use open_range.Base.{
  ℕ, String, List, [], ◌∷◌, ◌++◌, Option, none, some, Dict, get, put, Result, ok, err, Error,
  string_eq,
}
use open_range.Episode.{RunningEpisode, CostedReport, Call, Answer, Outside, State}

abbrev pub Action : Type 0 → Type 0 → Type 0 → Type 0
Action F W A = State F W → Result A × State F W

abbrev pub value_or : {A : Type 0} → A → Option A → A
value_or default none = default
value_or default (some x) = x

module _ {F W : Type 0} where
  unfoldable pub return : {A : Type 0} → A → Action F W A
  return x s = (ok x, s)

  unfoldable pub throw : {A : Type 0} → Error → Action F W A
  throw e s = (err e, s)

  abbrev pub then_run :
      {A B : Type 0} → Result A × State F W → (A → Action F W B) → Result B × State F W
  then_run (err e, s) rest = (err e, s)
  then_run (ok x, s) rest = rest x s

  infixl 5 ◌>>=◌ ◌>>◌
  unfoldable pub ◌>>=◌ : {A B : Type 0} → Action F W A → (A → Action F W B) → Action F W B
  ◌>>=◌ m rest s = then_run (m s) rest

  abbrev pub ◌>>◌ : {A B : Type 0} → Action F W A → Action F W B → Action F W B
  m >> rest = m >>= λ _. rest

  -- The call of a `try` with what it gave or raised.
  unfoldable pub attempt : {A : Type 0} → Action F W A → Action F W (Result A)
  attempt m s = (ok (m s).0, (m s).1)

  -- `with contextlib.suppress(Exception): …`
  unfoldable pub suppress : Action F W Unit → Action F W Unit
  suppress m s = (ok tt, (m s).1)

  -- A result of code that changes no state.
  unfoldable pub lift : {A : Type 0} → Result A → Action F W A
  lift r s = (r, s)

  unfoldable pub get_state : Action F W (State F W)
  get_state s = (ok s, s)

  -- A call to the outside.
  unfoldable pub ask : (out : Outside F W) (call : Call F) → Action F W (Answer call)
  ask out call s =
      let answer : Result (Answer call) × W = out call s.world in
      (answer.0, record s { world = answer.1; calls = s.calls ++ (call ∷ []) })

  unfoldable pub set_episodes : Dict String (RunningEpisode F) → Action F W Unit
  set_episodes d s = (ok tt, record s { episodes = d })

  unfoldable pub set_warm : Dict String ℕ → Action F W Unit
  set_warm d s = (ok tt, record s { warm = d })

  unfoldable pub set_reports : Dict String (CostedReport F) → Action F W Unit
  set_reports d s = (ok tt, record s { reports = d })

  abbrev pub altered :
      String
      → (RunningEpisode F → RunningEpisode F)
      → Option (RunningEpisode F)
      → State F W
      → State F W
  altered id change none s = s
  altered id change (some running) s = record s { episodes = put id (change running) s.episodes }

  -- An assignment to attributes of the running episode that stands under `id`.
  unfoldable pub alter : String → (RunningEpisode F → RunningEpisode F) → Action F W Unit
  alter id change s = (ok tt, altered id change (get id s.episodes) s)

  -- The attributes of a running episode as they are now.
  unfoldable pub reload : RunningEpisode F → Action F W (RunningEpisode F)
  reload running s = (ok (value_or running (get running.handle.id s.episodes)), s)

  -- `for x in xs: …`
  unfoldable pub for_each : {A : Type 0} → List A → (A → Action F W Unit) → Action F W Unit
  for_each [] body = return tt
  for_each (x ∷ xs) body = body x >> for_each xs body
