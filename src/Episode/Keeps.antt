-- ===== src/Episode/Keeps.antt =====
-- src/openrange/core/episode.py: facts of the state that an action keeps, whether it returns or raises.
use open_range.Base.{List, [], ◌∷◌, Bool, true, false, Result, ok, err, if◌then◌else◌}
use open_range.Episode.{State}
use open_range.Episode.Quiet.{Quiet, Quiets}
use open_range.Episode.Actions.{
  Action, then_run, attempt, suppress, for_each, return, get_state, ◌>>=◌,
}

module _ {F W : Type 0} where
  abbrev pub Keeps : {A : Type 0} → (State F W → Type 0) → Action F W A → Type 0
  Keeps P m = (s : State F W) → P s → P (m s).1

  then_Keeps :
      {A B : Type 0} (P : State F W → Type 0) (r : Result A × State F W) (rest : A → Action F W B)
      → P r.1
      → ((x : A) → Keeps P (rest x))
      → P (then_run r rest).1
  then_Keeps P (err e, s) rest holds later = holds
  then_Keeps P (ok x, s) rest holds later = later x s holds

  pub bind-Keeps :
      {A B : Type 0} (P : State F W → Type 0) (m : Action F W A) (rest : A → Action F W B)
      → Keeps P m
      → ((x : A) → Keeps P (rest x))
      → Keeps P (m >>= rest)
  unfolding ◌>>=◌
  bind-Keeps P m rest kept later s holds = then_Keeps P (m s) rest (kept s holds) later

  pub if-Keeps :
      {A : Type 0} (P : State F W → Type 0) (b : Bool) (m n : Action F W A)
      → Keeps P m
      → Keeps P n
      → Keeps P (if b then m else n)
  if-Keeps P true m n p q = p
  if-Keeps P false m n p q = q

  pub return-Keeps : {A : Type 0} (P : State F W → Type 0) (x : A) → Keeps P (return x)
  unfolding return
  return-Keeps P x s holds = holds

  pub get_state-Keeps : (P : State F W → Type 0) → Keeps P get_state
  unfolding get_state
  get_state-Keeps P s holds = holds

  pub suppress-Keeps :
      (P : State F W → Type 0) (m : Action F W Unit) → Keeps P m → Keeps P (suppress m)
  unfolding suppress
  suppress-Keeps P m kept s holds = kept s holds

  pub attempt-Keeps :
      {A : Type 0} (P : State F W → Type 0) (m : Action F W A) → Keeps P m → Keeps P (attempt m)
  unfolding attempt
  attempt-Keeps P m kept s holds = kept s holds

  pub for_each-Keeps :
      {A : Type 0} (P : State F W → Type 0) (xs : List A) (body : A → Action F W Unit)
      → ((x : A) → Keeps P (body x))
      → Keeps P (for_each xs body)
  unfolding for_each
  for_each-Keeps P [] body kept = return-Keeps P tt
  for_each-Keeps P (x ∷ xs) body kept =
      bind-Keeps P (body x) (λ _. for_each xs body) (kept x) (λ _. for_each-Keeps P xs body kept)

  -- A quiet call before the rest, for a fact of what quiet calls leave alone.
  pub bind-Quiet-Keeps :
      {A B : Type 0} (P : State F W → Type 0) (m : Action F W A) (rest : A → Action F W B)
      → ((s t : State F W) → Quiet s t → P s → P t)
      → Quiets m
      → ((x : A) → Keeps P (rest x))
      → Keeps P (m >>= rest)
  bind-Quiet-Keeps P m rest still quiet =
      bind-Keeps P m rest λ s holds. still s (m s).1 (quiet s) holds

  -- What holds after the call holds after the rest.
  pub then_still :
      {A B : Type 0} (P : State F W → Type 0) (m : Action F W A) (rest : A → Action F W B)
      (s : State F W)
      → P (m s).1
      → ((x : A) → Keeps P (rest x))
      → P ((m >>= rest) s).1
  unfolding ◌>>=◌
  then_still P m rest s holds later = then_Keeps P (m s) rest holds later
