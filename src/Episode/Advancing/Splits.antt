-- ===== src/Episode/Advancing/Splits.antt =====
-- src/openrange/core/episode.py: the branches of an action, and the tests that `advance` makes.
use open_range.Base.{
  ◌≡◌, ◌≢◌, refl, sym, ◌∙◌, ap, List, [], ◌∷◌, ◌++◌, append_assoc, Bool, true, false, not, ◌&&◌,
  is_empty, Bool-cases, inl, inr, Result, ok, err, Error, if◌then◌else◌, string_eq, arith,
}
use open_range.Episode.{Event, Until, State}
use open_range.Episode.Actions.{Action, then_run, ◌>>=◌}
use open_range.Episode.Turns.{yields_on_events}

pub events_assoc :
    (seen events before es : List Event)
    → (seen ++ events) ++ (before ++ es) ≡ seen ++ ((events ++ before) ++ es)
events_assoc seen events before es =
    append_assoc seen events (before ++ es)
    ∙ ap (λ xs. seen ++ xs) (sym (append_assoc events before es))

pub waits_lem : (until : Until) → yields_on_events until ≡ true → until ≢ Until.terminal
unfolding yields_on_events
waits_lem Until.observation h e = cc
waits_lem Until.event h e = cc
waits_lem Until.idle h e = cc
waits_lem Until.terminal h e = cc

waits_not_lem : (until : Until) → yields_on_events until ≡ false → until ≡ Until.terminal
unfolding yields_on_events
waits_not_lem Until.observation h = cc
waits_not_lem Until.event h = cc
waits_not_lem Until.idle h = cc
waits_not_lem Until.terminal h = refl

pub has_events : (events : List Event) → is_empty events ≡ false → events ≢ []
has_events [] h e = cc
has_events (x ∷ xs) h e = cc

no_events : (events : List Event) → is_empty events ≡ true → events ≡ []
no_events [] h = refl
no_events (x ∷ xs) h = cc

pub goes_on_lem :
    (until : Until) (events : List Event)
    → (yields_on_events until && not (is_empty events)) ≡ false
    → until ≢ Until.terminal
    → events ≡ []
goes_on_lem until events h waits = elim (Bool-cases (is_empty events)) [
  | inl none_there ↦ no_events events none_there
  | inr some_there ↦ absurd (waits (waits_not_lem until (ground arith)))
]

module _ {F W : Type 0} where
  split_go :
      {A B : Type 0} (P : Result B × State F W → Type 0) (m : Result A × State F W)
      (rest : A → Action F W B) (r : Result A × State F W)
      → m ≡ r
      → ((e : Error) (t : State F W) → P (err e, t))
      → ((x : A) (t : State F W) → m ≡ (ok x, t) → P (rest x t))
      → P (then_run r rest)
  split_go P m rest (err e, t) same fails goes = fails e t
  split_go P m rest (ok x, t) same fails goes = goes x t same

  -- What an action gives, from what its first call gave.
  pub bind-split :
      {A B : Type 0} (P : Result B × State F W → Type 0) (m : Action F W A)
      (rest : A → Action F W B) (s : State F W)
      → ((e : Error) (t : State F W) → P (err e, t))
      → ((x : A) (t : State F W) → m s ≡ (ok x, t) → P (rest x t))
      → P ((m >>= rest) s)
  unfolding ◌>>=◌
  bind-split P m rest s fails goes = split_go P (m s) rest (m s) refl fails goes

  pub if-split :
      {A : Type 0} (P : Result A × State F W → Type 0) (b : Bool) (m n : Action F W A)
      (s : State F W)
      → (b ≡ true → P (m s))
      → (b ≡ false → P (n s))
      → P ((if b then m else n) s)
  if-split P true m n s p q = p refl
  if-split P false m n s p q = q refl
