-- ===== src/Episode/Reports/Total.antt =====
-- src/openrange/core/episode.py: actions that raise nothing, and what they know of an entry.
pub mod Helpers
pub mod Stopping
use open_range.Base.{
  ◌≡◌, refl, sym, ◌∙◌, ap, subst, String, List, [], ◌∷◌, true, some, get, get-put, is_some, Result,
  ok, err, if◌then◌else◌, ◌==◌, string_eq,
}
use open_range.Episode.{RunningEpisode, Outside, State, join_thread}
use open_range.Episode.Actions.{
  Action, then_run, return, attempt, suppress, alter, altered, reload, value_or, for_each, ◌>>=◌,
}
use open_range.Episode.Quiet.{Grows, Grows-refl, Grows-trans, Later, Quiets}

abbrev pub Returns : {A : Type 0} → Result A → Type 0
Returns {A} r = (x : A) × (r ≡ ok x)

module _ {F : Type 0} where
  abbrev pub IsThere : RunningEpisode F → Type 0
  IsThere r = Unit {0}

  abbrev pub IsFilled : RunningEpisode F → Type 0
  IsFilled r = is_some r.final_state ≡ true

  abbrev pub IsDone : RunningEpisode F → Type 0
  IsDone r = (is_some r.episode_result ≡ true) × (is_some r.final_state ≡ true)

  pub IsThere-Grows : (r r' : RunningEpisode F) → Grows r r' → IsThere r → IsThere r'
  IsThere-Grows r r' g there = there

  pub IsFilled-Grows : (r r' : RunningEpisode F) → Grows r r' → IsFilled r → IsFilled r'
  IsFilled-Grows r r' g = g.keeps_state

  pub IsDone-Grows : (r r' : RunningEpisode F) → Grows r r' → IsDone r → IsDone r'
  IsDone-Grows r r' g (graded, filled) = (g.keeps_result graded, g.keeps_state filled)

module _ {F W : Type 0} where
  -- The episode has no thread of its own, or one that was started, so that to join it raises nothing.
  abbrev pub IsJoinable : Outside F W → RunningEpisode F → Type 0
  IsJoinable out running =
      is_some running.tick_rate ≡ true → (w : W) → Returns (out (join_thread running.handle) w).0

  abbrev pub Totals : {A : Type 0} → Action F W A → Type 0
  Totals m = (s : State F W) → Returns (m s).0

  then_Returns :
      {A B : Type 0} (r : Result A × State F W) (rest : A → Action F W B)
      → Returns r.0
      → ((x : A) → Returns (rest x r.1).0)
      → Returns (then_run r rest).0
  then_Returns (err e, s) rest (x, h) later = cc
  then_Returns (ok x, s) rest total later = later x

  -- A call before the rest, with what holds before and after it.
  pub bind-Returns :
      {A B : Type 0} (I J : State F W → Type 0) (m : Action F W A) (rest : A → Action F W B)
      (s : State F W)
      → I s
      → Totals m
      → ((t : State F W) → I t → J (m t).1)
      → ((x : A) (t : State F W) → J t → Returns (rest x t).0)
      → Returns ((m >>= rest) s).0
  unfolding ◌>>=◌
  bind-Returns I J m rest s holds total keeps later =
      then_Returns (m s) rest (total s) λ x. later x (m s).1 (keeps s holds)

  pub bind-Totals :
      {A B : Type 0} (m : Action F W A) (rest : A → Action F W B)
      → Totals m
      → ((x : A) → Totals (rest x))
      → Totals (m >>= rest)
  bind-Totals m rest total later s =
      bind-Returns (λ _. Unit {0}) (λ _. Unit {0}) m rest s tt total (λ t _. tt) λ x t _. later x t

  pub return-Totals : {A : Type 0} (x : A) → Totals (return {F = F} {W = W} x)
  unfolding return
  return-Totals x s = (x, refl)

  pub alter-Totals :
      (id : String) (change : RunningEpisode F → RunningEpisode F)
      → Totals (alter {F = F} {W = W} id change)
  unfolding alter
  alter-Totals id change s = (tt, refl)

  pub suppress-Totals : (m : Action F W Unit) → Totals (suppress m)
  unfolding suppress
  suppress-Totals m s = (tt, refl)

  pub attempt-Totals : {A : Type 0} (m : Action F W A) → Totals (attempt m)
  unfolding attempt
  attempt-Totals m s = ((m s).0, refl)

  pub reload-Totals : (running : RunningEpisode F) → Totals (reload {F = F} {W = W} running)
  unfolding reload
  reload-Totals running s = (value_or running (get running.handle.id s.episodes), refl)

  pub for_each-Totals :
      {A : Type 0} (xs : List A) (body : A → Action F W Unit)
      → ((x : A) → Totals (body x))
      → Totals (for_each xs body)
  unfolding for_each
  for_each-Totals [] body total s = return-Totals tt s
  for_each-Totals (x ∷ xs) body total s =
      bind-Totals (body x) (λ _. for_each xs body) (total x) (λ _. for_each-Totals xs body total) s

  -- An entry stands under `id` of which `Q` holds.
  abbrev pub Holds : String → (RunningEpisode F → Type 0) → State F W → Type 0
  Holds id Q s = (r : RunningEpisode F) × (get id s.episodes ≡ some r) × Q r

  abbrev pub Laters : {A : Type 0} → Action F W A → Type 0
  Laters m = (s : State F W) → Later s.episodes (m s).1.episodes

  then_Later :
      {A B : Type 0} (s : State F W) (r : Result A × State F W) (rest : A → Action F W B)
      → Later s.episodes r.1.episodes
      → ((x : A) → Laters (rest x))
      → Later s.episodes (then_run r rest).1.episodes
  then_Later s (err e, t) rest q after id r found = q id r found
  then_Later s (ok x, t) rest q after id r e =
      let (r', e', g) = q id r e in
      let (r'', e'', g') = after x t id r' e' in (r'', e'', Grows-trans g g')

  -- What changes no entry.
  pub fixed-Laters :
      {A : Type 0} (m : Action F W A) → ((s : State F W) → (m s).1.episodes ≡ s.episodes) → Laters m
  fixed-Laters m fixed s id r e = (r, ap (get id) (fixed s) ∙ e, Grows-refl r)

  pub Holds-Later :
      (id : String) (Q : RunningEpisode F → Type 0)
      → ((r r' : RunningEpisode F) → Grows r r' → Q r → Q r')
      → (s t : State F W) → Later s.episodes t.episodes
      → Holds id Q s
      → Holds id Q t
  Holds-Later id Q keeps s t later (r, e, q) =
      let (r', e', g) = later id r e in (r', e', keeps r r' g q)

  pub altered-Holds :
      (id : String) (P Q : RunningEpisode F → Type 0) (change : RunningEpisode F → RunningEpisode F)
      → ((r : RunningEpisode F) → P r → Q (change r))
      → (s : State F W) → Holds id P s
      → Holds id Q (alter id change s).1
  unfolding alter
  altered-Holds id P Q change gives s (r, e, p) =
      subst (λ o. Holds id Q (altered id change o s)) (sym e)
        (
          change r,
          get-put id id (change r) s.episodes ∙ (rw ((string_eq.beq_iff id id).1 refl) refl),
          gives r p,
        )

  abbrev pub Leads :
      {A : Type 0} → (State F W → Type 0) → (State F W → Type 0) → Action F W A → Type 0
  Leads I J m = (s : State F W) → I s → J (m s).1

  then_Leads :
      {A B : Type 0} (J K : State F W → Type 0) (r : Result A × State F W) (rest : A → Action F W B)
      → Returns r.0
      → J r.1
      → ((x : A) → Leads J K (rest x))
      → K (then_run r rest).1
  then_Leads J K (err e, s) rest (x, h) holds later = cc
  then_Leads J K (ok x, s) rest total holds later = later x s holds

  pub bind-Leads :
      {A B : Type 0} (I J K : State F W → Type 0) (m : Action F W A) (rest : A → Action F W B)
      → Totals m
      → Leads I J m
      → ((x : A) → Leads J K (rest x))
      → Leads I K (m >>= rest)
  unfolding ◌>>=◌
  bind-Leads I J K m rest total leads later s holds =
      then_Leads J K (m s) rest (total s) (leads s holds) later

  pub bind-Laters :
      {A B : Type 0} (m : Action F W A) (rest : A → Action F W B)
      → Laters m
      → ((x : A) → Laters (rest x))
      → Laters (m >>= rest)
  unfolding ◌>>=◌
  bind-Laters m rest later after s = then_Later s (m s) rest (later s) after

  -- The rest is quiet.
  pub quiet_rest-Leads :
      {A B : Type 0} (I : State F W → Type 0) (id : String) (Q : RunningEpisode F → Type 0)
      (m : Action F W A) (rest : A → Action F W B)
      → ((r r' : RunningEpisode F) → Grows r r' → Q r → Q r')
      → Totals m
      → Leads I (Holds id Q) m
      → ((x : A) → Quiets (rest x))
      → Leads I (Holds id Q) (m >>= rest)
  quiet_rest-Leads I id Q m rest keeps total leads quiet =
      bind-Leads I (Holds id Q) (Holds id Q) m rest total leads
        λ x t held. Holds-Later id Q keeps t (rest x t).1 (quiet x t).later held

  -- What holds of the entry holds after the call too.
  pub kept-Returns :
      {A B : Type 0} (id : String) (Q : RunningEpisode F → Type 0) (m : Action F W A)
      (rest : A → Action F W B) (s : State F W)
      → ((r r' : RunningEpisode F) → Grows r r' → Q r → Q r')
      → Holds id Q s
      → Totals m
      → Laters m
      → ((x : A) (t : State F W) → Holds id Q t → Returns (rest x t).0)
      → Returns ((m >>= rest) s).0
  kept-Returns id Q m rest s keeps held total later next =
      bind-Returns (Holds id Q) (Holds id Q) m rest s held total
        (λ t. Holds-Later id Q keeps t (m t).1 (later t)) next

  pub quiet-Returns :
      {A B : Type 0} (id : String) (Q : RunningEpisode F → Type 0) (m : Action F W A)
      (rest : A → Action F W B) (s : State F W)
      → ((r r' : RunningEpisode F) → Grows r r' → Q r → Q r')
      → Holds id Q s
      → Totals m
      → Quiets m
      → ((x : A) (t : State F W) → Holds id Q t → Returns (rest x t).0)
      → Returns ((m >>= rest) s).0
  quiet-Returns id Q m rest s keeps held total quiet =
      kept-Returns id Q m rest s keeps held total (λ t. (quiet t).later)
