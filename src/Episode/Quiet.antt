-- ===== src/Episode/Quiet.antt =====
-- src/openrange/core/episode.py: what the helpers of the service leave alone. They call the outside
-- and assign to the attributes of entries; the dicts keep their keys.
pub mod Helpers
use open_range.Base.{
  ◌≡◌, refl, sym, ◌∙◌, String, List, [], ◌∷◌, ◌++◌, Bool, true, false, Option, none, some,
  Bool-cases, Dict, get, keys, get-put, keys-put_present, is_some, Result, ok, err, Error, inl, inr,
  if◌then◌else◌, ◌==◌, string_eq, some-injective, subst,
}
use open_range.Episode.{RunningEpisode, Call, Outside, State}
use open_range.Episode.Actions.{
  Action, then_run, altered, return, throw, lift, ask, attempt, suppress, alter, for_each, ◌>>=◌,
  ◌>>◌,
}

-- What no assignment changes, and what is set once and never unset.
pub record Grows {F : Type 0} (r r' : RunningEpisode F) : Type 0 where
  pub same_handle : r'.handle ≡ r.handle
  pub same_snapshot : r'.snapshot ≡ r.snapshot
  pub same_task : r'.task ≡ r.task
  pub same_runtime : r'.runtime ≡ r.runtime
  pub keeps_result : is_some r.episode_result ≡ true → is_some r'.episode_result ≡ true
  pub keeps_state : is_some r.final_state ≡ true → is_some r'.final_state ≡ true
  pub keeps_stopped : r.stopped ≡ true → r'.stopped ≡ true

module _ {F : Type 0} where
  pub Grows-refl : (r : RunningEpisode F) → Grows r r
  Grows-refl r = record {
    same_handle = refl;
    same_snapshot = refl;
    same_task = refl;
    same_runtime = refl;
    keeps_result = λ h. h;
    keeps_state = λ h. h;
    keeps_stopped = λ h. h;
  }

  pub Grows-same :
      {r r' : RunningEpisode F}
      → r'.handle ≡ r.handle
      → r'.snapshot ≡ r.snapshot
      → r'.task ≡ r.task
      → r'.runtime ≡ r.runtime
      → r'.episode_result ≡ r.episode_result
      → r'.final_state ≡ r.final_state
      → r'.stopped ≡ r.stopped
      → Grows r r'
  Grows-same h n t u e f o = record {
    same_handle = h;
    same_snapshot = n;
    same_task = t;
    same_runtime = u;
    keeps_result = λ was. rw e was;
    keeps_state = λ was. rw f was;
    keeps_stopped = λ was. o ∙ was;
  }

  pub Grows-trans : {r r' r'' : RunningEpisode F} → Grows r r' → Grows r' r'' → Grows r r''
  Grows-trans g h = record {
    same_handle = h.same_handle ∙ g.same_handle;
    same_snapshot = h.same_snapshot ∙ g.same_snapshot;
    same_task = h.same_task ∙ g.same_task;
    same_runtime = h.same_runtime ∙ g.same_runtime;
    keeps_result = λ t. h.keeps_result (g.keeps_result t);
    keeps_state = λ t. h.keeps_state (g.keeps_state t);
    keeps_stopped = λ t. h.keeps_stopped (g.keeps_stopped t);
  }

  abbrev pub Later : Dict String (RunningEpisode F) → Dict String (RunningEpisode F) → Type 0
  Later d d' =
      (id : String) (r : RunningEpisode F)
      → get id d ≡ some r
      → (r' : RunningEpisode F) × (get id d' ≡ some r') × Grows r r'

pub record Quiet {F W : Type 0} (s s' : State F W) : Type 0 where
  pub same_warm : s'.warm ≡ s.warm
  pub same_reports : s'.reports ≡ s.reports
  pub same_keys : keys s'.episodes ≡ keys s.episodes
  pub later : Later s.episodes s'.episodes

module _ {F W : Type 0} where
  abbrev pub Quiets : {A : Type 0} → Action F W A → Type 0
  Quiets m = (s : State F W) → Quiet s (m s).1

  pub Quiet-refl : (s : State F W) → Quiet s s
  Quiet-refl s = record {
    same_warm = refl;
    same_reports = refl;
    same_keys = refl;
    later = λ id r h. (r, h, Grows-refl r);
  }

  pub Quiet-trans : {s s' s'' : State F W} → Quiet s s' → Quiet s' s'' → Quiet s s''
  Quiet-trans q p = record {
    same_warm = p.same_warm ∙ q.same_warm;
    same_reports = p.same_reports ∙ q.same_reports;
    same_keys = p.same_keys ∙ q.same_keys;
    later = λ id r h.
        let (r', h', g) = q.later id r h in
        let (r'', h'', g') = p.later id r' h' in (r'', h'', Grows-trans g g');
  }

  then_Quiet :
      {A B : Type 0} {s : State F W} (r : Result A × State F W) (rest : A → Action F W B)
      → Quiet s r.1
      → ((x : A) → Quiets (rest x))
      → Quiet s (then_run r rest).1
  then_Quiet (err e, s') rest q later = q
  then_Quiet (ok x, s') rest q later = Quiet-trans q (later x s')

  pub bind-Quiets :
      {A B : Type 0} (m : Action F W A) (rest : A → Action F W B)
      → Quiets m
      → ((x : A) → Quiets (rest x))
      → Quiets (m >>= rest)
  unfolding ◌>>=◌
  bind-Quiets m rest q later s = then_Quiet (m s) rest (q s) later

  pub attempt-Quiets : {A : Type 0} (m : Action F W A) → Quiets m → Quiets (attempt m)
  unfolding attempt
  attempt-Quiets m q s = q s

  pub suppress-Quiets : (m : Action F W Unit) → Quiets m → Quiets (suppress m)
  unfolding suppress
  suppress-Quiets m q s = q s

  pub return-Quiets : {A : Type 0} (x : A) → Quiets (return {F = F} {W = W} x)
  unfolding return
  return-Quiets x s = Quiet-refl s

  pub throw-Quiets : (A : Type 0) (e : Error) → Quiets (throw {F = F} {W = W} {A = A} e)
  unfolding throw
  throw-Quiets A e s = Quiet-refl s

  pub lift-Quiets : {A : Type 0} (r : Result A) → Quiets (lift {F = F} {W = W} r)
  unfolding lift
  lift-Quiets r s = Quiet-refl s

  pub ask-Quiets : (out : Outside F W) (call : Call F) → Quiets (ask out call)
  unfolding ask
  ask-Quiets out call s = record {
    same_warm = refl;
    same_reports = refl;
    same_keys = refl;
    later = λ id r h. (r, h, Grows-refl r);
  }

  pub if-Quiets :
      {A : Type 0} (b : Bool) (m n : Action F W A)
      → Quiets m
      → Quiets n
      → Quiets (if b then m else n)
  if-Quiets true m n p q = p
  if-Quiets false m n p q = q

  -- An assignment that lets entries grow.
  altered-Quiet :
      (id : String) (change : RunningEpisode F → RunningEpisode F)
      → ((r : RunningEpisode F) → Grows r (change r))
      → (s : State F W) (o : Option (RunningEpisode F)) → get id s.episodes ≡ o
      → Quiet s (altered id change o s)
  altered-Quiet id change grows s none h = Quiet-refl s
  altered-Quiet id change grows s (some running) h = record {
    same_warm = refl;
    same_reports = refl;
    same_keys = keys-put_present id (change running) running s.episodes h;
    later = λ j r e. elim (Bool-cases (id == j)) [
      | inl t ↦
          let same : id ≡ j = (string_eq.beq_iff id j).0 t in
          (
            change running,
            get-put id j (change running) s.episodes ∙ (rw t refl),
            subst (λ x. Grows x (change running)) (some-injective (sym h ∙ (rw same e)))
                (grows running),
          )
      | inr f ↦ (r, get-put id j (change running) s.episodes ∙ (rw f e), Grows-refl r)
    ];
  }

  pub alter-Quiets :
      (id : String) (change : RunningEpisode F → RunningEpisode F)
      → ((r : RunningEpisode F) → Grows r (change r))
      → Quiets (alter {F = F} {W = W} id change)
  unfolding alter
  alter-Quiets id change grows s = altered-Quiet id change grows s (get id s.episodes) refl

  pub for_each-Quiets :
      {A : Type 0} (xs : List A) (body : A → Action F W Unit)
      → ((x : A) → Quiets (body x))
      → Quiets (for_each xs body)
  unfolding for_each return
  for_each-Quiets [] body q s = Quiet-refl s
  for_each-Quiets (x ∷ xs) body q s =
      bind-Quiets (body x) (λ _. for_each xs body) (q x) (λ _. for_each-Quiets xs body q) s
