-- ===== src/Pool/Indexed.antt =====
-- src/openrange/pool.py: seeding, every update and the whole curriculum keep the members indexed.
use open_range.Base.{
  ℕ, zero, suc, String, List, [], ◌∷◌, ◌++◌, Bool, not, ◌&&◌, Option, none, some, Dict, get,
  contains, keys, map, values, length, DistinctKeys, Bool-cases, Option-cases, Result, ok,
  >>=-eq-ok, ok-injective, ◌==◌, string_eq, pair_eq, ◌≡◌, refl, sym, ap, ◌∙◌, subst, inl, inr,
  if◌then◌else◌,
}
use open_range.Value.{Value}
use open_range.Floats.{Floats}
use open_range.Sdk.{TaskSpec, Manifest, Snapshot, Pack, EpisodeReport}
use open_range.Training.{Reward}
use open_range.Curriculum.Evolve.{auto_evolve}
use open_range.Pool.{
  Key, Member, key_of, RoundReports, WorldPool, reprioritize, ran_of, round_rows, snapshots_of,
}
use open_range.Pool.Bound.{IsKeyed}
use open_range.Pool.Keys.{IsIndexed, put-IsIndexed, members_from-IsIndexed, bound-IsIndexed}
use open_range.Pool.Rounds.{
  Settings, Growth, add_child, adopt, grow_each, grow, update_pool, gated_members, seed, family_of,
  compose_gate, stamp_difficulty, child_member, enter, reports_of, gain_of,
}
use open_range.Pool.Run.{
  RunRound, RoundMetrics, EvalPool, run_rounds, run_pool_curriculum, measure_held_out, or_else,
}

module _ (fl : Floats) (digest : Value → String) (show : Value → String) where
  open fl use {F}

  key_of-reprioritize :
      (reports : RoundReports) (reward_fn : EpisodeReport → Reward F) (m : Member F)
      → key_of (reprioritize fl reports reward_fn m) ≡ key_of m
  unfolding reprioritize
  key_of-reprioritize reports reward_fn m = elim (Option-cases (ran_of reports (key_of m))) [
    | inl idle ↦ rw (idle, reprioritize) refl
    | inr (ran, e) ↦ rw (e, reprioritize) refl
  ]

  reprioritized-IsIndexed :
      (reports : RoundReports) (reward_fn : EpisodeReport → Reward F) (d : Dict Key (Member F))
      → IsIndexed d
      → IsIndexed (map (λ e. (e.0, reprioritize fl reports reward_fn e.1)) d)
  reprioritized-IsIndexed reports reward_fn d h = record {
    keyed = keyed_same d h.keyed;
    distinct = subst DistinctKeys (sym (keys_same d)) h.distinct;
  }
    where
      keys_same :
          (d : Dict Key (Member F))
          → keys (map (λ e. (e.0, reprioritize fl reports reward_fn e.1)) d) ≡ keys d
      keys_same [] = refl
      keys_same (e ∷ d) = ap (λ r. e.0 ∷ r) (keys_same d)

      keyed_same :
          (d : Dict Key (Member F))
          → IsKeyed d
          → IsKeyed (map (λ e. (e.0, reprioritize fl reports reward_fn e.1)) d)
      keyed_same [] h = tt
      keyed_same (e ∷ d) h =
          (h.0 ∙ sym (key_of-reprioritize reports reward_fn e.1), keyed_same d h.1)

  add_child-IsIndexed :
      (parent : Member F) (child : Snapshot) (difficulty : F) (tasks : List TaskSpec)
      (g : Growth fl digest show)
      → IsIndexed g.members
      → IsIndexed (add_child fl digest show parent child difficulty tasks g).members
  unfolding add_child
  add_child-IsIndexed parent child difficulty [] g h = h
  add_child-IsIndexed parent child difficulty (task ∷ tasks) g h =
      let key : Key = (child.snapshot_id, task.id) in
      let fits = (family_of show task == parent.family) && not (contains key g.members) in
      let m = child_member fl digest show parent child difficulty task in
      add_child-IsIndexed parent child difficulty tasks
        (if fits then enter fl digest show key m g else g)
        (elim (Bool-cases fits) [ inl t ↦ rw t (put-IsIndexed m g.members h) | inr f ↦ rw f h ])

  adopt-IsIndexed :
      (difficulty_fn : Snapshot → F) (parent : Member F) (child : Option Snapshot)
      (g : Growth fl digest show)
      → IsIndexed g.members
      → IsIndexed (adopt fl digest show difficulty_fn parent child g).members
  unfolding adopt
  adopt-IsIndexed difficulty_fn parent none g h = h
  adopt-IsIndexed difficulty_fn parent (some child) g h =
      add_child-IsIndexed parent (stamp_difficulty fl digest show child (difficulty_fn child))
        (difficulty_fn child) child.tasks
        (record g { gains = g.gains ++ fl.sub (difficulty_fn child) parent.difficulty ∷ [] }) h

  grow_each-IsIndexed :
      (settings : Settings F) (pack : Pack F) (reports : RoundReports) (ms : List (Member F))
      (g g' : Growth fl digest show)
      → IsIndexed g.members
      → grow_each fl digest show settings pack reports ms g ≡ ok g'
      → IsIndexed g'.members
  unfolding grow_each
  grow_each-IsIndexed settings pack reports [] g g' h e =
      subst (λ (w : Growth fl digest show). IsIndexed w.members) (ok-injective e) h
  grow_each-IsIndexed settings pack reports (m ∷ ms) g g' h e =
      let (gate, _, t) =
        >>=-eq-ok (compose_gate settings.gate settings.gate_factory m.snapshot) _ e in
      let (child, _, rest) =
        >>=-eq-ok
          (auto_evolve fl digest m.snapshot (reports_of fl digest show (get (key_of m) reports))
            pack settings.policy settings.max_repairs gate)
          _ t in
      grow_each-IsIndexed settings pack reports ms
        (adopt fl digest show settings.difficulty_fn m child g) g'
        (adopt-IsIndexed settings.difficulty_fn m child g h) rest

  update_pool-IsIndexed :
      (pool next : WorldPool fl) (reports : RoundReports) (pack : Pack F) (settings : Settings F)
      (capped : Bool)
      → IsIndexed pool.members
      → update_pool fl digest show pool reports pack settings ≡ ok (next, capped)
      → IsIndexed next.members
  unfolding update_pool grow
  update_pool-IsIndexed pool next reports pack settings capped h e =
      let (g, grown, t) =
        >>=-eq-ok
          (grow fl digest show settings pack reports
            (map (λ e. (e.0, reprioritize fl reports settings.reward_fn e.1)) pool.members))
          _ e in
      let k =
        grow_each-IsIndexed settings pack reports _ _ g
          (reprioritized-IsIndexed reports settings.reward_fn pool.members h) grown in
      subst (λ (w : WorldPool fl × Bool). IsIndexed w.0.members) (ok-injective t)
        (bound-IsIndexed fl
          (record pool {
            members = g.members;
            last_difficulty_gain = gain_of fl digest show g.gains;
          })
          g.grown k)

  run_rounds-IsIndexed :
      (rounds round : ℕ) (pool final : WorldPool fl) (run_round measure : RunRound) (pack : Pack F)
      (groups num_generations : ℕ) (settings : Settings F) (eval_pool : Option (EvalPool F))
      (metrics : List (RoundMetrics F))
      → IsIndexed pool.members
      → run_rounds fl digest show rounds round pool run_round measure pack groups num_generations
          settings eval_pool
        ≡ ok (final, metrics)
      → IsIndexed final.members × (length metrics ≡ rounds)
  unfolding run_rounds
  run_rounds-IsIndexed zero round pool final run_round measure pack groups num_generations settings
        eval_pool metrics h e =
      subst (λ (w : WorldPool fl × List (RoundMetrics F)). IsIndexed w.0.members × (length w.1 ≡ 0))
        (ok-injective e) (h, refl)
  run_rounds-IsIndexed (suc rounds) round pool final run_round measure pack groups num_generations
        settings eval_pool metrics h e =
      let (reports, _, t1) =
        >>=-eq-ok
          (run_round round (round_rows fl pool groups num_generations)
            (snapshots_of (values pool.members)))
          _ e in
      let (held_out, _, t2) =
        >>=-eq-ok (measure_held_out fl digest show eval_pool measure round num_generations) _ t1 in
      let ((next, capped), p, t3) =
        >>=-eq-ok (update_pool fl digest show pool reports pack settings) _ t2 in
      let ((last, rest), q, t4) =
        >>=-eq-ok
          (run_rounds fl digest show rounds (suc round) next run_round measure pack groups
            num_generations settings eval_pool)
          _ t3 in
      let r =
        run_rounds-IsIndexed rounds (suc round) next last run_round measure pack groups
          num_generations settings eval_pool rest
          (update_pool-IsIndexed pool next reports pack settings capped h p) q in
      subst
        (λ (w : WorldPool fl × List (RoundMetrics F)).
          IsIndexed w.0.members × (length w.1 ≡ suc rounds))
        (ok-injective t4) (r.0, ap suc r.1)

  -- A pool that is seeded, and then run through a curriculum that raises nothing, ends with every
  -- member under its own key and no key twice, and there is one entry of metrics for each round.
  pub run_pool_curriculum-IsIndexed :
      (pack : Pack F) (manifests : List Manifest) (difficulty_fn : Snapshot → F) (max_size : ℕ)
      (family : Option String) (mix_floor : F) (max_repairs : ℕ)
      (seed_gate : Option (Snapshot → Result Bool)) (pool final : WorldPool fl)
      (run_round : RunRound) (rounds groups num_generations : ℕ) (settings : Settings F)
      (eval_pool : Option (EvalPool F)) (eval_round : Option RunRound)
      (metrics : List (RoundMetrics F))
      → seed fl digest show pack manifests difficulty_fn max_size family mix_floor max_repairs
          seed_gate
        ≡ ok pool
      → run_pool_curriculum fl digest show pool run_round rounds pack groups num_generations
          settings eval_pool eval_round
        ≡ ok (final, metrics)
      → IsIndexed final.members × (length metrics ≡ rounds)
  unfolding seed run_pool_curriculum
  run_pool_curriculum-IsIndexed pack manifests difficulty_fn max_size family mix_floor max_repairs
        seed_gate pool final run_round rounds groups num_generations settings eval_pool eval_round
        metrics seeded ran =
      let (ms, _, t) =
        >>=-eq-ok
          (gated_members fl digest show pack manifests difficulty_fn family max_repairs seed_gate) _
          seeded in
      let start : IsIndexed pool.members =
        subst (λ (w : WorldPool fl). IsIndexed w.members) (ok-injective t)
          (members_from-IsIndexed ms [] (record { keyed = tt; distinct = tt })) in
      run_rounds-IsIndexed rounds 0 pool final run_round
        (or_else fl digest show eval_round run_round) pack groups num_generations settings eval_pool
        metrics start ran
