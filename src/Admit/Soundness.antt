-- ===== src/Admit/Soundness.antt =====
-- src/openrange/core/admit.py: what holds of every world that `admit` lets through.
use open_range.Base.{
  ℕ, String, List, [], ◌++◌, true, All, All_map, flat_map-nil_iff, append-nil_left,
  append-nil_right, Bool-cases, ok, >>=-eq-ok, ok-injective, ◌≡◌, refl, subst, ap, sym, ◌∙◌, inl,
  inr, arith, string_eq,
}
use open_range.Value.{Value}
use open_range.Graph.{WorldGraph}
use open_range.Schema.{Issue}
use open_range.Validate.{validate, validate_structural, validate_conformance, run_invariants}
use open_range.Validate.Structure.{IsWellFormed, validate_structural-nil_iff}
use open_range.Validate.Errors.{
  IsError, only_errors, only_errors-append, only_errors-all, validate_structural-All,
  validate_conformance-All, All-flat_map,
}
use open_range.Wire.{content_hash}
use open_range.Sdk.{TaskSpec, Manifest, BuildResult, BuildEvent, Snapshot, Pack}
use open_range.Admit.{
  admitted, Findings, passes, examine, conclude, freeze, families_from, run_feasibility,
  validate_task_bindings, task_issues,
}
use open_range.Admit.Tasks.{
  TaskIsBound, task-IsBound, task_issues-All, IsFeasible, tasks-IsFeasible,
}

admitted-injective : {s t : Snapshot} → admitted s ≡ admitted t → s ≡ t
admitted-injective h = cc

-- What admission promises of a world: it is well formed, it conforms to the pack's ontology, every
-- task starts at visible nodes and aims at nodes of the world, and every task is feasible.
pub record IsSound {F : Type 0} (pack : Pack F) (graph : WorldGraph) (tasks : List TaskSpec)
    : Type 0 where
  pub well_formed : IsWellFormed graph
  pub conforms : validate_conformance graph pack.ontology ≡ ok []
  pub bound : All (TaskIsBound graph) tasks
  pub feasible : All (IsFeasible (families_from [] pack.task_families) graph) tasks

-- What an attempt ran, and what it found.
record Examined {F : Type 0} (pack : Pack F) (result : BuildResult) (found : Findings)
    : Type 0 where
  conformance : List Issue
  extra : List Issue
  conforming : validate_conformance result.graph pack.ontology ≡ ok conformance
  feasibility :
      run_feasibility (families_from [] pack.task_families) result.graph result.tasks
      ≡ ok found.infeasible
  errors :
      found.errors
      ≡ only_errors (
          (validate_structural result.graph ++ (conformance ++ extra))
          ++ validate_task_bindings result.graph result.tasks)

examine-Examined :
    {F : Type 0} (pack : Pack F) (result : BuildResult) (found : Findings)
    → examine pack (families_from [] pack.task_families) result ≡ ok found
    → Examined pack result found
unfolding examine validate
examine-Examined pack result found h =
    let families = families_from [] pack.task_families in
    let (issues, valid, tail) =
      >>=-eq-ok (validate result.graph pack.ontology pack.invariants) _ h in
    let (infeasible, feasibility, e) =
      >>=-eq-ok (run_feasibility families result.graph result.tasks) _ tail in
    let (conformance, conforming, tail') =
      >>=-eq-ok (validate_conformance result.graph pack.ontology) _ valid in
    let (extra, ran, e') = >>=-eq-ok (run_invariants pack.invariants result.graph) _ tail' in
    record {
      conformance = conformance;
      extra = extra;
      conforming = conforming;
      feasibility = feasibility ∙ ap (λ (f : Findings). ok f.infeasible) (ok-injective e);
      errors =
          sym (ap (λ (f : Findings). f.errors) (ok-injective e))
          ∙ ap
              (λ (l : List Issue).
                only_errors (l ++ validate_task_bindings result.graph result.tasks))
              (sym (ok-injective e'));
    }

-- If no errors are among some issues, those of them that are all errors are none.
no-errors_left : (xs ys : List Issue) → All IsError xs → only_errors (xs ++ ys) ≡ [] → xs ≡ []
no-errors_left xs ys h e =
    sym (only_errors-all xs h)
    ∙ append-nil_left (only_errors xs) (only_errors ys) (sym (only_errors-append xs ys) ∙ e)

no-errors_right : (xs ys : List Issue) → only_errors (xs ++ ys) ≡ [] → only_errors ys ≡ []
no-errors_right xs ys e =
    append-nil_right (only_errors xs) (only_errors ys) (sym (only_errors-append xs ys) ∙ e)

passes_iff :
    (found : Findings) → passes found ≡ true → (found.errors ≡ []) × (found.infeasible ≡ [])
passes_iff found h = ground arith

Examined-IsSound :
    {F : Type 0} (pack : Pack F) (result : BuildResult) (found : Findings)
    → Examined pack result found
    → passes found ≡ true
    → IsSound pack result.graph result.tasks
unfolding validate_task_bindings
Examined-IsSound pack result found ex pass =
    let (no_errors, no_infeasible) = passes_iff found pass in
    let graph = result.graph in
    let bindings = validate_task_bindings graph result.tasks in
    let quiet : only_errors
          ((validate_structural graph ++ (ex.conformance ++ ex.extra)) ++ bindings)
        ≡ [] =
      sym ex.errors ∙ no_errors in
    let tiers : only_errors (validate_structural graph ++ (ex.conformance ++ ex.extra)) ≡ [] =
      append-nil_left _ (only_errors bindings) (sym (only_errors-append _ bindings) ∙ quiet) in
    let rest : only_errors (ex.conformance ++ ex.extra) ≡ [] =
      no-errors_right (validate_structural graph) _ tiers in
    let bound : bindings ≡ [] =
      sym (
        only_errors-all bindings
          (All-flat_map (task_issues graph) result.tasks (task_issues-All graph)))
      ∙ no-errors_right (validate_structural graph ++ (ex.conformance ++ ex.extra)) bindings
          quiet in
    record {
      well_formed =
          (validate_structural-nil_iff graph).0
            (no-errors_left (validate_structural graph) _ (validate_structural-All graph) tiers);
      conforms =
          ex.conforming
          ∙ ap ok (
              no-errors_left ex.conformance ex.extra
                (validate_conformance-All graph pack.ontology ex.conformance ex.conforming) rest);
      bound =
          All_map (task-IsBound graph) result.tasks
            ((flat_map-nil_iff (task_issues graph) result.tasks).0 bound);
      feasible =
          tasks-IsFeasible (families_from [] pack.task_families) graph result.tasks
            (ex.feasibility ∙ ap ok no_infeasible);
    }

-- The snapshot freezes a world that passed, under the hash of its content.
pub record IsFrozen {F : Type 0} (digest : Value → String) (pack : Pack F) (s : Snapshot)
    : Type 0 where
  pub hashed : s.snapshot_id ≡ content_hash digest s.graph
  pub ontology : s.ontology_id ≡ pack.ontology.id
  pub sound : IsSound pack s.graph s.tasks

module _ {F : Type 0} (digest : Value → String) (pack : Pack F) where
  pub conclude-IsFrozen :
      (manifest : Manifest) (result : BuildResult) (attempt : ℕ) (found : Findings)
      (history : List BuildEvent) (s : Snapshot)
      → examine pack (families_from [] pack.task_families) result ≡ ok found
      → conclude digest pack manifest result attempt found history ≡ admitted s
      → IsFrozen digest pack s
  unfolding conclude freeze
  conclude-IsFrozen manifest result attempt found history s ex h =
      elim (Bool-cases (passes found)) [
        | inl pass ↦
            subst (IsFrozen digest pack) (admitted-injective (rw (pass, conclude) at h)) (record {
              hashed = refl;
              ontology = refl;
              sound =
                  Examined-IsSound pack result found (examine-Examined pack result found ex) pass;
            })
        | inr fails ↦ cc (rw (fails, conclude) at h)
      ]
