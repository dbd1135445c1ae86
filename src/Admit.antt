-- ===== src/Admit.antt =====
-- src/openrange/core/admit.py: the admission gate.
pub mod Tasks
pub mod Soundness
pub mod Attempts
pub mod Gate
use open_range.Base.{
  ℕ, zero, suc, ◌+◌, String, List, [], ◌∷◌, ◌++◌, Bool, true, not, ◌&&◌, Option, none, some, Dict,
  get, put, update, map, when, is_empty, contains, filter, flat_map, length, str_of, format, Result,
  ok, ◌>>=◌, if◌then◌else◌, ◌==◌, string_eq,
}
use open_range.Value.{Value, pos, str, int}
use open_range.Graph.{WorldGraph}
use open_range.Schema.{Issue, error_issue}
use open_range.Validate.{validate}
use open_range.Wire.{content_hash, obj, is_public}
use open_range.Sdk.{
  TaskSpec, Manifest, PackPrior, BuildResult, BuildEvent, Snapshot, TaskFamily, Builder, Pack,
}

pub record AdmissionFailure : Type 0 where
  pub issues : List Issue
  pub infeasible_tasks : List String
  pub attempts : ℕ
  pub history : List BuildEvent

pub data Admission : Type 0 where
  admitted : Snapshot → Admission
  failure : AdmissionFailure → Admission

unfoldable pub entrypoint_issues : WorldGraph → TaskSpec → String → List Issue
entrypoint_issues graph t nid = elim (get nid graph.nodes) [
  | none ↦ error_issue "task_dangling_entrypoint" t.id ∷ []
  | some n ↦ when (not (is_public n.visibility)) (error_issue "task_hidden_entrypoint" t.id)
]

unfoldable pub goal_issues : WorldGraph → TaskSpec → String → List Issue
goal_issues graph t nid =
    when (not (contains nid graph.nodes)) (error_issue "task_dangling_goal" t.id)

-- One round of the loop of `validate_task_bindings`.
unfoldable pub task_issues : WorldGraph → TaskSpec → List Issue
unfolding entrypoint_issues goal_issues flat_map
task_issues graph t =
    when (is_empty t.entrypoints) (error_issue "task_no_entrypoint" t.id)
    ++ (flat_map (entrypoint_issues graph t) t.entrypoints
        ++ flat_map (goal_issues graph t) t.goal_nodes)

unfoldable pub validate_task_bindings : WorldGraph → List TaskSpec → List Issue
unfolding task_issues flat_map
validate_task_bindings graph tasks = flat_map (task_issues graph) tasks

unfoldable pub validate_event : ℕ → List Issue → ℕ → BuildEvent
unfolding str_of format
validate_event attempt errors seq = record {
  seq = pos seq;
  phase = "validate";
  detail =
      format ("attempt " ∷ str_of (attempt + 1) ∷ ": " ∷ str_of (length errors) ∷ " error(s)" ∷ []);
  refs = map (λ i. i.where_id) errors;
}

unfoldable pub feasibility_event : ℕ → List String → ℕ → BuildEvent
unfolding str_of format
feasibility_event attempt infeasible seq = record {
  seq = pos seq;
  phase = "feasibility";
  detail = format (
      "attempt "
      ∷ str_of (attempt + 1)
      ∷ ": "
      ∷ str_of (length infeasible)
      ∷ " infeasible task(s)"
      ∷ []);
  refs = infeasible;
}

unfoldable pub freeze_event : ℕ → BuildEvent
freeze_event seq = record {
  seq = pos seq;
  phase = "freeze";
  detail = "world admitted and frozen";
  refs = [];
}

unfoldable pub repair_event : ℕ → ℕ → BuildEvent
unfolding str_of format
repair_event attempt seq = record {
  seq = pos seq;
  phase = "repair";
  detail = format ("builder regenerated after attempt " ∷ str_of (attempt + 1) ∷ []);
  refs = [];
}

unfoldable pub build_event : BuildResult → BuildEvent
unfolding str_of format
build_event result = record {
  seq = pos 0;
  phase = "build";
  detail = format (
      "builder produced "
      ∷ str_of (length result.graph.nodes)
      ∷ " nodes, "
      ∷ str_of (length result.tasks)
      ∷ " tasks"
      ∷ []);
  refs = map (λ t. t.id) result.tasks;
}

-- `history.append(BuildEvent(len(history), …))`
abbrev pub record_event : List BuildEvent → (ℕ → BuildEvent) → List BuildEvent
record_event history event = history ++ event (length history) ∷ []

-- What an attempt finds: the errors among the issues, and the infeasible tasks.
pub record Findings : Type 0 where
  pub errors : List Issue
  pub infeasible : List String

-- `not errors and not infeasible`
abbrev pub passes : Findings → Bool
passes found = is_empty found.errors && is_empty found.infeasible

unfoldable pub examined : ℕ → Findings → List BuildEvent → List BuildEvent
unfolding validate_event feasibility_event
examined attempt found history =
    record_event (record_event history (validate_event attempt found.errors))
      (feasibility_event attempt found.infeasible)

module _ {F : Type 0} where
  -- `{f.id: f for f in …}`: the last family of an id wins.
  unfoldable pub families_from :
      Dict String (TaskFamily F) → List (TaskFamily F) → Dict String (TaskFamily F)
  families_from d [] = d
  families_from d (f ∷ fs) = families_from (put f.id f d) fs

  -- The body of the loop of `_run_feasibility`: whether the task is reported.
  unfoldable pub is_infeasible : Dict String (TaskFamily F) → WorldGraph → TaskSpec → Result Bool
  is_infeasible families graph t =
      if is_empty t.entrypoints then ok true else (elim (get t.feasibility_check families) [
        | none ↦ ok true
        | some family ↦ family.check_feasibility graph t >>= λ verdict. ok (not verdict.feasible)
      ])

  unfoldable pub run_feasibility :
      Dict String (TaskFamily F) → WorldGraph → List TaskSpec → Result (List String)
  unfolding is_infeasible
  run_feasibility families graph [] = ok []
  run_feasibility families graph (t ∷ tasks) = do
    bad ← is_infeasible families graph t
    rest ← run_feasibility families graph tasks
    ok (when bad t.id ++ rest)

  unfoldable pub examine : Pack F → Dict String (TaskFamily F) → BuildResult → Result Findings
  unfolding validate validate_task_bindings run_feasibility filter
  examine pack families result = do
    issues ← validate result.graph pack.ontology pack.invariants
    infeasible ← run_feasibility families result.graph result.tasks
    ok (record {
      errors =
          filter (λ i. i.severity == "error")
            (issues ++ validate_task_bindings result.graph result.tasks);
      infeasible = infeasible;
    })

  module _ (digest : Value → String) where
    unfoldable pub freeze : Pack F → Manifest → BuildResult → ℕ → List BuildEvent → Snapshot
    unfolding content_hash update freeze_event
    freeze pack manifest result attempt history = record {
      snapshot_id = content_hash digest result.graph;
      ontology_id = pack.ontology.id;
      graph = result.graph;
      tasks = result.tasks;
      lineage =
          update
            (("manifest", obj manifest)
              ∷ ("pack", str pack.id)
              ∷ ("pack_version", str pack.version)
              ∷ ("attempts", int (pos (attempt + 1)))
              ∷ [])
            result.admission_meta;
      history = record_event history freeze_event;
    }

    -- The world is frozen, or, after the last attempt, refused.
    unfoldable pub conclude :
        Pack F → Manifest → BuildResult → ℕ → Findings → List BuildEvent → Admission
    unfolding freeze
    conclude pack manifest result attempt found history =
        if passes found
        then admitted (freeze pack manifest result attempt history)
        else failure (record {
          issues = found.errors;
          infeasible_tasks = found.infeasible;
          attempts = attempt + 1;
          history = history;
        })

    -- The loop over the attempts: `left` repairs may still be made.
    unfoldable pub attempts_from :
        Pack F
        → Builder F
        → Dict String (TaskFamily F)
        → Manifest
        → ℕ
        → ℕ
        → BuildResult
        → List BuildEvent
        → Result Admission
    unfolding examine examined conclude repair_event
    attempts_from pack builder families manifest zero attempt result history = do
      found ← examine pack families result
      ok (conclude pack manifest result attempt found (examined attempt found history))
    attempts_from pack builder families manifest (suc left) attempt result history = do
      found ← examine pack families result
      let history' = examined attempt found history
      let again = do
        repaired ← builder.repair result found.errors found.infeasible
        attempts_from pack builder families manifest left (attempt + 1) repaired
            (record_event history' (repair_event attempt))
      if passes found then ok (conclude pack manifest result attempt found history') else again

    unfoldable pub admit : Pack F → Manifest → Option (PackPrior F) → ℕ → Result Admission
    unfolding attempts_from families_from build_event
    admit pack manifest prior max_repairs = do
      builder ← pack.make_builder prior
      result ← builder.build manifest
      attempts_from pack builder (families_from [] pack.task_families) manifest max_repairs 0 result
          (build_event result ∷ [])
