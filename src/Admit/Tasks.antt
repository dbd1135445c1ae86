-- ===== src/Admit/Tasks.antt =====
-- src/openrange/core/admit.py: what the checks of tasks find.
use open_range.Base.{
  String, List, [], ◌∷◌, true, false, not, some, Dict, get, when, is_empty, flat_map, All,
  All-append, All_map, flat_map-nil_iff, when-nil_iff, append-nil_left, append-nil_right,
  Option-cases, Bool-cases, ok, >>=-eq-ok, ok-injective, ◌≡◌, ◌≢◌, inl, inr, arith, string_eq,
}
use open_range.Graph.{Node, WorldGraph, public}
use open_range.Schema.{error_issue}
use open_range.Validate.Errors.{IsError, All-flat_map}
use open_range.Wire.{is_public}
use open_range.Sdk.{FeasibilityVerdict, TaskSpec, TaskFamily}
use open_range.Admit.{is_infeasible, run_feasibility, task_issues, entrypoint_issues, goal_issues}

-- A node that a solver can see from the start, and a node of any kind.
record IsEntrypoint (graph : WorldGraph) (nid : String) : Type 0 where
  node : Node
  there : get nid graph.nodes ≡ some node
  seen : node.visibility ≡ public

abbrev IsNode : WorldGraph → String → Type 0
IsNode graph nid = (n : Node) × (get nid graph.nodes ≡ some n)

pub record TaskIsBound (graph : WorldGraph) (t : TaskSpec) : Type 0 where
  starts_somewhere : t.entrypoints ≢ []
  entrypoints_fit : All (IsEntrypoint graph) t.entrypoints
  goals_fit : All (IsNode graph) t.goal_nodes

IsEntrypoint-fits :
    (graph : WorldGraph) (t : TaskSpec) (nid : String)
    → entrypoint_issues graph t nid ≡ []
    → IsEntrypoint graph nid
unfolding entrypoint_issues
IsEntrypoint-fits graph t nid h = elim (Option-cases (get nid graph.nodes)) [
  | inl missing ↦ cc (rw (missing, entrypoint_issues) at h)
  | inr (n, found) ↦ record {
    node = n;
    there = found;
    seen = visible n (rw (found, entrypoint_issues) at h);
  }
]
  where
    visible :
        (n : Node)
        → when (not (is_public n.visibility)) (error_issue "task_hidden_entrypoint" t.id) ≡ []
        → n.visibility ≡ public
    visible n q = ground arith

goal-fits :
    (graph : WorldGraph) (t : TaskSpec) (nid : String)
    → goal_issues graph t nid ≡ []
    → IsNode graph nid
unfolding goal_issues
goal-fits graph t nid h = elim (Option-cases (get nid graph.nodes)) [
  | inl missing ↦ cc (rw (missing, goal_issues) at h)
  | inr found ↦ found
]

pub task-IsBound :
    (graph : WorldGraph) (t : TaskSpec) → task_issues graph t ≡ [] → TaskIsBound graph t
unfolding task_issues
task-IsBound graph t h =
    let rest =
      append-nil_right (when (is_empty t.entrypoints) (error_issue "task_no_entrypoint" t.id)) _
        h in
    record {
      starts_somewhere = λ e. cc (rw e at h);
      entrypoints_fit = All_map (IsEntrypoint-fits graph t) t.entrypoints (
          (flat_map-nil_iff (entrypoint_issues graph t) t.entrypoints).0
            (append-nil_left (flat_map (entrypoint_issues graph t) t.entrypoints) _ rest));
      goals_fit = All_map (goal-fits graph t) t.goal_nodes (
          (flat_map-nil_iff (goal_issues graph t) t.goal_nodes).0
            (append-nil_right (flat_map (entrypoint_issues graph t) t.entrypoints) _ rest));
    }

pub task_issues-All : (graph : WorldGraph) (t : TaskSpec) → All IsError (task_issues graph t)
unfolding task_issues entrypoint_issues goal_issues
task_issues-All graph t =
    All-append IsError (when (is_empty t.entrypoints) (error_issue "task_no_entrypoint" t.id)) _
      (ground arith)
      (All-append IsError (flat_map (entrypoint_issues graph t) t.entrypoints)
        (flat_map (goal_issues graph t) t.goal_nodes)
        (All-flat_map (entrypoint_issues graph t) t.entrypoints (λ nid. ground arith))
        (All-flat_map (goal_issues graph t) t.goal_nodes (λ nid. ground arith)))

-- The task's check names a family of the pack, which finds the task solvable in this world.
pub record IsFeasible {F : Type 0} (families : Dict String (TaskFamily F)) (graph : WorldGraph)
    (t : TaskSpec) : Type 0 where
  family : TaskFamily F
  named : get t.feasibility_check families ≡ some family
  verdict : FeasibilityVerdict
  checked : family.check_feasibility graph t ≡ ok verdict
  feasible : verdict.feasible ≡ true

module _ {F : Type 0} (families : Dict String (TaskFamily F)) (graph : WorldGraph) where
  task-IsFeasible :
      (t : TaskSpec) → is_infeasible families graph t ≡ ok false → IsFeasible families graph t
  unfolding is_infeasible
  task-IsFeasible t h = elim (Bool-cases (is_empty t.entrypoints)) [
    | inl no_start ↦ cc (rw (no_start, is_infeasible) at h)
    | inr start ↦ elim (Option-cases (get t.feasibility_check families)) [
      | inl missing ↦ cc (rw (start, missing, is_infeasible) at h)
      | inr (family, found) ↦
          let (verdict, checked, e) =
            >>=-eq-ok (family.check_feasibility graph t) _
              (rw (start, found, is_infeasible) at h) in
          let bad : not verdict.feasible ≡ false = ok-injective e in
          record {
            family = family;
            named = found;
            verdict = verdict;
            checked = checked;
            feasible = ground arith;
          }
    ]
  ]

  pub tasks-IsFeasible :
      (tasks : List TaskSpec)
      → run_feasibility families graph tasks ≡ ok []
      → All (IsFeasible families graph) tasks
  unfolding run_feasibility
  tasks-IsFeasible [] h = tt
  tasks-IsFeasible (t ∷ tasks) h =
      let (bad, one, tail) = >>=-eq-ok (is_infeasible families graph t) _ h in
      let (rest, more, e) = >>=-eq-ok (run_feasibility families graph tasks) _ tail in
      let none_bad : bad ≡ false =
        (when-nil_iff bad t.id).0 (append-nil_left (when bad t.id) rest (ok-injective e)) in
      let none_left : rest ≡ [] = append-nil_right (when bad t.id) rest (ok-injective e) in
      (task-IsFeasible t (rw none_bad at one), tasks-IsFeasible tasks (rw none_left at more))
