-- ===== src/Examples/Suites.antt =====
-- The invariants of the software engineering pack, at a repository with a suite and a solution.
use open_range.Base.{String, List, [], ◌∷◌, get, filter, flat_map, any, all, elem, ◌≡◌, ◌↔◌, refl}
use open_range.Value.{Value, str, dict, list, field, end, cons, nil, to_dict, to_list}
use open_range.Graph.{Node, Edge, WorldGraph, public, by_kind}
use open_range.Swe.{
  suite_well_formed, repo_has_base_files, solution_present, suite_round, tier_issues, dangling,
}
use open_range.Swe.Gradable.{IsGradable, invariants-nil_iff}

abbrev piece : String → String → List (String × Value) → String × Node
piece id kind attrs = (
  id,
  record {
    id = id;
    kind = kind;
    attrs = attrs;
    roles = [];
    visibility = public;
    runtime = [];
    meta = [];
  },
)

abbrev link : String → String → String → String × Edge
link kind src dst = (kind, record { id = kind; kind = kind; src = src; dst = dst; attrs = [] })

abbrev files : String → Value
files name = dict (field name (str "pass") end)

abbrev repo_world : WorldGraph
repo_world = record {
  ontology = "swe";
  nodes =
      piece "repo" "repo" (("base_files", files "add.py") ∷ [])
      ∷ piece "suite" "test_suite" (
          ("test_files", files "test_add.py")
          ∷ ("fail_to_pass", list (cons (str "test_add.py::test_sum") nil))
          ∷ ("pass_to_pass", list (cons (str "test_add.py::test_zero") nil))
          ∷ [])
      ∷ piece "gold" "solution" (("gold_files", files "add.py") ∷ [])
      ∷ [];
  edges = link "has_suite" "repo" "suite" ∷ link "has_solution" "repo" "gold" ∷ [];
  meta = [];
}

repo_world_quiet : suite_well_formed repo_world ≡ []
unfolding suite_well_formed flat_map by_kind filter suite_round get all to_dict tier_issues to_list
    any elem dangling
repo_world_quiet = refl

invariants-nil_iff_example :
    ((repo_has_base_files repo_world ≡ [])
      × (suite_well_formed repo_world ≡ [])
      × (solution_present repo_world ≡ []))
    ↔ IsGradable repo_world
invariants-nil_iff_example = invariants-nil_iff repo_world
