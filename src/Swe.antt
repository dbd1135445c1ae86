-- ===== src/Swe.antt =====
-- packs/swe/swe/invariants.py: the invariants of the worlds of the software engineering pack. Their
-- messages are not modelled.
pub mod Gradable
use open_range.Base.{
  String, List, [], ◌∷◌, ◌++◌, Bool, true, false, not, ◌&&◌, ◌||◌, Option, none, some, get, keys,
  any, all, is_empty, when, flat_map, elem, length, map, if◌then◌else◌, ◌==◌, string_eq, nat_eq,
}
use Prim.Native.String.{slice}
use open_range.Value.{Value, str, list, dict, to_dict, to_list}
use open_range.Graph.{Node, WorldGraph, by_kind, out_edges}
use open_range.Schema.{Issue, error_issue}
use text.Mathlib.Text.{find?}

abbrev pub is_str : Value → Bool
is_str (str s) = true
is_str _ = false

-- The keys of a mapping are texts here by their type.
abbrev pub is_str_map : Option Value → Bool
is_str_map (some (dict fields)) = all (λ e. is_str e.1) (to_dict fields)
is_str_map _ = false

-- `list(value) if _is_str_list(value) else []`
abbrev pub str_text : Value → String
str_text (str s) = s
str_text _ = ""

abbrev pub as_str_list : Option Value → List String
as_str_list (some (list items)) =
    if all is_str (to_list items) then map str_text (to_list items) else []
as_str_list _ = []

-- The files of a mapping, as `set(value)`; `not value` asks whether there are none.
abbrev pub files_of : Option Value → List String
files_of (some (dict fields)) = keys (to_dict fields)
files_of _ = []

-- `not _is_str_map(value) or not value`
abbrev pub ships_nothing : Option Value → Bool
ships_nothing value = not (is_str_map value) || is_empty (files_of value)

unfoldable pub repo_has_base_files : WorldGraph → List Issue
repo_has_base_files graph =
    flat_map
      (λ repo.
        when (ships_nothing (get "base_files" repo.attrs))
          (error_issue "repo_base_files_empty" repo.id))
      (by_kind graph "repo")

-- `tid.split("::", 1)[0]`
abbrev pub path_of : String → String
path_of tid = elim (find? tid "::") [ none ↦ tid | some k ↦ slice tid 0 k ]

-- `set(xs) & set(ys)` is not empty.
abbrev pub overlaps : List String → List String → Bool
overlaps xs ys = any (λ t. elem t ys) xs

unfoldable pub dangling : List String → String → List String → List Issue
dangling paths suite_id tids =
    flat_map
      (λ tid. when (not (elem (path_of tid) paths)) (error_issue "suite_test_id_dangling" suite_id))
      tids

unfoldable pub tier_issues :
    List String → String → List String → List String → List String → List String → List Issue
tier_issues paths suite_id f2p p2p units integration =
    if is_empty f2p && is_empty integration
    then error_issue "suite_grades_nothing" suite_id ∷ []
    else when (overlaps f2p p2p) (error_issue "suite_f2p_p2p_overlap" suite_id)
      ++ (when (overlaps units integration) (error_issue "suite_tier_overlap" suite_id)
          ++ dangling paths suite_id (f2p ++ (p2p ++ (units ++ integration))))

-- `_as_str_list(suite.attrs.get(tier))`
abbrev pub tier : String → Node → List String
tier name suite = as_str_list (get name suite.attrs)

unfoldable pub suite_round : Node → List Issue
suite_round suite =
    let test_files = get "test_files" suite.attrs in
    if ships_nothing test_files
    then error_issue "suite_test_files_empty" suite.id ∷ []
    else tier_issues (files_of test_files) suite.id (tier "fail_to_pass" suite)
        (tier "pass_to_pass" suite) (tier "unit_tests" suite) (tier "integration_tests" suite)

unfoldable pub suite_well_formed : WorldGraph → List Issue
suite_well_formed graph = flat_map suite_round (by_kind graph "test_suite")

unfoldable pub repo_links : WorldGraph → Node → List Issue
repo_links graph repo =
    when (not (length (out_edges graph repo.id (some "has_suite")) == 1))
      (error_issue "repo_suite_cardinality" repo.id)
    ++ when (not (length (out_edges graph repo.id (some "has_solution")) == 1))
        (error_issue "repo_solution_cardinality" repo.id)

unfoldable pub solution_present : WorldGraph → List Issue
solution_present graph =
    flat_map (repo_links graph) (by_kind graph "repo")
    ++ flat_map
        (λ solution.
          when (ships_nothing (get "gold_files" solution.attrs))
            (error_issue "solution_gold_files_empty" solution.id))
        (by_kind graph "solution")
