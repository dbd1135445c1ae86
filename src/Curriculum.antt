-- ===== src/Curriculum.antt =====
-- src/openrange/core/curriculum.py: from the reports of a round to the next world.
pub mod Difficulty
pub mod Evolve
pub mod OneShot
pub mod Candidates
pub mod Steering
pub mod Acceptance
use open_range.Base.{
  ℕ, ◌+◌, String, List, [], ◌∷◌, ◌++◌, Bool, ◌&&◌, Option, none, some, Dict, get, put, update,
  contains, map, filter, length, sort_by, format, Result, ok, ◌>>=◌, if◌then◌else◌, ◌==◌, string_eq,
}
use open_range.Value.{Value, null, float, str, dict, pos, fields_of, to_dict}
use open_range.Graph.{Node, Edge, WorldGraph}
use open_range.Wire.{obj}
use open_range.Floats.{Floats, less}
use open_range.Sdk.{
  TaskSpec, Manifest, Snapshot, TaskFamily, Pack, Mutation, EpisodeReport, passed, default_repair,
  default_evolve,
}
use open_range.Curriculum.Difficulty.{
  Direction, harden, soften, diversify, direction_value, float_values,
}

unfoldable pub count_passed : List EpisodeReport → ℕ
count_passed [] = 0
count_passed (r ∷ reports) = (if passed r then 1 else 0) + count_passed reports

-- `Node(…)` and `Edge(…)` with each field copied.
abbrev pub copy_node : Node → Node
copy_node n = record {
  id = n.id;
  kind = n.kind;
  attrs = n.attrs;
  roles = n.roles;
  visibility = n.visibility;
  runtime = n.runtime;
  meta = n.meta;
}

abbrev pub copy_edge : Edge → Edge
copy_edge e = record { id = e.id; kind = e.kind; src = e.src; dst = e.dst; attrs = e.attrs }

-- `for nid, n in graph.nodes.items(): cloned.nodes[nid] = …`
unfoldable pub clone_graph : WorldGraph → WorldGraph
unfolding update
clone_graph graph = record {
  ontology = graph.ontology;
  nodes = update [] (map (λ e. (e.0, copy_node e.1)) graph.nodes);
  edges = update [] (map (λ e. (e.0, copy_edge e.1)) graph.edges);
  meta = graph.meta;
}

-- `manifest_in`, if it is a dict, and else an empty manifest.
abbrev pub as_manifest : Option Value → Manifest
as_manifest (some (dict fs)) = to_dict fs
as_manifest _ = []

unfoldable pub manifest_of : Snapshot → Manifest
unfolding to_dict
manifest_of snapshot = as_manifest (get "manifest" snapshot.lineage)

module _ {F : Type 0} where
  -- `_PreBuiltPack` with its `_OneShotBuilder`.
  unfoldable pub pre_built_pack : Pack F → WorldGraph → List TaskSpec → Pack F
  pre_built_pack inner graph tasks = record {
    id = inner.id;
    version = inner.version;
    ontology = inner.ontology;
    invariants = inner.invariants;
    make_builder = λ prior. ok (record {
      build = λ manifest. ok (record {
        graph = graph;
        tasks = tasks;
        admission_meta = ("builder", str "core.curriculum._PreBuiltPack") ∷ [];
      });
      repair = default_repair;
      evolve = default_evolve;
    });
    task_families = inner.task_families;
    default_prior = none;
  }

  unfoldable pub enumerate_options :
      List (TaskFamily F) → Snapshot → List EpisodeReport → Result (List (Mutation F))
  enumerate_options [] snapshot reports = ok []
  enumerate_options (family ∷ families) snapshot reports = do
    options ← family.available_mutations snapshot reports
    rest ← enumerate_options families snapshot reports
    ok (options ++ rest)

  unfoldable pub regenerate : List (TaskFamily F) → WorldGraph → Manifest → Result (List TaskSpec)
  regenerate [] graph manifest = ok []
  regenerate (family ∷ families) graph manifest = do
    tasks ← family.generate graph manifest none
    rest ← regenerate families graph manifest
    ok (tasks ++ rest)

-- `EvolutionGate`
abbrev pub Gate : Type 0 → Type 0
Gate F = Snapshot → Mutation F → Result Bool

-- The dict of `_evolve_block`.
unfoldable pub evolve_block : String → String → String → Value → Value → String → Value
unfolding fields_of
evolve_block parent direction kind relevance family note = obj (
    ("parent_snapshot_id", str parent)
    ∷ ("direction", str direction)
    ∷ ("kind", str kind)
    ∷ ("relevance", relevance)
    ∷ ("family", family)
    ∷ ("note", str note)
    ∷ [])

-- `lineage.setdefault("curriculum_difficulty", carried)`, if `carried` is a dict.
unfoldable pub carry_difficulty : Option Value → Dict String Value → Dict String Value
carry_difficulty (some (dict fs)) lineage =
    if contains "curriculum_difficulty" lineage
    then lineage
    else put "curriculum_difficulty" (dict fs) lineage
carry_difficulty _ lineage = lineage

module _ (fl : Floats) where
  open fl use {F, of_ℕ, add, sub, div, neg, leb, beq, literal, repr, parse, fixed2}

  -- The keyword defaults 0.66 and 0.33.
  abbrev pub harden_threshold : F
  harden_threshold = literal 66 2

  abbrev pub soften_threshold : F
  soften_threshold = literal 33 2

  unfoldable pub direction_from_reports : F → F → List EpisodeReport → Option Direction
  unfolding count_passed
  direction_from_reports hard soft [] = none
  direction_from_reports hard soft (r ∷ rs) =
      let reports = r ∷ rs in
      let pass_rate = div (of_ℕ (count_passed reports)) (of_ℕ (length reports)) in
      if leb hard pass_rate
      then some harden
      else if leb pass_rate soft
      then some soften
      else some diversify

  -- `sorted(…, key=relevance, reverse=True)` keeps the order of equals.
  unfoldable pub patch_candidates :
      Pack F → Snapshot → List EpisodeReport → Direction → Result (List (Mutation F))
  unfolding enumerate_options filter sort_by
  patch_candidates pack snapshot reports direction = do
    options ← enumerate_options pack.task_families snapshot reports
    ok (
        sort_by (λ a b. leb b.relevance a.relevance)
          (filter (λ o. (o.direction == direction_value direction) && less fl (of_ℕ 0) o.relevance)
            options))

  unfoldable pub with_grow_lineage : Snapshot → Snapshot → Direction → Dict String F → Snapshot
  unfolding evolve_block fields_of update format
  with_grow_lineage result parent direction difficulty = record result {
    lineage =
        put "_evolve"
          (evolve_block parent.snapshot_id (direction_value direction) "grow" null null "")
          (put "curriculum_difficulty" (obj (float_values fl difficulty)) result.lineage);
    history =
        result.history
        ++ record {
          seq = pos (length result.history);
          phase = "evolve";
          detail = format (
              "grew from "
              ∷ parent.snapshot_id
              ∷ " via "
              ∷ direction_value direction
              ∷ " (regime)"
              ∷ []);
          refs = parent.snapshot_id ∷ [];
        }
          ∷ [];
  }

  unfoldable pub with_patch_lineage : Snapshot → Snapshot → Mutation F → Snapshot
  unfolding evolve_block carry_difficulty format
  with_patch_lineage result parent mutation = record result {
    lineage =
        put "_evolve"
          (evolve_block parent.snapshot_id mutation.direction "patch"
            (float (repr mutation.relevance)) (str mutation.family) mutation.note)
          (carry_difficulty (get "curriculum_difficulty" parent.lineage) result.lineage);
    history =
        result.history
        ++ record {
          seq = pos (length result.history);
          phase = "evolve";
          detail = format (
              "evolved from "
              ∷ parent.snapshot_id
              ∷ " via "
              ∷ mutation.family
              ∷ "/"
              ∷ mutation.direction
              ∷ " (relevance="
              ∷ fixed2 mutation.relevance
              ∷ ")"
              ∷ []);
          refs = parent.snapshot_id ∷ [];
        }
          ∷ [];
  }
