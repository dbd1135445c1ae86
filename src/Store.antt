-- ===== src/Store.antt =====
-- src/openrange/core/store.py: snapshots from their JSON form, and the files that hold them.
pub mod Entries
pub mod NewKeys
pub mod Loaded
pub mod RoundTrip
use open_range.Base.{
  String, List, [], ◌∷◌, ◌++◌, Option, none, some, Dict, get, put, update, Result, ok, err,
  store_error, ◌>>=◌, map_result, if◌then◌else◌, ◌==◌, string_eq,
}
use open_range.Value.{Value, null, int, str, list, dict, ℤ, to_list, to_dict}
use open_range.Graph.{
  Node, Edge, WorldGraph, add_node, add_edge, Role, actor, npc, external, Visibility, public,
  hidden,
}
use open_range.Sdk.{TaskSpec, BuildEvent, Snapshot}
use open_range.Wire.{snapshot_to_dict, obj}

abbrev pub Data : Type 0
Data = Dict String Value

abbrev pub text_of : Option Value → Result String
text_of (some (str s)) = ok s
text_of _ = err store_error

unfoldable pub require_str : Data → String → Result String
require_str d key = text_of (get key d)

abbrev pub mapping_of : Option Value → Result Data
mapping_of (some (dict fs)) = ok (to_dict fs)
mapping_of _ = err store_error

unfoldable pub require_mapping : Data → String → Result Data
unfolding to_dict
require_mapping d key = mapping_of (get key d)

-- Every item of a sequence is to be a mapping.
unfoldable pub mappings : List Value → Result (List Data)
unfolding to_dict
mappings [] = ok []
mappings (v ∷ vs) = do m ← mapping_of (some v); ms ← mappings vs; ok (m ∷ ms)

abbrev pub sequence_of : Option Value → Result (List Data)
sequence_of (some (list vs)) = mappings (to_list vs)
sequence_of _ = err store_error

unfoldable pub require_sequence : Data → String → Result (List Data)
unfolding mappings to_list
require_sequence d key = sequence_of (get key d)

-- A list of texts, with `default` for a missing key.
unfoldable pub all_texts : List Value → Result (List String)
all_texts [] = ok []
all_texts (v ∷ vs) = do s ← text_of (some v); ss ← all_texts vs; ok (s ∷ ss)

abbrev pub texts_of : Option Value → Result (List String)
texts_of none = ok []
texts_of (some (list vs)) = all_texts (to_list vs)
texts_of (some _) = err store_error

unfoldable pub texts_at : Data → String → Result (List String)
unfolding all_texts to_list
texts_at d key = texts_of (get key d)

-- `data.get(key, {})`, which must be a mapping.
abbrev pub mapping_or_empty : Option Value → Result Data
mapping_or_empty none = ok []
mapping_or_empty (some v) = mapping_of (some v)

unfoldable pub mapping_at : Data → String → Result Data
unfolding to_dict
mapping_at d key = mapping_or_empty (get key d)

-- `Role(r)` and `Visibility(v)` raise on a text that is no member.
unfoldable pub role_from : String → Result Role
role_from s =
    if s == "actor"
    then ok actor
    else if s == "npc"
    then ok npc
    else if s == "external"
    then ok external
    else err store_error

unfoldable pub visibility_from : String → Result Visibility
visibility_from s =
    if s == "public" then ok public else if s == "hidden" then ok hidden else err store_error

abbrev pub visibility_of : Option Value → Result Visibility
visibility_of none = ok public
visibility_of (some (str s)) = visibility_from s
visibility_of (some _) = err store_error

unfoldable pub node_from_dict : Data → Result Node
node_from_dict d = do
  role_texts ← texts_at d "roles"
  roles ← map_result role_from role_texts
  visibility ← visibility_of (get "visibility" d)
  attrs ← mapping_at d "attrs"
  id ← require_str d "id"
  kind ← require_str d "kind"
  ok (record {
    id = id;
    kind = kind;
    attrs = attrs;
    roles = roles;
    visibility = visibility;
    runtime = [];
    meta = [];
  })

unfoldable pub edge_from_dict : Data → Result Edge
edge_from_dict d = do
  attrs ← mapping_at d "attrs"
  id ← require_str d "id"
  kind ← require_str d "kind"
  src ← require_str d "src"
  dst ← require_str d "dst"
  ok (record { id = id; kind = kind; src = src; dst = dst; attrs = attrs })

unfoldable pub task_from_dict : Data → Result TaskSpec
task_from_dict d = do
  entrypoints ← texts_at d "entrypoints"
  goal_nodes ← texts_at d "goal_nodes"
  meta ← mapping_at d "meta"
  id ← require_str d "id"
  instruction ← require_str d "instruction"
  feasibility_check ← require_str d "feasibility_check"
  success_check ← require_str d "success_check"
  ok (record {
    id = id;
    instruction = instruction;
    entrypoints = entrypoints;
    goal_nodes = goal_nodes;
    feasibility_check = feasibility_check;
    success_check = success_check;
    meta = meta;
  })

abbrev pub int_of : Option Value → Result ℤ
int_of (some (int n)) = ok n
int_of _ = err store_error

unfoldable pub event_from_dict : Data → Result BuildEvent
event_from_dict d = do
  refs ← texts_at d "refs"
  seq ← int_of (get "seq" d)
  phase ← require_str d "phase"
  detail ← require_str d "detail"
  ok (record { seq = seq; phase = phase; detail = detail; refs = refs })

unfoldable pub load_nodes : List Data → WorldGraph → Result WorldGraph
load_nodes [] graph = ok graph
load_nodes (d ∷ ds) graph = do
  node ← node_from_dict d
  graph' ← add_node graph node
  load_nodes ds graph'

unfoldable pub load_edges : List Data → WorldGraph → Result WorldGraph
load_edges [] graph = ok graph
load_edges (d ∷ ds) graph = do
  edge ← edge_from_dict d
  graph' ← add_edge graph edge
  load_edges ds graph'

-- `meta_raw is not None`: a null is passed over like a missing key.
abbrev pub meta_of : Option Value → Result Data
meta_of none = ok []
meta_of (some null) = ok []
meta_of (some v) = mapping_of (some v)

unfoldable pub graph_from_dict : Data → Result WorldGraph
graph_from_dict d = do
  ontology ← require_str d "ontology"
  nodes ← require_sequence d "nodes"
  with_nodes ← load_nodes nodes (record { ontology = ontology; nodes = []; edges = []; meta = [] })
  edges ← require_sequence d "edges"
  graph ← load_edges edges with_nodes
  meta ← meta_of (get "meta" d)
  ok (record graph { meta = update graph.meta meta })

unfoldable pub snapshot_from_dict : Data → Result Snapshot
snapshot_from_dict d = do
  snapshot_id ← require_str d "snapshot_id"
  ontology_id ← require_str d "ontology_id"
  graph_data ← require_mapping d "graph"
  graph ← graph_from_dict graph_data
  task_data ← require_sequence d "tasks"
  tasks ← map_result task_from_dict task_data
  lineage ← require_mapping d "lineage"
  history_data ← require_sequence d "history"
  history ← map_result event_from_dict history_data
  ok (record {
    snapshot_id = snapshot_id;
    ontology_id = ontology_id;
    graph = graph;
    tasks = tasks;
    lineage = lineage;
    history = history;
  })

-- The files under the root, by snapshot id, as `<root>/<snapshot_id>.json` holds them.
abbrev pub Files : Type 0
Files = Dict String String

module _ (dumps : Value → String) (loads : String → Option Value) where
  unfoldable pub save : Files → Snapshot → Files
  unfolding snapshot_to_dict put
  save files snapshot = put snapshot.snapshot_id (dumps (obj (snapshot_to_dict snapshot))) files

  abbrev pub parsed : Option String → Result Data
  parsed none = err store_error
  parsed (some raw) = mapping_of (loads raw)

  unfoldable pub load : Files → String → Result Snapshot
  unfolding snapshot_from_dict
  load files snapshot_id = do
    d ← parsed (get snapshot_id files)
    snap ← snapshot_from_dict d
    if snap.snapshot_id == snapshot_id then ok snap else err store_error
