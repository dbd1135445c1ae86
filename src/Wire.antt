-- ===== src/Wire.antt =====
-- The JSON forms: `content_hash` of packages/graphschema/src/graphschema/_ir.py, and
-- `snapshot_to_dict` of src/openrange/core/admit.py.
pub mod Identity
use open_range.Base.{
  String, List, [], ◌∷◌, ◌++◌, Bool, true, false, not, Dict, map, values, when, is_empty, sort_by,
  str_leb,
}
use open_range.Value.{Value, str, list, dict, int, items_of, fields_of}
use open_range.Graph.{
  Node, Edge, WorldGraph, Role, actor, npc, external, Visibility, public, hidden,
}
use open_range.Sdk.{TaskSpec, BuildEvent, Snapshot}

abbrev pub role_value : Role → String
role_value actor = "actor"
role_value npc = "npc"
role_value external = "external"

abbrev pub visibility_value : Visibility → String
visibility_value public = "public"
visibility_value hidden = "hidden"

abbrev pub is_public : Visibility → Bool
is_public public = true
is_public hidden = false

-- A list of texts, and a dict, as values.
abbrev pub str_list : List String → Value
str_list xs = list (items_of (map str xs))

abbrev pub obj : Dict String Value → Value
obj d = dict (fields_of d)

-- `dict(sorted(d.items()))`: the keys differ, so they alone decide.
unfoldable pub sorted_items : Dict String Value → Dict String Value
sorted_items = sort_by (λ a b. str_leb a.0 b.0)

unfoldable pub role_values : List Role → List String
role_values roles = sort_by str_leb (map role_value roles)

unfoldable pub node_data : Node → Dict String Value
unfolding items_of fields_of
node_data node =
    (("id", str node.id) ∷ ("kind", str node.kind) ∷ ("attrs", obj (sorted_items node.attrs)) ∷ [])
    ++ (when (not (is_empty node.roles)) ("roles", str_list (role_values node.roles))
        ++ when (not (is_public node.visibility))
            ("visibility", str (visibility_value node.visibility)))

unfoldable pub edge_data : Edge → Dict String Value
unfolding fields_of
edge_data edge =
    (("id", str edge.id)
      ∷ ("kind", str edge.kind)
      ∷ ("src", str edge.src)
      ∷ ("dst", str edge.dst)
      ∷ [])
    ++ when (not (is_empty edge.attrs)) ("attrs", obj (sorted_items edge.attrs))

unfoldable pub sorted_nodes : WorldGraph → List Node
sorted_nodes graph = sort_by (λ a b. str_leb a.id b.id) (values graph.nodes)

unfoldable pub sorted_edges : WorldGraph → List Edge
sorted_edges graph = sort_by (λ a b. str_leb a.id b.id) (values graph.edges)

abbrev pub obj_list : List (Dict String Value) → Value
obj_list ds = list (items_of (map obj ds))

-- What `content_hash` encodes.
unfoldable pub content_data : WorldGraph → Value
unfolding items_of fields_of
content_data graph = obj (
    ("ontology", str graph.ontology)
    ∷ ("nodes", obj_list (map node_data (sorted_nodes graph)))
    ∷ ("edges", obj_list (map edge_data (sorted_edges graph)))
    ∷ [])

-- `digest` stands for `json.dumps`, SHA-256 and the hexadecimal text.
unfoldable pub content_hash : (Value → String) → WorldGraph → String
unfolding content_data
content_hash digest graph = digest (content_data graph)

-- `BuildEvent.to_dict`
unfoldable pub event_dict : BuildEvent → Dict String Value
unfolding items_of fields_of
event_dict e =
    (("seq", int e.seq) ∷ ("phase", str e.phase) ∷ ("detail", str e.detail) ∷ [])
    ++ when (not (is_empty e.refs)) ("refs", str_list e.refs)

unfoldable pub node_dict : Node → Dict String Value
unfolding items_of fields_of
node_dict n =
    (("id", str n.id) ∷ ("kind", str n.kind) ∷ ("attrs", obj (sorted_items n.attrs)) ∷ [])
    ++ (when (not (is_empty n.roles)) ("roles", str_list (role_values n.roles))
        ++ when (not (is_public n.visibility)) ("visibility", str (visibility_value n.visibility)))

unfoldable pub edge_dict : Edge → Dict String Value
unfolding fields_of
edge_dict e =
    (("id", str e.id) ∷ ("kind", str e.kind) ∷ ("src", str e.src) ∷ ("dst", str e.dst) ∷ [])
    ++ when (not (is_empty e.attrs)) ("attrs", obj (sorted_items e.attrs))

unfoldable pub graph_dict : WorldGraph → Dict String Value
unfolding node_dict edge_dict
graph_dict graph =
    (("ontology", str graph.ontology)
      ∷ ("nodes", obj_list (map node_dict (sorted_nodes graph)))
      ∷ ("edges", obj_list (map edge_dict (sorted_edges graph)))
      ∷ [])
    ++ when (not (is_empty graph.meta)) ("meta", obj (sorted_items graph.meta))

unfoldable pub task_dict : TaskSpec → Dict String Value
unfolding items_of fields_of
task_dict t =
    (("id", str t.id)
      ∷ ("instruction", str t.instruction)
      ∷ ("entrypoints", str_list t.entrypoints)
      ∷ ("goal_nodes", str_list t.goal_nodes)
      ∷ ("feasibility_check", str t.feasibility_check)
      ∷ ("success_check", str t.success_check)
      ∷ [])
    ++ when (not (is_empty t.meta)) ("meta", obj t.meta)

unfoldable pub snapshot_to_dict : Snapshot → Dict String Value
unfolding graph_dict task_dict event_dict
snapshot_to_dict snap =
    ("snapshot_id", str snap.snapshot_id)
    ∷ ("ontology_id", str snap.ontology_id)
    ∷ ("graph", obj (graph_dict snap.graph))
    ∷ ("tasks", obj_list (map task_dict snap.tasks))
    ∷ ("lineage", obj snap.lineage)
    ∷ ("history", obj_list (map event_dict snap.history))
    ∷ []
