-- ===== src/Graph.antt =====
-- packages/graphschema/src/graphschema/_ir.py: nodes, edges, `WorldGraph` and `GraphPatch`.
-- A method that mutates the graph returns the new graph, or the exception it raises.

pub mod Edits
pub mod Updates
pub mod Patches
use open_range.Base.{
  String, List, [], ◌∷◌, Bool, ◌&&◌, ◌||◌, Option, none, some, Dict, put, pop, contains, values,
  filter, map, Result, ok, err, key_error, ◌>>=◌, if◌then◌else◌, ◌==◌, string_eq, true,
}
use open_range.Value.{Value}

pub data Visibility : Type 0 where
  public : Visibility
  hidden : Visibility

pub data Role : Type 0 where
  actor : Role
  npc : Role
  external : Role

-- `roles` is a Python set, held as a list; `runtime` and `meta` are never read by the core.
pub record Node : Type 0 where
  pub id : String
  pub kind : String
  pub attrs : Dict String Value
  pub roles : List Role
  pub visibility : Visibility
  pub runtime : Dict String Value
  pub meta : Dict String Value

pub record Edge : Type 0 where
  pub id : String
  pub kind : String
  pub src : String
  pub dst : String
  pub attrs : Dict String Value

pub record WorldGraph : Type 0 where
  pub ontology : String
  pub nodes : Dict String Node
  pub edges : Dict String Edge
  pub meta : Dict String Value

unfoldable pub add_node : WorldGraph → Node → Result WorldGraph
add_node graph node =
    if contains node.id graph.nodes
    then err key_error
    else ok (record graph { nodes = put node.id node graph.nodes })

unfoldable pub add_edge : WorldGraph → Edge → Result WorldGraph
add_edge graph edge =
    if contains edge.id graph.edges
    then err key_error
    else ok (record graph { edges = put edge.id edge graph.edges })

-- `kind is None or e.kind == kind`
abbrev pub kind_matches : Option String → String → Bool
kind_matches none k = true
kind_matches (some kind) k = k == kind

unfoldable pub in_edges : WorldGraph → String → Option String → List Edge
in_edges graph node_id kind =
    filter (λ e. e.dst == node_id && kind_matches kind e.kind) (values graph.edges)

unfoldable pub out_edges : WorldGraph → String → Option String → List Edge
out_edges graph node_id kind =
    filter (λ e. e.src == node_id && kind_matches kind e.kind) (values graph.edges)

unfoldable pub by_kind : WorldGraph → String → List Node
by_kind graph kind = filter (λ n. n.kind == kind) (values graph.nodes)

pub record GraphPatch : Type 0 where
  pub nodes_added : List Node
  pub nodes_updated : List Node
  pub nodes_removed : List String
  pub edges_added : List Edge
  pub edges_updated : List Edge
  pub edges_removed : List String

-- `for eid in …: graph.edges.pop(eid, None)`
unfoldable pub pop_edges : List String → WorldGraph → WorldGraph
pop_edges [] graph = graph
pop_edges (eid ∷ eids) graph = pop_edges eids (record graph { edges = pop eid graph.edges })

-- The ids of the edges at a node.
abbrev pub incident : String → WorldGraph → List String
incident nid graph =
    map (λ e. e.id) (filter (λ e. e.src == nid || e.dst == nid) (values graph.edges))

-- One round of the first loop: the node goes, and with it every edge at it.
unfoldable pub remove_node : String → WorldGraph → WorldGraph
unfolding pop_edges
remove_node nid graph =
    let graph' = record graph { nodes = pop nid graph.nodes } in
    pop_edges (incident nid graph') graph'

unfoldable pub remove_nodes : List String → WorldGraph → WorldGraph
remove_nodes [] graph = graph
remove_nodes (nid ∷ nids) graph = remove_nodes nids (remove_node nid graph)

unfoldable pub update_nodes : List Node → WorldGraph → WorldGraph
update_nodes [] graph = graph
update_nodes (node ∷ nodes) graph =
    update_nodes nodes (record graph { nodes = put node.id node graph.nodes })

unfoldable pub update_edges : List Edge → WorldGraph → WorldGraph
update_edges [] graph = graph
update_edges (edge ∷ edges) graph =
    update_edges edges (record graph { edges = put edge.id edge graph.edges })

unfoldable pub add_nodes : List Node → WorldGraph → Result WorldGraph
unfolding add_node
add_nodes [] graph = ok graph
add_nodes (node ∷ nodes) graph = do graph' ← add_node graph node; add_nodes nodes graph'

unfoldable pub add_edges : List Edge → WorldGraph → Result WorldGraph
unfolding add_edge
add_edges [] graph = ok graph
add_edges (edge ∷ edges) graph = do graph' ← add_edge graph edge; add_edges edges graph'

-- Removals, then updates, then additions.
unfoldable pub apply_patch : WorldGraph → GraphPatch → Result WorldGraph
apply_patch graph patch =
    let removed = pop_edges patch.edges_removed (remove_nodes patch.nodes_removed graph) in
    let updated = update_edges patch.edges_updated (update_nodes patch.nodes_updated removed) in
    do with_nodes ← add_nodes patch.nodes_added updated; add_edges patch.edges_added with_nodes
