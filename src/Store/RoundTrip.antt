-- ===== src/Store/RoundTrip.antt =====
-- src/openrange/core/store.py: a snapshot that is written and read again.
use open_range.Base.{
  String, List, [], ◌∷◌, ◌++◌, false, Dict, get, keys, map, values, elem, DistinctKeys,
  DistinctKeys-sort_by, Result, ok, map_result, string_eq, ◌≡◌, refl, sym, ap, ◌∙◌, append_assoc,
  append-nil,
}
use open_range.Value.{Value}
use open_range.Graph.{Node, Edge, WorldGraph, add_node, add_edge}
use open_range.Sdk.{Snapshot}
use open_range.Wire.{
  obj, sorted_items, sorted_nodes, sorted_edges, node_dict, edge_dict, graph_dict, task_dict,
  event_dict, snapshot_to_dict,
}
use open_range.Store.{
  mappings, require_sequence, require_mapping, require_str, task_from_dict, event_from_dict,
  load_nodes, load_edges, meta_of, graph_from_dict, snapshot_from_dict,
}
use open_range.Store.NewKeys.{put_new, get_new, AllNew, AllNew-snoc, AllNew-empty, update_new}
use open_range.Store.Entries.{
  tail_meta, canonical_node, canonical_edge, to_dict-fields_of, to_list-items_of, mappings-map,
  node_from_dict-node_dict, edge_from_dict-edge_dict, task_from_dict-task_dict,
  event_from_dict-event_dict,
}

abbrev kept_nodes : List Node → Dict String Node
kept_nodes = map (λ n. (n.id, canonical_node n))

abbrev kept_edges : List Edge → Dict String Edge
kept_edges = map (λ e. (e.id, canonical_edge e))

add_node-new :
    (graph : WorldGraph) (n : Node)
    → elem n.id (keys graph.nodes) ≡ false
    → add_node graph n ≡ ok (record graph { nodes = graph.nodes ++ (n.id, n) ∷ [] })
unfolding add_node
add_node-new graph n new = rw (get_new n.id graph.nodes new, put_new n.id n graph.nodes new) refl

add_edge-new :
    (graph : WorldGraph) (e : Edge)
    → elem e.id (keys graph.edges) ≡ false
    → add_edge graph e ≡ ok (record graph { edges = graph.edges ++ (e.id, e) ∷ [] })
unfolding add_edge
add_edge-new graph e new = rw (get_new e.id graph.edges new, put_new e.id e graph.edges new) refl

load_nodes_lem :
    (ns : List Node) (graph : WorldGraph)
    → DistinctKeys (map (λ n. n.id) ns)
    → AllNew (map (λ n. n.id) ns) graph.nodes
    → load_nodes (map node_dict ns) graph
      ≡ ok (record graph { nodes = graph.nodes ++ kept_nodes ns })
unfolding load_nodes
load_nodes_lem [] graph d new =
    ap (λ (ms : Dict String Node). ok (record graph { nodes = ms })) (sym (append-nil graph.nodes))
load_nodes_lem (n ∷ ns) graph d new =
    let m = canonical_node n in
    let next : WorldGraph = record graph { nodes = graph.nodes ++ (n.id, m) ∷ [] } in
    rw (node_from_dict-node_dict n, add_node-new graph m new.0)
      (load_nodes_lem ns next d.1 (AllNew-snoc (map (λ x. x.id) ns) n.id m graph.nodes d.0 new.1)
        ∙ ap (λ (ms : Dict String Node). ok (record graph { nodes = ms }))
            (append_assoc graph.nodes ((n.id, m) ∷ []) (kept_nodes ns)))

load_edges_lem :
    (es : List Edge) (graph : WorldGraph)
    → DistinctKeys (map (λ e. e.id) es)
    → AllNew (map (λ e. e.id) es) graph.edges
    → load_edges (map edge_dict es) graph
      ≡ ok (record graph { edges = graph.edges ++ kept_edges es })
unfolding load_edges
load_edges_lem [] graph d new =
    ap (λ (ms : Dict String Edge). ok (record graph { edges = ms })) (sym (append-nil graph.edges))
load_edges_lem (e ∷ es) graph d new =
    let m = canonical_edge e in
    let next : WorldGraph = record graph { edges = graph.edges ++ (e.id, m) ∷ [] } in
    rw (edge_from_dict-edge_dict e, add_edge-new graph m new.0)
      (load_edges_lem es next d.1 (AllNew-snoc (map (λ x. x.id) es) e.id m graph.edges d.0 new.1)
        ∙ ap (λ (ms : Dict String Edge). ok (record graph { edges = ms }))
            (append_assoc graph.edges ((e.id, m) ∷ []) (kept_edges es)))

-- Each node and each edge has an id of its own, and a key of the meta stands once.
pub record HasDistinctIds (graph : WorldGraph) : Type 0 where
  pub nodes_differ : DistinctKeys (map (λ (n : Node). n.id) (values graph.nodes))
  pub edges_differ : DistinctKeys (map (λ (e : Edge). e.id) (values graph.edges))
  pub meta_differ : DistinctKeys (keys graph.meta)

-- The graph that the file keeps.
abbrev pub canonical_graph : WorldGraph → WorldGraph
canonical_graph graph = record {
  ontology = graph.ontology;
  nodes = kept_nodes (sorted_nodes graph);
  edges = kept_edges (sorted_edges graph);
  meta = sorted_items graph.meta;
}

module _ (graph : WorldGraph) where
  graph_ontology : require_str (graph_dict graph) "ontology" ≡ ok graph.ontology
  unfolding require_str graph_dict get
  graph_ontology = refl

  graph_nodes :
      require_sequence (graph_dict graph) "nodes" ≡ ok (map node_dict (sorted_nodes graph))
  unfolding require_sequence graph_dict get
  graph_nodes =
      ap mappings (to_list-items_of (map obj (map node_dict (sorted_nodes graph))))
      ∙ mappings-map (map node_dict (sorted_nodes graph))

  graph_edges :
      require_sequence (graph_dict graph) "edges" ≡ ok (map edge_dict (sorted_edges graph))
  unfolding require_sequence graph_dict get
  graph_edges =
      ap mappings (to_list-items_of (map obj (map edge_dict (sorted_edges graph))))
      ∙ mappings-map (map edge_dict (sorted_edges graph))

  graph_meta : meta_of (get "meta" (graph_dict graph)) ≡ ok (sorted_items graph.meta)
  unfolding graph_dict get
  graph_meta = tail_meta graph.meta

  nodes_ordered :
      HasDistinctIds graph → DistinctKeys (map (λ (n : Node). n.id) (sorted_nodes graph))
  unfolding sorted_nodes
  nodes_ordered h = DistinctKeys-sort_by (λ (n : Node). n.id) _ (values graph.nodes) h.nodes_differ

  edges_ordered :
      HasDistinctIds graph → DistinctKeys (map (λ (e : Edge). e.id) (sorted_edges graph))
  unfolding sorted_edges
  edges_ordered h = DistinctKeys-sort_by (λ (e : Edge). e.id) _ (values graph.edges) h.edges_differ

  meta_ordered : HasDistinctIds graph → DistinctKeys (keys (sorted_items graph.meta))
  unfolding sorted_items
  meta_ordered h = DistinctKeys-sort_by (λ (e : String × Value). e.0) _ graph.meta h.meta_differ

  pub graph_from_dict-graph_dict :
      HasDistinctIds graph → graph_from_dict (graph_dict graph) ≡ ok (canonical_graph graph)
  unfolding graph_from_dict
  graph_from_dict-graph_dict h =
      let blank : WorldGraph = record {
        ontology = graph.ontology;
        nodes = [];
        edges = [];
        meta = [];
      } in
      let noded : WorldGraph = record blank { nodes = kept_nodes (sorted_nodes graph) } in
      rw
        (
          graph_ontology,
          graph_nodes,
          load_nodes_lem (sorted_nodes graph) blank (nodes_ordered h)
              (AllNew-empty Node (map (λ n. n.id) (sorted_nodes graph))),
          graph_edges,
          load_edges_lem (sorted_edges graph) noded (edges_ordered h)
              (AllNew-empty Edge (map (λ e. e.id) (sorted_edges graph))),
          graph_meta,
          update_new [] (sorted_items graph.meta) (meta_ordered h)
              (AllNew-empty Value (keys (sorted_items graph.meta))),
        )
        refl

-- A snapshot as the file keeps it: only its graph may differ.
abbrev pub canonical : Snapshot → Snapshot
canonical s = record s { graph = canonical_graph s.graph }

map_result-map {ℓ κ μ} :
    {A : Type ℓ} {B : Type κ} {C : Type μ} (f : B → Result C) (g : A → B) (h : A → C)
    → ((a : A) → f (g a) ≡ ok (h a))
    → (xs : List A) → map_result f (map g xs) ≡ ok (map h xs)
unfolding map_result
map_result-map f g h e [] = refl
map_result-map f g h e (x ∷ xs) = rw (e x, map_result-map f g h e xs) refl

map_same {ℓ} : {A : Type ℓ} (xs : List A) → map (λ a. a) xs ≡ xs
map_same [] = refl
map_same (x ∷ xs) = ap (λ r. x ∷ r) (map_same xs)

module _ (s : Snapshot) where
  snapshot_text :
      (require_str (snapshot_to_dict s) "snapshot_id" ≡ ok s.snapshot_id)
      × (require_str (snapshot_to_dict s) "ontology_id" ≡ ok s.ontology_id)
  unfolding require_str snapshot_to_dict get
  snapshot_text = (refl, refl)

  snapshot_graph : require_mapping (snapshot_to_dict s) "graph" ≡ ok (graph_dict s.graph)
  unfolding require_mapping snapshot_to_dict get
  snapshot_graph = ap ok (to_dict-fields_of (graph_dict s.graph))

  snapshot_lineage : require_mapping (snapshot_to_dict s) "lineage" ≡ ok s.lineage
  unfolding require_mapping snapshot_to_dict get
  snapshot_lineage = ap ok (to_dict-fields_of s.lineage)

  snapshot_tasks : require_sequence (snapshot_to_dict s) "tasks" ≡ ok (map task_dict s.tasks)
  unfolding require_sequence snapshot_to_dict get
  snapshot_tasks =
      ap mappings (to_list-items_of (map obj (map task_dict s.tasks)))
      ∙ mappings-map (map task_dict s.tasks)

  snapshot_history : require_sequence (snapshot_to_dict s) "history" ≡ ok (map event_dict s.history)
  unfolding require_sequence snapshot_to_dict get
  snapshot_history =
      ap mappings (to_list-items_of (map obj (map event_dict s.history)))
      ∙ mappings-map (map event_dict s.history)

  tasks_back : map_result task_from_dict (map task_dict s.tasks) ≡ ok s.tasks
  tasks_back =
      map_result-map task_from_dict task_dict (λ t. t) task_from_dict-task_dict s.tasks
      ∙ ap ok (map_same s.tasks)

  history_back : map_result event_from_dict (map event_dict s.history) ≡ ok s.history
  history_back =
      map_result-map event_from_dict event_dict (λ e. e) event_from_dict-event_dict s.history
      ∙ ap ok (map_same s.history)

  -- If the ids of the nodes differ, and those of the edges, and the keys of the graph's meta, then
  -- reading back what was written gives the snapshot with its graph in the form of the file: nodes and
  -- edges in the order of their ids, attributes and roles sorted, and no runtime or meta on a node.
  pub snapshot_from_dict-snapshot_to_dict :
      HasDistinctIds s.graph → snapshot_from_dict (snapshot_to_dict s) ≡ ok (canonical s)
  unfolding snapshot_from_dict
  snapshot_from_dict-snapshot_to_dict h =
      let (a, b) = snapshot_text in
      rw
        (
          a,
          b,
          snapshot_graph,
          graph_from_dict-graph_dict s.graph h,
          snapshot_tasks,
          tasks_back,
          snapshot_lineage,
          snapshot_history,
          history_back,
        )
        refl
