-- ===== src/Store/Loaded.antt =====
-- src/openrange/core/store.py: what holds of every snapshot that `load` gives, and how it fails.
use mathlib.Core.List.{map-append}
use open_range.Base.{
  String, List, [], ◌∷◌, false, Option, none, Dict, get, put, keys, All, All-append, elem,
  DistinctKeys, DistinctKeys-snoc, Bool-cases, Option-cases, ok, err, store_error, >>=-eq-ok,
  ok-injective, map_result, if-then_lem, if-else_lem, ◌==◌, string_eq, ◌≡◌, refl, sym, subst, inl,
  inr, none≢some,
}
use open_range.Value.{Value}
use open_range.Graph.{Node, Edge, WorldGraph, add_node, add_edge}
use open_range.Sdk.{Snapshot}
use open_range.Store.NewKeys.{put_new}
use open_range.Store.{
  Data, Files, parsed, node_from_dict, edge_from_dict, load_nodes, load_edges, meta_of,
  graph_from_dict, snapshot_from_dict, load, require_str, require_sequence, require_mapping,
  task_from_dict, event_from_dict,
}

-- Every node stands under its id, every edge too, and no key stands twice.
pub record IsKeyed (graph : WorldGraph) : Type 0 where
  pub nodes_keyed : All (λ (e : String × Node). e.0 ≡ e.1.id) graph.nodes
  pub nodes_differ : DistinctKeys (keys graph.nodes)
  pub edges_keyed : All (λ (e : String × Edge). e.0 ≡ e.1.id) graph.edges
  pub edges_differ : DistinctKeys (keys graph.edges)

elem_absent {ℓ} :
    {V : Type ℓ} (k : String) (d : Dict String V) → get k d ≡ none → elem k (keys d) ≡ false
unfolding get elem
elem_absent k [] h = refl
elem_absent k (e ∷ d) h = elim (Bool-cases (e.0 == k)) [
  | inl t ↦ absurd (none≢some (sym (rw t at h)))
  | inr f ↦ rw f (elem_absent k d (rw f at h))
]

module _ {ℓ κ} {V : Type ℓ} (P : String × V → Type κ) where
  -- A new key keeps what holds of all entries.
  put-All :
      (k : String) (v : V) (d : Dict String V)
      → get k d ≡ none
      → P (k, v)
      → All P d
      → DistinctKeys (keys d)
      → All P (put k v d) × DistinctKeys (keys (put k v d))
  put-All k v d h p all dist =
      let new = elem_absent k d h in
      rw (put_new k v d new, map-append)
        (All-append P d ((k, v) ∷ []) all (p, tt), DistinctKeys-snoc (keys d) k dist new)

add_node-IsKeyed :
    (graph g : WorldGraph) (n : Node) → IsKeyed graph → add_node graph n ≡ ok g → IsKeyed g
unfolding add_node
add_node-IsKeyed graph g n h e = elim (Option-cases (get n.id graph.nodes)) [
  | inl free ↦
      let (all, dist) =
        put-All (λ (x : String × Node). x.0 ≡ x.1.id) n.id n graph.nodes free refl h.nodes_keyed
          h.nodes_differ in
      subst IsKeyed (ok-injective (rw (free, add_node) at e)) (record {
        nodes_keyed = all;
        nodes_differ = dist;
        edges_keyed = h.edges_keyed;
        edges_differ = h.edges_differ;
      })
  | inr (old, taken) ↦ cc (rw (taken, add_node) at e)
]

add_edge-IsKeyed :
    (graph g : WorldGraph) (edge : Edge) → IsKeyed graph → add_edge graph edge ≡ ok g → IsKeyed g
unfolding add_edge
add_edge-IsKeyed graph g edge h e = elim (Option-cases (get edge.id graph.edges)) [
  | inl free ↦
      let (all, dist) =
        put-All (λ (x : String × Edge). x.0 ≡ x.1.id) edge.id edge graph.edges free refl
          h.edges_keyed h.edges_differ in
      subst IsKeyed (ok-injective (rw (free, add_edge) at e)) (record {
        nodes_keyed = h.nodes_keyed;
        nodes_differ = h.nodes_differ;
        edges_keyed = all;
        edges_differ = dist;
      })
  | inr (old, taken) ↦ cc (rw (taken, add_edge) at e)
]

load_nodes-IsKeyed :
    (ds : List Data) (graph g : WorldGraph) → IsKeyed graph → load_nodes ds graph ≡ ok g → IsKeyed g
unfolding load_nodes
load_nodes-IsKeyed [] graph g h e = subst IsKeyed (ok-injective e) h
load_nodes-IsKeyed (d ∷ ds) graph g h e =
    let (n, _, tail) = >>=-eq-ok (node_from_dict d) _ e in
    let (next, added, rest) = >>=-eq-ok (add_node graph n) _ tail in
    load_nodes-IsKeyed ds next g (add_node-IsKeyed graph next n h added) rest

load_edges-IsKeyed :
    (ds : List Data) (graph g : WorldGraph) → IsKeyed graph → load_edges ds graph ≡ ok g → IsKeyed g
unfolding load_edges
load_edges-IsKeyed [] graph g h e = subst IsKeyed (ok-injective e) h
load_edges-IsKeyed (d ∷ ds) graph g h e =
    let (edge, _, tail) = >>=-eq-ok (edge_from_dict d) _ e in
    let (next, added, rest) = >>=-eq-ok (add_edge graph edge) _ tail in
    load_edges-IsKeyed ds next g (add_edge-IsKeyed graph next edge h added) rest

graph_from_dict-IsKeyed : (d : Data) (g : WorldGraph) → graph_from_dict d ≡ ok g → IsKeyed g
unfolding graph_from_dict
graph_from_dict-IsKeyed d g e =
    let (ontology, _, t1) = >>=-eq-ok (require_str d "ontology") _ e in
    let blank : WorldGraph = record { ontology = ontology; nodes = []; edges = []; meta = [] } in
    let (nodes, _, t2) = >>=-eq-ok (require_sequence d "nodes") _ t1 in
    let (noded, p, t3) = >>=-eq-ok (load_nodes nodes blank) _ t2 in
    let (edges, _, t4) = >>=-eq-ok (require_sequence d "edges") _ t3 in
    let (full, q, t5) = >>=-eq-ok (load_edges edges noded) _ t4 in
    let (meta, _, t6) = >>=-eq-ok (meta_of (get "meta" d)) _ t5 in
    let empty : IsKeyed blank = record {
      nodes_keyed = tt;
      nodes_differ = tt;
      edges_keyed = tt;
      edges_differ = tt;
    } in
    let k : IsKeyed full =
      load_edges-IsKeyed edges noded full (load_nodes-IsKeyed nodes blank noded empty p) q in
    subst IsKeyed (ok-injective t6) (record {
      nodes_keyed = k.nodes_keyed;
      nodes_differ = k.nodes_differ;
      edges_keyed = k.edges_keyed;
      edges_differ = k.edges_differ;
    })

snapshot_from_dict-IsKeyed :
    (d : Data) (s : Snapshot) → snapshot_from_dict d ≡ ok s → IsKeyed s.graph
unfolding snapshot_from_dict
snapshot_from_dict-IsKeyed d s e =
    let (_, _, t1) = >>=-eq-ok (require_str d "snapshot_id") _ e in
    let (_, _, t2) = >>=-eq-ok (require_str d "ontology_id") _ t1 in
    let (graph_data, _, t3) = >>=-eq-ok (require_mapping d "graph") _ t2 in
    let (graph, p, t4) = >>=-eq-ok (graph_from_dict graph_data) _ t3 in
    let (task_data, _, t5) = >>=-eq-ok (require_sequence d "tasks") _ t4 in
    let (_, _, t6) = >>=-eq-ok (map_result task_from_dict task_data) _ t5 in
    let (_, _, t7) = >>=-eq-ok (require_mapping d "lineage") _ t6 in
    let (history_data, _, t8) = >>=-eq-ok (require_sequence d "history") _ t7 in
    let (_, _, t9) = >>=-eq-ok (map_result event_from_dict history_data) _ t8 in
    subst (λ (w : Snapshot). IsKeyed w.graph) (ok-injective t9)
      (graph_from_dict-IsKeyed graph_data graph p)

-- Whatever the files hold, a snapshot that `load` gives carries the id that was asked for, and its
-- graph holds every node and edge once, under its own id.
pub load-IsKeyed :
    (loads : String → Option Value) (dumps : Value → String) (files : Files) (snapshot_id : String)
    (s : Snapshot)
    → load dumps loads files snapshot_id ≡ ok s
    → (s.snapshot_id ≡ snapshot_id) × IsKeyed s.graph
unfolding load
load-IsKeyed loads dumps files snapshot_id s e =
    let (d, _, t1) = >>=-eq-ok (parsed dumps loads (get snapshot_id files)) _ e in
    let (w, p, t2) = >>=-eq-ok (snapshot_from_dict d) _ t1 in
    elim (Bool-cases (w.snapshot_id == snapshot_id)) [
      | inl same ↦
          subst (λ (v : Snapshot). (v.snapshot_id ≡ snapshot_id) × IsKeyed v.graph)
            (ok-injective
              (if-then_lem (w.snapshot_id == snapshot_id) (ok w) (err store_error) same t2))
            ((string_eq.beq_iff w.snapshot_id snapshot_id).0 same, snapshot_from_dict-IsKeyed d w p)
      | inr other ↦
          cc (if-else_lem (w.snapshot_id == snapshot_id) (ok w) (err store_error) other t2)
    ]
