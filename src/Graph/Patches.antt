-- ===== src/Graph/Patches.antt =====
-- packages/graphschema/src/graphschema/_ir.py: a whole patch keeps a graph well formed.
use open_range.Base.{
  String, List, [], ◌∷◌, some, get, put, contains, All, All-put, All_map, Bool-cases, ok, >>=-eq-ok,
  ok-injective, ◌≡◌, refl, ap, subst, inl, inr, arith, string_eq, sym, ◌∙◌,
}
use open_range.Graph.{
  Node, Edge, WorldGraph, GraphPatch, pop_edges, remove_nodes, update_nodes, update_edges, add_node,
  add_edge, add_nodes, add_edges, apply_patch,
}
use open_range.Validate.Structure.{NodeFits, EdgeFits, IsWellFormed}
use open_range.Graph.Updates.{
  HasNodes, HasEdges, Grows, EdgeFits-Grows, get-put_grows, remove_nodes-IsWellFormed,
  pop_edges-IsWellFormed, NodeIsNamed, named-NodeFits, update_nodes-HasNodes, update_nodes-Grows,
  edges-update_nodes, nodes-update_edges, update_edges-HasEdges,
}

add_node-eq-ok :
    (graph g : WorldGraph) (node : Node)
    → add_node graph node ≡ ok g
    → g ≡ record graph { nodes = put node.id node graph.nodes }
unfolding add_node
add_node-eq-ok graph g node h = elim (Bool-cases (contains node.id graph.nodes)) [
  | inl t ↦ absurd (ground arith)
  | inr t ↦ ground arith
]

-- What adding nodes keeps, and what it gives.
record Added (graph g : WorldGraph) : Type 0 where
  nodes_fit : HasNodes g.nodes
  grows : Grows graph g
  same_edges : g.edges ≡ graph.edges

add_nodes-Added :
    (nodes : List Node) (graph g : WorldGraph)
    → All NodeIsNamed nodes
    → HasNodes graph.nodes
    → add_nodes nodes graph ≡ ok g
    → Added graph g
unfolding add_nodes
add_nodes-Added [] graph g named fits h =
    subst (Added graph) (ok-injective h)
      (record { nodes_fit = fits; grows = λ k n p. (n, p); same_edges = refl })
add_nodes-Added (node ∷ nodes) graph g named fits h =
    let (graph', one, rest) = >>=-eq-ok (add_node graph node) (add_nodes nodes) h in
    let e : graph' ≡ record graph { nodes = put node.id node graph.nodes } =
      add_node-eq-ok graph graph' node one in
    let fits' : HasNodes graph'.nodes = rw e (
      All-put (λ (x : String × Node). NodeFits x.0 x.1) node.id node graph.nodes
        (named-NodeFits named.0) fits) in
    let more = add_nodes-Added nodes graph' g named.1 fits' rest in
    record {
      nodes_fit = more.nodes_fit;
      grows = λ k n p.
          let (n', p') = get-put_grows k node.id node n graph.nodes p in
          more.grows k n' (subst (λ (w : WorldGraph). get k w.nodes ≡ some n') (sym e) p');
      same_edges = more.same_edges ∙ ap (λ (w : WorldGraph). w.edges) e;
    }

add_edge-eq-ok :
    (graph g : WorldGraph) (edge : Edge)
    → add_edge graph edge ≡ ok g
    → g ≡ record graph { edges = put edge.id edge graph.edges }
unfolding add_edge
add_edge-eq-ok graph g edge h = elim (Bool-cases (contains edge.id graph.edges)) [
  | inl t ↦ absurd (ground arith)
  | inr t ↦ ground arith
]

nodes-add_edges :
    (edges : List Edge) (graph g : WorldGraph)
    → add_edges edges graph ≡ ok g
    → g.nodes ≡ graph.nodes
unfolding add_edges
nodes-add_edges [] graph g h = ap (λ (w : WorldGraph). w.nodes) (sym (ok-injective h))
nodes-add_edges (edge ∷ edges) graph g h =
    let (graph', one, rest) = >>=-eq-ok (add_edge graph edge) (add_edges edges) h in
    nodes-add_edges edges graph' g rest
    ∙ ap (λ (w : WorldGraph). w.nodes) (add_edge-eq-ok graph graph' edge one)

add_edges-HasEdges :
    (final : WorldGraph) (edges : List Edge) (graph g : WorldGraph)
    → All (λ (e : Edge). EdgeFits final e.id e) edges
    → HasEdges final graph.edges
    → add_edges edges graph ≡ ok g
    → HasEdges final g.edges
unfolding add_edges
add_edges-HasEdges final [] graph g named fits h =
    subst (λ (w : WorldGraph). HasEdges final w.edges) (ok-injective h) fits
add_edges-HasEdges final (edge ∷ edges) graph g named fits h =
    let (graph', one, rest) = >>=-eq-ok (add_edge graph edge) (add_edges edges) h in
    add_edges-HasEdges final edges graph' g named.1
      (rw (add_edge-eq-ok graph graph' edge one) (
        All-put (λ (x : String × Edge). EdgeFits final x.0 x.1) edge.id edge graph.edges named.0
          fits))
      rest

-- What a patch must bring: named nodes, and edges that fit the graph that comes out.
pub record PatchFits (final : WorldGraph) (patch : GraphPatch) : Type 0 where
  pub updated_named : All NodeIsNamed patch.nodes_updated
  pub added_named : All NodeIsNamed patch.nodes_added
  pub updated_fit : All (λ (e : Edge). EdgeFits final e.id e) patch.edges_updated
  pub added_fit : All (λ (e : Edge). EdgeFits final e.id e) patch.edges_added

-- If a patch applies to a well-formed graph, its nodes have ids and kinds, and its edges have ids,
-- kinds, and both ends among the nodes of the result, then the result is well formed: the removals
-- leave no old edge dangling.
pub apply_patch-IsWellFormed :
    (graph g : WorldGraph) (patch : GraphPatch)
    → IsWellFormed graph
    → apply_patch graph patch ≡ ok g
    → PatchFits g patch
    → IsWellFormed g
unfolding apply_patch
apply_patch-IsWellFormed graph g patch wf applied fits =
    let removed = pop_edges patch.edges_removed (remove_nodes patch.nodes_removed graph) in
    let wf' : IsWellFormed removed =
      pop_edges-IsWellFormed patch.edges_removed (remove_nodes patch.nodes_removed graph)
        (remove_nodes-IsWellFormed patch.nodes_removed graph wf) in
    let named = update_nodes patch.nodes_updated removed in
    let updated = update_edges patch.edges_updated named in
    let (with_nodes, one, rest) =
      >>=-eq-ok (add_nodes patch.nodes_added updated) (add_edges patch.edges_added) applied in
    let named_fit : HasNodes updated.nodes =
      rw (nodes-update_edges patch.edges_updated named)
        (update_nodes-HasNodes patch.nodes_updated removed fits.updated_named wf'.nodes_fit) in
    let added =
      add_nodes-Added patch.nodes_added updated with_nodes fits.added_named named_fit one in
    let same : g.nodes ≡ with_nodes.nodes = nodes-add_edges patch.edges_added with_nodes g rest in
    let grows : Grows removed g = λ k n p.
      let (n', p') = update_nodes-Grows patch.nodes_updated removed k n p in
      rw same (added.grows k n' (rw (nodes-update_edges patch.edges_updated named) p')) in
    let old : HasEdges g named.edges =
      rw (edges-update_nodes patch.nodes_updated removed)
        (All_map (λ e f. EdgeFits-Grows e.0 e.1 grows f) removed.edges wf'.edges_fit) in
    record {
      nodes_fit = rw same added.nodes_fit;
      edges_fit =
          add_edges-HasEdges g patch.edges_added with_nodes g fits.added_fit
            (rw added.same_edges
              (update_edges-HasEdges g patch.edges_updated named fits.updated_fit old))
            rest;
    }
