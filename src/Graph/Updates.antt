-- ===== src/Graph/Updates.antt =====
-- packages/graphschema/src/graphschema/_ir.py: the removals and updates of a patch.
use open_range.Base.{
  String, List, [], ◌∷◌, some, Dict, get, put, All, All-put, All_map, get-put, Bool-cases, ◌≡◌,
  refl, ◌≢◌, inl, inr, string_eq, ◌==◌,
}
use open_range.Graph.{
  Node, Edge, WorldGraph, pop_edges, remove_node, remove_nodes, update_nodes, update_edges,
}
use open_range.Graph.Edits.{All-pop_edges, nodes-pop_edges, remove_node-IsWellFormed}
use open_range.Validate.Structure.{NodeFits, EdgeFits, IsWellFormed}

abbrev pub HasNodes : Dict String Node → Type 0
HasNodes nodes = All (λ (e : String × Node). NodeFits e.0 e.1) nodes

abbrev pub HasEdges : WorldGraph → Dict String Edge → Type 0
HasEdges graph edges = All (λ (e : String × Edge). EdgeFits graph e.0 e.1) edges

-- Every node of `g` is still one of `h`, maybe with other contents.
abbrev pub Grows : WorldGraph → WorldGraph → Type 0
Grows g h =
    (k : String) (n : Node) → get k g.nodes ≡ some n → (n' : Node) × (get k h.nodes ≡ some n')

pub EdgeFits-Grows :
    {g h : WorldGraph} (k : String) (e : Edge) → Grows g h → EdgeFits g k e → EdgeFits h k e
EdgeFits-Grows k e grows fits =
    let (src, found) = grows e.src fits.src_node fits.src_there in
    let (dst, found') = grows e.dst fits.dst_node fits.dst_there in
    record {
      keyed = fits.keyed;
      has_id = fits.has_id;
      has_kind = fits.has_kind;
      src_node = src;
      src_there = found;
      dst_node = dst;
      dst_there = found';
    }

pub get-put_grows :
    (k j : String) (v n : Node) (d : Dict String Node)
    → get k d ≡ some n
    → (n' : Node) × (get k (put j v d) ≡ some n')
get-put_grows k j v n d h = elim (Bool-cases (j == k)) [
  | inl t ↦ (v, rw (get-put, t))
  | inr t ↦ (n, rw (get-put, t) h)
]

pub remove_nodes-IsWellFormed :
    (nids : List String) (graph : WorldGraph)
    → IsWellFormed graph
    → IsWellFormed (remove_nodes nids graph)
unfolding remove_nodes
remove_nodes-IsWellFormed [] graph wf = wf
remove_nodes-IsWellFormed (nid ∷ nids) graph wf =
    remove_nodes-IsWellFormed nids (remove_node nid graph) (remove_node-IsWellFormed nid graph wf)

pub pop_edges-IsWellFormed :
    (eids : List String) (graph : WorldGraph)
    → IsWellFormed graph
    → IsWellFormed (pop_edges eids graph)
pop_edges-IsWellFormed eids graph wf = record {
  nodes_fit = rw (nodes-pop_edges eids graph) wf.nodes_fit;
  edges_fit =
      All-pop_edges (λ e. EdgeFits (pop_edges eids graph) e.0 e.1) eids graph
        (All_map
          (λ e fits.
            inr (EdgeFits-Grows e.0 e.1 (λ k n h. (n, rw (nodes-pop_edges eids graph) h)) fits))
          graph.edges wf.edges_fit);
}

-- What a node of a patch must bring: an id and a kind.
pub record NodeIsNamed (node : Node) : Type 0 where
  pub has_id : node.id ≢ ""
  pub has_kind : node.kind ≢ ""

pub named-NodeFits : {node : Node} → NodeIsNamed node → NodeFits node.id node
named-NodeFits h = record { keyed = refl; has_id = h.has_id; has_kind = h.has_kind }

pub update_nodes-HasNodes :
    (nodes : List Node) (graph : WorldGraph)
    → All NodeIsNamed nodes
    → HasNodes graph.nodes
    → HasNodes (update_nodes nodes graph).nodes
unfolding update_nodes
update_nodes-HasNodes [] graph named fits = fits
update_nodes-HasNodes (node ∷ nodes) graph named fits =
    update_nodes-HasNodes nodes (record graph { nodes = put node.id node graph.nodes }) named.1
      (All-put (λ (e : String × Node). NodeFits e.0 e.1) node.id node graph.nodes
        (named-NodeFits named.0) fits)

pub update_nodes-Grows :
    (nodes : List Node) (graph : WorldGraph) → Grows graph (update_nodes nodes graph)
unfolding update_nodes
update_nodes-Grows [] graph k n h = (n, h)
update_nodes-Grows (node ∷ nodes) graph k n h =
    let (n', h') = get-put_grows k node.id node n graph.nodes h in
    update_nodes-Grows nodes (record graph { nodes = put node.id node graph.nodes }) k n' h'

pub edges-update_nodes :
    (nodes : List Node) (graph : WorldGraph) → (update_nodes nodes graph).edges ≡ graph.edges
unfolding update_nodes
edges-update_nodes [] graph = refl
edges-update_nodes (node ∷ nodes) graph =
    edges-update_nodes nodes (record graph { nodes = put node.id node graph.nodes })

pub nodes-update_edges :
    (edges : List Edge) (graph : WorldGraph) → (update_edges edges graph).nodes ≡ graph.nodes
unfolding update_edges
nodes-update_edges [] graph = refl
nodes-update_edges (edge ∷ edges) graph =
    nodes-update_edges edges (record graph { edges = put edge.id edge graph.edges })

pub update_edges-HasEdges :
    (final : WorldGraph) (edges : List Edge) (graph : WorldGraph)
    → All (λ (e : Edge). EdgeFits final e.id e) edges
    → HasEdges final graph.edges
    → HasEdges final (update_edges edges graph).edges
unfolding update_edges
update_edges-HasEdges final [] graph named fits = fits
update_edges-HasEdges final (edge ∷ edges) graph named fits =
    update_edges-HasEdges final edges (record graph { edges = put edge.id edge graph.edges })
      named.1
      (All-put (λ (e : String × Edge). EdgeFits final e.0 e.1) edge.id edge graph.edges named.0
        fits)
