-- ===== src/Validate/Structure.antt =====
-- packages/graphschema/src/graphschema/_ir.py: what `_validate_structural` decides.
use open_range.Base.{
  String, [], some, get, All, All_map, inl, inr, flat_map-nil_iff, append-nil_iff, Option-cases,
  ◌≡◌, ◌≢◌, ◌↔◌, arith, string_eq, is_empty_str_iff,
}
use open_range.Graph.{Node, Edge, WorldGraph}
use open_range.Validate.{node_structure, edge_structure, validate_structural}

-- A node stands under its own id, and has an id and a kind.
pub record NodeFits (nid : String) (node : Node) : Type 0 where
  pub keyed : nid ≡ node.id
  pub has_id : node.id ≢ ""
  pub has_kind : node.kind ≢ ""

-- An edge too, and both of its ends are nodes of the graph.
pub record EdgeFits (graph : WorldGraph) (eid : String) (edge : Edge) : Type 0 where
  pub keyed : eid ≡ edge.id
  pub has_id : edge.id ≢ ""
  pub has_kind : edge.kind ≢ ""
  pub src_node : Node
  pub src_there : get edge.src graph.nodes ≡ some src_node
  pub dst_node : Node
  pub dst_there : get edge.dst graph.nodes ≡ some dst_node

pub record IsWellFormed (graph : WorldGraph) : Type 0 where
  pub nodes_fit : All (λ (e : String × Node). NodeFits e.0 e.1) graph.nodes
  pub edges_fit : All (λ (e : String × Edge). EdgeFits graph e.0 e.1) graph.edges

node_structure-fits : (e : String × Node) → node_structure e ≡ [] → NodeFits e.0 e.1
unfolding node_structure
node_structure-fits (nid, node) h = record {
  keyed = ground (arith, string_eq.beq_iff nid node.id);
  has_id = λ p. ground (arith, is_empty_str_iff node.id);
  has_kind = λ p. ground (arith, is_empty_str_iff node.kind);
}

fits-node_structure : (e : String × Node) → NodeFits e.0 e.1 → node_structure e ≡ []
unfolding node_structure
fits-node_structure (nid, node) h =
    ground
      (arith, string_eq.beq_iff nid node.id, is_empty_str_iff node.id, is_empty_str_iff node.kind)

module _ (graph : WorldGraph) where
  edge_structure-fits : (e : String × Edge) → edge_structure graph e ≡ [] → EdgeFits graph e.0 e.1
  unfolding edge_structure
  edge_structure-fits (eid, edge) h = elim (Option-cases (get edge.src graph.nodes)) [
    | inl missing ↦ absurd (ground arith)
    | inr (src, found) ↦ elim (Option-cases (get edge.dst graph.nodes)) [
      | inl missing ↦ absurd (ground arith)
      | inr (dst, found') ↦ record {
        keyed = ground (arith, string_eq.beq_iff eid edge.id);
        has_id = λ p. ground (arith, is_empty_str_iff edge.id);
        has_kind = λ p. ground (arith, is_empty_str_iff edge.kind);
        src_node = src;
        src_there = found;
        dst_node = dst;
        dst_there = found';
      }
    ]
  ]

  fits-edge_structure : (e : String × Edge) → EdgeFits graph e.0 e.1 → edge_structure graph e ≡ []
  unfolding edge_structure
  fits-edge_structure (eid, edge) h =
      ground
        (arith, string_eq.beq_iff eid edge.id, is_empty_str_iff edge.id, is_empty_str_iff edge.kind)

  -- The structural tier finds nothing exactly when the graph is well formed: every node and edge
  -- stands under its own, non-empty id and has a kind, and both ends of every edge are nodes.
  pub validate_structural-nil_iff : (validate_structural graph ≡ []) ↔ IsWellFormed graph
  unfolding validate_structural
  validate_structural-nil_iff = (
    λ e. record {
      nodes_fit =
          All_map node_structure-fits graph.nodes
            ((flat_map-nil_iff node_structure graph.nodes).0 ((append-nil_iff _ _).0 e).0);
      edges_fit =
          All_map edge_structure-fits graph.edges
            ((flat_map-nil_iff (edge_structure graph) graph.edges).0 ((append-nil_iff _ _).0 e).1);
    },
    λ h. (append-nil_iff _ _).1 (
      (flat_map-nil_iff node_structure graph.nodes).1
          (All_map fits-node_structure graph.nodes h.nodes_fit),
      (flat_map-nil_iff (edge_structure graph) graph.edges).1
          (All_map fits-edge_structure graph.edges h.edges_fit),
    ),
  )
