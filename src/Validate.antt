-- ===== src/Validate.antt =====
-- packages/graphschema/src/graphschema/_ir.py: `validate` and its three tiers.
pub mod Structure
pub mod Degrees
pub mod Caps
pub mod Errors
use open_range.Base.{
  ℕ, ◌+◌, String, List, [], ◌∷◌, ◌++◌, Bool, false, not, ◌&&◌, ◌||◌, Option, none, some, Dict, get,
  put, values, contains, any, is_empty, when, flat_map, ltb, Result, ok, err, key_error, ◌>>=◌,
  if◌then◌else◌, ◌==◌, string_eq, pair_eq, is_empty_str,
}
use open_range.Graph.{Node, Edge, WorldGraph}
use open_range.Schema.{EdgeKind, Ontology, Issue, error_issue, check_attrs, compose_node_attrs}

-- The rounds of the loops of `_validate_structural`. Ids and kinds are texts by their type here.
unfoldable pub node_structure : String × Node → List Issue
node_structure (nid, node) =
    when (not (nid == node.id)) (error_issue "node_id_mismatch" nid)
    ++ (when (is_empty_str node.id) (error_issue "node_missing_id" nid)
        ++ when (is_empty_str node.kind) (error_issue "node_missing_kind" node.id))

unfoldable pub edge_structure : WorldGraph → String × Edge → List Issue
edge_structure graph (eid, edge) =
    when (not (eid == edge.id)) (error_issue "edge_id_mismatch" eid)
    ++ (when (is_empty_str edge.id) (error_issue "edge_missing_id" eid)
        ++ (when (is_empty_str edge.kind) (error_issue "edge_missing_kind" edge.id)
            ++ (when (not (contains edge.src graph.nodes)) (error_issue "edge_dangling_src" edge.id)
                ++ when (not (contains edge.dst graph.nodes))
                    (error_issue "edge_dangling_dst" edge.id))))

unfoldable pub validate_structural : WorldGraph → List Issue
unfolding node_structure edge_structure flat_map
validate_structural graph =
    flat_map node_structure graph.nodes ++ flat_map (edge_structure graph) graph.edges

unfoldable pub node_conformance : WorldGraph → Ontology → Node → List Issue
unfolding check_attrs compose_node_attrs
node_conformance graph ontology node = elim (get node.kind ontology.node_kinds) [
  | none ↦ error_issue "unknown_node_kind" node.id ∷ []
  | some node_kind ↦ check_attrs node.id node.attrs (compose_node_attrs node_kind ontology) graph
]

-- The variables of the loop over the edges: the issues so far, and the two counts by
-- (node id, edge kind).
abbrev pub Counts : Type 0
Counts = Dict (String × String) ℕ

pub record Tally : Type 0 where
  pub issues : List Issue
  pub out_counts : Counts
  pub in_counts : Counts

-- `counts.get(key, 0)`
abbrev pub count_of : String × String → Counts → ℕ
count_of key counts = elim (get key counts) [ none ↦ 0 | some n ↦ n ]

unfoldable pub bump : String × String → Counts → Counts
bump key counts = put key (count_of key counts + 1) counts

unfoldable pub endpoint_issues : EdgeKind → Edge → Node → Node → List Issue
endpoint_issues edge_kind edge src_node dst_node =
    when
      (not (is_empty edge_kind.endpoints)
        && not (any (λ p. p == (src_node.kind, dst_node.kind)) edge_kind.endpoints))
      (error_issue "edge_endpoint_mismatch" edge.id)

unfoldable pub count_edge : Edge → EdgeKind → Option Node → Option Node → Tally → Tally
unfolding endpoint_issues bump
count_edge edge edge_kind (some src_node) (some dst_node) t = record {
  issues = t.issues ++ endpoint_issues edge_kind edge src_node dst_node;
  out_counts = bump (edge.src, edge.kind) t.out_counts;
  in_counts = bump (edge.dst, edge.kind) t.in_counts;
}
count_edge edge edge_kind _ _ t = t

unfoldable pub edge_round : WorldGraph → Ontology → Edge → Option EdgeKind → Tally → Tally
unfolding count_edge
edge_round graph ontology edge none t = record t {
  issues = t.issues ++ error_issue "unknown_edge_kind" edge.id ∷ [];
}
edge_round graph ontology edge (some edge_kind) t =
    count_edge edge edge_kind (get edge.src graph.nodes) (get edge.dst graph.nodes)
      (record t { issues = t.issues ++ check_attrs edge.id edge.attrs edge_kind.attrs graph })

unfoldable pub edge_rounds : WorldGraph → Ontology → List Edge → Tally → Tally
unfolding edge_round
edge_rounds graph ontology [] t = t
edge_rounds graph ontology (edge ∷ edges) t =
    edge_rounds graph ontology edges
      (edge_round graph ontology edge (get edge.kind ontology.edge_kinds) t)

-- `cap is not None and count > cap`
abbrev pub exceeds : Option ℕ → ℕ → Bool
exceeds none count = false
exceeds (some cap) count = ltb cap count

-- One round of a loop over a count: `ontology.edge_kinds[edge_kind_id]` raises on a missing key.
unfoldable pub degree_issue :
    (EdgeKind → Option ℕ) → String → Ontology → (String × String) × ℕ → Result (List Issue)
degree_issue cap code ontology e = elim (get e.0.1 ontology.edge_kinds) [
  | none ↦ err key_error
  | some edge_kind ↦ ok (when (exceeds (cap edge_kind) e.1) (error_issue code e.0.0))
]

unfoldable pub degree_issues :
    (EdgeKind → Option ℕ) → String → Ontology → Counts → Result (List Issue)
unfolding degree_issue
degree_issues cap code ontology [] = ok []
degree_issues cap code ontology (e ∷ counts) = do
  found ← degree_issue cap code ontology e
  rest ← degree_issues cap code ontology counts
  ok (found ++ rest)

unfoldable pub validate_conformance : WorldGraph → Ontology → Result (List Issue)
unfolding node_conformance edge_rounds degree_issues flat_map
validate_conformance graph ontology = do
  let nodes = flat_map (node_conformance graph ontology) (values graph.nodes)
  let t =
      edge_rounds graph ontology (values graph.edges)
        (record { issues = nodes; out_counts = []; in_counts = [] })
  outs ← degree_issues (λ k. k.src_max) "edge_src_degree_exceeded" ontology t.out_counts
  ins ← degree_issues (λ k. k.dst_max) "edge_dst_degree_exceeded" ontology t.in_counts
  ok (t.issues ++ (outs ++ ins))

-- A caller's invariant may raise.
abbrev pub Invariant : Type 0
Invariant = WorldGraph → Result (List Issue)

unfoldable pub run_invariants : List Invariant → WorldGraph → Result (List Issue)
run_invariants [] graph = ok []
run_invariants (inv ∷ invs) graph = do
  found ← inv graph
  rest ← run_invariants invs graph
  ok (found ++ rest)

unfoldable pub validate : WorldGraph → Ontology → List Invariant → Result (List Issue)
unfolding validate_structural validate_conformance run_invariants
validate graph ontology invariants = do
  conformance ← validate_conformance graph ontology
  found ← run_invariants invariants graph
  ok (validate_structural graph ++ (conformance ++ found))
