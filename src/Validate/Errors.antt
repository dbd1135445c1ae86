-- ===== src/Validate/Errors.antt =====
-- packages/graphschema/src/graphschema/_ir.py: the first two tiers report errors, never warnings, so
-- a graph that admission finds free of errors has passed them.
use open_range.Base.{
  ℕ, String, List, [], ◌∷◌, ◌++◌, Bool, true, false, Option, none, some, Dict, get, values, filter,
  when, flat_map, All, All-append, Option-cases, ok, >>=-eq-ok, ok-injective, ◌≡◌, refl, inl, inr,
  arith, string_eq, ◌==◌,
}
use open_range.Value.{Value}
use open_range.Graph.{Node, Edge, WorldGraph}
use open_range.Schema.{
  AttrType, AttrSpec, EdgeKind, Ontology, Issue, error_issue, check_enum, check_target, check_ref,
  check_by_type, check_attr, check_attrs, compose_node_attrs,
}
use open_range.Validate.{
  Tally, Counts, node_structure, edge_structure, validate_structural, node_conformance,
  endpoint_issues, count_edge, edge_round, edge_rounds, degree_issue, degree_issues,
  validate_conformance,
}

abbrev pub IsError : Issue → Type 0
IsError i = i.severity ≡ "error"

abbrev pub only_errors : List Issue → List Issue
only_errors = filter (λ i. i.severity == "error")

pub only_errors-append :
    (xs ys : List Issue) → only_errors (xs ++ ys) ≡ only_errors xs ++ only_errors ys
unfolding filter
only_errors-append [] ys = refl
only_errors-append (x ∷ xs) ys = ground (arith, only_errors-append xs ys)

pub only_errors-all : (xs : List Issue) → All IsError xs → only_errors xs ≡ xs
unfolding filter
only_errors-all [] h = refl
only_errors-all (x ∷ xs) h =
    ground (arith, string_eq.beq_iff x.severity "error", only_errors-all xs h.1, h.0)

All-when : (b : Bool) (code where_id : String) → All IsError (when b (error_issue code where_id))
All-when true code where_id = (refl, tt)
All-when false code where_id = tt

pub All-flat_map {ℓ} :
    {A : Type ℓ} (f : A → List Issue) (xs : List A)
    → ((x : A) → All IsError (f x))
    → All IsError (flat_map f xs)
unfolding flat_map
All-flat_map f [] h = tt
All-flat_map f (x ∷ xs) h = All-append IsError (f x) (flat_map f xs) (h x) (All-flat_map f xs h)

node_structure-All : (e : String × Node) → All IsError (node_structure e)
unfolding node_structure
node_structure-All (nid, node) = ground arith

edge_structure-All : (graph : WorldGraph) (e : String × Edge) → All IsError (edge_structure graph e)
unfolding edge_structure
edge_structure-All graph (eid, edge) = ground arith

pub validate_structural-All : (graph : WorldGraph) → All IsError (validate_structural graph)
unfolding validate_structural
validate_structural-All graph =
    All-append IsError (flat_map node_structure graph.nodes)
      (flat_map (edge_structure graph) graph.edges)
      (All-flat_map node_structure graph.nodes node_structure-All)
      (All-flat_map (edge_structure graph) graph.edges (edge_structure-All graph))

check_by_type-All :
    (type : AttrType) (where_id : String) (value : Value) (spec : AttrSpec) (graph : WorldGraph)
    → All IsError (check_by_type type where_id value spec graph)
unfolding check_by_type check_enum check_ref check_target
check_by_type-All type where_id value spec graph = ground arith

check_attrs-All :
    (where_id : String) (vals : Dict String Value) (specs : Dict String AttrSpec)
    (graph : WorldGraph)
    → All IsError (check_attrs where_id vals specs graph)
unfolding check_attrs check_attr
check_attrs-All where_id vals specs graph = All-flat_map _ specs (λ e. of_option e.1 (get e.0 vals))
  where
    of_option :
        (spec : AttrSpec) (o : Option Value) → All IsError (check_attr where_id o spec graph)
    of_option spec none = All-when spec.required "missing_required_attr" where_id
    of_option spec (some v) = check_by_type-All spec.type where_id v spec graph

node_conformance-All :
    (graph : WorldGraph) (ontology : Ontology) (node : Node)
    → All IsError (node_conformance graph ontology node)
unfolding node_conformance
node_conformance-All graph ontology node = elim (Option-cases (get node.kind ontology.node_kinds)) [
  | inl missing ↦ rw (missing, node_conformance) (refl, tt)
  | inr (kind, found) ↦
      rw (found, node_conformance)
        (check_attrs-All node.id node.attrs (compose_node_attrs kind ontology) graph)
]

count_edge-All :
    (edge : Edge) (ek : EdgeKind) (src dst : Option Node) (t : Tally)
    → All IsError t.issues
    → All IsError (count_edge edge ek src dst t).issues
unfolding count_edge endpoint_issues
count_edge-All edge ek (some src) (some dst) t h =
    All-append IsError t.issues (endpoint_issues ek edge src dst) h
      (All-when _ "edge_endpoint_mismatch" edge.id)
count_edge-All edge ek _ _ t h = h

module _ (graph : WorldGraph) (ontology : Ontology) where
  edge_round-All :
      (edge : Edge) (o : Option EdgeKind) (t : Tally)
      → All IsError t.issues
      → All IsError (edge_round graph ontology edge o t).issues
  unfolding edge_round
  edge_round-All edge none t h = All-append IsError t.issues _ h (refl, tt)
  edge_round-All edge (some ek) t h =
      count_edge-All edge ek (get edge.src graph.nodes) (get edge.dst graph.nodes) _ (
        All-append IsError t.issues (check_attrs edge.id edge.attrs ek.attrs graph) h
          (check_attrs-All edge.id edge.attrs ek.attrs graph))

  edge_rounds-All :
      (edges : List Edge) (t : Tally)
      → All IsError t.issues
      → All IsError (edge_rounds graph ontology edges t).issues
  unfolding edge_rounds
  edge_rounds-All [] t h = h
  edge_rounds-All (edge ∷ edges) t h =
      edge_rounds-All edges _ (edge_round-All edge (get edge.kind ontology.edge_kinds) t h)

degree_issues-All :
    (limit : EdgeKind → Option ℕ) (code : String) (ontology : Ontology) (counts : Counts)
    (found : List Issue)
    → degree_issues limit code ontology counts ≡ ok found
    → All IsError found
unfolding degree_issues degree_issue
degree_issues-All limit code ontology [] found h = rw (← ok-injective h) tt
degree_issues-All limit code ontology (e ∷ counts) found h =
    let (here, one, tail) = >>=-eq-ok (degree_issue limit code ontology e) _ h in
    let (rest, more, all) = >>=-eq-ok (degree_issues limit code ontology counts) _ tail in
    rw (← ok-injective all) (
      All-append IsError here rest (of_round here one)
        (degree_issues-All limit code ontology counts rest more))
  where
    of_round : (here : List Issue) → degree_issue limit code ontology e ≡ ok here → All IsError here
    of_round here q = elim (Option-cases (get e.0.1 ontology.edge_kinds)) [
      | inl missing ↦ cc (rw (missing, degree_issue) at q)
      | inr (ek, found) ↦
          rw (← ok-injective (rw (found, degree_issue) at q)) (All-when _ code e.0.0)
    ]

pub validate_conformance-All :
    (graph : WorldGraph) (ontology : Ontology) (found : List Issue)
    → validate_conformance graph ontology ≡ ok found
    → All IsError found
unfolding validate_conformance
validate_conformance-All graph ontology found h =
    let start : Tally = record {
      issues = flat_map (node_conformance graph ontology) (values graph.nodes);
      out_counts = [];
      in_counts = [];
    } in
    let t = edge_rounds graph ontology (values graph.edges) start in
    let (outs, p, tail) =
      >>=-eq-ok (degree_issues (λ k. k.src_max) "edge_src_degree_exceeded" ontology t.out_counts) _
        h in
    let (ins, q, e) =
      >>=-eq-ok (degree_issues (λ k. k.dst_max) "edge_dst_degree_exceeded" ontology t.in_counts) _
        tail in
    rw (← ok-injective e) (
      All-append IsError t.issues (outs ++ ins)
        (edge_rounds-All graph ontology (values graph.edges) start (
          All-flat_map (node_conformance graph ontology) (values graph.nodes)
            (node_conformance-All graph ontology)))
        (All-append IsError outs ins
          (degree_issues-All (λ k. k.src_max) "edge_src_degree_exceeded" ontology t.out_counts outs
            p)
          (degree_issues-All (λ k. k.dst_max) "edge_dst_degree_exceeded" ontology t.in_counts ins
            q)))
