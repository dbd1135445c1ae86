-- ===== src/Validate/Degrees.antt =====
-- packages/graphschema/src/graphschema/_ir.py: the degree caps of `_validate_conformance`, and that
-- its look-ups never raise.
use open_range.Base.{
  ℕ, ◌+◌, String, List, [], ◌∷◌, ◌++◌, Bool, false, ◌&&◌, Option, none, some, get, values, filter,
  length, All, All-put, get-put, Option-cases, Bool-cases, ok, ◌≡◌, refl, ap, inl, inr, arith,
  string_eq, pair_eq, pair_beq, pair_beq_iff, when, flat_map, ◌==◌, if◌then◌else◌,
}
use open_range.Graph.{Node, Edge, WorldGraph, kind_matches}
use open_range.Schema.{EdgeKind, Ontology, Issue, error_issue}
use open_range.Validate.{
  Counts, Tally, count_of, bump, edge_round, edge_rounds, exceeds, degree_issue, degree_issues,
  validate_conformance, node_conformance,
}

abbrev KnownKind : Ontology → (String × String) × ℕ → Type 0
KnownKind ontology e = (k : EdgeKind) × (get e.0.1 ontology.edge_kinds ≡ some k)

-- Both counts are only of declared kinds.
record Known (ontology : Ontology) (t : Tally) : Type 0 where
  outs : All (KnownKind ontology) t.out_counts
  ins : All (KnownKind ontology) t.in_counts

module _ (graph : WorldGraph) (ontology : Ontology) where
  edge_round-Known :
      (edge : Edge) (t : Tally)
      → Known ontology t
      → Known ontology (edge_round graph ontology edge (get edge.kind ontology.edge_kinds) t)
  unfolding edge_round bump
  edge_round-Known edge t known = elim (Option-cases (get edge.kind ontology.edge_kinds)) [
    | inl missing ↦ rw missing (record { outs = known.outs; ins = known.ins })
    | inr (ek, found) ↦ elim (Option-cases (get edge.src graph.nodes)) [
      | inl no_src ↦ rw (found, no_src) (record { outs = known.outs; ins = known.ins })
      | inr (src, s) ↦ elim (Option-cases (get edge.dst graph.nodes)) [
        | inl no_dst ↦ rw (found, s, no_dst) (record { outs = known.outs; ins = known.ins })
        | inr (dst, d) ↦
            rw (found, s, d)
              (record {
                outs =
                    All-put (KnownKind ontology) (edge.src, edge.kind) _ t.out_counts (ek, found)
                      known.outs;
                ins =
                    All-put (KnownKind ontology) (edge.dst, edge.kind) _ t.in_counts (ek, found)
                      known.ins;
              })
      ]
    ]
  ]

  edge_rounds-Known :
      (edges : List Edge) (t : Tally)
      → Known ontology t
      → Known ontology (edge_rounds graph ontology edges t)
  unfolding edge_rounds
  edge_rounds-Known [] t known = known
  edge_rounds-Known (edge ∷ edges) t known =
      edge_rounds-Known edges _ (edge_round-Known edge t known)

degree_issues_total :
    (limit : EdgeKind → Option ℕ) (code : String) (ontology : Ontology) (counts : Counts)
    → All (KnownKind ontology) counts
    → (found : List Issue) × (degree_issues limit code ontology counts ≡ ok found)
unfolding degree_issues degree_issue
degree_issues_total limit code ontology [] known = ([], refl)
degree_issues_total limit code ontology (e ∷ counts) known =
    let (k, found) = known.0 in
    let (rest, p) = degree_issues_total limit code ontology counts known.1 in
    (when (exceeds (limit k) e.1) (error_issue code e.0.0) ++ rest, ground arith)

-- The conformance tier never raises, for any graph and any ontology: its look-ups of edge kinds by
-- counted keys always find one.
pub validate_conformance_total :
    (graph : WorldGraph) (ontology : Ontology)
    → (issues : List Issue) × (validate_conformance graph ontology ≡ ok issues)
unfolding validate_conformance
validate_conformance_total graph ontology =
    let start : Tally = record {
      issues = flat_map (node_conformance graph ontology) (values graph.nodes);
      out_counts = [];
      in_counts = [];
    } in
    let t = edge_rounds graph ontology (values graph.edges) start in
    let known =
      edge_rounds-Known graph ontology (values graph.edges) start
        (record { outs = tt; ins = tt }) in
    let (outs, p) =
      degree_issues_total (λ k. k.src_max) "edge_src_degree_exceeded" ontology _ known.outs in
    let (ins, q) =
      degree_issues_total (λ k. k.dst_max) "edge_dst_degree_exceeded" ontology _ known.ins in
    (t.issues ++ (outs ++ ins), rw (p, q))

-- An edge whose two ends are nodes.
abbrev pub HasEnds : WorldGraph → Edge → Type 0
HasEnds graph edge =
    ((n : Node) × (get edge.src graph.nodes ≡ some n))
    × ((n : Node) × (get edge.dst graph.nodes ≡ some n))

abbrev one_if : Bool → ℕ
one_if b = if b then 1 else 0

abbrev counted : String × String → String × String → ℕ
counted key j = one_if (pair_beq key j)

count_of-bump :
    (key j : String × String) (counts : Counts)
    → count_of j (bump key counts) ≡ count_of j counts + counted key j
unfolding bump
count_of-bump key j counts =
    ground (arith, get-put key j (count_of key counts + 1) counts, pair_beq_iff key j)

module _ (graph : WorldGraph) (ontology : Ontology) (nid kind : String) {ek : EdgeKind}
    (declared : get kind ontology.edge_kinds ≡ some ek) where
  other_kind :
      (edge : Edge) → get edge.kind ontology.edge_kinds ≡ none → (edge.kind == kind) ≡ false
  other_kind edge missing = elim (Bool-cases (edge.kind == kind)) [
    | inl t ↦ cc (
      ap (λ k. get k ontology.edge_kinds) ((string_eq.beq_iff edge.kind kind).0 t),
      missing,
      declared,
    )
    | inr f ↦ f
  ]

  round_counts :
      (edge : Edge) (t : Tally)
      → HasEnds graph edge
      → (let t' = edge_round graph ontology edge (get edge.kind ontology.edge_kinds) t in
          (count_of (nid, kind) t'.out_counts
            ≡ count_of (nid, kind) t.out_counts + counted (edge.src, edge.kind) (nid, kind))
          × (count_of (nid, kind) t'.in_counts
              ≡ count_of (nid, kind) t.in_counts + counted (edge.dst, edge.kind) (nid, kind)))
  unfolding edge_round
  round_counts edge t ends = elim (Option-cases (get edge.kind ontology.edge_kinds)) [
    | inl missing ↦
        rw missing
          (ground (arith, other_kind edge missing), ground (arith, other_kind edge missing))
    | inr (found, p) ↦
        rw (p, ends.0.1, ends.1.1)
          (
            count_of-bump (edge.src, edge.kind) (nid, kind) t.out_counts,
            count_of-bump (edge.dst, edge.kind) (nid, kind) t.in_counts,
          )
  ]

  -- The counts of the loop are the numbers of edges that the graph's own methods list.
  pub rounds_counts :
      (edges : List Edge) (t : Tally)
      → All (HasEnds graph) edges
      → (let t' = edge_rounds graph ontology edges t in
          (count_of (nid, kind) t'.out_counts
            ≡ count_of (nid, kind) t.out_counts
              + length (filter (λ e. e.src == nid && kind_matches (some kind) e.kind) edges))
          × (count_of (nid, kind) t'.in_counts
              ≡ count_of (nid, kind) t.in_counts
                + length (filter (λ e. e.dst == nid && kind_matches (some kind) e.kind) edges)))
  unfolding edge_rounds filter
  rounds_counts [] t ends = (omega arith, omega arith)
  rounds_counts (edge ∷ edges) t ends =
      let t' = edge_round graph ontology edge (get edge.kind ontology.edge_kinds) t in
      let one = round_counts edge t ends.0 in
      let rest = rounds_counts edges t' ends.1 in
      (ground (arith, one.0, rest.0), ground (arith, one.1, rest.1))
