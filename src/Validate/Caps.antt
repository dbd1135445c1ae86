-- ===== src/Validate/Caps.antt =====
-- packages/graphschema/src/graphschema/_ir.py: a graph that validates respects the degree caps.
use open_range.Base.{
  ℕ, ◌≤◌, String, [], ◌∷◌, ◌++◌, Option, none, some, Dict, get, values, length, All, All_map, Memᴰ,
  get-Memᴰ, Option-cases, ok, >>=-eq-ok, ok-injective, append-nil_left, append-nil_right, flat_map,
  ◌≡◌, subst, ap, inl, inr, arith, string_eq, pair_eq, when,
}
use open_range.Graph.{WorldGraph, out_edges, in_edges}
use open_range.Schema.{EdgeKind, Ontology, Issue, error_issue}
use open_range.Validate.{
  Counts, Tally, count_of, edge_rounds, exceeds, degree_issue, degree_issues, validate_conformance,
  node_conformance,
}
use open_range.Validate.Structure.{IsWellFormed}
use open_range.Validate.Degrees.{HasEnds, rounds_counts}

-- A cap that may be missing.
abbrev pub Within : Option ℕ → ℕ → Type 0
Within none n = Unit
Within (some m) n = n ≤ m

degree_issues-Memᴰ :
    (limit : EdgeKind → Option ℕ) (code : String) (ontology : Ontology) (counts : Counts)
    {e : (String × String) × ℕ}
    → degree_issues limit code ontology counts ≡ ok []
    → Memᴰ e counts
    → degree_issue limit code ontology e ≡ ok []
unfolding degree_issues
degree_issues-Memᴰ limit code ontology (x ∷ counts) h m =
    let (found, one, tail) = >>=-eq-ok (degree_issue limit code ontology x) _ h in
    let (rest, more, e) = >>=-eq-ok (degree_issues limit code ontology counts) _ tail in
    let all : found ++ rest ≡ [] = ok-injective e in
    of_cons m (rw one (ap ok (append-nil_left found rest all))) (λ k.
      degree_issues-Memᴰ limit code ontology counts
        (rw more (ap ok (append-nil_right found rest all))) k)
  where
    of_cons :
        {e : (String × String) × ℕ}
        → Memᴰ e (x ∷ counts)
        → degree_issue limit code ontology x ≡ ok []
        → (Memᴰ e counts → degree_issue limit code ontology e ≡ ok [])
        → degree_issue limit code ontology e ≡ ok []
    of_cons (Memᴰ.head p) here there = rw p here
    of_cons (Memᴰ.tail k) here there = there k
degree_issues-Memᴰ limit code ontology [] h m = elim m [ ]

Within-zero : (l : Option ℕ) → Within l 0
Within-zero none = tt
Within-zero (some m) = omega arith

quiet-Within : (l : Option ℕ) (n : ℕ) (i : Issue) → when (exceeds l n) i ≡ [] → Within l n
quiet-Within none n i h = tt
quiet-Within (some m) n i h = ground arith

degree_issue-Within :
    (limit : EdgeKind → Option ℕ) (code : String) (ontology : Ontology) (nid kind : String) (n : ℕ)
    {ek : EdgeKind}
    → get kind ontology.edge_kinds ≡ some ek
    → degree_issue limit code ontology ((nid, kind), n) ≡ ok []
    → Within (limit ek) n
unfolding degree_issue
degree_issue-Within limit code ontology nid kind n {ek} declared h =
    quiet-Within (limit ek) n (error_issue code nid)
      (ok-injective (rw (declared, degree_issue) at h))

-- A count that raised no issue is within its cap.
Within-count :
    (limit : EdgeKind → Option ℕ) (code : String) (ontology : Ontology) (counts : Counts)
    (nid kind : String) {ek : EdgeKind}
    → degree_issues limit code ontology counts ≡ ok []
    → get kind ontology.edge_kinds ≡ some ek
    → Within (limit ek) (count_of (nid, kind) counts)
Within-count limit code ontology counts nid kind {ek} h declared =
    elim (Option-cases (get (nid, kind) counts)) [
      | inl absent ↦ rw (absent, count_of) (Within-zero (limit ek))
      | inr (n, found) ↦
          rw (found, count_of)
            (degree_issue-Within limit code ontology nid kind n declared (
              degree_issues-Memᴰ limit code ontology counts h
                (get-Memᴰ (nid, kind) n counts found)))
    ]

All-values {ℓ κ μ} :
    {K : Type ℓ} {V : Type κ} (P : V → Type μ) (d : Dict K V)
    → All (λ (e : K × V). P e.1) d
    → All P (values d)
All-values P [] h = tt
All-values P (e ∷ d) h = (h.0, All-values P d h.1)

-- In a well-formed graph in which the conformance tier finds nothing, no node has more out-edges or
-- in-edges of a declared kind than its `src_max` or `dst_max` allows.
pub degree_caps :
    (graph : WorldGraph) (ontology : Ontology) (nid kind : String) {ek : EdgeKind}
    → IsWellFormed graph
    → validate_conformance graph ontology ≡ ok []
    → get kind ontology.edge_kinds ≡ some ek
    → Within ek.src_max (length (out_edges graph nid (some kind)))
      × Within ek.dst_max (length (in_edges graph nid (some kind)))
unfolding validate_conformance out_edges in_edges get
degree_caps graph ontology nid kind {ek} wf h declared =
    let start : Tally = record {
      issues = flat_map (node_conformance graph ontology) (values graph.nodes);
      out_counts = [];
      in_counts = [];
    } in
    let t = edge_rounds graph ontology (values graph.edges) start in
    let (outs, p, tail) =
      >>=-eq-ok (degree_issues (λ k. k.src_max) "edge_src_degree_exceeded" ontology t.out_counts) _
        h in
    let (ins, q, e) =
      >>=-eq-ok (degree_issues (λ k. k.dst_max) "edge_dst_degree_exceeded" ontology t.in_counts) _
        tail in
    let all : outs ++ ins ≡ [] = append-nil_right t.issues _ (ok-injective e) in
    let counts = rounds_counts graph ontology nid kind declared (values graph.edges) start (
      All-values (HasEnds graph) graph.edges (
        All_map (λ e f. ((f.src_node, f.src_there), (f.dst_node, f.dst_there))) graph.edges
          wf.edges_fit)) in
    let src_count : count_of (nid, kind) t.out_counts ≡ length (out_edges graph nid (some kind)) =
      omega (arith, counts.0) in
    let dst_count : count_of (nid, kind) t.in_counts ≡ length (in_edges graph nid (some kind)) =
      omega (arith, counts.1) in
    (
      subst (Within ek.src_max) src_count (
          Within-count (λ k. k.src_max) "edge_src_degree_exceeded" ontology t.out_counts nid kind
            (rw p (ap ok (append-nil_left outs ins all))) declared),
      subst (Within ek.dst_max) dst_count (
          Within-count (λ k. k.dst_max) "edge_dst_degree_exceeded" ontology t.in_counts nid kind
            (rw q (ap ok (append-nil_right outs ins all))) declared),
    )
