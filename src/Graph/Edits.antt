-- ===== src/Graph/Edits.antt =====
-- packages/graphschema/src/graphschema/_ir.py: `apply_patch` keeps a graph well formed.
use mathlib.Core.List.Memᴰ.{not-nil}
use open_range.Base.{
  ap, subst, All-pop, String, List, [], ◌∷◌, Bool, true, false, ◌||◌, Dict, pop, values, filter,
  map, All, All-intro, All-Memᴰ, All_map, Memᴰ, get-pop, Bool-cases, ◌≡◌, refl, ◌⊎◌, inl, inr,
  arith, string_eq, ◌==◌,
}
use open_range.Graph.{Node, Edge, WorldGraph, pop_edges, incident, remove_node}
use open_range.Validate.Structure.{NodeFits, EdgeFits, IsWellFormed}

abbrev pub edge_key : String × Edge → String
edge_key e = e.0

module _ {κ} (P : String × Edge → Type κ) where
  pub All-pop_edges :
      (eids : List String) (graph : WorldGraph)
      → All (λ e. Memᴰ (edge_key e) eids ⊎ P e) graph.edges
      → All P (pop_edges eids graph).edges
  unfolding pop_edges
  All-pop_edges [] graph h =
      All_map (λ e fits. elim fits [ inl m ↦ absurd (not-nil m) | inr p ↦ p ]) graph.edges h
  All-pop_edges (eid ∷ eids) graph h =
      All-pop_edges eids (record graph { edges = pop eid graph.edges })
        (All-pop (λ e. Memᴰ (edge_key e) eids ⊎ P e) eid graph.edges
          (All_map (λ e fits. split fits) graph.edges h))
    where
      split :
          {e : String × Edge}
          → Memᴰ (edge_key e) (eid ∷ eids) ⊎ P e
          → (edge_key e ≡ eid) ⊎ (Memᴰ (edge_key e) eids ⊎ P e)
      split (inl (Memᴰ.head p)) = inl p
      split (inl (Memᴰ.tail m)) = inr (inl m)
      split (inr p) = inr (inr p)

pub nodes-pop_edges :
    (eids : List String) (graph : WorldGraph) → (pop_edges eids graph).nodes ≡ graph.nodes
unfolding pop_edges
nodes-pop_edges [] graph = refl
nodes-pop_edges (eid ∷ eids) graph =
    nodes-pop_edges eids (record graph { edges = pop eid graph.edges })

-- The edges that pass a test have their ids in the list made of them.
mem-ids :
    (test : Edge → Bool) (d : Dict String Edge) {e : String × Edge}
    → Memᴰ e d
    → test e.1 ≡ true
    → Memᴰ e.1.id (map (λ (x : Edge). x.id) (filter test (values d)))
unfolding filter
mem-ids test [] m h = absurd (not-nil m)
mem-ids test (x ∷ d) (Memᴰ.head p) h =
    let t : test x.1 ≡ true = subst (λ (y : String × Edge). test y.1 ≡ true) p h in
    rw t (Memᴰ.head (ap (λ (y : String × Edge). y.1.id) p))
mem-ids test (x ∷ d) (Memᴰ.tail m) h = elim (Bool-cases (test x.1)) [
  | inl t ↦ rw t (Memᴰ.tail (mem-ids test d m h))
  | inr t ↦ rw t (mem-ids test d m h)
]

module _ (nid : String) (graph : WorldGraph) where
  abbrev touches : Edge → Bool
  touches e = e.src == nid || e.dst == nid

  abbrev without : WorldGraph
  without = record graph { nodes = pop nid graph.nodes }

  -- An edge that does not touch the node keeps its ends.
  untouched-EdgeFits :
      (g : WorldGraph) (e : String × Edge)
      → g.nodes ≡ pop nid graph.nodes
      → EdgeFits graph e.0 e.1
      → touches e.1 ≡ false
      → EdgeFits g e.0 e.1
  untouched-EdgeFits g (eid, e) same fits t = record {
    keyed = fits.keyed;
    has_id = fits.has_id;
    has_kind = fits.has_kind;
    src_node = fits.src_node;
    src_there = rw same (
        ground (
          arith,
          get-pop nid e.src graph.nodes,
          string_eq.beq_iff nid e.src,
          string_eq.beq_iff e.src nid,
          fits.src_there,
        ));
    dst_node = fits.dst_node;
    dst_there = rw same (
        ground (
          arith,
          get-pop nid e.dst graph.nodes,
          string_eq.beq_iff nid e.dst,
          string_eq.beq_iff e.dst nid,
          fits.dst_there,
        ));
  }

  -- Removing a node removes the edges at it, so no edge is left dangling.
  pub remove_node-IsWellFormed : IsWellFormed graph → IsWellFormed (remove_node nid graph)
  unfolding remove_node
  remove_node-IsWellFormed wf = record {
    nodes_fit = rw (nodes-pop_edges (incident nid without) without) (
        All-pop (λ (e : String × Node). NodeFits e.0 e.1) nid graph.nodes
          (All_map (λ e fits. inr fits) graph.nodes wf.nodes_fit));
    edges_fit =
        All-pop_edges (λ e. EdgeFits (pop_edges (incident nid without) without) e.0 e.1)
          (incident nid without) without
          (All-intro _ graph.edges (λ e m. after e m (All-Memᴰ _ wf.edges_fit m)));
  }
    where
      after :
          (e : String × Edge)
          → Memᴰ e graph.edges
          → EdgeFits graph e.0 e.1
          → Memᴰ (edge_key e) (incident nid without)
            ⊎ EdgeFits (pop_edges (incident nid without) without) e.0 e.1
      after e m fits = elim (Bool-cases (touches e.1)) [
        | inl t ↦ inl (rw fits.keyed (mem-ids touches graph.edges m t))
        | inr t ↦
            inr (untouched-EdgeFits _ e (nodes-pop_edges (incident nid without) without) fits t)
      ]
