-- ===== src/Wire/Identity.antt =====
-- packages/graphschema/src/graphschema/_ir.py: what `content_hash` looks at.
use open_range.Base.{
  Bool, String, List, [], ◌∷◌, Dict, map, values, sort_by, insert_by, str_leb, Bool-cases, ◌≡◌,
  refl, ap, ◌∙◌, inl, inr,
}
use open_range.Value.{Value, str}
use open_range.Graph.{Node, WorldGraph}
use open_range.Wire.{node_data, edge_data, sorted_nodes, sorted_edges, obj, obj_list, content_hash}

module _ {ℓ κ} {A : Type ℓ} {B : Type κ} (f : A → B) (le : B → B → Bool) where
  insert_by-map :
      (x : A) (xs : List A)
      → insert_by le (f x) (map f xs) ≡ map f (insert_by (λ a b. le (f a) (f b)) x xs)
  unfolding insert_by
  insert_by-map x [] = refl
  insert_by-map x (y ∷ ys) = elim (Bool-cases (le (f x) (f y))) [
    | inl t ↦ rw t refl
    | inr t ↦ rw t (ap (λ r. f y ∷ r) (insert_by-map x ys))
  ]

  -- Sorting the images is mapping the sorted.
  pub sort_by-map :
      (xs : List A) → sort_by le (map f xs) ≡ map f (sort_by (λ a b. le (f a) (f b)) xs)
  unfolding sort_by
  sort_by-map [] = refl
  sort_by-map (x ∷ xs) =
      ap (insert_by le (f x)) (sort_by-map xs)
      ∙ insert_by-map x (sort_by (λ a b. le (f a) (f b)) xs)

-- Other runtimes and metas for the nodes, and another meta for the graph.
abbrev pub redress : (Node → Dict String Value) → (Node → Dict String Value) → Node → Node
redress runtime meta n = record n { runtime = runtime n; meta = meta n }

abbrev pub redress_graph :
    (Node → Dict String Value)
    → (Node → Dict String Value)
    → Dict String Value
    → WorldGraph
    → WorldGraph
redress_graph runtime meta graph_meta graph = record graph {
  nodes = map (λ e. (e.0, redress runtime meta e.1)) graph.nodes;
  meta = graph_meta;
}

module _ (runtime meta : Node → Dict String Value) where
  values-redress :
      (d : Dict String Node)
      → values (map (λ e. (e.0, redress runtime meta e.1)) d)
        ≡ map (redress runtime meta) (values d)
  values-redress [] = refl
  values-redress (e ∷ d) = ap (λ r. redress runtime meta e.1 ∷ r) (values-redress d)

  data-redress : (ns : List Node) → map node_data (map (redress runtime meta) ns) ≡ map node_data ns
  unfolding node_data
  data-redress [] = refl
  data-redress (n ∷ ns) = ap (λ r. node_data n ∷ r) (data-redress ns)

  sorted-redress :
      (graph_meta : Dict String Value) (graph : WorldGraph)
      → sorted_nodes (redress_graph runtime meta graph_meta graph)
        ≡ map (redress runtime meta) (sorted_nodes graph)
  unfolding sorted_nodes
  sorted-redress graph_meta graph =
      ap (sort_by (λ (a b : Node). str_leb a.id b.id)) (values-redress graph.nodes)
      ∙ sort_by-map (redress runtime meta) (λ a b. str_leb a.id b.id) (values graph.nodes)

  -- The content hash does not depend on the meta of the graph, nor on the runtime and the meta of its
  -- nodes, whatever the digest.
  pub content_hash-redress :
      (digest : Value → String) (graph_meta : Dict String Value) (graph : WorldGraph)
      → content_hash digest (redress_graph runtime meta graph_meta graph)
        ≡ content_hash digest graph
  unfolding content_hash sorted_edges
  content_hash-redress digest graph_meta graph =
      ap
        (λ ns. digest (
          obj (
            ("ontology", str graph.ontology)
            ∷ ("nodes", obj_list ns)
            ∷ ("edges", obj_list (map edge_data (sorted_edges graph)))
            ∷ [])))
        (ap (map node_data) (sorted-redress graph_meta graph) ∙ data-redress (sorted_nodes graph))
