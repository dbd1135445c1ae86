-- ===== src/Examples/Graphs.antt =====
-- The theorems on graphs and their validation, at the small world.
use open_range.Base.{
  List, [], ◌∷◌, ◌++◌, length, some, ok, get, All, ◌≡◌, refl, ◌↔◌, put, pop, filter, string_eq,
  pair_eq,
}
use open_range.Graph.{
  apply_patch, out_edges, in_edges, remove_nodes, remove_node, pop_edges, add_nodes, add_edges,
  add_node, add_edge, update_nodes, update_edges,
}
use open_range.Graph.Patches.{PatchFits, apply_patch-IsWellFormed}
use open_range.Schema.{
  Issue, NodeKind, check_attr, check_attrs, parent_chain, compose_node_attrs, chain_fuel,
  merge_attrs,
}
use open_range.Schema.Chain.{parent_chain_total, compose_node_attrs-own}
use open_range.Schema.Attrs.{AttrFits, check_attrs-nil_iff}
use open_range.Validate.{validate_structural, validate_conformance}
use open_range.Validate.Structure.{IsWellFormed, validate_structural-nil_iff}
use open_range.Validate.Degrees.{validate_conformance_total}
use open_range.Validate.Caps.{Within, degree_caps}
use open_range.Examples.Worlds.{web, world, net, host, connects, name_spec, swap_patch, swapped}

validate_structural-nil_iff_example : (validate_structural world ≡ []) ↔ IsWellFormed world
validate_structural-nil_iff_example = validate_structural-nil_iff world

world_quiet : validate_structural world ≡ []
unfolding validate_structural get
world_quiet = refl

pub world-IsWellFormed : IsWellFormed world
world-IsWellFormed = (validate_structural-nil_iff world).0 world_quiet

swapped_quiet : validate_structural swapped ≡ []
unfolding validate_structural get
swapped_quiet = refl

swap_applies : apply_patch world swap_patch ≡ ok swapped
unfolding apply_patch remove_nodes remove_node pop_edges add_nodes add_edges add_node add_edge
    update_nodes update_edges get filter pop put
swap_applies = refl

swap_fits : PatchFits swapped swap_patch
swap_fits = record {
  updated_named = tt;
  added_named = (record { has_id = λ e. cc; has_kind = λ e. cc }, tt);
  updated_fit = tt;
  added_fit = ((validate_structural-nil_iff swapped).0 swapped_quiet).edges_fit;
}

apply_patch-IsWellFormed_example : IsWellFormed swapped
apply_patch-IsWellFormed_example =
    apply_patch-IsWellFormed world swapped swap_patch world-IsWellFormed swap_applies swap_fits

parent_chain_total_example :
    (ks : List NodeKind) × (parent_chain (chain_fuel net) net [] [] (some host) ≡ some ks)
    × ((pre : List NodeKind) × (ks ≡ pre ++ host ∷ []))
parent_chain_total_example = parent_chain_total net host

own_name : get "name" host.attrs ≡ some name_spec
unfolding get
own_name = refl

connects_declared : get "connects" net.edge_kinds ≡ some connects
unfolding get
connects_declared = refl

compose_node_attrs-own_example : get "name" (compose_node_attrs host net) ≡ some name_spec
compose_node_attrs-own_example =
    compose_node_attrs-own host net "name" name_spec ((λ m. elim m [ ]), tt) own_name

check_attrs-nil_iff_example :
    (check_attrs "web" web.attrs host.attrs world ≡ []) ↔ All (AttrFits world web.attrs) host.attrs
check_attrs-nil_iff_example = check_attrs-nil_iff "web" web.attrs host.attrs world

world_conforms : validate_conformance world net ≡ ok []
unfolding validate_conformance get put parent_chain merge_attrs check_attr
world_conforms = refl

degree_caps_example :
    Within connects.src_max (length (out_edges world "web" (some "connects")))
    × Within connects.dst_max (length (in_edges world "web" (some "connects")))
degree_caps_example =
    degree_caps world net "web" "connects" {ek = connects} world-IsWellFormed world_conforms
      connects_declared

validate_conformance_total_example :
    (issues : List Issue) × (validate_conformance swapped net ≡ ok issues)
validate_conformance_total_example = validate_conformance_total swapped net
