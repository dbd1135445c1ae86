-- ===== src/Examples/Stores.antt =====
-- The theorems on the JSON forms and the store, at the small world.
use open_range.Base.{
  String, [], ◌∷◌, Option, none, some, ok, err, key_error, get, put, elem, map_result, sort_by, ◌≡◌,
  refl, string_eq, ◌==◌, if◌then◌else◌,
}
use open_range.Value.{Value, str, to_list, to_dict, items_of, fields_of}
use open_range.Graph.{add_node}
use open_range.Sdk.{Snapshot}
use open_range.Wire.{obj, obj_list, snapshot_to_dict, content_hash, sorted_items, node_dict}
use open_range.Wire.Identity.{redress_graph, content_hash-redress}
use open_range.Store.{
  Files, load, snapshot_from_dict, graph_from_dict, load_nodes, node_from_dict, require_str,
  require_sequence, texts_at, mapping_at, role_from, visibility_from, mappings,
}
use open_range.Store.RoundTrip.{HasDistinctIds, canonical, snapshot_from_dict-snapshot_to_dict}
use open_range.Store.Entries.{to_dict-fields_of}
use open_range.Store.Loaded.{IsKeyed, load-IsKeyed}
use open_range.Examples.Packs.{digest_of, breach}
use open_range.Examples.Worlds.{web, world}

abbrev kept : Snapshot
kept = record {
  snapshot_id = "kept";
  ontology_id = "net";
  graph = world;
  tasks = breach ∷ [];
  lineage = [];
  history = [];
}

ids_differ : HasDistinctIds world
unfolding elem
ids_differ = record {
  nodes_differ = (refl, (refl, tt));
  edges_differ = (refl, tt);
  meta_differ = tt;
}

snapshot_from_dict-snapshot_to_dict_example :
    snapshot_from_dict (snapshot_to_dict kept) ≡ ok (canonical kept)
snapshot_from_dict-snapshot_to_dict_example = snapshot_from_dict-snapshot_to_dict kept ids_differ

-- A parser that knows one text.
abbrev loads_one : String → Option Value
loads_one raw = if raw == "{kept}" then some (obj (snapshot_to_dict kept)) else none

abbrev files : Files
files = ("kept", "{kept}") ∷ []

finds : load digest_of loads_one files "kept" ≡ ok (canonical kept)
unfolding load get
finds =
    rw
      (
        to_dict-fields_of (snapshot_to_dict kept),
        snapshot_from_dict-snapshot_to_dict kept ids_differ,
      )
      refl

load-IsKeyed_example : ((canonical kept).snapshot_id ≡ "kept") × IsKeyed (canonical kept).graph
load-IsKeyed_example = load-IsKeyed loads_one digest_of files "kept" (canonical kept) finds

content_hash-redress_example :
    content_hash digest_of (redress_graph (λ n. ("pid", str n.id) ∷ []) (λ n. []) [] world)
    ≡ content_hash digest_of world
content_hash-redress_example =
    content_hash-redress (λ n. ("pid", str n.id) ∷ []) (λ n. []) digest_of [] world

-- Two nodes of one id in a file: the exception is `add_node`'s, and no `StoreError`.
twice :
    graph_from_dict (
      ("ontology", str "net")
      ∷ ("nodes", obj_list (node_dict web ∷ node_dict web ∷ []))
      ∷ ("edges", obj_list [])
      ∷ [])
    ≡ err key_error
unfolding graph_from_dict get require_str require_sequence mappings to_list to_dict items_of
    fields_of load_nodes add_node node_from_dict node_dict texts_at mapping_at role_from
    visibility_from map_result put sorted_items sort_by
twice = refl
