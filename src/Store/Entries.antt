-- ===== src/Store/Entries.antt =====
-- src/openrange/core/store.py: reading back one node, edge, task or event.
use open_range.Base.{
  String, List, [], ◌∷◌, ◌++◌, not, Dict, get, map, when, is_empty, sort_by, str_leb, ok,
  map_result, string_eq, ◌≡◌, refl, ap, ◌∙◌,
}
use open_range.Value.{Value, str, items_of, to_list, fields_of, to_dict}
use open_range.Graph.{Node, Edge, Role, actor, npc, external, Visibility, public, hidden}
use open_range.Sdk.{TaskSpec, BuildEvent}
use open_range.Wire.{
  role_value, role_values, str_list, obj, sorted_items, node_dict, edge_dict, task_dict, event_dict,
  visibility_value, is_public,
}
use open_range.Wire.Identity.{sort_by-map}
use open_range.Store.{
  Data, all_texts, texts_at, texts_of, mapping_at, mapping_or_empty, mappings, role_from,
  visibility_from, visibility_of, node_from_dict, edge_from_dict, task_from_dict, event_from_dict,
  require_str, int_of, meta_of,
}

pub to_dict-fields_of : (d : Dict String Value) → to_dict (fields_of d) ≡ d
unfolding to_dict fields_of
to_dict-fields_of [] = refl
to_dict-fields_of (e ∷ d) = ap (λ r. e ∷ r) (to_dict-fields_of d)

pub to_list-items_of : (vs : List Value) → to_list (items_of vs) ≡ vs
unfolding to_list items_of
to_list-items_of [] = refl
to_list-items_of (v ∷ vs) = ap (λ r. v ∷ r) (to_list-items_of vs)

all_texts-map : (xs : List String) → all_texts (map str xs) ≡ ok xs
unfolding all_texts
all_texts-map [] = refl
all_texts-map (x ∷ xs) = rw (all_texts-map xs) refl

pub mappings-map : (ds : List Data) → mappings (map obj ds) ≡ ok ds
unfolding mappings
mappings-map [] = refl
mappings-map (d ∷ ds) = rw (to_dict-fields_of d, mappings-map ds) refl

-- A list of texts is read back, and so is a dict.
texts_lem : (xs : List String) → all_texts (to_list (items_of (map str xs))) ≡ ok xs
texts_lem xs = ap all_texts (to_list-items_of (map str xs)) ∙ all_texts-map xs

-- The roles in the order of their texts.
abbrev pub sorted_roles : List Role → List Role
sorted_roles = sort_by (λ a b. str_leb (role_value a) (role_value b))

role_from-value : (r : Role) → role_from (role_value r) ≡ ok r
unfolding role_from
role_from-value actor = refl
role_from-value npc = refl
role_from-value external = refl

map_result-roles : (rs : List Role) → map_result role_from (map role_value rs) ≡ ok rs
unfolding map_result
map_result-roles [] = refl
map_result-roles (r ∷ rs) = rw (role_from-value r, map_result-roles rs) refl

roles_lem : (rs : List Role) → map_result role_from (role_values rs) ≡ ok (sorted_roles rs)
unfolding role_values
roles_lem rs =
    ap (map_result role_from) (sort_by-map role_value str_leb rs)
    ∙ map_result-roles (sorted_roles rs)

-- What the file keeps of a node: no runtime and no meta, and its attributes and roles in order.
abbrev pub canonical_node : Node → Node
canonical_node n = record {
  id = n.id;
  kind = n.kind;
  attrs = sorted_items n.attrs;
  roles = sorted_roles n.roles;
  visibility = n.visibility;
  runtime = [];
  meta = [];
}

abbrev pub canonical_edge : Edge → Edge
canonical_edge e = record e { attrs = sorted_items e.attrs }

-- The optional tail of a node's dict.
abbrev node_tail : List Role → Visibility → Data
node_tail roles visibility =
    when (not (is_empty roles)) ("roles", str_list (role_values roles))
    ++ when (not (is_public visibility)) ("visibility", str (visibility_value visibility))

tail_roles :
    (roles : List Role) (visibility : Visibility)
    → texts_of (get "roles" (node_tail roles visibility)) ≡ ok (role_values roles)
unfolding get role_values sort_by
tail_roles [] public = refl
tail_roles [] hidden = refl
tail_roles (r ∷ rs) visibility = texts_lem (role_values (r ∷ rs))

tail_visibility :
    (roles : List Role) (visibility : Visibility)
    → visibility_of (get "visibility" (node_tail roles visibility)) ≡ ok visibility
unfolding get visibility_from
tail_visibility [] public = refl
tail_visibility [] hidden = refl
tail_visibility (r ∷ rs) public = refl
tail_visibility (r ∷ rs) hidden = refl

module _ (n : Node) where
  node_roles : texts_at (node_dict n) "roles" ≡ ok (role_values n.roles)
  unfolding texts_at node_dict get
  node_roles = tail_roles n.roles n.visibility

  node_visibility : visibility_of (get "visibility" (node_dict n)) ≡ ok n.visibility
  unfolding node_dict get
  node_visibility = tail_visibility n.roles n.visibility

  node_attrs : mapping_at (node_dict n) "attrs" ≡ ok (sorted_items n.attrs)
  unfolding mapping_at node_dict get
  node_attrs = ap ok (to_dict-fields_of (sorted_items n.attrs))

  node_id : require_str (node_dict n) "id" ≡ ok n.id
  unfolding require_str node_dict get
  node_id = refl

  node_kind : require_str (node_dict n) "kind" ≡ ok n.kind
  unfolding require_str node_dict get
  node_kind = refl

  pub node_from_dict-node_dict : node_from_dict (node_dict n) ≡ ok (canonical_node n)
  unfolding node_from_dict
  node_from_dict-node_dict =
      rw (node_roles, roles_lem n.roles, node_visibility, node_attrs, node_id, node_kind) refl

-- A dict that is written only where it has entries.
tail_dict :
    (key : String) (d : Data)
    → mapping_or_empty (get key (when (not (is_empty d)) (key, obj d))) ≡ ok d
unfolding get
tail_dict key [] = refl
tail_dict key (e ∷ d) = rw ((string_eq.beq_iff key key).1 refl) (ap ok (to_dict-fields_of (e ∷ d)))

tail_attrs :
    (d : Data)
    → mapping_or_empty
        (get {K = String} "attrs" (when (not (is_empty d)) ("attrs", obj (sorted_items d))))
      ≡ ok (sorted_items d)
unfolding get sorted_items sort_by
tail_attrs [] = refl
tail_attrs (e ∷ d) = ap ok (to_dict-fields_of (sorted_items (e ∷ d)))

module _ (e : Edge) where
  edge_attrs : mapping_at (edge_dict e) "attrs" ≡ ok (sorted_items e.attrs)
  unfolding mapping_at edge_dict get
  edge_attrs = tail_attrs e.attrs

  edge_text :
      (require_str (edge_dict e) "id" ≡ ok e.id)
      × (require_str (edge_dict e) "kind" ≡ ok e.kind)
      × (require_str (edge_dict e) "src" ≡ ok e.src)
      × (require_str (edge_dict e) "dst" ≡ ok e.dst)
  unfolding require_str edge_dict get
  edge_text = (refl, refl, refl, refl)

  pub edge_from_dict-edge_dict : edge_from_dict (edge_dict e) ≡ ok (canonical_edge e)
  unfolding edge_from_dict
  edge_from_dict-edge_dict = let (a, b, c, d) = edge_text in rw (edge_attrs, a, b, c, d) refl

module _ (t : TaskSpec) where
  task_entrypoints : texts_at (task_dict t) "entrypoints" ≡ ok t.entrypoints
  unfolding texts_at task_dict get
  task_entrypoints = texts_lem t.entrypoints

  task_goal_nodes : texts_at (task_dict t) "goal_nodes" ≡ ok t.goal_nodes
  unfolding texts_at task_dict get
  task_goal_nodes = texts_lem t.goal_nodes

  task_meta : mapping_at (task_dict t) "meta" ≡ ok t.meta
  unfolding mapping_at task_dict get
  task_meta = tail_dict "meta" t.meta

  task_text :
      (require_str (task_dict t) "id" ≡ ok t.id)
      × (require_str (task_dict t) "instruction" ≡ ok t.instruction)
      × (require_str (task_dict t) "feasibility_check" ≡ ok t.feasibility_check)
      × (require_str (task_dict t) "success_check" ≡ ok t.success_check)
  unfolding require_str task_dict get
  task_text = (refl, refl, refl, refl)

  pub task_from_dict-task_dict : task_from_dict (task_dict t) ≡ ok t
  unfolding task_from_dict
  task_from_dict-task_dict =
      let (a, b, c, d) = task_text in
      rw (task_entrypoints, task_goal_nodes, task_meta, a, b, c, d) refl

tail_refs :
    (xs : List String)
    → texts_of (get {K = String} "refs" (when (not (is_empty xs)) ("refs", str_list xs))) ≡ ok xs
unfolding get
tail_refs [] = refl
tail_refs (x ∷ xs) = texts_lem (x ∷ xs)

module _ (e : BuildEvent) where
  event_refs : texts_at (event_dict e) "refs" ≡ ok e.refs
  unfolding texts_at event_dict get
  event_refs = tail_refs e.refs

  event_seq : int_of (get "seq" (event_dict e)) ≡ ok e.seq
  unfolding event_dict get
  event_seq = refl

  event_text :
      (require_str (event_dict e) "phase" ≡ ok e.phase)
      × (require_str (event_dict e) "detail" ≡ ok e.detail)
  unfolding require_str event_dict get
  event_text = (refl, refl)

  pub event_from_dict-event_dict : event_from_dict (event_dict e) ≡ ok e
  unfolding event_from_dict
  event_from_dict-event_dict = let (a, b) = event_text in rw (event_refs, event_seq, a, b) refl

pub tail_meta :
    (d : Data)
    → meta_of (get {K = String} "meta" (when (not (is_empty d)) ("meta", obj (sorted_items d))))
      ≡ ok (sorted_items d)
unfolding get sorted_items sort_by
tail_meta [] = refl
tail_meta (e ∷ d) = ap ok (to_dict-fields_of (sorted_items (e ∷ d)))
