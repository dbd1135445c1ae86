-- ===== src/Schema.antt =====
-- packages/graphschema/src/graphschema/_ir.py: the ontology, and the checks of attributes.
-- The text of an `Issue`'s message is for people only, and is not modelled.

pub mod Chain
pub mod Attrs
use open_range.Base.{
  ℕ, suc, String, List, [], ◌∷◌, ◌++◌, Bool, true, false, not, ◌&&◌, ◌||◌, Option, none, some, Dict,
  get, update, any, is_empty, when, flat_map, length, if◌then◌else◌, ◌==◌, string_eq, is_empty_str,
}
use open_range.Value.{Value, bool, int, float, str}
use open_range.Graph.{Node, WorldGraph}

pub data AttrType : Type 0 where
  string : AttrType
  integer : AttrType
  floating : AttrType
  boolean : AttrType
  enumeration : AttrType
  ref : AttrType
  json : AttrType

pub record AttrSpec : Type 0 where
  pub type : AttrType
  pub required : Bool
  pub enum : Option (List String)
  pub ref_kinds : Option (List String)
  pub default : Value
  pub description : String

pub record NodeKind : Type 0 where
  pub id : String
  pub parent : Option String
  pub attrs : Dict String AttrSpec
  pub description : String

pub record EdgeKind : Type 0 where
  pub id : String
  pub endpoints : List (String × String)
  pub src_max : Option ℕ
  pub dst_max : Option ℕ
  pub attrs : Dict String AttrSpec
  pub description : String

pub record Ontology : Type 0 where
  pub id : String
  pub node_kinds : Dict String NodeKind
  pub edge_kinds : Dict String EdgeKind

pub record Issue : Type 0 where
  pub severity : String
  pub code : String
  pub where_id : String

-- `Issue("error", code, …, where)`
abbrev pub error_issue : String → String → Issue
error_issue code where_id = record { severity = "error"; code = code; where_id = where_id }

-- `x in xs`, for a list of texts.
unfoldable pub is_in : String → List String → Bool
is_in s xs = any (λ x. x == s) xs

-- `not xs` for a list that may be None.
abbrev pub falsy : Option (List String) → Bool
falsy none = true
falsy (some xs) = is_empty xs

abbrev pub strings : Option (List String) → List String
strings none = []
strings (some xs) = xs

-- `_PRIMITIVE_CHECK`: a Python bool is an int, and is turned away by name.
unfoldable pub primitive_check : AttrType → Value → Bool
primitive_check AttrType.string (str _) = true
primitive_check AttrType.integer (int _) = true
primitive_check AttrType.floating (int _) = true
primitive_check AttrType.floating (float _) = true
primitive_check AttrType.boolean (bool _) = true
primitive_check AttrType.json _ = true
primitive_check _ _ = false

-- `not spec.enum or value not in spec.enum`: only a text equals a text.
unfoldable pub check_enum : String → Value → AttrSpec → List Issue
unfolding is_in any
check_enum where_id (str s) spec =
    when (falsy spec.enum || not (is_in s (strings spec.enum)))
      (error_issue "enum_value_invalid" where_id)
check_enum where_id _ spec = error_issue "enum_value_invalid" where_id ∷ []

unfoldable pub check_target : String → Option Node → AttrSpec → List Issue
unfolding is_in any
check_target where_id none spec = error_issue "ref_dangling" where_id ∷ []
check_target where_id (some target) spec =
    when (not (falsy spec.ref_kinds) && not (is_in target.kind (strings spec.ref_kinds)))
      (error_issue "ref_kind_disallowed" where_id)

unfoldable pub check_ref : String → Value → AttrSpec → WorldGraph → List Issue
unfolding check_target
check_ref where_id (str s) spec graph = check_target where_id (get s graph.nodes) spec
check_ref where_id _ spec graph = error_issue "ref_not_string" where_id ∷ []

-- The branches on `spec.type` of `_check_attr_value`.
unfoldable pub check_by_type : AttrType → String → Value → AttrSpec → WorldGraph → List Issue
unfolding check_enum check_ref primitive_check
check_by_type AttrType.enumeration where_id value spec graph = check_enum where_id value spec
check_by_type AttrType.ref where_id value spec graph = check_ref where_id value spec graph
check_by_type type where_id value spec graph =
    when (not (primitive_check type value)) (error_issue "attr_type_mismatch" where_id)

unfoldable pub check_attr_value : String → Value → AttrSpec → WorldGraph → List Issue
unfolding check_by_type
check_attr_value where_id value spec graph = check_by_type spec.type where_id value spec graph

-- One round of the loop of `_check_attrs`.
unfoldable pub check_attr : String → Option Value → AttrSpec → WorldGraph → List Issue
unfolding check_attr_value
check_attr where_id none spec graph =
    when spec.required (error_issue "missing_required_attr" where_id)
check_attr where_id (some value) spec graph = check_attr_value where_id value spec graph

unfoldable pub check_attrs :
    String → Dict String Value → Dict String AttrSpec → WorldGraph → List Issue
unfolding flat_map
check_attrs where_id vals specs graph =
    flat_map (λ (e : String × AttrSpec). check_attr where_id (get e.0 vals) e.1 graph) specs

-- `ontology.node_kinds.get(current.parent) if current.parent else None`
unfoldable pub parent_of : Ontology → NodeKind → Option NodeKind
parent_of ontology kind = elim kind.parent [
  | none ↦ none
  | some p ↦ if is_empty_str p then none else get p ontology.node_kinds
]

-- The `while` loop of `_compose_node_attrs`. `none` means that the fuel ran out.
unfoldable pub parent_chain :
    ℕ → Ontology → List String → List NodeKind → Option NodeKind → Option (List NodeKind)
unfolding is_in any parent_of
parent_chain fuel ontology seen chain none = some chain
parent_chain ℕ.zero ontology seen chain (some kind) = none
parent_chain (suc fuel) ontology seen chain (some kind) =
    let rest =
      parent_chain fuel ontology (kind.id ∷ seen) (kind ∷ chain) (parent_of ontology kind) in
    if is_in kind.id seen then some chain else rest

-- `for k in reversed(chain): composed.update(k.attrs)`. The loop above puts each kind in front,
-- so its list is the reversed chain already: the root first.
unfoldable pub merge_attrs : List NodeKind → Dict String AttrSpec → Dict String AttrSpec
unfolding update
merge_attrs [] composed = composed
merge_attrs (k ∷ chain) composed = merge_attrs chain (update composed k.attrs)

-- Every kind of the chain but the first is declared, so this bounds the rounds.
abbrev pub chain_fuel : Ontology → ℕ
chain_fuel ontology = suc (suc (length ontology.node_kinds))

unfoldable pub compose_node_attrs : NodeKind → Ontology → Dict String AttrSpec
compose_node_attrs kind ontology =
    elim (parent_chain (chain_fuel ontology) ontology [] [] (some kind)) [
      | none ↦ []
      | some chain ↦ merge_attrs chain []
    ]
