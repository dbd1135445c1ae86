-- ===== src/Cyber/Tokens.antt =====
-- packs/cyber_webapp/cyber_webapp/invariants.py: the invariants on the values of tokens and of the flag.
use open_range.Base.{
  String, List, [], ◌∷◌, ◌++◌, Bool, true, false, not, ◌&&◌, ◌||◌, Option, none, some, Dict, get,
  put, values, any, when, flat_map, is_some, if◌then◌else◌, ◌==◌, string_eq, is_empty_str, Result,
  ok, err, key_error, ◌>>=◌,
}
use open_range.Value.{Value, str, dict, list, null, Items, nil, cons, Fields, end, field, to_dict}
use open_range.Graph.{Node, Edge, WorldGraph, by_kind}
use open_range.Schema.{Issue, error_issue}
use open_range.Cyber.Invariants.{listed, shown, kind_or, is_text}
use text.Mathlib.Text.{find?}
use open_range.Cyber.Credentials.{affects_of, is_gate_kind}

module _ (show : Value → String) where
  -- `{n.id: str(n.attrs.get("value_ref", "")) for n in …}`
  abbrev pub value_ref_of : Node → String
  value_ref_of n = shown show (elim (get "value_ref" n.attrs) [ none ↦ str "" | some v ↦ v ])

  unfoldable pub values_from : List Node → Dict String String → Dict String String
  values_from [] d = d
  values_from (n ∷ nodes) d = values_from nodes (put n.id (value_ref_of n) d)

-- `{n.id: n for n in …}`
unfoldable pub nodes_from : List Node → Dict String Node → Dict String Node
nodes_from [] d = d
nodes_from (n ∷ nodes) d = nodes_from nodes (put n.id n d)

module _ (show : Value → String) where
  -- `None if value is None else str(value)`
  abbrev pub text_or_none : Option Value → Option String
  text_or_none none = none
  text_or_none (some null) = none
  text_or_none (some v) = some (shown show v)

  -- `params.get(key)` where params is a mapping.
  abbrev pub param_in : String → Option Value → Option String
  param_in key (some (dict fields)) = text_or_none (get key (to_dict fields))
  param_in key _ = none

  unfoldable pub param : Dict String Node → String → String → Option String
  param vuln vuln_id key = elim (get vuln_id vuln) [
    | none ↦ none
    | some node ↦ param_in key (get "params" node.attrs)
  ]

  -- `str(vuln[edge.src].attrs.get("kind", "")) if edge.src in vuln else ""`
  abbrev pub kind_at : Option Node → String
  kind_at none = ""
  kind_at (some node) = shown show (kind_or (str "") node)

-- `value is not None and value != expected`
unfoldable pub differs : Option String → Option String → Bool
differs none expected = false
differs (some value) none = true
differs (some value) (some expected) = not (value == expected)

module _ (show : Value → String) where
  unfoldable pub emitted_issues : Dict String String → Dict String Node → Edge → List Issue
  emitted_issues cred_value vuln edge =
      let relay = kind_at show (get edge.src vuln) == "credential_gated_relay" in
      let key = if relay then "next_credential" else "credential" in
      when (differs (param show vuln edge.src key) (get edge.dst cred_value))
        (error_issue "credential_value" edge.src)

  -- `vuln[gate]` raises on an id that is no vulnerability.
  unfoldable pub gate_value_issues :
      Option String → Dict String Node → List String → Result (List Issue)
  gate_value_issues expected vuln [] = ok []
  gate_value_issues expected vuln (gate ∷ gates) = elim (get gate vuln) [
    | none ↦ err key_error
    | some node ↦ (do
      rest ← gate_value_issues expected vuln gates
      let found =
          when
            (is_gate_kind (some (kind_at show (some node)))
              && differs (param show vuln gate "credential") expected)
            (error_issue "credential_value" gate)
      ok (found ++ rest))
  ]

  unfoldable pub value_round :
      Dict String String → Dict String Node → Dict String (List String) → Edge → Result (List Issue)
  value_round cred_value vuln affects edge =
      if edge.kind == "produces"
      then ok (emitted_issues cred_value vuln edge)
      else if edge.kind == "requires_credential"
      then gate_value_issues (get edge.dst cred_value) vuln (listed edge.src affects)
      else ok []

  unfoldable pub value_rounds :
      Dict String String
      → Dict String Node
      → Dict String (List String)
      → List Edge
      → Result (List Issue)
  value_rounds cred_value vuln affects [] = ok []
  value_rounds cred_value vuln affects (edge ∷ edges) = do
    found ← value_round cred_value vuln affects edge
    rest ← value_rounds cred_value vuln affects edges
    ok (found ++ rest)

  unfoldable pub credential_value_binding : WorldGraph → Result (List Issue)
  credential_value_binding graph =
      value_rounds (values_from show (by_kind graph "credential") [])
        (nodes_from (by_kind graph "vulnerability") []) (affects_of graph) (values graph.edges)

-- `needle in obj` on texts.
abbrev pub is_within : String → String → Bool
is_within needle text = is_some (find? text needle)

unfoldable mutual
  pub contains_value : Value → String → Bool
  contains_value (str text) needle = is_within needle text
  contains_value (list items) needle = items_contain items needle
  contains_value (dict fields) needle = fields_contain fields needle
  contains_value _ needle = false

  pub items_contain : Items → String → Bool
  items_contain nil needle = false
  items_contain (cons v vs) needle = contains_value v needle || items_contain vs needle

  pub fields_contain : Fields → String → Bool
  fields_contain end needle = false
  fields_contain (field k v fs) needle = contains_value v needle || fields_contain fs needle

-- `_contains_value(node.attrs, flag)`
abbrev pub attrs_contain : Dict String Value → String → Bool
attrs_contain attrs needle = any (λ e. contains_value e.1 needle) attrs

unfoldable pub exposures : String → Dict String Node → List Issue
exposures flag nodes =
    flat_map
      (λ e.
        when (not (e.0 == "secret_flag") && attrs_contain e.1.attrs flag)
          (error_issue "flag_short_circuit" e.0))
      nodes

module _ (show : Value → String) where
  unfoldable pub flag_confined_to_gate : WorldGraph → List Issue
  flag_confined_to_gate graph =
      if any (λ v. is_text "credential_gated_flag" (get "kind" v.attrs))
        (by_kind graph "vulnerability")
      then elim (get "secret_flag" graph.nodes) [
        | none ↦ []
        | some node ↦
            let flag = value_ref_of show node in
            if is_empty_str flag then [] else exposures flag graph.nodes
      ]
      else []
