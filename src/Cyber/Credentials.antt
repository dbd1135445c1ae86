-- ===== src/Cyber/Credentials.antt =====
-- packs/cyber_webapp/cyber_webapp/invariants.py: `credential_reuse_binding`.
use open_range.Base.{
  ℕ, suc, zero, ◌+◌, String, List, [], ◌∷◌, ◌++◌, Bool, true, false, not, ◌&&◌, ◌||◌, Option, none,
  some, Dict, get, put, values, is_empty, when, filter, flat_map, elem, length, if◌then◌else◌, ◌==◌,
  string_eq,
}
use open_range.Value.{Value, str}
use open_range.Graph.{Node, Edge, WorldGraph, by_kind}
use open_range.Schema.{Issue, error_issue}
use open_range.Cyber.Invariants.{listed, append_at, shown, kind_or}

abbrev pub is_producer_kind : Option String → Bool
is_producer_kind none = false
is_producer_kind (some kind) = elem kind ("credential_leak" ∷ "credential_gated_relay" ∷ [])

abbrev pub is_gate_kind : Option String → Bool
is_gate_kind none = false
is_gate_kind (some kind) = elem kind ("credential_gated_relay" ∷ "credential_gated_flag" ∷ [])

-- `if edge.kind == kind: d.setdefault(key, []).append(value)`
unfoldable pub group_edge :
    String
    → (Edge → String)
    → (Edge → String)
    → Edge
    → Dict String (List String)
    → Dict String (List String)
group_edge kind key value edge d =
    if edge.kind == kind then append_at (key edge) (value edge) d else d

-- The three dicts of the loop are filled by edges of different kinds, each on its own.
unfoldable pub group_edges :
    String
    → (Edge → String)
    → (Edge → String)
    → List Edge
    → Dict String (List String)
    → Dict String (List String)
group_edges kind key value [] d = d
group_edges kind key value (edge ∷ edges) d =
    group_edges kind key value edges (group_edge kind key value edge d)

abbrev pub producers_of : WorldGraph → Dict String (List String)
producers_of graph = group_edges "produces" (λ e. e.dst) (λ e. e.src) (values graph.edges) []

abbrev pub affects_of : WorldGraph → Dict String (List String)
affects_of graph = group_edges "affects" (λ e. e.dst) (λ e. e.src) (values graph.edges) []

-- The sets of the program, in which repeated elements do no harm.
abbrev pub enables_of : WorldGraph → Dict String (List String)
enables_of graph = group_edges "enables" (λ e. e.src) (λ e. e.dst) (values graph.edges) []

-- The loop of `reaches`, its stack with the end first. The bool is the result.
unfoldable pub search_from :
    ℕ → Dict String (List String) → String → List String → List String → Bool
search_from zero enables dst stack seen = false
search_from (suc fuel) enables dst [] seen = false
search_from (suc fuel) enables dst (cur ∷ stack) seen =
    let again = search_from fuel enables dst stack seen in
    let on = search_from fuel enables dst (listed cur enables ++ stack) (cur ∷ seen) in
    if cur == dst then true else if elem cur seen then again else on

-- The elements of all lists.
unfoldable pub total : Dict String (List String) → ℕ
total [] = 0
total (e ∷ d) = length e.1 + total d

unfoldable pub reaches : Dict String (List String) → String → String → Bool
reaches enables src dst =
    search_from (suc (length (listed src enables) + total enables)) enables dst (listed src enables)
      []

module _ (show : Value → String) where
  -- `{n.id: str(n.attrs.get("kind", "")) for n in graph.by_kind("vulnerability")}`
  unfoldable pub kinds_from : List Node → Dict String String → Dict String String
  kinds_from [] d = d
  kinds_from (n ∷ nodes) d = kinds_from nodes (put n.id (shown show (kind_or (str "") n)) d)

  abbrev pub vuln_kind_of : WorldGraph → Dict String String
  vuln_kind_of graph = kinds_from (by_kind graph "vulnerability") []

unfoldable pub producer_round : Dict String String → Edge → List Issue
producer_round vuln_kind edge =
    when (edge.kind == "produces" && not (is_producer_kind (get edge.src vuln_kind)))
      (error_issue "credential_binding" edge.src)

-- `[v for v in affects.get(endpoint_id, []) if vuln_kind.get(v) in _CHAIN_GATE_KINDS]`
abbrev pub gates_of : Dict String String → List String → List String
gates_of vuln_kind vulns = filter (λ v. is_gate_kind (get v vuln_kind)) vulns

unfoldable pub gate_issues : Dict String (List String) → String → String → List String → List Issue
gate_issues enables endpoint_id producer gates =
    if is_empty gates
    then error_issue "credential_binding" endpoint_id ∷ []
    else flat_map
        (λ gate.
          when (producer == gate || not (reaches enables producer gate))
            (error_issue "credential_binding" endpoint_id))
        gates

unfoldable pub produced_issues :
    Dict String (List String) → String → List String → List String → List Issue
produced_issues enables endpoint_id (producer ∷ []) gates =
    gate_issues enables endpoint_id producer gates
produced_issues enables endpoint_id _ gates = error_issue "credential_binding" endpoint_id ∷ []

unfoldable pub requirement_round :
    Dict String (List String)
    → Dict String (List String)
    → Dict String (List String)
    → Dict String String
    → Edge
    → List Issue
requirement_round producers affects enables vuln_kind edge =
    if edge.kind == "requires_credential"
    then produced_issues enables edge.src (listed edge.dst producers)
        (gates_of vuln_kind (listed edge.src affects))
    else []

module _ (show : Value → String) where
  unfoldable pub credential_reuse_binding : WorldGraph → List Issue
  credential_reuse_binding graph =
      let vuln_kind = vuln_kind_of show graph in
      flat_map (producer_round vuln_kind) (values graph.edges)
      ++ flat_map
          (requirement_round (producers_of graph) (affects_of graph) (enables_of graph) vuln_kind)
          (values graph.edges)
