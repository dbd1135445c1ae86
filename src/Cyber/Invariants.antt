-- ===== src/Cyber/Invariants.antt =====
-- packs/cyber_webapp/cyber_webapp/invariants.py: the invariants on orphans, secrets, the path to the
-- flag, repeated vulnerabilities and injections.
use open_range.Base.{
  String, List, [], ◌∷◌, ◌++◌, Bool, false, not, ◌&&◌, ◌||◌, Option, none, some, Dict, get, put,
  contains, values, any, is_empty, when, filter, flat_map, elem, if◌then◌else◌, ◌==◌, string_eq,
  pair_eq,
}
use open_range.Value.{Value, str, null}
use open_range.Graph.{Node, Edge, WorldGraph, by_kind, out_edges}
use open_range.Schema.{Issue, error_issue}

-- `{f(e) for e in graph.edges.values() if e.kind == kind}`; membership is all that is asked of it.
unfoldable pub ends_of : (Edge → String) → String → WorldGraph → List String
ends_of end kind graph = flat_map (λ e. when (e.kind == kind) (end e)) (values graph.edges)

-- `node.kind in _ORPHAN_EXEMPT`
abbrev pub is_exempt : String → Bool
is_exempt kind = elem kind ("host" ∷ "network" ∷ [])

-- `referenced.add(edge.src); referenced.add(edge.dst)`
unfoldable pub referenced : WorldGraph → List String
referenced graph = flat_map (λ e. e.src ∷ e.dst ∷ []) (values graph.edges)

unfoldable pub orphan_round : List String → Node → List Issue
orphan_round seen node =
    when (not (is_exempt node.kind) && not (elem node.id seen)) (error_issue "orphan_node" node.id)

unfoldable pub no_orphan_nodes : WorldGraph → List Issue
no_orphan_nodes graph = flat_map (orphan_round (referenced graph)) (values graph.nodes)

unfoldable pub secret_must_be_held : WorldGraph → List Issue
secret_must_be_held graph =
    flat_map
      (λ node.
        when (not (elem node.id (ends_of (λ e. e.dst) "holds" graph)))
          (error_issue "secret_not_held" node.id))
      (by_kind graph "secret")

-- `attrs.get("kind") == text`
abbrev pub is_text : String → Option Value → Bool
is_text text (some (str s)) = s == text
is_text text _ = false

abbrev pub flags_of : WorldGraph → List Node
flags_of graph = filter (λ n. is_text "flag" (get "kind" n.attrs)) (by_kind graph "secret")

-- The variables of the loop over the edges in `oracle_path_exists`.
pub record Chains : Type 0 where
  pub holds_by_secret : Dict String String
  pub contains_by_record : Dict String String
  pub backed_by_store : Dict String (List String)
  pub exposes_by_service : Dict String (List String)
  pub vuln_targets : List String

-- `d.get(k, [])`
abbrev pub listed : String → Dict String (List String) → List String
listed k d = elim (get k d) [ none ↦ [] | some xs ↦ xs ]

-- `d.setdefault(k, []).append(x)`
abbrev pub append_at : String → String → Dict String (List String) → Dict String (List String)
append_at k x d = put k (listed k d ++ x ∷ []) d

unfoldable pub note_edge : Edge → Chains → Chains
note_edge edge c =
    if edge.kind == "holds"
    then record c { holds_by_secret = put edge.dst edge.src c.holds_by_secret }
    else if edge.kind == "contains"
    then record c { contains_by_record = put edge.dst edge.src c.contains_by_record }
    else if edge.kind == "backed_by"
    then record c { backed_by_store = append_at edge.dst edge.src c.backed_by_store }
    else if edge.kind == "exposes"
    then record c { exposes_by_service = append_at edge.src edge.dst c.exposes_by_service }
    else if edge.kind == "affects"
    then record c { vuln_targets = edge.dst ∷ c.vuln_targets }
    else c

unfoldable pub note_edges : List Edge → Chains → Chains
note_edges [] c = c
note_edges (edge ∷ edges) c = note_edges edges (note_edge edge c)

abbrev pub no_chains : Chains
no_chains = record {
  holds_by_secret = [];
  contains_by_record = [];
  backed_by_store = [];
  exposes_by_service = [];
  vuln_targets = [];
}

unfoldable pub chains_of : WorldGraph → Chains
chains_of graph = note_edges (values graph.edges) no_chains

-- The loop over the services that ends with `chain_found`.
unfoldable pub is_attacked : Chains → String → Bool
is_attacked c service_id =
    elem service_id c.vuln_targets
    || any (λ e. elem e c.vuln_targets) (listed service_id c.exposes_by_service)

unfoldable pub services_issues : Chains → String → List String → List Issue
services_issues c flag_id services =
    if is_empty services
    then error_issue "flag_store_unreachable" flag_id ∷ []
    else when (not (any (is_attacked c) services)) (error_issue "no_oracle_chain" flag_id)

unfoldable pub store_issues : Chains → String → Option String → List Issue
store_issues c flag_id none = error_issue "flag_record_unstored" flag_id ∷ []
store_issues c flag_id (some store_id) =
    services_issues c flag_id (listed store_id c.backed_by_store)

unfoldable pub record_issues : Chains → String → Option String → List Issue
record_issues c flag_id none = []
record_issues c flag_id (some record_id) =
    store_issues c flag_id (get record_id c.contains_by_record)

unfoldable pub flag_round : Chains → Node → List Issue
flag_round c flag = record_issues c flag.id (get flag.id c.holds_by_secret)

unfoldable pub flags_issues : Chains → List Node → List Issue
flags_issues c flags =
    if is_empty flags
    then error_issue "no_flag_secret" "graph" ∷ []
    else flat_map (flag_round c) flags

unfoldable pub oracle_path_exists : WorldGraph → List Issue
oracle_path_exists graph = flags_issues (chains_of graph) (flags_of graph)

-- `str(attrs.get(key, default))`, with `str` on values that are no texts as a parameter.
abbrev pub shown : (Value → String) → Value → String
shown show (str s) = s
shown show v = show v

abbrev pub kind_or : Value → Node → Value
kind_or default node = elim (get "kind" node.attrs) [ none ↦ default | some v ↦ v ]

-- `target_of.setdefault(edge.src, edge.dst)`
unfoldable pub note_target : Edge → Dict String String → Dict String String
note_target edge d =
    if edge.kind == "affects" then if contains edge.src d then d else put edge.src edge.dst d else d

unfoldable pub targets_from : List Edge → Dict String String → Dict String String
targets_from [] d = d
targets_from (edge ∷ edges) d = targets_from edges (note_target edge d)

module _ (show : Value → String) where
  -- The loop over the vulnerabilities, with the keys seen.
  unfoldable pub duplicates : Dict String String → List Node → List (String × String) → List Issue
  duplicates target_of [] seen = []
  duplicates target_of (vuln ∷ vulns) seen = elim (get vuln.id target_of) [
    | none ↦ duplicates target_of vulns seen
    | some target ↦
        let key : String × String = (shown show (kind_or null vuln), target) in
        when (elem key seen) (error_issue "duplicate_vuln_on_endpoint" vuln.id)
        ++ duplicates target_of vulns (key ∷ seen)
  ]

  unfoldable pub unique_vuln_per_endpoint : WorldGraph → List Issue
  unique_vuln_per_endpoint graph =
      duplicates (targets_from (values graph.edges) []) (by_kind graph "vulnerability") []

  -- `str(vuln.attrs.get("kind", "")) in _VULN_KINDS_REQUIRING_DB`
  abbrev pub requires_db : Node → Bool
  requires_db vuln = elem (shown show (kind_or (str "") vuln)) ("sql_injection" ∷ "idor" ∷ [])

-- `{e.dst: e.src for e in graph.edges.values() if e.kind == "exposes"}`
unfoldable pub services_from : List Edge → Dict String String → Dict String String
services_from [] d = d
services_from (edge ∷ edges) d =
    services_from edges (if edge.kind == "exposes" then put edge.dst edge.src d else d)

-- The service of a target, if the target is a service or an endpoint.
unfoldable pub service_id_of : Dict String String → Node → Option String
service_id_of service_of_endpoint target =
    if target.kind == "service"
    then some target.id
    else if target.kind == "endpoint"
    then some (elim (get target.id service_of_endpoint) [ none ↦ "" | some s ↦ s ])
    else none

unfoldable pub backing_issue : List String → String → Option String → List Issue
backing_issue db_backed_services vuln_id none = []
backing_issue db_backed_services vuln_id (some service_id) =
    when (not (elem service_id db_backed_services)) (error_issue "sqli_without_db_backing" vuln_id)

unfoldable pub target_issues : List String → Dict String String → String → Option Node → List Issue
target_issues db_backed_services service_of_endpoint vuln_id none = []
target_issues db_backed_services service_of_endpoint vuln_id (some target) =
    backing_issue db_backed_services vuln_id (service_id_of service_of_endpoint target)

module _ (show : Value → String) where
  unfoldable pub injection_round : WorldGraph → Node → List Issue
  injection_round graph vuln =
      if requires_db show vuln
      then flat_map
          (λ affects.
            target_issues (ends_of (λ e. e.src) "backed_by" graph)
              (services_from (values graph.edges) []) vuln.id (get affects.dst graph.nodes))
          (out_edges graph vuln.id (some "affects"))
      else []

  unfoldable pub sqli_targets_db_backed_service : WorldGraph → List Issue
  sqli_targets_db_backed_service graph =
      flat_map (injection_round graph) (by_kind graph "vulnerability")
