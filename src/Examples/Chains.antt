-- ===== src/Examples/Chains.antt =====
-- The invariants of the web application pack, at a small world with a chain of two hops.
use open_range.Base.{
  false, String, [], ◌∷◌, get, filter, flat_map, elem, any, put, is_empty, All, ◌≡◌, ◌↔◌, refl,
}
use open_range.Value.{Value, str}
use open_range.Graph.{Node, Edge, WorldGraph, public, by_kind}
use open_range.Cyber.Invariants.{
  secret_must_be_held, oracle_path_exists, flags_of, ends_of, flags_issues, flag_round,
  record_issues, chains_of, note_edges, note_edge, store_issues, services_issues, is_attacked,
}
use open_range.Cyber.Credentials.{
  credential_reuse_binding, producer_round, kinds_from, requirement_round, produced_issues,
  group_edges, group_edge, gate_issues, reaches, search_from,
}
use open_range.Cyber.Bindings.{IsBound, credential_reuse_binding-nil_iff}
use open_range.Cyber.Oracle.{OraclePath}
use open_range.Cyber.Flags.{oracle_path_exists-OraclePath}

abbrev node : String → String → String → Node
node id kind of = record {
  id = id;
  kind = kind;
  attrs = ("kind", str of) ∷ [];
  roles = [];
  visibility = public;
  runtime = [];
  meta = [];
}

abbrev link : String → String → String → String → String × Edge
link id kind src dst = (id, record { id = id; kind = kind; src = src; dst = dst; attrs = [] })

-- A leak on the shop produces the token that the vault's gate asks for; the vault's store holds the
-- flag.
abbrev chained : WorldGraph
chained = record {
  ontology = "webapp";
  nodes =
      ("leak", node "leak" "vulnerability" "credential_leak")
      ∷ ("gate", node "gate" "vulnerability" "credential_gated_flag")
      ∷ ("secret_flag", node "secret_flag" "secret" "flag")
      ∷ [];
  edges =
      link "1" "produces" "leak" "token"
      ∷ link "2" "affects" "leak" "shop_api"
      ∷ link "3" "affects" "gate" "vault_api"
      ∷ link "4" "enables" "leak" "gate"
      ∷ link "5" "requires_credential" "vault_api" "token"
      ∷ link "6" "exposes" "vault" "vault_api"
      ∷ link "7" "backed_by" "vault" "store"
      ∷ link "8" "contains" "store" "loot"
      ∷ link "9" "holds" "loot" "secret_flag"
      ∷ [];
  meta = [];
}

abbrev nothing_else : Value → String
nothing_else v = ""

credential_reuse_binding-nil_iff_example :
    (credential_reuse_binding nothing_else chained ≡ []) ↔ IsBound nothing_else chained
credential_reuse_binding-nil_iff_example = credential_reuse_binding-nil_iff nothing_else chained

chained_binds : credential_reuse_binding nothing_else chained ≡ []
unfolding credential_reuse_binding flat_map producer_round get kinds_from by_kind filter put elem
    requirement_round produced_issues group_edges group_edge gate_issues reaches search_from
chained_binds = refl

chained-IsBound : IsBound nothing_else chained
chained-IsBound = (credential_reuse_binding-nil_iff nothing_else chained).0 chained_binds

chained_held : secret_must_be_held chained ≡ []
unfolding secret_must_be_held flat_map by_kind filter elem ends_of
chained_held = refl

chained_quiet : oracle_path_exists chained ≡ []
unfolding oracle_path_exists flags_issues filter by_kind get flat_map flag_round record_issues
    chains_of note_edges note_edge put store_issues services_issues any is_attacked elem
chained_quiet = refl

oracle_path_exists-OraclePath_example :
    (is_empty (flags_of chained) ≡ false)
    × All (λ (n : Node). OraclePath chained n.id) (flags_of chained)
oracle_path_exists-OraclePath_example =
    oracle_path_exists-OraclePath chained chained_held chained_quiet
