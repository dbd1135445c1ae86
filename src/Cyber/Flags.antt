-- ===== src/Cyber/Flags.antt =====
-- packs/cyber_webapp/cyber_webapp/invariants.py: what the invariants promise of the way to the flag.
use open_range.Base.{
  String, List, [], ◌∷◌, Bool, true, false, Option, none, some, get, values, is_empty, filter,
  flat_map-nil_iff, All, All_map, elem, is_some, Bool-cases, string_eq, inl, inr, ◌⊎◌, ◌≡◌, refl,
  arith,
}
use open_range.Graph.{Node, WorldGraph, by_kind}
use open_range.Cyber.Invariants.{
  Chains, listed, no_chains, chains_of, is_attacked, flag_round, flags_issues, flags_of, is_text,
  oracle_path_exists, ends_of, secret_must_be_held, record_issues, store_issues, services_issues,
}
use open_range.Cyber.Lookups.{any-elem}
use open_range.Cyber.Oracle.{Link, OraclePath, chains_of-AreLinks, note_edges-held}

module _ (c : Chains) (flag_id : String) where
  services-attacked :
      (services : List String)
      → services_issues c flag_id services ≡ []
      → (s : String) × (elem s services ≡ true) × (is_attacked c s ≡ true)
  unfolding services_issues
  services-attacked [] h = cc
  services-attacked (s ∷ ss) h = any-elem (is_attacked c) (s ∷ ss) (ground arith)

  store-there :
      (o : Option String)
      → store_issues c flag_id o ≡ []
      → (store : String) × (o ≡ some store)
        × (services_issues c flag_id (listed store c.backed_by_store) ≡ [])
  unfolding store_issues
  store-there none h = cc
  store-there (some store) h = (store, refl, h)

  record-stored :
      (o : Option String)
      → is_some o ≡ true
      → record_issues c flag_id o ≡ []
      → (r : String) × (o ≡ some r) × (store_issues c flag_id (get r c.contains_by_record) ≡ [])
  unfolding record_issues
  record-stored none k h = cc
  record-stored (some r) k h = (r, refl, h)

module _ (graph : WorldGraph) where
  -- A service under attack is a target itself, or exposes one.
  attacked-target :
      (service_id : String)
      → is_attacked (chains_of graph) service_id ≡ true
      → (t : String) × (elem t (chains_of graph).vuln_targets ≡ true)
        × ((t ≡ service_id) ⊎ Link graph "exposes" service_id t)
  unfolding is_attacked
  attacked-target s h = elim (Bool-cases (elem s (chains_of graph).vuln_targets)) [
    | inl t ↦ (s, t, inl refl)
    | inr f ↦
        let (e, m, t) =
          any-elem (λ x. elem x (chains_of graph).vuln_targets)
            (listed s (chains_of graph).exposes_by_service) (ground arith) in
        (e, t, inr ((chains_of-AreLinks graph).exposes s e m))
  ]

  flag-OraclePath :
      (flag : Node)
      → is_some (get flag.id (chains_of graph).holds_by_secret) ≡ true
      → flag_round (chains_of graph) flag ≡ []
      → OraclePath graph flag.id
  unfolding flag_round
  flag-OraclePath flag held h =
      let c = chains_of graph in
      let l = chains_of-AreLinks graph in
      let (r, holds, stored) = record-stored c flag.id _ held h in
      let (store, contains, backed) = store-there c flag.id _ stored in
      let (s, m, attacked) = services-attacked c flag.id _ backed in
      let (t, target, on) = attacked-target s attacked in
      let (v, affects) = l.targets t target in
      record {
        record_id = r;
        store_id = store;
        service_id = s;
        holds = l.holds flag.id r holds;
        contains = l.contains r store contains;
        backed = l.backed store s m;
        vuln_id = v;
        target_id = t;
        affects = affects;
        on_service = on;
      }

  secret_held :
      (flag : Node)
      → elem flag.id (ends_of (λ e. e.dst) "holds" graph) ≡ true
      → is_some (get flag.id (chains_of graph).holds_by_secret) ≡ true
  unfolding chains_of ends_of
  secret_held flag h = note_edges-held graph flag.id (values graph.edges) no_chains (ground arith)

  flags-OraclePath :
      (p : Node → Bool) (nodes : List Node)
      → All (λ (n : Node). elem n.id (ends_of (λ e. e.dst) "holds" graph) ≡ true) nodes
      → All (λ n. flag_round (chains_of graph) n ≡ []) (filter p nodes)
      → All (λ (n : Node). OraclePath graph n.id) (filter p nodes)
  unfolding filter
  flags-OraclePath p [] held h = tt
  flags-OraclePath p (n ∷ nodes) held h = elim (Bool-cases (p n)) [
    | inl t ↦ rw t (
      flag-OraclePath n (secret_held n held.0) (rw t at h).0,
      flags-OraclePath p nodes held.1 (rw t at h).1,
    )
    | inr f ↦ rw f (flags-OraclePath p nodes held.1 (rw f at h))
  ]

  flags-there :
      (flags : List Node)
      → flags_issues (chains_of graph) flags ≡ []
      → (is_empty flags ≡ false) × All (λ n. flag_round (chains_of graph) n ≡ []) flags
  unfolding flags_issues
  flags-there [] h = cc
  flags-there (n ∷ ns) h = (refl, (flat_map-nil_iff _ (n ∷ ns)).0 h)

  -- If secret_must_be_held and oracle_path_exists are silent, the graph has a flag, and from every
  -- flag holds, contains and backed_by edges lead back to a service, and an affects edge to that
  -- service or to an endpoint that it exposes.
  pub oracle_path_exists-OraclePath :
      secret_must_be_held graph ≡ []
      → oracle_path_exists graph ≡ []
      → (is_empty (flags_of graph) ≡ false)
        × All (λ (n : Node). OraclePath graph n.id) (flags_of graph)
  unfolding secret_must_be_held oracle_path_exists
  oracle_path_exists-OraclePath held h =
      let (some_flag, silent) = flags-there (flags_of graph) h in
      (
        some_flag,
        flags-OraclePath (λ n. is_text "flag" (get "kind" n.attrs)) (by_kind graph "secret")
            (All_map (λ n e. ground arith) (by_kind graph "secret")
              ((flat_map-nil_iff _ (by_kind graph "secret")).0 held))
            silent,
      )
