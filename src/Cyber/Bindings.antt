-- ===== src/Cyber/Bindings.antt =====
-- packs/cyber_webapp/cyber_webapp/invariants.py: what `credential_reuse_binding` decides.
use open_range.Base.{
  String, List, [], ◌∷◌, ◌++◌, Bool, true, false, not, ◌&&◌, ◌||◌, some, Dict, get, values,
  is_empty, when, filter, flat_map-nil_iff, append-nil_iff, append_assoc, append-nil, All, All_map,
  elem, map, if◌then◌else◌, ◌==◌, string_eq, Bool-cases, inl, inr, ◌≡◌, ◌≢◌, ◌↔◌, refl, sym, ap,
  subst, ◌∙◌, arith,
}
use open_range.Value.{Value}
use open_range.Graph.{Edge, WorldGraph, in_edges, out_edges}
use open_range.Schema.{Issue}
use open_range.Cyber.Invariants.{listed}
use open_range.Cyber.Credentials.{
  is_producer_kind, group_edge, group_edges, producers_of, affects_of, enables_of, reaches,
  vuln_kind_of, producer_round, gates_of, gate_issues, produced_issues, requirement_round,
  credential_reuse_binding,
}
use open_range.Cyber.Lookups.{listed-put}
use open_range.Cyber.Reaching.{Trail, last, step, reaches_iff}

module _ (graph : WorldGraph) where
  -- The hops that produce a credential, those that affect an endpoint, and those that a hop enables.
  abbrev pub hops_to : String → String → List String
  hops_to kind target = map (λ e. e.src) (in_edges graph target (some kind))

  abbrev pub enabled_by : String → List String
  enabled_by a = map (λ e. e.dst) (out_edges graph a (some "enables"))

  -- A later hop of the chain: one or more `enables` edges away.
  pub data IsLater (b : String) : String → Type 0 where
    next : {a : String} → elem b (enabled_by a) ≡ true → IsLater b a
    beyond : {a c : String} → elem c (enabled_by a) ≡ true → IsLater b c → IsLater b a

  -- One hop produces the credential, and there are gates, all of them later hops.
  pub record IsGated (producers gates : List String) : Type 0 where
    pub producer : String
    pub one : producers ≡ producer ∷ []
    pub has_gate : is_empty gates ≡ false
    pub later : All (λ gate. (producer ≢ gate) × IsLater gate producer) gates

module _ (show : Value → String) (graph : WorldGraph) where
  -- Credentials are produced by hops of a chain, and every endpoint that requires one is gated.
  pub record IsBound : Type 0 where
    pub hops :
        All
          (λ (e : Edge).
            e.kind ≡ "produces" → is_producer_kind (get e.src (vuln_kind_of show graph)) ≡ true)
          (values graph.edges)
    pub gated :
        All
          (λ (e : Edge).
            e.kind ≡ "requires_credential"
            → IsGated graph
                (hops_to graph "produces" e.dst)
                (gates_of (vuln_kind_of show graph) (hops_to graph "affects" e.src)))
          (values graph.edges)

-- The lists of the dicts are the ends of the edges of the kind.
module _ (kind : String) (key value : Edge → String) (k : String) where
  abbrev picks : Edge → Bool
  picks e = key e == k && e.kind == kind

  listed-group_edge :
      (e : Edge) (d : Dict String (List String))
      → listed k (group_edge kind key value e d)
        ≡ listed k d ++ (if picks e then value e ∷ [] else [])
  unfolding group_edge
  listed-group_edge e d = elim (Bool-cases (e.kind == kind)) [
    | inl t ↦ elim (Bool-cases (key e == k)) [
      | inl u ↦ ground (
        arith,
        listed-put (key e) k (listed (key e) d ++ value e ∷ []) d,
        ap (λ z. listed z d ++ (value e ∷ [])) ((string_eq.beq_iff (key e) k).0 u),
      )
      | inr u ↦ ground (
        arith,
        listed-put (key e) k (listed (key e) d ++ value e ∷ []) d,
        append-nil (listed k d),
      )
    ]
    | inr f ↦ ground (arith, append-nil (listed k d))
  ]

  picked :
      (e : Edge) (edges : List Edge)
      → (if picks e then value e ∷ [] else []) ++ map value (filter picks edges)
        ≡ map value (filter picks (e ∷ edges))
  unfolding filter
  picked e edges = ground arith

  listed-group_edges :
      (edges : List Edge) (d : Dict String (List String))
      → listed k (group_edges kind key value edges d) ≡ listed k d ++ map value (filter picks edges)
  unfolding group_edges filter
  listed-group_edges [] d = sym (append-nil _)
  listed-group_edges (e ∷ edges) d =
      listed-group_edges edges (group_edge kind key value e d)
      ∙ ap (λ xs. xs ++ map value (filter picks edges)) (listed-group_edge e d)
      ∙ append_assoc (listed k d) _ _
      ∙ ap (λ xs. listed k d ++ xs) (picked e edges)

module _ (vuln_kind : Dict String String) where
  producer_round-nil_iff :
      (e : Edge)
      → (producer_round vuln_kind e ≡ [])
        ↔ (e.kind ≡ "produces" → is_producer_kind (get e.src vuln_kind) ≡ true)
  unfolding producer_round
  producer_round-nil_iff e = (
    λ h k. ground (arith, string_eq.beq_iff e.kind "produces"),
    λ f. elim (Bool-cases (e.kind == "produces")) [
      | inl t ↦ ground (arith, f ((string_eq.beq_iff e.kind "produces").0 t))
      | inr u ↦ ground arith
    ],
  )

module _ (graph : WorldGraph) where
  enabled_lem : (a : String) → listed a (enables_of graph) ≡ enabled_by graph a
  unfolding out_edges filter get
  enabled_lem a = listed-group_edges "enables" (λ e. e.src) (λ e. e.dst) a (values graph.edges) []

  hops_lem :
      (kind k : String)
      → listed k (group_edges kind (λ e. e.dst) (λ e. e.src) (values graph.edges) [])
        ≡ hops_to graph kind k
  unfolding in_edges filter get
  hops_lem kind k = listed-group_edges kind (λ e. e.dst) (λ e. e.src) k (values graph.edges) []

  Trail-IsLater : (b a : String) → Trail (enables_of graph) b a → IsLater graph b a
  Trail-IsLater b a (last k) = next (subst (λ xs. elem b xs ≡ true) (enabled_lem a) k)
  Trail-IsLater b a (step {b = c} k p) =
      beyond (subst (λ xs. elem c xs ≡ true) (enabled_lem a) k) (Trail-IsLater b c p)

  IsLater-Trail : (b a : String) → IsLater graph b a → Trail (enables_of graph) b a
  IsLater-Trail b a (next k) = last (subst (λ xs. elem b xs ≡ true) (sym (enabled_lem a)) k)
  IsLater-Trail b a (beyond {c = c} k p) =
      step (subst (λ xs. elem c xs ≡ true) (sym (enabled_lem a)) k) (IsLater-Trail b c p)

  gate-nil_iff :
      (producer gate : String) (i : Issue)
      → (when (producer == gate || not (reaches (enables_of graph) producer gate)) i ≡ [])
        ↔ ((producer ≢ gate) × IsLater graph gate producer)
  gate-nil_iff producer gate i = (
    λ h. (
      λ e. ground (arith, string_eq.beq_iff producer gate),
      Trail-IsLater gate producer ((reaches_iff (enables_of graph) gate producer).0 (ground arith)),
    ),
    λ h. ground (
      arith,
      h.0,
      string_eq.beq_iff producer gate,
      (reaches_iff (enables_of graph) gate producer).1 (IsLater-Trail gate producer h.1),
    ),
  )

  gates-IsGated :
      (endpoint_id : String) (producers gates : List String)
      → produced_issues (enables_of graph) endpoint_id producers gates ≡ []
      → IsGated graph producers gates
  unfolding produced_issues gate_issues
  gates-IsGated endpoint_id [] gates h = cc
  gates-IsGated endpoint_id (p ∷ q ∷ ps) gates h = cc
  gates-IsGated endpoint_id (p ∷ []) [] h = cc
  gates-IsGated endpoint_id (p ∷ []) (g ∷ gates) h = record {
    producer = p;
    one = refl;
    has_gate = refl;
    later =
        All_map (λ gate. (gate-nil_iff p gate _).0) (g ∷ gates)
          ((flat_map-nil_iff _ (g ∷ gates)).0 h);
  }

  IsGated-gates :
      (endpoint_id : String) (producers gates : List String)
      → IsGated graph producers gates
      → produced_issues (enables_of graph) endpoint_id producers gates ≡ []
  unfolding produced_issues gate_issues
  IsGated-gates endpoint_id producers gates h =
      rw (h.one, h.has_gate)
        ((flat_map-nil_iff _ gates).1
          (All_map (λ gate. (gate-nil_iff h.producer gate _).1) gates h.later))

module _ (show : Value → String) (graph : WorldGraph) where
  requirement-nil_iff :
      (e : Edge)
      → (requirement_round
            (producers_of graph)
            (affects_of graph)
            (enables_of graph)
            (vuln_kind_of show graph)
            e
          ≡ [])
        ↔ (e.kind ≡ "requires_credential"
            → IsGated graph
                (hops_to graph "produces" e.dst)
                (gates_of (vuln_kind_of show graph) (hops_to graph "affects" e.src)))
  unfolding requirement_round
  requirement-nil_iff e = elim (Bool-cases (e.kind == "requires_credential")) [
    | inl t ↦
        rw (t, hops_lem graph "produces" e.dst, hops_lem graph "affects" e.src)
          (
            λ h k. gates-IsGated graph e.src _ _ h,
            λ f.
                IsGated-gates graph e.src _ _
                  (f ((string_eq.beq_iff e.kind "requires_credential").0 t)),
          )
    | inr u ↦
        rw u (
          λ h k. absurd (ground (arith, string_eq.beq_iff e.kind "requires_credential")),
          λ f. refl,
        )
  ]

  -- credential_reuse_binding is silent exactly when every edge that produces a credential starts at
  -- a leak or a relay, and every edge that requires one has exactly one hop that produces it and at
  -- least one gate, every gate another hop that one or more enables edges lead to from it.
  pub credential_reuse_binding-nil_iff :
      (credential_reuse_binding show graph ≡ []) ↔ IsBound show graph
  unfolding credential_reuse_binding
  credential_reuse_binding-nil_iff = (
    λ h.
        let (hops, gated) = (append-nil_iff _ _).0 h in
        record {
          hops =
              All_map (λ e. (producer_round-nil_iff (vuln_kind_of show graph) e).0)
                (values graph.edges) ((flat_map-nil_iff _ (values graph.edges)).0 hops);
          gated =
              All_map (λ e. (requirement-nil_iff e).0) (values graph.edges)
                ((flat_map-nil_iff _ (values graph.edges)).0 gated);
        },
    λ b. (append-nil_iff _ _).1 (
      (flat_map-nil_iff _ (values graph.edges)).1 (
          All_map (λ e. (producer_round-nil_iff (vuln_kind_of show graph) e).1) (values graph.edges)
            b.hops),
      (flat_map-nil_iff _ (values graph.edges)).1
          (All_map (λ e. (requirement-nil_iff e).1) (values graph.edges) b.gated),
    ),
  )
