-- ===== src/Cyber/Oracle.antt =====
-- packs/cyber_webapp/cyber_webapp/invariants.py: what the invariants promise of the way to the flag.
use open_range.Base.{
  String, List, [], ◌∷◌, true, ◌||◌, ◌&&◌, some, Dict, get, put, values, when, flat_map, All, elem,
  get-put, Memᴰ, All-intro, none≢some, is_some, ◌==◌, string_eq, Bool-cases, inl, inr, ◌⊎◌, ◌≡◌,
  refl, arith,
}
use open_range.Graph.{Edge, WorldGraph}
use open_range.Cyber.Lookups.{elem-append_at}
use open_range.Cyber.Invariants.{
  Chains, listed, append_at, note_edge, note_edges, no_chains, chains_of,
}

-- An edge of the graph of a kind, with both ends.
pub record Link (graph : WorldGraph) (kind src dst : String) : Type 0 where
  pub edge : Edge
  pub there : Memᴰ edge (values graph.edges)
  pub of_kind : edge.kind ≡ kind
  pub from : edge.src ≡ src
  pub to : edge.dst ≡ dst

-- The way from a vulnerability over a service, its store and a record to the flag.
pub record OraclePath (graph : WorldGraph) (flag_id : String) : Type 0 where
  pub record_id : String
  pub store_id : String
  pub service_id : String
  pub holds : Link graph "holds" record_id flag_id
  pub contains : Link graph "contains" store_id record_id
  pub backed : Link graph "backed_by" service_id store_id
  pub vuln_id : String
  pub target_id : String
  pub affects : Link graph "affects" vuln_id target_id
  pub on_service : (target_id ≡ service_id) ⊎ Link graph "exposes" service_id target_id

module _ (graph : WorldGraph) where
  -- Whatever the dicts hold comes from an edge of the graph.
  pub record AreLinks (c : Chains) : Type 0 where
    pub holds : (k v : String) → get k c.holds_by_secret ≡ some v → Link graph "holds" v k
    pub contains : (k v : String) → get k c.contains_by_record ≡ some v → Link graph "contains" v k
    pub backed :
        (k v : String) → elem v (listed k c.backed_by_store) ≡ true → Link graph "backed_by" v k
    pub exposes :
        (k v : String) → elem v (listed k c.exposes_by_service) ≡ true → Link graph "exposes" k v
    pub targets :
        (k : String) → elem k c.vuln_targets ≡ true → (v : String) × Link graph "affects" v k

  module _ (kind : String) (e : Edge) (m : Memᴰ e (values graph.edges)) (q : e.kind ≡ kind) where
    put-Link :
        (d : Dict String String)
        → ((k v : String) → get k d ≡ some v → Link graph kind v k)
        → (k v : String) → get k (put e.dst e.src d) ≡ some v
        → Link graph kind v k
    put-Link d l k v h = elim (Bool-cases (e.dst == k)) [
      | inl t ↦ record {
        edge = e;
        there = m;
        of_kind = q;
        from = ground (arith, get-put e.dst k e.src d);
        to = (string_eq.beq_iff e.dst k).0 t;
      }
      | inr f ↦ l k v (ground (arith, get-put e.dst k e.src d))
    ]

    append_at-Link :
        (d : Dict String (List String))
        → ((k v : String) → elem v (listed k d) ≡ true → Link graph kind v k)
        → (k v : String) → elem v (listed k (append_at e.dst e.src d)) ≡ true
        → Link graph kind v k
    append_at-Link d l k v h = elim (elem-append_at e.dst e.src k v d h) [
      | inl before ↦ l k v before
      | inr (to, from) ↦ record { edge = e; there = m; of_kind = q; from = from; to = to }
    ]

    append_at-Link_from :
        (d : Dict String (List String))
        → ((k v : String) → elem v (listed k d) ≡ true → Link graph kind k v)
        → (k v : String) → elem v (listed k (append_at e.src e.dst d)) ≡ true
        → Link graph kind k v
    append_at-Link_from d l k v h = elim (elem-append_at e.src e.dst k v d h) [
      | inl before ↦ l k v before
      | inr (from, to) ↦ record { edge = e; there = m; of_kind = q; from = from; to = to }
    ]

  target-Link :
      (e : Edge)
      → Memᴰ e (values graph.edges)
      → e.kind ≡ "affects"
      → (c : Chains) → AreLinks c
      → (k : String) → elem k (e.dst ∷ c.vuln_targets) ≡ true
      → (v : String) × Link graph "affects" v k
  unfolding elem
  target-Link e m q c l k h = elim (Bool-cases (e.dst == k)) [
    | inl t ↦ (
      e.src,
      record {
        edge = e;
        there = m;
        of_kind = q;
        from = refl;
        to = (string_eq.beq_iff e.dst k).0 t;
      },
    )
    | inr f ↦ l.targets k (ground arith)
  ]

  note_edge-AreLinks :
      (e : Edge) (c : Chains) → Memᴰ e (values graph.edges) → AreLinks c → AreLinks (note_edge e c)
  unfolding note_edge
  note_edge-AreLinks e c m l = elim (Bool-cases (e.kind == "holds")) [
    | inl t ↦
        rw (note_edge, t)
          (record {
            holds = put-Link "holds" e m ((string_eq.beq_iff e.kind "holds").0 t) _ l.holds;
            contains = l.contains;
            backed = l.backed;
            exposes = l.exposes;
            targets = l.targets;
          })
    | inr t1 ↦ elim (Bool-cases (e.kind == "contains")) [
      | inl t ↦
          rw (note_edge, t1, t)
            (record {
              contains =
                  put-Link "contains" e m ((string_eq.beq_iff e.kind "contains").0 t) _ l.contains;
              holds = l.holds;
              backed = l.backed;
              exposes = l.exposes;
              targets = l.targets;
            })
      | inr t2 ↦ elim (Bool-cases (e.kind == "backed_by")) [
        | inl t ↦
            rw (note_edge, t1, t2, t)
              (record {
                backed =
                    append_at-Link "backed_by" e m ((string_eq.beq_iff e.kind "backed_by").0 t) _
                      l.backed;
                holds = l.holds;
                contains = l.contains;
                exposes = l.exposes;
                targets = l.targets;
              })
        | inr t3 ↦ elim (Bool-cases (e.kind == "exposes")) [
          | inl t ↦
              rw (note_edge, t1, t2, t3, t)
                (record {
                  exposes =
                      append_at-Link_from "exposes" e m ((string_eq.beq_iff e.kind "exposes").0 t) _
                        l.exposes;
                  holds = l.holds;
                  contains = l.contains;
                  backed = l.backed;
                  targets = l.targets;
                })
          | inr t4 ↦ elim (Bool-cases (e.kind == "affects")) [
            | inl t ↦
                rw (note_edge, t1, t2, t3, t4, t)
                  (record {
                    targets = target-Link e m ((string_eq.beq_iff e.kind "affects").0 t) c l;
                    holds = l.holds;
                    contains = l.contains;
                    backed = l.backed;
                    exposes = l.exposes;
                  })
            | inr t5 ↦ rw (note_edge, t1, t2, t3, t4, t5) l
          ]
        ]
      ]
    ]
  ]

  note_edges-AreLinks :
      (edges : List Edge) (c : Chains)
      → All (λ e. Memᴰ e (values graph.edges)) edges
      → AreLinks c
      → AreLinks (note_edges edges c)
  unfolding note_edges
  note_edges-AreLinks [] c m l = l
  note_edges-AreLinks (e ∷ edges) c m l =
      note_edges-AreLinks edges (note_edge e c) m.1 (note_edge-AreLinks e c m.0 l)

  pub chains_of-AreLinks : AreLinks (chains_of graph)
  unfolding chains_of get elem
  chains_of-AreLinks =
      note_edges-AreLinks (values graph.edges) no_chains (All-intro _ _ (λ a m. m)) (record {
        holds = λ k v h. absurd (none≢some h);
        contains = λ k v h. absurd (none≢some h);
        backed = λ k v h. cc;
        exposes = λ k v h. cc;
        targets = λ k h. cc;
      })

  -- A secret that an edge holds stands in the dict.
  note_edge-held :
      (k : String) (e : Edge) (c : Chains)
      → is_some (get k (note_edge e c).holds_by_secret)
        ≡ ((e.kind == "holds" && e.dst == k) || is_some (get k c.holds_by_secret))
  unfolding note_edge
  note_edge-held k e c = ground (arith, get-put e.dst k e.src c.holds_by_secret)

  pub note_edges-held :
      (k : String) (edges : List Edge) (c : Chains)
      → (elem k (flat_map (λ e. when (e.kind == "holds") e.dst) edges)
          || is_some (get k c.holds_by_secret))
        ≡ true
      → is_some (get k (note_edges edges c).holds_by_secret) ≡ true
  unfolding note_edges flat_map elem
  note_edges-held k [] c h = h
  note_edges-held k (e ∷ edges) c h =
      note_edges-held k edges (note_edge e c) (ground (arith, note_edge-held k e c))
