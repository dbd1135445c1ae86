-- ===== src/Schema/Chain.antt =====
-- packages/graphschema/src/graphschema/_ir.py: the chain of parents of `_compose_node_attrs`.
use open_range.Base.{
  append_assoc, ℕ, zero, suc, ◌+◌, ◌≤◌, ◌<◌, String, List, [], ◌∷◌, ◌++◌, false, Option, none, some,
  Dict, get, update, keys, map, any, length, Memᴰ, Distinct, get-Memᴰ, get-update, Option-cases,
  Bool-cases, ◌≡◌, refl, sym, ap, ◌∙◌, subst, inl, inr, arith, string_eq, if◌then◌else◌,
  is_empty_str,
}
use open_range.Schema.{
  AttrSpec, NodeKind, Ontology, is_in, parent_of, parent_chain, merge_attrs, chain_fuel,
  compose_node_attrs,
}

-- How many of the ids are not yet seen.
unseen : List String → List String → ℕ
unseen seen [] = 0
unseen seen (s ∷ ids) = (if is_in s seen then 0 else 1) + unseen seen ids

unseen-le-length : (seen ids : List String) → unseen seen ids ≤ length ids
unfolding unseen
unseen-le-length seen [] = omega arith
unseen-le-length seen (s ∷ ids) = ground (arith, unseen-le-length seen ids)

unseen-cons-le : (x : String) (seen ids : List String) → unseen (x ∷ seen) ids ≤ unseen seen ids
unfolding unseen is_in any
unseen-cons-le x seen [] = omega arith
unseen-cons-le x seen (s ∷ ids) = ground (arith, unseen-cons-le x seen ids)

-- Seeing a new one of the ids leaves fewer.
unseen-cons-lt :
    (x : String) (seen ids : List String)
    → Memᴰ x ids
    → is_in x seen ≡ false
    → unseen (x ∷ seen) ids < unseen seen ids
unfolding unseen is_in any
unseen-cons-lt x seen [] m new = elim m [ ]
unseen-cons-lt x seen (s ∷ ids) (Memᴰ.head p) new = ground (
  arith,
  p,
  unseen-cons-le x seen ids,
  string_eq.beq_iff x s,
  subst (λ y. is_in y seen ≡ false) p new,
)
unseen-cons-lt x seen (s ∷ ids) (Memᴰ.tail m) new = ground (arith, unseen-cons-lt x seen ids m new)

abbrev kind_ids : Dict String NodeKind → List String
kind_ids = map (λ e. e.1.id)

mem-kind_ids :
    (d : Dict String NodeKind) {e : String × NodeKind} → Memᴰ e d → Memᴰ e.1.id (kind_ids d)
mem-kind_ids [] m = elim m [ ]
mem-kind_ids (x ∷ d) (Memᴰ.head p) = Memᴰ.head (ap (λ (e : String × NodeKind). e.1.id) p)
mem-kind_ids (x ∷ d) (Memᴰ.tail m) = Memᴰ.tail (mem-kind_ids d m)

length-kind_ids : (d : Dict String NodeKind) → length (kind_ids d) ≡ length d
length-kind_ids [] = refl
length-kind_ids (e ∷ d) = ap suc (length-kind_ids d)

module _ (ontology : Ontology) where
  parent-declared :
      (kind parent : NodeKind)
      → parent_of ontology kind ≡ some parent
      → Memᴰ parent.id (kind_ids ontology.node_kinds)
  unfolding parent_of
  parent-declared kind parent h = elim (Option-cases kind.parent) [
    | inl root ↦ cc (rw (root, parent_of) at h)
    | inr (p, named) ↦ elim (Bool-cases (is_empty_str p)) [
      | inl t ↦ cc (rw (named, parent_of, t) at h)
      | inr f ↦
          mem-kind_ids ontology.node_kinds
            (get-Memᴰ p parent ontology.node_kinds (rw (named, parent_of, f) at h))
    ]
  ]

  chain_from_declared :
      (fuel : ℕ) (seen : List String) (chain : List NodeKind) (kind : NodeKind)
      → Memᴰ kind.id (kind_ids ontology.node_kinds)
      → unseen seen (kind_ids ontology.node_kinds) < fuel
      → (ks : List NodeKind) × (parent_chain fuel ontology seen chain (some kind) ≡ some ks)
  unfolding parent_chain
  chain_from_declared zero seen chain kind m h = absurd (omega arith)
  chain_from_declared (suc fuel) seen chain kind m h = elim (Bool-cases (is_in kind.id seen)) [
    | inl old ↦ (chain, rw old)
    | inr new ↦ elim (Option-cases (parent_of ontology kind)) [
      | inl root ↦ (kind ∷ chain, rw (new, root))
      | inr (parent, up) ↦
          let less = unseen-cons-lt kind.id seen (kind_ids ontology.node_kinds) m new in
          let (ks, e) =
            chain_from_declared fuel (kind.id ∷ seen) (kind ∷ chain) parent
              (parent-declared kind parent up) (omega arith) in
          (ks, rw (new, up) e)
    ]
  ]

  -- The loop only puts kinds in front.
  chain-suffix :
      (fuel : ℕ) (seen : List String) (chain ks : List NodeKind) (cur : Option NodeKind)
      → parent_chain fuel ontology seen chain cur ≡ some ks
      → (pre : List NodeKind) × (ks ≡ pre ++ chain)
  unfolding parent_chain
  chain-suffix zero seen chain ks none h = ([], ground arith)
  chain-suffix (suc fuel) seen chain ks none h = ([], ground arith)
  chain-suffix zero seen chain ks (some kind) h = cc
  chain-suffix (suc fuel) seen chain ks (some kind) h = elim (Bool-cases (is_in kind.id seen)) [
    | inl old ↦ ([], ground arith)
    | inr new ↦
        let (pre, e) =
          chain-suffix fuel (kind.id ∷ seen) (kind ∷ chain) ks (parent_of ontology kind)
            (rw new at h) in
        (pre ++ kind ∷ [], e ∙ sym (append_assoc pre (kind ∷ []) chain))
  ]

  -- The loop ends within the fuel that `compose_node_attrs` gives it, for every kind and every
  -- ontology, also one whose parents form a cycle; the chain, root first, has the kind itself at its end.
  pub parent_chain_total :
      (kind : NodeKind)
      → (ks : List NodeKind) × (parent_chain (chain_fuel ontology) ontology [] [] (some kind)
          ≡ some ks)
        × ((pre : List NodeKind) × (ks ≡ pre ++ kind ∷ []))
  unfolding parent_chain is_in any
  parent_chain_total kind = elim (Option-cases (parent_of ontology kind)) [
    | inl root ↦ (kind ∷ [], rw root, ([], refl))
    | inr (parent, up) ↦
        let bound = unseen-le-length (kind.id ∷ []) (kind_ids ontology.node_kinds) in
        let size = length-kind_ids ontology.node_kinds in
        let (ks, e) =
          chain_from_declared (suc (length ontology.node_kinds)) (kind.id ∷ []) (kind ∷ []) parent
            (parent-declared kind parent up) (omega arith) in
        (
          ks,
          rw up e,
          chain-suffix (suc (length ontology.node_kinds)) (kind.id ∷ []) (kind ∷ []) ks
              (some parent) e,
        )
  ]

merge_attrs-snoc :
    (pre : List NodeKind) (kind : NodeKind) (composed : Dict String AttrSpec)
    → merge_attrs (pre ++ kind ∷ []) composed ≡ update (merge_attrs pre composed) kind.attrs
unfolding merge_attrs
merge_attrs-snoc [] kind composed = refl
merge_attrs-snoc (k ∷ pre) kind composed = merge_attrs-snoc pre kind (update composed k.attrs)

compose_lem :
    (kind : NodeKind) (ontology : Ontology)
    → (inherited : Dict String AttrSpec) × (compose_node_attrs kind ontology
        ≡ update inherited kind.attrs)
unfolding compose_node_attrs
compose_lem kind ontology =
    let (ks, e, (pre, shape)) = parent_chain_total ontology kind in
    (merge_attrs pre [], rw (e, compose_node_attrs, shape) (merge_attrs-snoc pre kind []))

-- A kind's own attribute overrides whatever its parents declare under that name.
pub compose_node_attrs-own :
    (kind : NodeKind) (ontology : Ontology) (name : String) (spec : AttrSpec)
    → Distinct (keys kind.attrs)
    → get name kind.attrs ≡ some spec
    → get name (compose_node_attrs kind ontology) ≡ some spec
compose_node_attrs-own kind ontology name spec distinct own =
    let (inherited, e) = compose_lem kind ontology in
    rw e (get-update name spec inherited kind.attrs distinct own)
