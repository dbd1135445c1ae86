-- ===== src/Pool/Keys.antt =====
-- src/openrange/pool.py: the members of a pool stand under their own keys, each key once.
use open_range.Base.{
  ℕ, List, [], ◌∷◌, false, ◌||◌, Dict, put, pop, keys, values, All_map, All-put, All-pop, elem,
  DistinctKeys, Bool-cases, Eq, ltb, length, ◌==◌, string_eq, pair_eq, ◌≡◌, refl, ap, ◌∙◌, subst,
  inl, inr, arith,
}
use open_range.Floats.{Floats}
use open_range.Pool.{Key, Member, key_of, members_from, evict, WorldPool, bound}
use open_range.Pool.Selection.{keys_of}
use open_range.Pool.Bound.{IsKeyed}

module _ {ℓ κ} {K : Type ℓ} ⦃eq : Eq K⦄ {V : Type κ} where
  elem-put :
      (k j : K) (v : V) (d : Dict K V) → elem j (keys (put k v d)) ≡ (k == j || elem j (keys d))
  unfolding elem put
  elem-put k j v [] = refl
  elem-put k j v (e ∷ d) =
      ground (arith, elem-put k j v d, eq.beq_iff e.0 k, eq.beq_iff e.0 j, eq.beq_iff k j)

  put-DistinctKeys :
      (k : K) (v : V) (d : Dict K V) → DistinctKeys (keys d) → DistinctKeys (keys (put k v d))
  unfolding put elem
  put-DistinctKeys k v [] h = (refl, tt)
  put-DistinctKeys k v (e ∷ d) h = elim (Bool-cases (e.0 == k)) [
    | inl same ↦ rw same h
    | inr other ↦ rw other (
      ground (arith, elem-put k e.0 v d, eq.beq_iff e.0 k, eq.beq_iff k e.0),
      put-DistinctKeys k v d h.1,
    )
  ]

  elem-pop-false :
      (k j : K) (d : Dict K V) → elem j (keys d) ≡ false → elem j (keys (pop k d)) ≡ false
  unfolding elem pop
  elem-pop-false k j [] h = h
  elem-pop-false k j (e ∷ d) h = ground (arith, elem-pop-false k j d)

  pop-DistinctKeys : (k : K) (d : Dict K V) → DistinctKeys (keys d) → DistinctKeys (keys (pop k d))
  unfolding pop
  pop-DistinctKeys k [] h = tt
  pop-DistinctKeys k (e ∷ d) h = elim (Bool-cases (e.0 == k)) [
    | inl same ↦ rw same (pop-DistinctKeys k d h.1)
    | inr other ↦ rw other (elem-pop-false k e.0 d h.0, pop-DistinctKeys k d h.1)
  ]

module _ {F : Type 0} where
  -- The invariant of a pool's members.
  pub record IsIndexed (d : Dict Key (Member F)) : Type 0 where
    pub keyed : IsKeyed d
    pub distinct : DistinctKeys (keys d)

  pub put-IsIndexed :
      (m : Member F) (d : Dict Key (Member F)) → IsIndexed d → IsIndexed (put (key_of m) m d)
  put-IsIndexed m d h = record {
    keyed = All-put (λ (e : Key × Member F). e.0 ≡ key_of e.1) (key_of m) m d refl h.keyed;
    distinct = put-DistinctKeys (key_of m) m d h.distinct;
  }

  pop-IsIndexed : (k : Key) (d : Dict Key (Member F)) → IsIndexed d → IsIndexed (pop k d)
  pop-IsIndexed k d h = record {
    keyed =
        All-pop (λ (e : Key × Member F). e.0 ≡ key_of e.1) k d (All_map (λ e p. inr p) d h.keyed);
    distinct = pop-DistinctKeys k d h.distinct;
  }

  evict-IsIndexed :
      (n : ℕ) (ms : List (Member F)) (d : Dict Key (Member F))
      → IsIndexed d
      → IsIndexed (evict n ms d)
  unfolding evict
  evict-IsIndexed n [] d h = h
  evict-IsIndexed n (m ∷ ms) d h = elim (Bool-cases (ltb n (length d))) [
    | inl over ↦ rw over (evict-IsIndexed n ms (pop (key_of m) d) (pop-IsIndexed (key_of m) d h))
    | inr fits ↦ rw fits h
  ]

  pub members_from-IsIndexed :
      (ms : List (Member F)) (d : Dict Key (Member F)) → IsIndexed d → IsIndexed (members_from d ms)
  unfolding members_from
  members_from-IsIndexed [] d h = h
  members_from-IsIndexed (m ∷ ms) d h =
      members_from-IsIndexed ms (put (key_of m) m d) (put-IsIndexed m d h)

  -- What `select` asks of a pool.
  keys_of-values : (d : Dict Key (Member F)) → IsKeyed d → keys d ≡ keys_of (values d)
  keys_of-values [] h = refl
  keys_of-values (e ∷ d) h =
      ap (λ k. k ∷ keys d) h.0 ∙ ap (λ r. key_of e.1 ∷ r) (keys_of-values d h.1)

  pub values-DistinctKeys :
      (d : Dict Key (Member F)) → IsIndexed d → DistinctKeys (keys_of (values d))
  values-DistinctKeys d h = subst DistinctKeys (keys_of-values d h.keyed) h.distinct

module _ (fl : Floats) where
  pub bound-IsIndexed :
      (pool : WorldPool fl) (extra : List Key)
      → IsIndexed pool.members
      → IsIndexed (bound fl pool extra).members
  unfolding bound
  bound-IsIndexed pool extra h = evict-IsIndexed pool.max_size _ pool.members h
