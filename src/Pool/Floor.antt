-- ===== src/Pool/Floor.antt =====
-- src/openrange/pool.py: the share of easy members in what `_select` hands to a round.
use open_range.Base.{
  ℕ, zero, suc, ◌+◌, ◌≤◌, min, List, [], ◌∷◌, ◌++◌, true, false, map, values, length, length-append,
  length-map, filter, take, All, elem, elem-append, DistinctKeys, DistinctKeys-sort_by,
  elem-sort_by, length-le_of_elem, Bool-cases, leb, Eq, ◌≡◌, refl, sym, ap, ◌∙◌, subst, ◌⊎◌, inl,
  inr, arith, pair_eq, nat_eq, ◌==◌,
}
use open_range.Floats.{Floats}
use open_range.Pool.{
  Key, Member, key_of, Picked, pick, pick_easy, pick_rest, WorldPool, by_priority, by_difficulty,
  easy_tier, floor_of, select,
}
use open_range.Pool.Selection.{keys_of, IsCoherent, pick_easy-IsCoherent}
use open_range.Pool.Groups.{elem-pick, AllNew-empty, by_priority-DistinctKeys, floor_of-le}

module _ {ℓ κ} {K : Type ℓ} ⦃eq : Eq K⦄ (P : K → Type κ) where
  -- What holds of all keys holds of one that is among them.
  All-elem : (k : K) (ks : List K) → All P ks → elem k ks ≡ true → P k
  unfolding elem
  All-elem k [] h e = cc
  All-elem k (j ∷ ks) h e = elim (Bool-cases (j == k)) [
    | inl same ↦ subst P ((eq.beq_iff j k).0 same) h.0
    | inr other ↦ All-elem k ks h.1 (rw other at e)
  ]

  All-by_elem : (ks : List K) → ((k : K) → elem k ks ≡ true → P k) → All P ks
  unfolding elem
  All-by_elem [] h = tt
  All-by_elem (k ∷ ks) h =
      (h k (rw ((eq.beq_iff k k).1 refl) refl), All-by_elem ks (λ j e. h j (ground (arith, e))))

module _ {ℓ κ} {A : Type ℓ} {K : Type κ} ⦃eq : Eq K⦄ (f : A → K) where
  elem-take :
      (k : K) (n : ℕ) (xs : List A) → elem k (map f (take n xs)) ≡ true → elem k (map f xs) ≡ true
  unfolding elem
  elem-take k zero xs h = cc
  elem-take k (suc n) [] h = h
  elem-take k (suc n) (x ∷ xs) h = ground (arith, elem-take k n xs)

  elem-take-false :
      (k : K) (n : ℕ) (xs : List A) → elem k (map f xs) ≡ false → elem k (map f (take n xs)) ≡ false
  unfolding elem
  elem-take-false k zero xs h = refl
  elem-take-false k (suc n) [] h = h
  elem-take-false k (suc n) (x ∷ xs) h = ground (arith, elem-take-false k n xs)

  take-DistinctKeys :
      (n : ℕ) (xs : List A) → DistinctKeys (map f xs) → DistinctKeys (map f (take n xs))
  take-DistinctKeys zero xs d = tt
  take-DistinctKeys (suc n) [] d = tt
  take-DistinctKeys (suc n) (x ∷ xs) d =
      (elem-take-false (f x) n xs d.0, take-DistinctKeys n xs d.1)

module _ {F : Type 0} (easy : List Key) where
  -- The easy ones among some members.
  abbrev pub easy_of : List (Member F) → List (Member F)
  easy_of = filter (λ m. elem (key_of m) easy)

  easy_of-append :
      (xs ys : List (Member F))
      → length (easy_of (xs ++ ys)) ≡ length (easy_of xs) + length (easy_of ys)
  unfolding filter
  easy_of-append [] ys = omega arith
  easy_of-append (x ∷ xs) ys = ground (arith, easy_of-append xs ys)

  pick_rest-easy :
      (n : ℕ) (ms : List (Member F)) (p : Picked F)
      → length (easy_of p.chosen) ≤ length (easy_of (pick_rest n ms p).chosen)
  unfolding pick_rest
  pick_rest-easy n [] p = omega arith
  pick_rest-easy n (m ∷ ms) p = ground (
    arith,
    pick_rest-easy n ms p,
    pick_rest-easy n ms (pick m p),
    easy_of-append p.chosen (m ∷ []),
  )

  -- The first loop takes easy members only.
  pick_easy-easy :
      (n : ℕ) (ms : List (Member F)) (p : Picked F)
      → length (easy_of p.chosen) ≡ length p.chosen
      → length (easy_of (pick_easy easy n ms p).chosen) ≡ length (pick_easy easy n ms p).chosen
  unfolding pick_easy filter
  pick_easy-easy n [] p h = h
  pick_easy-easy n (m ∷ ms) p h = ground (
    arith,
    pick_easy-easy n ms p,
    pick_easy-easy n ms (pick m p),
    easy_of-append p.chosen (m ∷ []),
    length-append p.chosen (m ∷ []),
  )

  pick_easy-taken :
      (n : ℕ) (ms : List (Member F)) (p : Picked F) (k : Key)
      → elem k p.taken ≡ true
      → elem k (pick_easy easy n ms p).taken ≡ true
  unfolding pick_easy elem
  pick_easy-taken n [] p k h = h
  pick_easy-taken n (m ∷ ms) p k h = ground (
    arith,
    pick_easy-taken n ms p k,
    pick_easy-taken n ms (pick m p) k,
    elem-append k p.taken (key_of m ∷ []),
  )

  -- Enough members, or every easy one taken.
  abbrev Served : ℕ → List (Member F) → Picked F → Type 0
  Served n ms q =
      (n ≤ length q.chosen) ⊎ All (λ k. elem k easy ≡ true → elem k q.taken ≡ true) (keys_of ms)

  Served-cons :
      (n : ℕ) (m : Member F) (ms : List (Member F)) (q : Picked F)
      → (elem (key_of m) easy ≡ true → elem (key_of m) q.taken ≡ true)
      → Served n ms q
      → Served n (m ∷ ms) q
  Served-cons n m ms q t (inl e) = inl e
  Served-cons n m ms q t (inr all) = inr (t, all)

  module _ (n : ℕ) (m : Member F) (ms : List (Member F)) (p : Picked F) where
    stop_easy : leb n (length p.chosen) ≡ true → pick_easy easy n (m ∷ ms) p ≡ p
    unfolding pick_easy
    stop_easy full = rw full refl

    module _ (room : leb n (length p.chosen) ≡ false) where
      pass_by : elem (key_of m) easy ≡ false → pick_easy easy n (m ∷ ms) p ≡ pick_easy easy n ms p
      unfolding pick_easy
      pass_by t = rw (room, t) refl

      take_in :
          elem (key_of m) easy ≡ true → pick_easy easy n (m ∷ ms) p ≡ pick_easy easy n ms (pick m p)
      unfolding pick_easy
      take_in t = rw (room, t) refl

  pick_easy-Served :
      (n : ℕ) (ms : List (Member F)) (p : Picked F) → Served n ms (pick_easy easy n ms p)
  pick_easy-Served n [] p = inr tt
  pick_easy-Served n (m ∷ ms) p = elim (Bool-cases (leb n (length p.chosen))) [
    | inl full ↦ subst (Served n (m ∷ ms)) (sym (stop_easy n m ms p full)) (inl (ground arith))
    | inr room ↦ elim (Bool-cases (elem (key_of m) easy)) [
      | inl t ↦ subst (Served n (m ∷ ms)) (sym (take_in n m ms p room t)) (
          Served-cons n m ms (pick_easy easy n ms (pick m p))
            (λ _. pick_easy-taken n ms (pick m p) (key_of m) (elem-pick m p))
            (pick_easy-Served n ms (pick m p)))
      | inr t ↦
          subst (Served n (m ∷ ms)) (sym (pass_by n m ms p room t))
            (Served-cons n m ms (pick_easy easy n ms p) (λ h. cc) (pick_easy-Served n ms p))
    ]
  ]

  -- If the easy keys are distinct and among the members, the first loop reaches its number.
  length-Served :
      (n : ℕ) (ms : List (Member F)) (q : Picked F)
      → DistinctKeys easy
      → All (λ k. elem k (keys_of ms) ≡ true) easy
      → IsCoherent q
      → n ≤ length easy
      → Served n ms q
      → n ≤ length q.chosen
  length-Served n ms q d within c le (inl e) = e
  length-Served n ms q d within c le (inr all) =
      let taken : All (λ k. elem k q.taken ≡ true) easy =
        All-by_elem (λ k. elem k q.taken ≡ true) easy
          (λ k e.
            All-elem (λ k. elem k easy ≡ true → elem k q.taken ≡ true) k (keys_of ms) all
              (All-elem (λ k. elem k (keys_of ms) ≡ true) k easy within e) e) in
      omega (
        arith,
        length-map key_of q.chosen,
        ap length c.taken_keys,
        length-le_of_elem easy q.taken d taken,
      )

module _ (fl : Floats) (pool : WorldPool fl) where
  open fl use {F}

  easy_tier-DistinctKeys :
      DistinctKeys (keys_of (values pool.members)) → DistinctKeys (easy_tier fl pool.members)
  unfolding easy_tier by_difficulty
  easy_tier-DistinctKeys d =
      take-DistinctKeys key_of _ _ (DistinctKeys-sort_by key_of _ (values pool.members) d)

  easy_tier-within :
      All
        (λ k. elem k (keys_of (by_priority fl (values pool.members))) ≡ true)
        (easy_tier fl pool.members)
  unfolding easy_tier by_difficulty by_priority
  easy_tier-within =
      All-by_elem (λ k. elem k (keys_of (by_priority fl (values pool.members))) ≡ true)
        (easy_tier fl pool.members)
        (λ k e.
          elem-sort_by key_of _ k (values pool.members)
          ∙ sym (elem-sort_by key_of _ k (values pool.members))
          ∙ elem-take key_of k _ _ e)

  floor_of-le_easy : (groups : ℕ) → floor_of fl pool groups ≤ length (easy_tier fl pool.members)
  unfolding floor_of
  floor_of-le_easy groups = omega arith

  -- If no two members of the pool have the same key, then at least as many of the members that `_select`
  -- gives are of the easy tier as the least of three: the share of the groups that the mix floor asks
  -- for, rounded; the size of the easy tier; and the groups, which are at most the members.
  pub select-floor :
      (wanted : ℕ)
      → DistinctKeys (keys_of (values pool.members))
      → min
          (min
            (fl.round_ℕ (fl.mul pool.mix_floor (fl.of_ℕ (min wanted (length pool.members)))))
            (length (easy_tier fl pool.members)))
          (min wanted (length pool.members))
        ≤ length (easy_of (easy_tier fl pool.members) (select fl pool wanted))
  unfolding select filter floor_of
  select-floor wanted d =
      let groups : ℕ = min wanted (length pool.members) in
      let ranked : List (Member F) = by_priority fl (values pool.members) in
      let easy : List Key = easy_tier fl pool.members in
      let first : ℕ = floor_of fl pool groups in
      let start : Picked F = record { chosen = []; taken = [] } in
      let c : IsCoherent start = record { taken_keys = refl; distinct = tt } in
      let p : Picked F = pick_easy easy first ranked start in
      let served : first ≤ length p.chosen =
        length-Served easy first ranked p (easy_tier-DistinctKeys d) easy_tier-within
          (pick_easy-IsCoherent easy first ranked start (by_priority-DistinctKeys fl pool d)
            (AllNew-empty ranked) c)
          (floor_of-le_easy groups) (pick_easy-Served easy first ranked start) in
      elim (Bool-cases (groups == 0)) [
        | inl none ↦ rw none (ground (arith, floor_of-le fl pool groups))
        | inr some ↦ rw some (
            omega (
              arith,
              served,
              pick_rest-easy easy groups ranked p,
              pick_easy-easy easy first ranked start refl,
            ))
      ]
