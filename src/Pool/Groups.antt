-- ===== src/Pool/Groups.antt =====
-- src/openrange/pool.py: what `_select` hands to a round.
use open_range.Base.{
  ℕ, ◌≤◌, min, List, [], ◌∷◌, true, false, values, length, All, elem, elem-append, DistinctKeys,
  DistinctKeys-sort_by, length-sort_by, length-le_of_elem, length-map, Bool-cases, leb, ◌≡◌, refl,
  sym, ap, ◌∙◌, subst, ◌⊎◌, inl, inr, arith, pair_eq, nat_eq, ◌==◌,
}
use open_range.Floats.{Floats}
use open_range.Pool.{
  Key, Member, key_of, Picked, pick, pick_easy, pick_rest, WorldPool, by_priority, easy_tier,
  floor_of, select,
}
use open_range.Pool.Selection.{
  keys_of, IsCoherent, AllNew, pick_easy-IsCoherent, pick_rest-IsCoherent, length-pick_easy-le,
  length-pick_rest-le,
}

module _ {F : Type 0} where
  pick_rest-taken :
      (n : ℕ) (ms : List (Member F)) (p : Picked F) (k : Key)
      → elem k p.taken ≡ true
      → elem k (pick_rest n ms p).taken ≡ true
  unfolding pick_rest elem
  pick_rest-taken n [] p k h = h
  pick_rest-taken n (m ∷ ms) p k h = ground (
    arith,
    pick_rest-taken n ms p k,
    pick_rest-taken n ms (pick m p) k,
    elem-append k p.taken (key_of m ∷ []),
  )

  pub elem-pick : (m : Member F) (p : Picked F) → elem (key_of m) (pick m p).taken ≡ true
  unfolding elem
  elem-pick m p =
      ground (
        arith,
        elem-append (key_of m) p.taken (key_of m ∷ []),
        pair_eq.beq_iff (key_of m) (key_of m),
      )

  -- Enough members, or every key taken.
  abbrev Filled : ℕ → List (Member F) → Picked F → Type 0
  Filled n ms q = (n ≤ length q.chosen) ⊎ All (λ k. elem k q.taken ≡ true) (keys_of ms)

  Filled-cons :
      (n : ℕ) (m : Member F) (ms : List (Member F)) (q : Picked F)
      → elem (key_of m) q.taken ≡ true
      → Filled n ms q
      → Filled n (m ∷ ms) q
  Filled-cons n m ms q t (inl e) = inl e
  Filled-cons n m ms q t (inr all) = inr (t, all)

  module _ (n : ℕ) (m : Member F) (ms : List (Member F)) (p : Picked F) where
    stop : leb n (length p.chosen) ≡ true → pick_rest n (m ∷ ms) p ≡ p
    unfolding pick_rest
    stop full = rw full refl

    module _ (room : leb n (length p.chosen) ≡ false) where
      skip : elem (key_of m) p.taken ≡ true → pick_rest n (m ∷ ms) p ≡ pick_rest n ms p
      unfolding pick_rest
      skip t = rw (room, t) refl

      step : elem (key_of m) p.taken ≡ false → pick_rest n (m ∷ ms) p ≡ pick_rest n ms (pick m p)
      unfolding pick_rest
      step t = rw (room, t) refl

  -- The second loop ends with enough members, or with every key taken.
  pick_rest-Filled : (n : ℕ) (ms : List (Member F)) (p : Picked F) → Filled n ms (pick_rest n ms p)
  pick_rest-Filled n [] p = inr tt
  pick_rest-Filled n (m ∷ ms) p = elim (Bool-cases (leb n (length p.chosen))) [
    | inl full ↦ subst (Filled n (m ∷ ms)) (sym (stop n m ms p full)) (inl (ground arith))
    | inr room ↦ elim (Bool-cases (elem (key_of m) p.taken)) [
      | inl t ↦ subst (Filled n (m ∷ ms)) (sym (skip n m ms p room t)) (
          Filled-cons n m ms (pick_rest n ms p) (pick_rest-taken n ms p (key_of m) t)
            (pick_rest-Filled n ms p))
      | inr t ↦ subst (Filled n (m ∷ ms)) (sym (step n m ms p room t)) (
          Filled-cons n m ms (pick_rest n ms (pick m p))
            (pick_rest-taken n ms (pick m p) (key_of m) (elem-pick m p))
            (pick_rest-Filled n ms (pick m p)))
    ]
  ]

  pub AllNew-empty : (ms : List (Member F)) → AllNew ms (record { chosen = []; taken = [] })
  unfolding elem
  AllNew-empty [] = tt
  AllNew-empty (m ∷ ms) = (refl, AllNew-empty ms)

  -- Members all of whose keys are taken are no more than the chosen.
  length-Filled :
      (n : ℕ) (ms : List (Member F)) (q : Picked F)
      → DistinctKeys (keys_of ms)
      → IsCoherent q
      → n ≤ length ms
      → Filled n ms q
      → n ≤ length q.chosen
  length-Filled n ms q d c le (inl e) = e
  length-Filled n ms q d c le (inr all) = omega (
    arith,
    length-map key_of ms,
    length-map key_of q.chosen,
    ap length c.taken_keys,
    length-le_of_elem (keys_of ms) q.taken d all,
  )

module _ (fl : Floats) where
  open fl use {F}

  module _ (easy : List Key) (first groups : ℕ) (ms : List (Member F)) (start : Picked F) where
    -- Both loops, from nothing taken.
    loops-IsCoherent :
        DistinctKeys (keys_of ms)
        → AllNew ms start
        → IsCoherent start
        → IsCoherent (pick_rest groups ms (pick_easy easy first ms start))
    loops-IsCoherent d new c =
        pick_rest-IsCoherent groups ms (pick_easy easy first ms start)
          (pick_easy-IsCoherent easy first ms start d new c)

    length-loops :
        DistinctKeys (keys_of ms)
        → AllNew ms start
        → IsCoherent start
        → length start.chosen ≡ 0
        → first ≤ groups
        → groups ≤ length ms
        → length (pick_rest groups ms (pick_easy easy first ms start)).chosen ≡ groups
    length-loops d new c none small le =
        let p = pick_easy easy first ms start in
        omega (
          arith,
          length-pick_easy-le easy first ms start,
          length-pick_rest-le groups ms p,
          length-Filled groups ms (pick_rest groups ms p) d (loops-IsCoherent d new c) le
              (pick_rest-Filled groups ms p),
        )

  module _ (pool : WorldPool fl) where
    pub by_priority-DistinctKeys :
        DistinctKeys (keys_of (values pool.members))
        → DistinctKeys (keys_of (by_priority fl (values pool.members)))
    unfolding by_priority
    by_priority-DistinctKeys d = DistinctKeys-sort_by key_of _ (values pool.members) d

    length-by_priority : length (by_priority fl (values pool.members)) ≡ length pool.members
    unfolding by_priority
    length-by_priority = length-sort_by _ (values pool.members) ∙ length-map (λ e. e.1) pool.members

    pub floor_of-le : (groups : ℕ) → floor_of fl pool groups ≤ groups
    unfolding floor_of
    floor_of-le groups = omega arith

    -- If no two members of the pool have the same key, `_select` gives as many members as are asked for,
    -- or all if there are fewer, and no member twice.
    pub select-length :
        (wanted : ℕ)
        → DistinctKeys (keys_of (values pool.members))
        → (length (select fl pool wanted) ≡ min wanted (length pool.members))
          × DistinctKeys (keys_of (select fl pool wanted))
    unfolding select
    select-length wanted d =
        let groups : ℕ = min wanted (length pool.members) in
        let ranked : List (Member F) = by_priority fl (values pool.members) in
        let start : Picked F = record { chosen = []; taken = [] } in
        let keys : DistinctKeys (keys_of ranked) = by_priority-DistinctKeys d in
        let new : AllNew ranked start = AllNew-empty ranked in
        let c : IsCoherent start = record { taken_keys = refl; distinct = tt } in
        let ok =
          loops-IsCoherent (easy_tier fl pool.members) (floor_of fl pool groups) groups ranked start
            keys new c in
        elim (Bool-cases (groups == 0)) [
          | inl none ↦ rw none (ground arith, tt)
          | inr some ↦ rw some (
            length-loops (easy_tier fl pool.members) (floor_of fl pool groups) groups ranked start
                keys new c refl (floor_of-le groups) (omega (arith, length-by_priority)),
            subst DistinctKeys ok.taken_keys ok.distinct,
          )
        ]
