-- ===== src/Pool/Selection.antt =====
-- src/openrange/pool.py: the two loops of `_select`.
use mathlib.Core.List.{map-append}
use open_range.Base.{
  ℕ, ◌≤◌, List, [], ◌∷◌, ◌++◌, false, map, length, length-append, All, elem, elem-append,
  elem-cons_false, DistinctKeys, DistinctKeys-snoc, Bool-cases, leb, ◌≡◌, ◌∙◌, inl, inr, arith,
  pair_eq, ◌==◌,
}
use open_range.Pool.{Key, Member, key_of, Picked, pick, pick_easy, pick_rest}

module _ {F : Type 0} where
  abbrev pub keys_of : List (Member F) → List Key
  keys_of = map key_of

  -- `taken` holds the keys of `chosen`, each once.
  pub record IsCoherent (p : Picked F) : Type 0 where
    pub taken_keys : p.taken ≡ keys_of p.chosen
    pub distinct : DistinctKeys p.taken

  pick-IsCoherent :
      (m : Member F) (p : Picked F)
      → elem (key_of m) p.taken ≡ false
      → IsCoherent p
      → IsCoherent (pick m p)
  pick-IsCoherent m p new c = record {
    taken_keys = rw (c.taken_keys, map-append);
    distinct = DistinctKeys-snoc p.taken (key_of m) c.distinct new;
  }

  -- None of the members is taken yet.
  abbrev pub AllNew : List (Member F) → Picked F → Type 0
  AllNew ms p = All (λ m. elem (key_of m) p.taken ≡ false) ms

  AllNew-pick :
      (m : Member F) (ms : List (Member F)) (p : Picked F)
      → elem (key_of m) (keys_of ms) ≡ false
      → AllNew ms p
      → AllNew ms (pick m p)
  unfolding elem
  AllNew-pick m [] p d h = tt
  AllNew-pick m (x ∷ ms) p d h =
      let (ne, rest) = elem-cons_false (key_of m) (key_of x) (keys_of ms) d in
      (new x ne h.0, AllNew-pick m ms p rest h.1)
    where
      new :
          (x : Member F)
          → (key_of x == key_of m) ≡ false
          → elem (key_of x) p.taken ≡ false
          → elem (key_of x) (p.taken ++ key_of m ∷ []) ≡ false
      new x ne old =
          elem-append (key_of x) p.taken (key_of m ∷ [])
          ∙ rw old (
              ground (
                arith,
                pair_eq.beq_iff (key_of m) (key_of x),
                pair_eq.beq_iff (key_of x) (key_of m),
              ))

  pub pick_easy-IsCoherent :
      (easy : List Key) (n : ℕ) (ms : List (Member F)) (p : Picked F)
      → DistinctKeys (keys_of ms)
      → AllNew ms p
      → IsCoherent p
      → IsCoherent (pick_easy easy n ms p)
  unfolding pick_easy
  pick_easy-IsCoherent easy n [] p d new c = c
  pick_easy-IsCoherent easy n (m ∷ ms) p d new c = elim (Bool-cases (leb n (length p.chosen))) [
    | inl full ↦ rw full c
    | inr room ↦ rw room (elim (Bool-cases (elem (key_of m) easy)) [
      | inl t ↦ rw t (
          pick_easy-IsCoherent easy n ms (pick m p) d.1 (AllNew-pick m ms p d.0 new.1)
            (pick-IsCoherent m p new.0 c))
      | inr t ↦ rw t (pick_easy-IsCoherent easy n ms p d.1 new.1 c)
    ])
  ]

  pub pick_rest-IsCoherent :
      (n : ℕ) (ms : List (Member F)) (p : Picked F) → IsCoherent p → IsCoherent (pick_rest n ms p)
  unfolding pick_rest
  pick_rest-IsCoherent n [] p c = c
  pick_rest-IsCoherent n (m ∷ ms) p c = elim (Bool-cases (leb n (length p.chosen))) [
    | inl full ↦ rw full c
    | inr room ↦ rw room (elim (Bool-cases (elem (key_of m) p.taken)) [
      | inl t ↦ rw t (pick_rest-IsCoherent n ms p c)
      | inr t ↦ rw t (pick_rest-IsCoherent n ms (pick m p) (pick-IsCoherent m p t c))
    ])
  ]

  -- The loops stop at their numbers.
  pub length-pick_easy-le :
      (easy : List Key) (n : ℕ) (ms : List (Member F)) (p : Picked F)
      → length p.chosen ≤ n
      → length (pick_easy easy n ms p).chosen ≤ n
  unfolding pick_easy
  length-pick_easy-le easy n [] p h = h
  length-pick_easy-le easy n (m ∷ ms) p h = ground (
    arith,
    length-pick_easy-le easy n ms p,
    length-pick_easy-le easy n ms (pick m p),
    length-append p.chosen (m ∷ []),
  )

  pub length-pick_rest-le :
      (n : ℕ) (ms : List (Member F)) (p : Picked F)
      → length p.chosen ≤ n
      → length (pick_rest n ms p).chosen ≤ n
  unfolding pick_rest
  length-pick_rest-le n [] p h = h
  length-pick_rest-le n (m ∷ ms) p h = ground (
    arith,
    length-pick_rest-le n ms p,
    length-pick_rest-le n ms (pick m p),
    length-append p.chosen (m ∷ []),
  )
