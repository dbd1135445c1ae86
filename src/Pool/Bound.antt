-- ===== src/Pool/Bound.antt =====
-- src/openrange/pool.py: what `_bound` evicts, and what it keeps.
use mathlib.Core.Bool.{false≢true}
use open_range.Base.{
  ℕ, ◌≤◌, List, [], ◌∷◌, ◌++◌, true, false, not, none, some, Dict, get, pop, get-pop, values,
  filter, length, All, elem, elem-sort_by, Bool-cases, Option-cases, ltb, ◌≡◌, refl, sym, ap, ◌∙◌,
  ◌⊎◌, inl, inr, arith, pair_eq, ◌==◌,
}
use open_range.Floats.{Floats}
use open_range.Pool.{Key, Member, key_of, evict, WorldPool, easy_tier, bound}
use open_range.Pool.Selection.{keys_of}

module _ {F : Type 0} where
  -- Each member stands under its own key.
  abbrev pub IsKeyed : Dict Key (Member F) → Type 0
  IsKeyed d = All (λ e. e.0 ≡ key_of e.1) d

  abbrev evictable_of : List Key → List (Member F) → List (Member F)
  evictable_of prot = filter (λ m. not (elem (key_of m) prot))

  evict-get-none :
      (k : Key) (n : ℕ) (ms : List (Member F)) (d : Dict Key (Member F))
      → get k d ≡ none
      → get k (evict n ms d) ≡ none
  unfolding evict
  evict-get-none k n [] d h = h
  evict-get-none k n (m ∷ ms) d h =
      ground (arith, evict-get-none k n ms (pop (key_of m) d), get-pop (key_of m) k d)

  -- Only the keys of the given members go.
  get-evict :
      (k : Key) (n : ℕ) (ms : List (Member F)) (d : Dict Key (Member F))
      → elem k (keys_of ms) ≡ false
      → get k (evict n ms d) ≡ get k d
  unfolding evict elem
  get-evict k n [] d h = refl
  get-evict k n (m ∷ ms) d h =
      ground (arith, get-evict k n ms (pop (key_of m) d), get-pop (key_of m) k d)

  -- The loop ends at the size, or with every given member gone.
  abbrev Evicted : ℕ → List (Member F) → Dict Key (Member F) → Type 0
  Evicted n ms d = (length d ≤ n) ⊎ ((k : Key) → elem k (keys_of ms) ≡ true → get k d ≡ none)

  evict-Evicted :
      (n : ℕ) (ms : List (Member F)) (d : Dict Key (Member F)) → Evicted n ms (evict n ms d)
  unfolding evict elem
  evict-Evicted n [] d = inr (λ k h. cc)
  evict-Evicted n (m ∷ ms) d = elim (Bool-cases (ltb n (length d))) [
    | inl over ↦ rw over (elim (evict-Evicted n ms (pop (key_of m) d)) [
      | inl small ↦ inl small
      | inr gone ↦ inr (λ k h. elim (Bool-cases (key_of m == k)) [
        | inl same ↦
            evict-get-none k n ms (pop (key_of m) d) (get-pop (key_of m) k d ∙ rw same refl)
        | inr other ↦ gone k (rw other at h)
      ])
    ])
    | inr fits ↦ rw fits (inl (ground arith))
  ]

  -- A member that is not protected is one of those that may go.
  elem-evictable_of :
      (k : Key) (m : Member F) (prot : List Key) (d : Dict Key (Member F))
      → IsKeyed d
      → get k d ≡ some m
      → elem k prot ≡ false
      → elem k (keys_of (evictable_of prot (values d))) ≡ true
  unfolding get filter elem
  elem-evictable_of k m prot [] keyed h out = cc
  elem-evictable_of k m prot (e ∷ d) keyed h out = elim (Bool-cases (e.0 == k)) [
    | inl same ↦
        let at : key_of e.1 ≡ k = sym keyed.0 ∙ (pair_eq.beq_iff e.0 k).0 same in
        let free : elem (key_of e.1) prot ≡ false = ap (λ j. elem j prot) at ∙ out in
        let found : (key_of e.1 == k) ≡ true = (pair_eq.beq_iff (key_of e.1) k).1 at in
        rw (free, found) refl
    | inr other ↦ elim (Bool-cases (elem (key_of e.1) prot)) [
      | inl t ↦ rw t (elem-evictable_of k m prot d keyed.1 (rw other at h) out)
      | inr t ↦ rw t (ground (arith, elem-evictable_of k m prot d keyed.1 (rw other at h) out))
    ]
  ]

  elem-evictable_of_protected :
      (k : Key) (prot : List Key) (ms : List (Member F))
      → elem k prot ≡ true
      → elem k (keys_of (evictable_of prot ms)) ≡ false
  unfolding filter elem
  elem-evictable_of_protected k prot [] h = refl
  elem-evictable_of_protected k prot (m ∷ ms) h = elim (Bool-cases (elem (key_of m) prot)) [
    | inl t ↦ rw t (elem-evictable_of_protected k prot ms h)
    | inr t ↦ elim (Bool-cases (key_of m == k)) [
      | inl same ↦
          absurd
            (false≢true (sym t ∙ ap (λ j. elem j prot) ((pair_eq.beq_iff (key_of m) k).0 same) ∙ h))
      | inr other ↦ rw (t, other) (elem-evictable_of_protected k prot ms h)
    ]
  ]

module _ (fl : Floats) (pool : WorldPool fl) (extra : List Key) where
  open fl use {F}

  abbrev protected_of : List Key
  protected_of = easy_tier fl pool.members ++ extra

  -- A protected key stays.
  bound-get :
      (k : Key)
      → elem k protected_of ≡ true
      → get k (bound fl pool extra).members ≡ get k pool.members
  unfolding bound
  bound-get k h = get-evict k pool.max_size _ pool.members (
      elem-sort_by key_of _ k (evictable_of protected_of (values pool.members))
      ∙ elem-evictable_of_protected k protected_of (values pool.members) h)

  bound-Evicted :
      IsKeyed pool.members
      → (length (bound fl pool extra).members ≤ pool.max_size)
        ⊎ ((k : Key) → elem k protected_of ≡ false → get k (bound fl pool extra).members ≡ none)
  unfolding bound
  bound-Evicted keyed = elim (evict-Evicted pool.max_size _ pool.members) [
    | inl small ↦ inl small
    | inr gone ↦ inr (λ k out. elim (Option-cases (get k pool.members)) [
      | inl missing ↦ evict-get-none k pool.max_size _ pool.members missing
      | inr (m, found) ↦ gone k (
          elem-sort_by key_of _ k (evictable_of protected_of (values pool.members))
          ∙ elem-evictable_of k m protected_of pool.members keyed found out)
    ])
  ]

  -- If every member stands under its own key, `_bound` keeps what stands under a protected key, and
  -- ends within the size or with no other key left.
  pub bound-members :
      IsKeyed pool.members
      → ((k : Key)
          → elem k (easy_tier fl pool.members ++ extra) ≡ true
          → get k (bound fl pool extra).members ≡ get k pool.members)
        × ((length (bound fl pool extra).members ≤ pool.max_size)
            ⊎ ((k : Key)
                → elem k (easy_tier fl pool.members ++ extra) ≡ false
                → get k (bound fl pool extra).members ≡ none))
  bound-members keyed = (bound-get, bound-Evicted keyed)
