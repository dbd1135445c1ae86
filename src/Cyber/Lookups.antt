-- ===== src/Cyber/Lookups.antt =====
-- packs/cyber_webapp/cyber_webapp/invariants.py: what the dicts of lists hold after `append`.
use open_range.Base.{
  String, List, [], ◌∷◌, ◌++◌, true, Dict, put, any, elem, elem-append, get-put, if◌then◌else◌,
  ◌==◌, string_eq, Bool, Bool-cases, inl, inr, ◌⊎◌, ◌≡◌, ap, arith,
}
use open_range.Cyber.Invariants.{listed, append_at}

pub listed-put :
    (j k : String) (v : List String) (d : Dict String (List String))
    → listed k (put j v d) ≡ (if j == k then v else listed k d)
listed-put j k v d = ground (arith, get-put j k v d)

-- What is listed after an append was listed before, or is what came.
pub elem-append_at :
    (j x k v : String) (d : Dict String (List String))
    → elem v (listed k (append_at j x d)) ≡ true
    → (elem v (listed k d) ≡ true) ⊎ ((j ≡ k) × (x ≡ v))
unfolding elem
elem-append_at j x k v d h = elim (Bool-cases (j == k)) [
  | inl t ↦ elim (Bool-cases (x == v)) [
    | inl u ↦ inr ((string_eq.beq_iff j k).0 t, (string_eq.beq_iff x v).0 u)
    | inr u ↦ inl (
        ground (
          arith,
          listed-put j k (listed j d ++ x ∷ []) d,
          elem-append v (listed j d) (x ∷ []),
          ap (λ z. elem v (listed z d)) ((string_eq.beq_iff j k).0 t),
        ))
  ]
  | inr f ↦ inl (ground (arith, listed-put j k (listed j d ++ x ∷ []) d))
]

pub any-elem :
    (p : String → Bool) (xs : List String)
    → any p xs ≡ true
    → (x : String) × (elem x xs ≡ true) × (p x ≡ true)
unfolding any elem
any-elem p [] h = cc
any-elem p (x ∷ xs) h = elim (Bool-cases (p x)) [
  | inl t ↦ (x, ground (arith, string_eq.beq_iff x x), t)
  | inr f ↦ let (y, m, t) = any-elem p xs (rw f at h) in (y, ground arith, t)
]
