-- ===== src/Store/NewKeys.antt =====
-- Dicts with texts for keys, and keys that they do not have.
use open_range.Base.{
  String, List, [], ◌∷◌, ◌++◌, false, none, Dict, get, put, update, keys, elem, elem-cons_false,
  DistinctKeys, ◌==◌, string_eq, ◌≡◌, refl, sym, ap, ◌∙◌, arith, append_assoc, append-nil,
}

-- What a dict holds under a new key goes to its end.
pub put_new {ℓ} :
    {V : Type ℓ} (k : String) (v : V) (d : Dict String V)
    → elem k (keys d) ≡ false
    → put k v d ≡ d ++ (k, v) ∷ []
unfolding put elem
put_new k v [] h = refl
put_new k v (e ∷ d) h =
    let (ne, rest) = elem-cons_false k e.0 (keys d) h in
    rw ne (ap (λ r. e ∷ r) (put_new k v d rest))

pub get_new {ℓ} :
    {V : Type ℓ} (k : String) (d : Dict String V) → elem k (keys d) ≡ false → get k d ≡ none
unfolding get elem
get_new k [] h = refl
get_new k (e ∷ d) h = let (ne, rest) = elem-cons_false k e.0 (keys d) h in rw ne (get_new k d rest)

elem_snoc {ℓ} :
    {V : Type ℓ} (k j : String) (v : V) (d : Dict String V)
    → (j == k) ≡ false
    → elem k (keys d) ≡ false
    → elem k (keys (d ++ (j, v) ∷ [])) ≡ false
unfolding elem
elem_snoc k j v [] ne h = rw ne refl
elem_snoc k j v (e ∷ d) ne h =
    let (ne', rest) = elem-cons_false k e.0 (keys d) h in rw ne' (elem_snoc k j v d ne rest)

-- Keys, each once, and none of them in the dict.
abbrev pub AllNew {ℓ} : {V : Type ℓ} → List String → Dict String V → Type 0
AllNew [] d = Unit
AllNew (k ∷ ks) d = (elem k (keys d) ≡ false) × AllNew ks d

pub AllNew-snoc {ℓ} :
    {V : Type ℓ} (ks : List String) (j : String) (v : V) (d : Dict String V)
    → elem j ks ≡ false
    → AllNew ks d
    → AllNew ks (d ++ (j, v) ∷ [])
AllNew-snoc [] j v d h new = tt
AllNew-snoc (k ∷ ks) j v d h new =
    let (ne, rest) = elem-cons_false j k ks h in
    (elem_snoc k j v d (flipped ne) new.0, AllNew-snoc ks j v d rest new.1)
  where
    flipped : (k == j) ≡ false → (j == k) ≡ false
    flipped ne = ground (arith, string_eq.beq_iff k j, string_eq.beq_iff j k)

pub AllNew-empty {ℓ} : (V : Type ℓ) (ks : List String) → AllNew {V = V} ks []
unfolding elem
AllNew-empty V [] = tt
AllNew-empty V (k ∷ ks) = (refl, AllNew-empty V ks)

-- An update by new keys, each once, appends.
pub update_new {ℓ} :
    {V : Type ℓ} (d d' : Dict String V)
    → DistinctKeys (keys d')
    → AllNew (keys d') d
    → update d d' ≡ d ++ d'
unfolding update
update_new d [] dist new = sym (append-nil d)
update_new d (e ∷ d') dist new =
    ap (λ r. update r d') (put_new e.0 e.1 d new.0)
    ∙ update_new (d ++ e ∷ []) d' dist.1 (AllNew-snoc (keys d') e.0 e.1 d dist.0 new.1)
    ∙ append_assoc d (e ∷ []) d'
