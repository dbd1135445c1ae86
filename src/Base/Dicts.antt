-- ===== src/Base/Dicts.antt =====
-- Python's `dict`: an association list in the order of insertion. Assignment to a key that is
-- there keeps its place; a new key goes to the end.
use mathlib.Core.Path.{◌≡◌, refl, sym, ap, ◌∙◌}
use mathlib.Core.Logic.{◌⊎◌, inl, inr}
use mathlib.Core.Bool.{Bool}
use open_range.Base.Lists.{All}
use mathlib.Core.Option.{Option, none, some}
use mathlib.Core.List.{List, [], ◌∷◌, ◌++◌, map, Memᴰ}
use native.Mathlib.Omega.{arith}
use open_range.Base.Tests.{if◌then◌else◌, Eq, ◌==◌, Bool-cases, is_some}

abbrev pub Dict {ℓ κ} : Type ℓ → Type κ → Type (ℓ ⊔ κ)
Dict K V = List (K × V)

module _ {ℓ κ} {K : Type ℓ} {V : Type κ} where
  abbrev pub keys : Dict K V → List K
  keys = map (λ e. e.0)

  -- `d.values()`
  abbrev pub values : Dict K V → List V
  values = map (λ e. e.1)

module _ {ℓ κ} {K : Type ℓ} ⦃eq : Eq K⦄ {V : Type κ} where
  -- `d.get(k)`
  unfoldable pub get : K → Dict K V → Option V
  get k [] = none
  get k (e ∷ d) = if e.0 == k then some e.1 else get k d

  -- `k in d`
  abbrev pub contains : K → Dict K V → Bool
  contains k d = is_some (get k d)

  -- `d[k] = v`
  unfoldable pub put : K → V → Dict K V → Dict K V
  put k v [] = (k, v) ∷ []
  put k v (e ∷ d) = if e.0 == k then (e.0, v) ∷ d else e ∷ put k v d

  -- `d.pop(k, None)`
  unfoldable pub pop : K → Dict K V → Dict K V
  pop k [] = []
  pop k (e ∷ d) = let rest = pop k d in if e.0 == k then rest else e ∷ rest

  -- `d.update(d')`
  unfoldable pub update : Dict K V → Dict K V → Dict K V
  update d [] = d
  update d (e ∷ d') = update (put e.0 e.1 d) d'

  pub get-put :
      (k j : K) (v : V) (d : Dict K V) → get j (put k v d) ≡ (if k == j then some v else get j d)
  unfolding get put
  get-put k j v [] = refl
  get-put k j v (e ∷ d) =
      ground (arith, eq.beq_iff k j, eq.beq_iff e.0 k, eq.beq_iff e.0 j, get-put k j v d)

  pub get-pop : (k j : K) (d : Dict K V) → get j (pop k d) ≡ (if k == j then none else get j d)
  unfolding get pop
  get-pop k j [] = ground arith
  get-pop k j (e ∷ d) =
      ground (arith, eq.beq_iff k j, eq.beq_iff e.0 k, eq.beq_iff e.0 j, get-pop k j d)

  pub get-append :
      (k : K) (d d' : Dict K V)
      → get k (d ++ d') ≡ (elim (get k d) [ none ↦ get k d' | some v ↦ some v ])
  unfolding get
  get-append k [] d' = refl
  get-append k (e ∷ d) d' = ground (arith, get-append k d d')

  -- What `get` finds is an entry.
  pub get-Memᴰ : (k : K) (v : V) (d : Dict K V) → get k d ≡ some v → Memᴰ (k, v) d
  unfolding get
  get-Memᴰ k v [] h = cc
  get-Memᴰ k v (e ∷ d) h = elim (Bool-cases (e.0 == k)) [
    | inl p ↦ Memᴰ.head (ground (arith, (eq.beq_iff e.0 k).0 p))
    | inr p ↦ Memᴰ.tail (get-Memᴰ k v d (ground arith))
  ]

-- Every key stands once: what a Python `dict` guarantees.
abbrev pub Distinct {ℓ} : {A : Type ℓ} → List A → Type ℓ
Distinct [] = Unit
Distinct (x ∷ xs) = (¬ Memᴰ x xs) × Distinct xs

module _ {ℓ κ μ} {K : Type ℓ} ⦃eq : Eq K⦄ {V : Type κ} (P : K × V → Type μ) where
  -- Every entry that is left fits, if each fits or has the key that goes.
  pub All-pop : (k : K) (d : Dict K V) → All (λ e. (e.0 ≡ k) ⊎ P e) d → All P (pop k d)
  unfolding pop
  All-pop k [] h = tt
  All-pop k (e ∷ d) h = elim (Bool-cases (e.0 == k)) [
    | inl same ↦ rw same (All-pop k d h.1)
    | inr other ↦ rw other (elim h.0 [
      | inl p ↦ absurd (ground (arith, eq.beq_iff e.0 k))
      | inr fits ↦ (fits, All-pop k d h.1)
    ])
  ]

  pub All-put : (k : K) (v : V) (d : Dict K V) → P (k, v) → All P d → All P (put k v d)
  unfolding put
  All-put k v [] p h = (p, tt)
  All-put k v (e ∷ d) p h = elim (Bool-cases (e.0 == k)) [
    | inl same ↦ rw same (rw ((eq.beq_iff e.0 k).0 same) (p, h.1))
    | inr other ↦ rw other (h.0, All-put k v d p h.1)
  ]

module _ {ℓ κ} {K : Type ℓ} ⦃eq : Eq K⦄ {V : Type κ} where
  -- A key that is not among the keys is not found.
  pub get_absent : (k : K) (d : Dict K V) → (¬ Memᴰ k (keys d)) → get k d ≡ none
  unfolding get
  get_absent k [] h = refl
  get_absent k (e ∷ d) h = elim (Bool-cases (e.0 == k)) [
    | inl t ↦ absurd (h (Memᴰ.head (sym ((eq.beq_iff e.0 k).0 t))))
    | inr f ↦ rw f (get_absent k d (λ m. h (Memᴰ.tail m)))
  ]

  pub get-update_absent :
      (k : K) (d d' : Dict K V) → (¬ Memᴰ k (keys d')) → get k (update d d') ≡ get k d
  unfolding update
  get-update_absent k d [] h = refl
  get-update_absent k d (e ∷ d') h = elim (Bool-cases (e.0 == k)) [
    | inl t ↦ absurd (h (Memᴰ.head (sym ((eq.beq_iff e.0 k).0 t))))
    | inr f ↦ get-update_absent k (put e.0 e.1 d) d' (λ m. h (Memᴰ.tail m)) ∙ (rw (get-put, f))
  ]

  -- After `d.update(d')` the entries of `d'` win.
  pub get-update :
      (k : K) (v : V) (d d' : Dict K V)
      → Distinct (keys d')
      → get k d' ≡ some v
      → get k (update d d') ≡ some v
  unfolding update get
  get-update k v d [] dist h = cc
  get-update k v d (e ∷ d') dist h = elim (Bool-cases (e.0 == k)) [
    | inl t ↦
        get-update_absent k (put e.0 e.1 d) d' (λ m. dist.0 (rw ((eq.beq_iff e.0 k).0 t) m))
        ∙ (rw (get-put, t) (rw t at h))
    | inr f ↦ get-update k v (put e.0 e.1 d) d' dist.1 (rw f at h)
  ]

  -- An assignment to a key that is there adds none.
  pub keys-put_present :
      (k : K) (v w : V) (d : Dict K V) → get k d ≡ some w → keys (put k v d) ≡ keys d
  unfolding get put
  keys-put_present k v w [] h = cc
  keys-put_present k v w (e ∷ d) h = elim (Bool-cases (e.0 == k)) [
    | inl t ↦ rw t refl
    | inr f ↦ rw f (ap (λ ks. e.0 ∷ ks) (keys-put_present k v w d (rw f at h)))
  ]
