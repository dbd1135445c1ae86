-- ===== src/Sdk/Backings.antt =====
-- packages/openrange-pack-sdk/src/openrange_pack_sdk/_types.py: what `resolve_backing` picks.
use open_range.Base.{
  ◌≤◌, List, [], ◌∷◌, Bool, true, false, All, ltb, Memᴰ, ◌≡◌, refl, sym, subst, ◌⊎◌, inl, inr,
  arith, if◌then◌else◌, Bool-cases,
}
use open_range.Sdk.{Backing, container, backing_rank, max_backing, resolve_backing}

max_backing-le :
    (best : Backing) (bs : List Backing) → backing_rank best ≤ backing_rank (max_backing best bs)
unfolding max_backing
max_backing-le best [] = omega arith
max_backing-le best (b ∷ bs) = ground (arith, max_backing-le best bs, max_backing-le b bs)

max_backing-step :
    (best b : Backing) (bs : List Backing)
    → (max_backing best (b ∷ bs) ≡ max_backing b bs)
      ⊎ ((max_backing best (b ∷ bs) ≡ max_backing best bs) × (backing_rank b ≤ backing_rank best))
unfolding max_backing
max_backing-step best b bs = elim (Bool-cases (ltb (backing_rank best) (backing_rank b))) [
  | inl t ↦ inl (rw t refl)
  | inr f ↦ inr (rw f refl, ground arith)
]

-- No backing of the list is above.
abbrev Tops : Backing → List Backing → Type 0
Tops q bs = All (λ b. backing_rank b ≤ backing_rank q) bs

max_backing-All : (best : Backing) (bs : List Backing) → Tops (max_backing best bs) bs
max_backing-All best [] = tt
max_backing-All best (b ∷ bs) = elim (max_backing-step best b bs) [
  | inl up ↦ subst (λ q. Tops q (b ∷ bs)) (sym up) (max_backing-le b bs, max_backing-All b bs)
  | inr (same, le) ↦
      subst (λ q. Tops q (b ∷ bs)) (sym same)
        (omega (arith, max_backing-le best bs), max_backing-All best bs)
]

max_backing-Memᴰ : (best : Backing) (bs : List Backing) → Memᴰ (max_backing best bs) (best ∷ bs)
unfolding max_backing
max_backing-Memᴰ best [] = Memᴰ.head refl
max_backing-Memᴰ best (b ∷ bs) = elim (Bool-cases (ltb (backing_rank best) (backing_rank b))) [
  | inl t ↦ rw t (Memᴰ.tail (max_backing-Memᴰ b bs))
  | inr f ↦ rw f (skip (max_backing-Memᴰ best bs))
]
  where
    skip : Memᴰ (max_backing best bs) (best ∷ bs) → Memᴰ (max_backing best bs) (best ∷ b ∷ bs)
    skip (Memᴰ.head e) = Memᴰ.head e
    skip (Memᴰ.tail m) = Memᴰ.tail (Memᴰ.tail m)

-- `resolve_backing` never picks less than what is asked for, than the minimum, or, for a sandboxed
-- run, than a container; and it picks one of these.
pub resolve_backing-rank :
    (requested minimum : Backing) (sandbox : Bool)
    → (backing_rank requested ≤ backing_rank (resolve_backing requested minimum sandbox))
      × (backing_rank minimum ≤ backing_rank (resolve_backing requested minimum sandbox))
      × (sandbox ≡ true
          → backing_rank container ≤ backing_rank (resolve_backing requested minimum sandbox))
      × Memᴰ
          (resolve_backing requested minimum sandbox)
          (requested ∷ minimum ∷ (if sandbox then container ∷ [] else []))
unfolding resolve_backing
resolve_backing-rank requested minimum true =
    let all = max_backing-All requested (minimum ∷ container ∷ []) in
    (
      max_backing-le requested (minimum ∷ container ∷ []),
      all.0,
      λ _. all.1.0,
      max_backing-Memᴰ requested (minimum ∷ container ∷ []),
    )
resolve_backing-rank requested minimum false = (
  max_backing-le requested (minimum ∷ []),
  (max_backing-All requested (minimum ∷ [])).0,
  (λ h. cc),
  max_backing-Memᴰ requested (minimum ∷ []),
)
