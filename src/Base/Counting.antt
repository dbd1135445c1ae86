-- ===== src/Base/Counting.antt =====
-- Lists whose elements have distinct keys, membership by a Boolean test, and counting by them.
use Prim.Native.Nat.{suc, ◌≤◌}
use mathlib.Core.Path.{◌≡◌, refl, ap, ◌∙◌}
use mathlib.Core.Logic.{inl, inr}
use mathlib.Core.Bool.{Bool, true, false, ◌||◌}
use mathlib.Core.List.{List, [], ◌∷◌, ◌++◌, map}
use native.Mathlib.Omega.{arith}
use open_range.Base.Tests.{Eq, ◌==◌, if◌then◌else◌, Bool-cases}
use open_range.Base.Lists.{All, length}
use open_range.Base.Sorting.{insert_by, sort_by}

module _ {ℓ} {K : Type ℓ} ⦃eq : Eq K⦄ where
  -- `k in ks`
  unfoldable pub elem : K → List K → Bool
  elem k [] = false
  elem k (j ∷ ks) = j == k || elem k ks

  pub elem-append : (k : K) (xs ys : List K) → elem k (xs ++ ys) ≡ (elem k xs || elem k ys)
  unfolding elem
  elem-append k [] ys = refl
  elem-append k (x ∷ xs) ys = ground (arith, elem-append k xs ys)

  abbrev pub DistinctKeys : List K → Type ℓ
  DistinctKeys [] = Unit
  DistinctKeys (k ∷ ks) = (elem k ks ≡ false) × DistinctKeys ks

  unfoldable pub remove : K → List K → List K
  remove k [] = []
  remove k (j ∷ ks) = let rest = remove k ks in if j == k then ks else j ∷ rest

  length-remove : (k : K) (ks : List K) → elem k ks ≡ true → suc (length (remove k ks)) ≡ length ks
  unfolding remove elem
  length-remove k [] h = cc
  length-remove k (j ∷ ks) h = ground (arith, length-remove k ks)

  elem-remove :
      (k i : K) (ks : List K) → (i == k) ≡ false → elem i ks ≡ true → elem i (remove k ks) ≡ true
  unfolding remove elem
  elem-remove k i [] ne h = h
  elem-remove k i (j ∷ ks) ne h =
      ground (arith, elem-remove k i ks, eq.beq_iff j k, eq.beq_iff j i, eq.beq_iff i k)

  pub elem-cons_false :
      (k i : K) (ks : List K) → elem k (i ∷ ks) ≡ false → ((i == k) ≡ false) × (elem k ks ≡ false)
  unfolding elem
  elem-cons_false k i ks h = ground arith

  All-remove :
      (k : K) (ks ts : List K)
      → elem k ks ≡ false
      → All (λ i. elem i ts ≡ true) ks
      → All (λ i. elem i (remove k ts) ≡ true) ks
  All-remove k [] ts e h = tt
  All-remove k (i ∷ ks) ts e h =
      let (ne, rest) = elem-cons_false k i ks e in
      (elem-remove k i ts ne h.0, All-remove k ks ts rest h.1)

  -- Distinct keys that are all in a list are no more than the list has.
  pub length-le_of_elem :
      (ks ts : List K) → DistinctKeys ks → All (λ k. elem k ts ≡ true) ks → length ks ≤ length ts
  length-le_of_elem [] ts d h = omega arith
  length-le_of_elem (k ∷ ks) ts d h = omega (
    arith,
    length-remove k ts h.0,
    length-le_of_elem ks (remove k ts) d.1 (All-remove k ks ts d.0 h.1),
  )

  -- Keys with one more at the end.
  pub DistinctKeys-snoc :
      (ks : List K) (k : K) → DistinctKeys ks → elem k ks ≡ false → DistinctKeys (ks ++ k ∷ [])
  unfolding elem
  DistinctKeys-snoc [] k d h = (refl, tt)
  DistinctKeys-snoc (j ∷ ks) k d h = (
    ground (arith, elem-append j ks (k ∷ []), eq.beq_iff j k, eq.beq_iff k j),
    DistinctKeys-snoc ks k d.1 (elem-cons_false k j ks h).1,
  )

module _ {ℓ κ} {A : Type ℓ} {K : Type κ} ⦃eq : Eq K⦄ (f : A → K) (le : A → A → Bool) where
  elem-insert_by :
      (k : K) (x : A) (xs : List A)
      → elem k (map f (insert_by le x xs)) ≡ (f x == k || elem k (map f xs))
  unfolding elem insert_by
  elem-insert_by k x [] = refl
  elem-insert_by k x (y ∷ ys) = ground (arith, elem-insert_by k x ys)

  -- Sorting keeps the keys.
  pub elem-sort_by : (k : K) (xs : List A) → elem k (map f (sort_by le xs)) ≡ elem k (map f xs)
  unfolding elem sort_by
  elem-sort_by k [] = refl
  elem-sort_by k (x ∷ xs) = ground (arith, elem-insert_by k x (sort_by le xs), elem-sort_by k xs)

  DistinctKeys-insert_by :
      (x : A) (xs : List A)
      → elem (f x) (map f xs) ≡ false
      → DistinctKeys (map f xs)
      → DistinctKeys (map f (insert_by le x xs))
  unfolding insert_by
  DistinctKeys-insert_by x [] h d = (h, tt)
  DistinctKeys-insert_by x (y ∷ ys) h d = elim (Bool-cases (le x y)) [
    | inl t ↦ rw t (h, d)
    | inr t ↦
        let (ne, rest) = elem-cons_false (f x) (f y) (map f ys) h in
        rw t (
          ground (arith, elem-insert_by (f y) x ys, eq.beq_iff (f x) (f y), eq.beq_iff (f y) (f x)),
          DistinctKeys-insert_by x ys rest d.1,
        )
  ]

  pub DistinctKeys-sort_by :
      (xs : List A) → DistinctKeys (map f xs) → DistinctKeys (map f (sort_by le xs))
  unfolding sort_by
  DistinctKeys-sort_by [] d = tt
  DistinctKeys-sort_by (x ∷ xs) d =
      DistinctKeys-insert_by x (sort_by le xs) (elem-sort_by (f x) xs ∙ d.0)
        (DistinctKeys-sort_by xs d.1)

module _ {ℓ} {A : Type ℓ} (le : A → A → Bool) where
  length-insert_by : (x : A) (xs : List A) → length (insert_by le x xs) ≡ suc (length xs)
  unfolding insert_by
  length-insert_by x [] = refl
  length-insert_by x (y ∷ ys) = ground (arith, length-insert_by x ys)

  pub length-sort_by : (xs : List A) → length (sort_by le xs) ≡ length xs
  unfolding sort_by
  length-sort_by [] = refl
  length-sort_by (x ∷ xs) = length-insert_by x (sort_by le xs) ∙ ap suc (length-sort_by xs)
