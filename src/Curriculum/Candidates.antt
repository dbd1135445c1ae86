-- ===== src/Curriculum/Candidates.antt =====
-- src/openrange/core/curriculum.py: the mutations that `auto_evolve` tries, and in which order.
use open_range.Base.{
  List, [], ◌∷◌, Bool, true, false, ◌&&◌, All, All_map, filter, sort_by, insert_by, Bool-cases, ok,
  >>=-eq-ok, ok-injective, ◌==◌, string_eq, ◌≡◌, subst, inl, inr,
}
use open_range.Floats.{Floats, less}
use open_range.Sdk.{Snapshot, Pack, Mutation, EpisodeReport}
use open_range.Curriculum.{enumerate_options, patch_candidates}
use open_range.Curriculum.Difficulty.{Direction, direction_value}

-- No element is above a later one.
abbrev pub IsOrdered {ℓ} : {A : Type ℓ} → (A → A → Bool) → List A → Type 0
IsOrdered le [] = Unit
IsOrdered le (x ∷ xs) = All (λ y. le x y ≡ true) xs × IsOrdered le xs

module _ {ℓ κ} {A : Type ℓ} (P : A → Type κ) where
  All-insert_by :
      (le : A → A → Bool) (x : A) (xs : List A) → P x → All P xs → All P (insert_by le x xs)
  unfolding insert_by
  All-insert_by le x [] p h = (p, tt)
  All-insert_by le x (y ∷ ys) p h = elim (Bool-cases (le x y)) [
    | inl t ↦ rw t (p, h)
    | inr f ↦ rw f (h.0, All-insert_by le x ys p h.1)
  ]

  All-sort_by : (le : A → A → Bool) (xs : List A) → All P xs → All P (sort_by le xs)
  unfolding sort_by
  All-sort_by le [] h = tt
  All-sort_by le (x ∷ xs) h = All-insert_by le x (sort_by le xs) h.0 (All-sort_by le xs h.1)

module _ {ℓ} {A : Type ℓ} (p : A → Bool) where
  filter-All : (xs : List A) → All (λ x. p x ≡ true) (filter p xs)
  unfolding filter
  filter-All [] = tt
  filter-All (x ∷ xs) = elim (Bool-cases (p x)) [
    | inl t ↦ rw t (t, filter-All xs)
    | inr f ↦ rw f (filter-All xs)
  ]

module _ {ℓ} {A : Type ℓ} (le : A → A → Bool) (total : (x y : A) → le x y ≡ false → le y x ≡ true)
    (trans : (x y z : A) → le x y ≡ true → le y z ≡ true → le x z ≡ true) where
  insert_by-IsOrdered : (x : A) (xs : List A) → IsOrdered le xs → IsOrdered le (insert_by le x xs)
  unfolding insert_by
  insert_by-IsOrdered x [] h = (tt, tt)
  insert_by-IsOrdered x (y ∷ ys) h = elim (Bool-cases (le x y)) [
    | inl t ↦ rw t ((t, All_map (λ z q. trans x y z t q) ys h.0), h)
    | inr f ↦
        rw f (
          All-insert_by (λ z. le y z ≡ true) le x ys (total x y f) h.0,
          insert_by-IsOrdered x ys h.1,
        )
  ]

  sort_by-IsOrdered : (xs : List A) → IsOrdered le (sort_by le xs)
  unfolding sort_by
  sort_by-IsOrdered [] = tt
  sort_by-IsOrdered (x ∷ xs) = insert_by-IsOrdered x (sort_by le xs) (sort_by-IsOrdered xs)

module _ (fl : Floats) where
  open fl use {F, leb, of_ℕ}

  -- By falling relevance.
  abbrev pub at_least : Mutation F → Mutation F → Bool
  at_least a b = leb b.relevance a.relevance

  -- A candidate is for the direction, and of some relevance.
  abbrev pub IsCandidate : Direction → Mutation F → Type 0
  IsCandidate direction o =
      ((o.direction == direction_value direction) && less fl (of_ℕ 0) o.relevance) ≡ true

  -- The mutations that `auto_evolve` tries are all for the direction and of positive relevance, and none
  -- comes before a more relevant one.
  pub patch_candidates-IsOrdered :
      (pack : Pack F) (snapshot : Snapshot) (reports : List EpisodeReport) (direction : Direction)
      (options : List (Mutation F))
      → patch_candidates fl pack snapshot reports direction ≡ ok options
      → All (IsCandidate direction) options × IsOrdered at_least options
  unfolding patch_candidates
  patch_candidates-IsOrdered pack snapshot reports direction options h =
      let (all, _, t) = >>=-eq-ok (enumerate_options pack.task_families snapshot reports) _ h in
      let fits : Mutation F → Bool =
        λ o. (o.direction == direction_value direction) && less fl (of_ℕ 0) o.relevance in
      subst (λ os. All (IsCandidate direction) os × IsOrdered at_least os) (ok-injective t)
        (
          All-sort_by (IsCandidate direction) at_least (filter fits all) (filter-All fits all),
          sort_by-IsOrdered at_least (λ a b. fl.leb_total b.relevance a.relevance)
              (λ a b c p q. fl.leb_trans c.relevance b.relevance a.relevance q p) (filter fits all),
        )
