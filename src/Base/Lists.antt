-- ===== src/Base/Lists.antt =====
-- Lists, with native lengths: predicates by recursion, `extend` loops, filters, slices.
use Prim.Native.Nat.{ℕ, zero, suc, ◌+◌}
use mathlib.Core.Path.{◌≡◌, refl, ap}
use mathlib.Core.Logic.{◌↔◌}
use mathlib.Core.Bool.{Bool, true, false, ◌||◌, ◌&&◌}
use mathlib.Core.List.{List, [], ◌∷◌, ◌++◌, Memᴰ, map}
use native.Mathlib.Omega.{arith}
use open_range.Base.Tests.{if◌then◌else◌}

module _ {ℓ} {A : Type ℓ} where
  abbrev pub length : List A → ℕ
  length [] = 0
  length (x ∷ xs) = suc (length xs)

  abbrev pub take : ℕ → List A → List A
  take zero xs = []
  take (suc n) [] = []
  take (suc n) (x ∷ xs) = x ∷ take n xs

  abbrev pub is_empty : List A → Bool
  is_empty [] = true
  is_empty (x ∷ xs) = false

  -- `[x for x in xs if p(x)]`
  unfoldable pub filter : (A → Bool) → List A → List A
  filter p [] = []
  filter p (x ∷ xs) = let rest = filter p xs in if p x then x ∷ rest else rest

  unfoldable pub any : (A → Bool) → List A → Bool
  any p [] = false
  any p (x ∷ xs) = p x || any p xs

  unfoldable pub all : (A → Bool) → List A → Bool
  all p [] = true
  all p (x ∷ xs) = p x && all p xs

  -- `[x] if b else []`
  abbrev pub when : Bool → A → List A
  when b x = if b then x ∷ [] else []

  abbrev pub All {κ} : (A → Type κ) → List A → Type κ
  All P [] = Unit
  All P (x ∷ xs) = P x × All P xs

  pub length-append : (xs ys : List A) → length (xs ++ ys) ≡ length xs + length ys
  length-append [] ys = omega arith
  length-append (x ∷ xs) ys = omega (arith, length-append xs ys)

module _ {ℓ κ} {A : Type ℓ} {B : Type κ} where
  pub length-map : (f : A → B) (xs : List A) → length (map f xs) ≡ length xs
  length-map f [] = refl
  length-map f (x ∷ xs) = ap suc (length-map f xs)

module _ {ℓ κ} {A : Type ℓ} (P : A → Type κ) where
  pub All-append : (xs ys : List A) → All P xs → All P ys → All P (xs ++ ys)
  All-append [] ys h k = k
  All-append (x ∷ xs) ys h k = (h.0, All-append xs ys h.1 k)

  pub All-Memᴰ : {a : A} {xs : List A} → All P xs → Memᴰ a xs → P a
  All-Memᴰ h (Memᴰ.head e) = rw e h.0
  All-Memᴰ h (Memᴰ.tail m) = All-Memᴰ h.1 m

  pub All-intro : (xs : List A) → ((a : A) → Memᴰ a xs → P a) → All P xs
  All-intro [] h = tt
  All-intro (x ∷ xs) h = (h x (Memᴰ.head refl), All-intro xs (λ a m. h a (Memᴰ.tail m)))

-- A list of facts, each turned into another.
pub All_map {ℓ κ μ} :
    {A : Type ℓ} {P : A → Type κ} {Q : A → Type μ} (f : (a : A) → P a → Q a) (xs : List A)
    → All P xs
    → All Q xs
All_map f [] h = tt
All_map f (x ∷ xs) h = (f x h.0, All_map f xs h.1)

module _ {ℓ} {A : Type ℓ} where
  pub append-nil_left : (xs ys : List A) → xs ++ ys ≡ [] → xs ≡ []
  append-nil_left [] ys e = refl
  append-nil_left (x ∷ xs) ys e = cc

  pub append-nil_right : (xs ys : List A) → xs ++ ys ≡ [] → ys ≡ []
  append-nil_right [] ys e = e
  append-nil_right (x ∷ xs) ys e = cc

  pub append-nil_iff : (xs ys : List A) → (xs ++ ys ≡ []) ↔ ((xs ≡ []) × (ys ≡ []))
  append-nil_iff xs ys =
      (λ e. (append-nil_left xs ys e, append-nil_right xs ys e), λ h. rw (h.0, h.1))

  pub when-nil_iff : (b : Bool) (x : A) → (when b x ≡ []) ↔ (b ≡ false)
  when-nil_iff true x = (λ e. cc, λ e. cc)
  when-nil_iff false x = (λ e. refl, λ e. refl)

module _ {ℓ κ} {A : Type ℓ} {B : Type κ} where
  -- `for x in xs: out.extend(f(x))`
  unfoldable pub flat_map : (A → List B) → List A → List B
  flat_map f [] = []
  flat_map f (x ∷ xs) = f x ++ flat_map f xs

  pub flat_map-nil_iff :
      (f : A → List B) (xs : List A) → (flat_map f xs ≡ []) ↔ All (λ x. f x ≡ []) xs
  unfolding flat_map
  flat_map-nil_iff f [] = (λ _. tt, λ _. refl)
  flat_map-nil_iff f (x ∷ xs) = (
    λ e. (append-nil_left (f x) _ e, (flat_map-nil_iff f xs).0 (append-nil_right (f x) _ e)),
    λ h. rw h.0 ((flat_map-nil_iff f xs).1 h.1),
  )

-- `reversed(xs)`
unfoldable pub backwards {ℓ} : {A : Type ℓ} → List A → List A
backwards [] = []
backwards (x ∷ xs) = backwards xs ++ (x ∷ [])

module _ {ℓ} {A : Type ℓ} where
  pub append-Memᴰ : {a : A} {xs : List A} (ys : List A) → Memᴰ a xs → Memᴰ a (xs ++ ys)
  append-Memᴰ ys (Memᴰ.head e) = Memᴰ.head e
  append-Memᴰ ys (Memᴰ.tail m) = Memᴰ.tail (append-Memᴰ ys m)

  pub snoc-Memᴰ : (a : A) (xs : List A) → Memᴰ a (xs ++ (a ∷ []))
  snoc-Memᴰ a [] = Memᴰ.head refl
  snoc-Memᴰ a (x ∷ xs) = Memᴰ.tail (snoc-Memᴰ a xs)

  pub backwards-Memᴰ : (a : A) (xs : List A) → Memᴰ a xs → Memᴰ a (backwards xs)
  unfolding backwards
  backwards-Memᴰ a [] m = elim m [ ]
  backwards-Memᴰ a (x ∷ xs) (Memᴰ.head e) = rw e (snoc-Memᴰ x (backwards xs))
  backwards-Memᴰ a (x ∷ xs) (Memᴰ.tail m) = append-Memᴰ (x ∷ []) (backwards-Memᴰ a xs m)
