-- ===== src/Cyber/Reaching.antt =====
-- packs/cyber_webapp/cyber_webapp/invariants.py: the search of `reaches` in `credential_reuse_binding`.
use open_range.Base.{
  ℕ, suc, zero, ◌+◌, ◌≤◌, ◌<◌, String, List, [], ◌∷◌, ◌++◌, true, false, ◌||◌, Dict, get, elem,
  elem-append, length, length-append, if◌then◌else◌, ◌==◌, string_eq, Bool-cases, inl, inr, ◌⊎◌,
  ◌≡◌, ◌↔◌, refl, sym, ap, subst, arith,
}
use open_range.Cyber.Invariants.{listed}
use open_range.Cyber.Credentials.{search_from, total, reaches}

-- One or more steps along the lists.
pub data Trail (d : Dict String (List String)) (dst : String) : String → Type 0 where
  last : {a : String} → elem dst (listed a d) ≡ true → Trail d dst a
  step : {a b : String} → elem b (listed a d) ≡ true → Trail d dst b → Trail d dst a

-- The elements of the lists of keys that are not seen.
open_size : List String → Dict String (List String) → ℕ
open_size seen [] = 0
open_size seen (e ∷ d) = (if elem e.0 seen then 0 else length e.1) + open_size seen d

open_size-le :
    (k : String) (seen : List String) (d : Dict String (List String))
    → open_size (k ∷ seen) d ≤ open_size seen d
unfolding open_size elem
open_size-le k seen [] = omega arith
open_size-le k seen (e ∷ d) = ground (arith, open_size-le k seen d)

listed-cons :
    (k : String) (e : String × List String) (d : Dict String (List String))
    → listed k (e ∷ d) ≡ (if e.0 == k then e.1 else listed k d)
unfolding get
listed-cons k e d = ground arith

open_size-cons :
    (k : String) (seen : List String) (d : Dict String (List String))
    → elem k seen ≡ false
    → open_size (k ∷ seen) d + length (listed k d) ≤ open_size seen d
unfolding open_size elem get
open_size-cons k seen [] h = omega arith
open_size-cons k seen (e ∷ d) h = ground (
  arith,
  string_eq.beq_iff e.0 k,
  string_eq.beq_iff k e.0,
  ap length (listed-cons k e d),
  open_size-cons k seen d h,
  open_size-le k seen d,
)

open_size-nil : (d : Dict String (List String)) → open_size [] d ≡ total d
unfolding open_size elem total
open_size-nil [] = refl
open_size-nil (e ∷ d) = ground (arith, open_size-nil d)

module _ (d : Dict String (List String)) (dst : String) where
  -- What the search finds is a node of the stack that is the target, or that a path leads from.
  Found : List String → Type 0
  Found stack = (x : String) × (elem x stack ≡ true) × ((x ≡ dst) ⊎ Trail d dst x)

  Found-tail : (cur : String) (stack : List String) → Found stack → Found (cur ∷ stack)
  unfolding elem Found
  Found-tail cur stack (x, m, p) = (x, ground arith, p)

  Found-expanded :
      (cur : String) (stack : List String) → Found (listed cur d ++ stack) → Found (cur ∷ stack)
  unfolding elem Found
  Found-expanded cur stack (x, m, p) = elim (Bool-cases (elem x (listed cur d))) [
    | inl t ↦ (
      cur,
      ground (arith, string_eq.beq_iff cur cur),
      inr (elim p [
        | inl e ↦ last (subst (λ z. elem z (listed cur d) ≡ true) e t)
        | inr on ↦ step t on
      ]),
    )
    | inr f ↦ (x, ground (arith, elem-append x (listed cur d) stack), p)
  ]

  search_from-Found :
      (fuel : ℕ) (stack seen : List String) → search_from fuel d dst stack seen ≡ true → Found stack
  unfolding search_from Found elem
  search_from-Found zero stack seen h = cc
  search_from-Found (suc fuel) [] seen h = cc
  search_from-Found (suc fuel) (cur ∷ stack) seen h = elim (Bool-cases (cur == dst)) [
    | inl t ↦
        (cur, ground (arith, string_eq.beq_iff cur cur), inl ((string_eq.beq_iff cur dst).0 t))
    | inr f ↦ elim (Bool-cases (elem cur seen)) [
      | inl t ↦ Found-tail cur stack (search_from-Found fuel stack seen (rw (f, t) at h))
      | inr g ↦
          Found-expanded cur stack
            (search_from-Found fuel (listed cur d ++ stack) (cur ∷ seen) (rw (f, g) at h))
    ]
  ]

  -- A set with the stack and the seen that steps do not leave, without the target.
  record Closed (stack seen : List String) : Type 0 where
    members : List String
    has_stack : (x : String) → elem x stack ≡ true → elem x members ≡ true
    has_seen : (x : String) → elem x seen ≡ true → elem x members ≡ true
    no_dst : elem dst members ≡ false
    closed :
        (x y : String) → elem x members ≡ true → elem y (listed x d) ≡ true → elem y members ≡ true

  -- What is seen leads to what is seen or on the stack.
  abbrev IsOpen : List String → List String → Type 0
  IsOpen stack seen =
      (x y : String)
      → elem x seen ≡ true
      → elem y (listed x d) ≡ true
      → (elem y stack || elem y seen) ≡ true

  IsOpen-expanded :
      (cur : String) (stack seen : List String)
      → IsOpen (cur ∷ stack) seen
      → IsOpen (listed cur d ++ stack) (cur ∷ seen)
  unfolding elem
  IsOpen-expanded cur stack seen cl x y m k = elim (Bool-cases (cur == x)) [
    | inl t ↦ ground (
      arith,
      elem-append y (listed cur d) stack,
      subst (λ z. elem y (listed z d) ≡ true) (sym ((string_eq.beq_iff cur x).0 t)) k,
    )
    | inr f ↦ ground (arith, elem-append y (listed cur d) stack, cl x y (ground arith) k)
  ]

  search_from-Closed :
      (fuel : ℕ) (stack seen : List String)
      → length stack + open_size seen d < fuel
      → elem dst seen ≡ false
      → IsOpen stack seen
      → search_from fuel d dst stack seen ≡ false
      → Closed stack seen
  unfolding search_from elem
  search_from-Closed zero stack seen lt nd cl h = absurd (omega arith)
  search_from-Closed (suc fuel) [] seen lt nd cl h = record {
    members = seen;
    has_stack = λ x m. ground arith;
    has_seen = λ x m. m;
    no_dst = nd;
    closed = λ x y m k. ground (arith, cl x y m k);
  }
  search_from-Closed (suc fuel) (cur ∷ stack) seen lt nd cl h = elim (Bool-cases (cur == dst)) [
    | inl t ↦ absurd (ground arith)
    | inr f ↦ elim (Bool-cases (elem cur seen)) [
      | inl t ↦
          let c : Closed stack seen =
            search_from-Closed fuel stack seen (omega (arith, lt)) nd
              (λ x y m k. ground (arith, cl x y m k, string_eq.beq_iff cur y)) (rw (f, t) at h) in
          record {
            members = c.members;
            has_stack =
                λ x m. ground (arith, c.has_stack x, c.has_seen cur t, string_eq.beq_iff cur x);
            has_seen = c.has_seen;
            no_dst = c.no_dst;
            closed = c.closed;
          }
      | inr g ↦
          let c : Closed (listed cur d ++ stack) (cur ∷ seen) =
            search_from-Closed fuel (listed cur d ++ stack) (cur ∷ seen)
              (omega (arith, lt, length-append (listed cur d) stack, open_size-cons cur seen d g))
              (ground (arith, nd, f)) (IsOpen-expanded cur stack seen cl) (rw (f, g) at h) in
          record {
            members = c.members;
            has_stack = λ x m.
                ground (arith, c.has_stack x, c.has_seen x, elem-append x (listed cur d) stack);
            has_seen = λ x m. ground (arith, c.has_seen x);
            no_dst = c.no_dst;
            closed = c.closed;
          }
    ]
  ]

  not_reached : (src : String) → reaches d src dst ≡ false → Closed (listed src d) []
  unfolding reaches elem
  not_reached src h =
      search_from-Closed (suc (length (listed src d) + total d)) (listed src d) []
        (omega (arith, open_size-nil d)) refl (λ x y m k. cc) h

  Trail-in :
      (src : String) (c : Closed (listed src d) [])
      → (a : String) → elem a c.members ≡ true
      → ¬ Trail d dst a
  Trail-in src c a m (Trail.last k) = cc (c.closed a dst m k, c.no_dst)
  Trail-in src c a m (Trail.step {b = b} k p) = Trail-in src c b (c.closed a b m k) p

  Trail-out : (src : String) (c : Closed (listed src d) []) → ¬ Trail d dst src
  Trail-out src c (Trail.last k) = cc (c.has_stack dst k, c.no_dst)
  Trail-out src c (Trail.step {b = b} k p) = Trail-in src c b (c.has_stack b k) p

  Trail-of_Found : (src : String) → Found (listed src d) → Trail d dst src
  unfolding Found
  Trail-of_Found src (x, m, inl e) = Trail.last (subst (λ z. elem z (listed src d) ≡ true) e m)
  Trail-of_Found src (x, m, inr p) = Trail.step m p

  -- The search answers true exactly when a path leads from the source to the target.
  pub reaches_iff : (src : String) → (reaches d src dst ≡ true) ↔ Trail d dst src
  unfolding reaches
  reaches_iff src = (
    λ h. Trail-of_Found src (search_from-Found _ (listed src d) [] h),
    λ p. elim (Bool-cases (reaches d src dst)) [
      | inl t ↦ t
      | inr f ↦ absurd (Trail-out src (not_reached src f) p)
    ],
  )
