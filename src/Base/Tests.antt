-- ===== src/Base/Tests.antt =====
-- Boolean tests, the conditional, and equality tests as an interface.
use Prim.Native.Nat.{ℕ, compare, Ordering}
use Prim.Native.String.{String}
use mathlib.Core.Path.{◌≡◌, refl}
use mathlib.Core.Logic.{◌↔◌, ◌⊎◌, inl, inr}
use mathlib.Core.Bool.{Bool, true, false, ◌&&◌}
use mathlib.Core.Option.{Option, none, some}
use native.Mathlib.Omega.{arith}
use text.Mathlib.Text.{◌==◌ as str_eq}
use text.Mathlib.TextEquality.{eq_iff}

abbrev pub ltb : ℕ → ℕ → Bool
ltb a b = elim (compare a b) [ Ordering.lt ↦ true | _ ↦ false ]

abbrev pub leb : ℕ → ℕ → Bool
leb a b = elim (compare a b) [ Ordering.gt ↦ false | _ ↦ true ]

abbrev pub nat_beq : ℕ → ℕ → Bool
nat_beq a b = elim (compare a b) [ Ordering.eq ↦ true | _ ↦ false ]

pub nat_beq_iff : (a b : ℕ) → (nat_beq a b ≡ true) ↔ (a ≡ b)
nat_beq_iff a b = ground arith

infix 1 if◌then◌else◌
abbrev pub if◌then◌else◌ {ℓ} : {A : Type ℓ} → Bool → A → A → A
if true then x else y = x
if false then x else y = y

pub Bool-cases : (b : Bool) → (b ≡ true) ⊎ (b ≡ false)
Bool-cases true = inl refl
Bool-cases false = inr refl

pub Option-cases {ℓ} : {A : Type ℓ} (o : Option A) → (o ≡ none) ⊎ ((a : A) × (o ≡ some a))
Option-cases none = inl refl
Option-cases (some a) = inr (a, refl)

pub none≢some {ℓ} : {A : Type ℓ} {a : A} → ¬ (none ≡ some a)
none≢some h = cc

pub some-injective {ℓ} : {A : Type ℓ} {a b : A} → some a ≡ some b → a ≡ b
some-injective h = cc

abbrev pub is_some {ℓ} : {A : Type ℓ} → Option A → Bool
is_some none = false
is_some (some _) = true

-- Python's `==` on the types whose values the program compares.
pub record Eq {ℓ} (T : Type ℓ) : Type ℓ where
  pub beq : T → T → Bool
  pub beq_iff : (x y : T) → (beq x y ≡ true) ↔ (x ≡ y)

abbrev pub is_empty_str : String → Bool
is_empty_str s = str_eq s ""

pub is_empty_str_iff : (s : String) → (is_empty_str s ≡ true) ↔ (s ≡ "")
is_empty_str_iff s = eq_iff s ""

infix 50 ◌==◌
abbrev pub ◌==◌ {ℓ} : {T : Type ℓ} ⦃eq : Eq T⦄ → T → T → Bool
◌==◌ ⦃eq⦄ x y = eq.beq x y

instance abbrev pub nat_eq : Eq ℕ
nat_eq = record { beq = nat_beq; beq_iff = nat_beq_iff }

instance abbrev pub string_eq : Eq String
string_eq = record { beq = str_eq; beq_iff = eq_iff }

abbrev pub pair_beq : String × String → String × String → Bool
pair_beq a b = str_eq a.0 b.0 && str_eq a.1 b.1

pub pair_beq_iff : (a b : String × String) → (pair_beq a b ≡ true) ↔ (a ≡ b)
pair_beq_iff a b = ground (arith, eq_iff a.0 b.0, eq_iff a.1 b.1)

-- Python compares tuples part by part.
instance abbrev pub pair_eq : Eq (String × String)
pair_eq = record { beq = pair_beq; beq_iff = pair_beq_iff }

-- The branch that a conditional took.
pub if-then_lem {ℓ} :
    {A : Type ℓ} (b : Bool) (x y : A) {z : A} → b ≡ true → (if b then x else y) ≡ z → x ≡ z
if-then_lem true x y t h = h
if-then_lem false x y t h = cc

pub if-else_lem {ℓ} :
    {A : Type ℓ} (b : Bool) (x y : A) {z : A} → b ≡ false → (if b then x else y) ≡ z → y ≡ z
if-else_lem true x y f h = cc
if-else_lem false x y f h = h
