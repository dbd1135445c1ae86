-- ===== src/Examples/Millis.antt =====
-- A concrete `Floats`: fixed-point numbers with three decimals.
use native.Mathlib.Nat.{le-div_iff_mul-le, div-mul-le_self, div-zero}
use open_range.Base.{
  ℕ, zero, suc, ◌+◌, ◌-◌, ◌*◌, ◌/◌, ◌≤◌, String, Bool, true, false, Option, none, some, ◌≡◌, refl,
  leb, arith, if◌then◌else◌, ◌==◌, string_eq, str_of, format, [], ◌∷◌,
}
use open_range.Value.{ℤ, pos, negsuc}
use open_range.Floats.{Floats}

abbrev ten_to : ℕ → ℕ
ten_to zero = 1
ten_to (suc n) = 10 * ten_to n

abbrev neg_ℤ : ℤ → ℤ
neg_ℤ (pos zero) = pos zero
neg_ℤ (pos (suc n)) = negsuc n
neg_ℤ (negsuc n) = pos (suc n)

-- `a - b`, with its sign.
abbrev minus : ℕ → ℕ → ℤ
minus a b = if leb b a then pos (a - b) else negsuc ((b - a) - 1)

abbrev plus_ℤ : ℤ → ℤ → ℤ
plus_ℤ (pos a) (pos b) = pos (a + b)
plus_ℤ (pos a) (negsuc b) = minus a (suc b)
plus_ℤ (negsuc a) (pos b) = minus b (suc a)
plus_ℤ (negsuc a) (negsuc b) = negsuc (suc (a + b))

-- An operation on magnitudes, with the sign of a product.
abbrev signed : (ℕ → ℕ → ℕ) → ℤ → ℤ → ℤ
signed f (pos a) (pos b) = pos (f a b)
signed f (pos a) (negsuc b) = neg_ℤ (pos (f a (suc b)))
signed f (negsuc a) (pos b) = neg_ℤ (pos (f (suc a) b))
signed f (negsuc a) (negsuc b) = pos (f (suc a) (suc b))

abbrev leb_ℤ : ℤ → ℤ → Bool
leb_ℤ (pos a) (pos b) = leb a b
leb_ℤ (pos a) (negsuc b) = false
leb_ℤ (negsuc a) (pos b) = true
leb_ℤ (negsuc a) (negsuc b) = leb b a

abbrev beq_ℤ : ℤ → ℤ → Bool
beq_ℤ a b = if leb_ℤ a b then leb_ℤ b a else false

abbrev absolute_ℤ : ℤ → ℤ
absolute_ℤ (pos a) = pos a
absolute_ℤ (negsuc a) = pos (suc a)

abbrev rounded : ℤ → ℕ
rounded (pos a) = (a + 500) / 1000
rounded (negsuc a) = 0

abbrev millis_text : ℤ → String
millis_text (pos a) = format (str_of a ∷ "e-3" ∷ [])
millis_text (negsuc a) = format ("-" ∷ str_of (suc a) ∷ "e-3" ∷ [])

abbrev millis_of : String → Option ℤ
millis_of s =
    if s == "0.0"
    then some (pos 0)
    else if s == "0.5"
    then some (pos 500)
    else if s == "1.0"
    then some (pos 1000)
    else none

pub leb_ℤ_total : (a b : ℤ) → leb_ℤ a b ≡ false → leb_ℤ b a ≡ true
leb_ℤ_total (pos a) (pos b) h = ground arith
leb_ℤ_total (pos a) (negsuc b) h = refl
leb_ℤ_total (negsuc a) (pos b) h = cc
leb_ℤ_total (negsuc a) (negsuc b) h = ground arith

pub leb_ℤ_trans : (a b c : ℤ) → leb_ℤ a b ≡ true → leb_ℤ b c ≡ true → leb_ℤ a c ≡ true
leb_ℤ_trans (pos a) (pos b) (pos c) h k = ground arith
leb_ℤ_trans (pos a) (pos b) (negsuc c) h k = k
leb_ℤ_trans (pos a) (negsuc b) c h k = cc
leb_ℤ_trans (negsuc a) b (pos c) h k = refl
leb_ℤ_trans (negsuc a) (pos b) (negsuc c) h k = cc
leb_ℤ_trans (negsuc a) (negsuc b) (negsuc c) h k = ground arith

pub quotient_mono : (x y z : ℕ) → x ≤ y → x / z ≤ y / z
quotient_mono x y zero h = omega (arith, div-zero x, div-zero y)
quotient_mono x y (suc z) h =
    (le-div_iff_mul-le {k = suc z} {x = x / suc z} {y = y} (omega arith)).1
      (omega (arith, div-mul-le_self x (suc z)))

-- One unit is a thousandth.
abbrev pub millis : Floats
millis = record {
  F = ℤ;
  of_ℕ = λ n. pos (n * 1000);
  add = plus_ℤ;
  sub = λ a b. plus_ℤ a (neg_ℤ b);
  mul = signed (λ a b. (a * b) / 1000);
  div = signed (λ a b. (a * 1000) / b);
  neg = neg_ℤ;
  absolute = absolute_ℤ;
  leb = leb_ℤ;
  beq = beq_ℤ;
  round_ℕ = rounded;
  literal = λ m k. pos ((m * 1000) / ten_to k);
  repr = millis_text;
  parse = millis_of;
  fixed2 = millis_text;
  leb_total = leb_ℤ_total;
  leb_trans = leb_ℤ_trans;
  zero-leb-one = refl;
  div_mono = λ k m n h.
      ground
        (arith, quotient_mono ((k * 1000) * 1000) ((m * 1000) * 1000) (n * 1000) (omega arith));
}
