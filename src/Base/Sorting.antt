-- ===== src/Base/Sorting.antt =====
-- `sorted`: a stable sort by an order, the order of texts, and decimal numbers.
use Prim.Native.Nat.{ℕ, zero, suc, ◌/◌, ◌%◌, Ordering}
use Prim.Native.String.{String, compare, ◌++◌}
use mathlib.Core.Bool.{Bool, true, false}
use mathlib.Core.List.{List, [], ◌∷◌}
use open_range.Base.Tests.{if◌then◌else◌, ltb, nat_beq}

-- `s <= t` on texts, by code points.
abbrev pub str_leb : String → String → Bool
str_leb s t = elim (compare s t) [ Ordering.gt ↦ false | _ ↦ true ]

module _ {ℓ} {A : Type ℓ} (le : A → A → Bool) where
  -- In front of the first element that is not below.
  unfoldable pub insert_by : A → List A → List A
  insert_by x [] = x ∷ []
  insert_by x (y ∷ ys) = if le x y then x ∷ (y ∷ ys) else y ∷ insert_by x ys

  -- Equal elements keep their order.
  unfoldable pub sort_by : List A → List A
  unfolding insert_by
  sort_by [] = []
  sort_by (x ∷ xs) = insert_by x (sort_by xs)

digit : ℕ → String
digit n =
    if nat_beq n 0
    then "0"
    else if nat_beq n 1
    then "1"
    else if nat_beq n 2
    then "2"
    else if nat_beq n 3
    then "3"
    else if nat_beq n 4
    then "4"
    else if nat_beq n 5
    then "5"
    else if nat_beq n 6
    then "6"
    else if nat_beq n 7
    then "7"
    else if nat_beq n 8
    then "8"
    else "9"

decimal : ℕ → ℕ → String
unfolding digit
decimal zero n = ""
decimal (suc f) n =
    let front = decimal f (n / 10) in if ltb n 10 then digit n else front ++ digit (n % 10)

-- `str(n)`: a number has no more digits than its value plus one.
unfoldable pub str_of : ℕ → String
unfolding decimal
str_of n = decimal (suc n) n

-- The parts of an f-string.
unfoldable pub format : List String → String
format [] = ""
format (s ∷ parts) = s ++ format parts
