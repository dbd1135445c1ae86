-- ===== src/Base/Results.antt =====
-- Python's exceptions as results.
use Prim.Native.String.{String}
use mathlib.Core.Path.{◌≡◌, refl}
use mathlib.Core.List.{List, [], ◌∷◌}
use mathlib.Core.Logic.{◌⊎◌, inl, inr}

-- What a call gives back, or the exception it raises; `raised` stands for whatever the code of a
-- pack, a policy or a gate raises.
pub data Error : Type 0 where
  key_error : Error
  value_error : Error
  zero_division : Error
  not_implemented : Error
  store_error : Error
  admission_error : Error
  episode_error : Error
  npc_error : Error
  assertion_error : Error
  raised : String → Error

pub data Result {ℓ} (T : Type ℓ) : Type ℓ where
  err : Error → Result T
  ok : T → Result T

pub ok-injective {ℓ} : {T : Type ℓ} {x y : T} → ok x ≡ ok y → x ≡ y
ok-injective h = cc

pub Result-cases {ℓ} :
    {T : Type ℓ} (r : Result T) → ((e : Error) × (r ≡ err e)) ⊎ ((x : T) × (r ≡ ok x))
Result-cases (err e) = inl (e, refl)
Result-cases (ok x) = inr (x, refl)

-- The statements after a call run only if it raises nothing.
infixl 5 ◌>>=◌
abbrev pub ◌>>=◌ {ℓ κ} : {T : Type ℓ} {U : Type κ} → Result T → (T → Result U) → Result U
err e >>= rest = err e
ok x >>= rest = rest x

-- What is known of a call whose statements after it gave a result.
pub >>=-eq-ok {ℓ κ} :
    {T : Type ℓ} {U : Type κ} (call : Result T) (rest : T → Result U) {y : U}
    → (call >>= rest) ≡ ok y
    → (x : T) × (call ≡ ok x) × (rest x ≡ ok y)
>>=-eq-ok (err e) rest done = cc
>>=-eq-ok (ok x) rest done = (x, refl, done)

-- A loop whose body may raise: the first exception ends it.
unfoldable pub map_result {ℓ κ} :
    {A : Type ℓ} {B : Type κ} → (A → Result B) → List A → Result (List B)
map_result f [] = ok []
map_result f (x ∷ xs) = do y ← f x; ys ← map_result f xs; ok (y ∷ ys)
