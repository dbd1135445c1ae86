-- ===== src/Value.antt =====
-- The attribute values of packages/graphschema/src/graphschema/_ir.py (`Any`, as JSON holds it).
use open_range.Base.{String, List, [], ◌∷◌, Bool, Dict, ℕ}

-- A Python int.
pub data ℤ : Type 0 where
  pos : ℕ → ℤ
  negsuc : ℕ → ℤ

-- A float is carried by its text, `float.__repr__`, as `json.dumps` writes it; what is modelled
-- here looks only at its type.
mutual
  pub data Value : Type 0 where
    null : Value
    bool : Bool → Value
    int : ℤ → Value
    float : String → Value
    str : String → Value
    list : Items → Value
    dict : Fields → Value

  pub data Fields : Type 0 where
    end : Fields
    field : String → Value → Fields → Fields

  pub data Items : Type 0 where
    nil : Items
    cons : Value → Items → Items

unfoldable pub items_of : List Value → Items
items_of [] = nil
items_of (v ∷ vs) = cons v (items_of vs)

unfoldable pub to_list : Items → List Value
to_list nil = []
to_list (cons v vs) = v ∷ to_list vs

unfoldable pub fields_of : Dict String Value → Fields
fields_of [] = end
fields_of ((k, v) ∷ d) = field k v (fields_of d)

unfoldable pub to_dict : Fields → Dict String Value
to_dict end = []
to_dict (field k v fs) = (k, v) ∷ to_dict fs
