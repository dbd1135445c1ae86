-- ===== src/Episode/Npcs.antt =====
-- src/openrange/npc.py: `resolve_manifest_npcs` and `NPCRegistry.resolve`, once the registry has
-- discovered its factories.
use open_range.Base.{
  ℕ, zero, suc, String, List, [], ◌∷◌, ◌++◌, Option, none, some, Dict, get, put, Result, ok, err,
  npc_error, if◌then◌else◌, ◌==◌, string_eq, ltb, str_of, format,
}
use open_range.Value.{Value, ℤ, to_dict}
use open_range.Episode.{make_npc, Outside}
use open_range.Episode.Actions.{Action, return, throw, lift, ask, ◌>>=◌}

-- The checks of an entry: its type, how many, and the config.
unfoldable pub npc_type_of : Dict String Value → Result String
npc_type_of entry = elim (get "type" entry) [
  | some (Value.str npc_type) ↦ if npc_type == "" then err npc_error else ok npc_type
  | _ ↦ err npc_error
]

-- A bool is an int in Python.
unfoldable pub npc_count_of : Dict String Value → Result ℕ
npc_count_of entry = elim (get "count" entry) [
  | none ↦ ok 1
  | some (Value.int (ℤ.pos n)) ↦ ok n
  | some (Value.bool b) ↦ ok (if b then 1 else 0)
  | _ ↦ err npc_error
]

unfoldable pub npc_config_of : Dict String Value → Result (Dict String Value)
npc_config_of entry = elim (get "config" entry) [
  | none ↦ ok []
  | some (Value.dict fields) ↦ ok (to_dict fields)
  | _ ↦ err npc_error
]

-- The config of the NPC number `index` of `count`.
unfoldable pub slot_config : ℕ → ℕ → Dict String Value → Dict String Value
slot_config count index config =
    if ltb 1 count
    then put "_replication_suffix" (Value.str (format ("-" ∷ str_of (suc index) ∷ []))) config
    else config

module _ {F W : Type 0} (out : Outside F W) (factories : Dict String ℕ) where
  abbrev pub an_npc : Option ℕ → Result ℕ
  an_npc none = err npc_error
  an_npc (some npc) = ok npc

  abbrev pub make_with : Dict String Value → Option ℕ → Action F W ℕ
  make_with config none = throw npc_error
  make_with config (some factory) = ask out (make_npc factory config) >>= λ made. lift (an_npc made)

  -- `NPCRegistry.resolve`
  unfoldable pub resolve : String → Dict String Value → Action F W ℕ
  resolve npc_id config = make_with config (get npc_id factories)

  -- `for index in range(count_raw)`: `left` of the `count` are left.
  unfoldable pub resolve_slots : String → ℕ → ℕ → ℕ → Dict String Value → Action F W (List ℕ)
  unfolding resolve slot_config
  resolve_slots npc_type count index zero config = return []
  resolve_slots npc_type count index (suc left) config = do
    npc ← resolve npc_type (slot_config count index config)
    npcs ← resolve_slots npc_type count (suc index) left config
    return (npc ∷ npcs)

  unfoldable pub resolve_entry : Dict String Value → Action F W (List ℕ)
  unfolding resolve_slots npc_type_of npc_count_of npc_config_of
  resolve_entry entry = do
    npc_type ← lift (npc_type_of entry)
    count ← lift (npc_count_of entry)
    config ← lift (npc_config_of entry)
    resolve_slots npc_type count 0 count config

  unfoldable pub resolve_manifest_npcs : List (Dict String Value) → Action F W (List ℕ)
  unfolding resolve_entry
  resolve_manifest_npcs [] = return []
  resolve_manifest_npcs (entry ∷ entries) = do
    npcs ← resolve_entry entry
    more ← resolve_manifest_npcs entries
    return (npcs ++ more)
