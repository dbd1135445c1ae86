-- ===== src/Episode/Manifests.antt =====
-- src/openrange/core/episode.py: what the service reads out of a snapshot and a surface.
use open_range.Base.{
  String, List, [], ◌∷◌, Option, none, some, Dict, get, Result, ok, err, episode_error, ◌++◌,
  if◌then◌else◌, ◌==◌, string_eq,
}
use open_range.Value.{Value, ℤ, to_list, to_dict}
use open_range.Floats.{Floats, less}
use open_range.Sdk.{TaskSpec, Snapshot}
use open_range.Episode.{Surface}

unfoldable pub task_with : String → List TaskSpec → Option TaskSpec
task_with task_id [] = none
task_with task_id (task ∷ tasks) = if task.id == task_id then some task else task_with task_id tasks

-- `_resolve_task`
unfoldable pub resolve_task : Snapshot → Option String → Result TaskSpec
unfolding task_with
resolve_task snapshot task_id = elim snapshot.tasks [
  | [] ↦ err episode_error
  | first ∷ rest ↦ elim task_id [
    | none ↦ ok first
    | some id ↦ elim (task_with id (first ∷ rest)) [
      | none ↦ err episode_error
      | some task ↦ ok task
    ]
  ]
]

abbrev text_entry : String → Surface → Dict String Value
text_entry key surface = elim (get key surface) [
  | some (Value.str text) ↦ (key, Value.str text) ∷ []
  | _ ↦ []
]

-- `_observation_metadata`
unfoldable pub observation_metadata : Surface → Dict String Value
observation_metadata surface = text_entry "base_url" surface ++ text_entry "solver_root" surface

-- The mapping at a key; without one, none.
abbrev mapping_under : String → Dict String Value → Option (Dict String Value)
mapping_under key d = elim (get key d) [
  | some (Value.dict fields) ↦ some (to_dict fields)
  | _ ↦ none
]

-- `_manifest_mapping`
unfoldable pub manifest_mapping : Snapshot → Dict String Value
manifest_mapping snapshot = elim (mapping_under "manifest" snapshot.lineage) [
  | some d ↦ d
  | none ↦ []
]

abbrev mappings_of : List Value → List (Dict String Value)
mappings_of [] = []
mappings_of (Value.dict fields ∷ items) = to_dict fields ∷ mappings_of items
mappings_of (_ ∷ items) = mappings_of items

-- `_manifest_npc_entries`
unfoldable pub manifest_npc_entries : Snapshot → List (Dict String Value)
unfolding manifest_mapping to_list
manifest_npc_entries snapshot = elim (get "npc" (manifest_mapping snapshot)) [
  | some (Value.list items) ↦ mappings_of (to_list items)
  | _ ↦ []
]

module _ (fl : Floats) where
  open fl use {F, of_ℕ, parse}

  -- `float(rate_raw)` of an int or a float that is no bool.
  abbrev rate_of : Option Value → Option F
  rate_of (some (Value.int (ℤ.pos n))) = some (of_ℕ n)
  rate_of (some (Value.float text)) = parse text
  rate_of _ = none

  abbrev positive : Option F → Option F
  positive none = none
  positive (some rate) = if less fl (of_ℕ 0) rate then some rate else none

  -- `_manifest_auto_tick_rate`. A negative int is no rate.
  unfoldable pub manifest_auto_tick_rate : Snapshot → Option F
  unfolding manifest_mapping
  manifest_auto_tick_rate snapshot = elim (mapping_under "runtime" (manifest_mapping snapshot)) [
    | none ↦ none
    | some runtime_cfg ↦ elim (mapping_under "tick" runtime_cfg) [
      | none ↦ none
      | some tick_cfg ↦ elim (get "mode" tick_cfg) [
        | some (Value.str mode) ↦
            if mode == "auto" then positive (rate_of (get "rate_hz" tick_cfg)) else none
        | _ ↦ none
      ]
    ]
  ]
