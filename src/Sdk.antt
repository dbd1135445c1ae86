-- ===== src/Sdk.antt =====
-- packages/openrange-pack-sdk/src/openrange_pack_sdk: _types.py, and the contracts of
-- _protocols.py as records of functions. What a pack implements may raise.
pub mod Backings
use open_range.Base.{
  ℕ, String, List, [], ◌∷◌, Bool, Option, none, some, Dict, Result, ok, err, not_implemented,
  if◌then◌else◌, ◌==◌, string_eq, ltb,
}
use open_range.Value.{Value, ℤ}
use open_range.Graph.{WorldGraph, GraphPatch}
use open_range.Schema.{Ontology, Issue}
use open_range.Validate.{Invariant}

pub data Backing : Type 0 where
  process : Backing
  container : Backing
  simulator : Backing
  hybrid : Backing

-- `_BACKING_RANK`
unfoldable pub backing_rank : Backing → ℕ
backing_rank process = 0
backing_rank simulator = 1
backing_rank hybrid = 2
backing_rank container = 3

-- `max(candidates, key=…)`: the first of the highest rank.
unfoldable pub max_backing : Backing → List Backing → Backing
unfolding backing_rank
max_backing best [] = best
max_backing best (b ∷ bs) =
    max_backing (if ltb (backing_rank best) (backing_rank b) then b else best) bs

unfoldable pub resolve_backing : Backing → Backing → Bool → Backing
unfolding max_backing
resolve_backing requested minimum sandbox =
    max_backing requested (if sandbox then minimum ∷ container ∷ [] else minimum ∷ [])

pub record TaskSpec : Type 0 where
  pub id : String
  pub instruction : String
  pub entrypoints : List String
  pub goal_nodes : List String
  pub feasibility_check : String
  pub success_check : String
  pub meta : Dict String Value

abbrev pub Manifest : Type 0
Manifest = Dict String Value

-- `topology` and the seeds of tasks are passed through untouched.
pub record PackPrior (F : Type 0) : Type 0 where
  pub source : String
  pub ontology : Ontology
  pub topology : Dict String Value
  pub task_seeds : List Value
  pub difficulty : Dict String F
  pub coverage : Dict String F

pub record BuildResult : Type 0 where
  pub graph : WorldGraph
  pub tasks : List TaskSpec
  pub admission_meta : Dict String Value

pub record FeasibilityVerdict : Type 0 where
  pub feasible : Bool
  pub reason : String

pub record EpisodeResult : Type 0 where
  pub success : Bool
  pub subgoals : Dict String Bool
  pub reason : String

pub record Mutation (F : Type 0) : Type 0 where
  pub patch : GraphPatch
  pub direction : String
  pub relevance : F
  pub family : String
  pub note : String

pub record BuildEvent : Type 0 where
  pub seq : ℤ
  pub phase : String
  pub detail : String
  pub refs : List String

pub record Snapshot : Type 0 where
  pub snapshot_id : String
  pub ontology_id : String
  pub graph : WorldGraph
  pub tasks : List TaskSpec
  pub lineage : Dict String Value
  pub history : List BuildEvent

-- `EpisodeReport` of src/openrange/core/episode.py, less its cost.
pub record EpisodeReport : Type 0 where
  pub snapshot_id : String
  pub task_id : String
  pub episode_result : EpisodeResult
  pub final_state : Dict String Value
  pub agent_summary : String

abbrev pub passed : EpisodeReport → Bool
passed report = report.episode_result.success

pub record TaskFamily (F : Type 0) : Type 0 where
  pub id : String
  pub generate : WorldGraph → Manifest → Option (PackPrior F) → Result (List TaskSpec)
  pub check_feasibility : WorldGraph → TaskSpec → Result FeasibilityVerdict
  pub check_success : WorldGraph → TaskSpec → Dict String Value → Result EpisodeResult
  pub available_mutations : Snapshot → List EpisodeReport → Result (List (Mutation F))

pub record Builder (F : Type 0) : Type 0 where
  pub build : Manifest → Result BuildResult
  pub repair : BuildResult → List Issue → List String → Result BuildResult
  pub evolve : Snapshot → Mutation F → Result GraphPatch

-- The bodies that `Builder` gives to `repair` and `evolve`.
abbrev pub default_repair : BuildResult → List Issue → List String → Result BuildResult
default_repair prev errors infeasible = err not_implemented

abbrev pub default_evolve : {F : Type 0} → Snapshot → Mutation F → Result GraphPatch
default_evolve snapshot mutation = ok mutation.patch

pub record Pack (F : Type 0) : Type 0 where
  pub id : String
  pub version : String
  pub ontology : Ontology
  pub invariants : List Invariant
  pub make_builder : Option (PackPrior F) → Result (Builder F)
  pub task_families : List (TaskFamily F)
  pub default_prior : Option (PackPrior F)

-- `Pack.task_family`
unfoldable pub task_family : {F : Type 0} → List (TaskFamily F) → String → Option (TaskFamily F)
task_family [] family_id = none
task_family (fam ∷ families) family_id =
    if fam.id == family_id then some fam else task_family families family_id
