-- ===== src/Episode.antt =====
-- src/openrange/core/episode.py: the data of the episode service, and what it asks of the world
-- around it: of the runtimes that packs realize, of NPCs, of the dashboard, the clock and the disk.
-- A path is carried by its text, and a surface holds values only: no callables.
pub mod Actions
pub mod Manifests
pub mod Events
pub mod Actors
pub mod Starts
pub mod Stops
pub mod Turns
pub mod Service
pub mod Quiet
pub mod Phases
pub mod Reports
pub mod Keeps
pub mod Capacity
pub mod Closing
pub mod Advancing
pub mod Npcs
use open_range.Base.{ℕ, String, List, Bool, Option, Dict, Result, Error}
use open_range.Value.{Value}
use open_range.Graph.{WorldGraph}
use open_range.Sdk.{Backing, TaskSpec, Snapshot, EpisodeResult, EpisodeReport, Pack}

abbrev pub Event : Type 0
Event = Dict String Value

abbrev pub Surface : Type 0
Surface = Dict String Value

pub record EpisodeHandle : Type 0 where
  pub id : String
  pub snapshot_id : String
  pub task_id : String

pub record Observation : Type 0 where
  pub visible_state : Surface
  pub events : List Event
  pub metadata : Dict String Value

pub record TickRequest : Type 0 where
  pub max_events : Option ℕ
  pub process_npcs : Bool
  pub process_timers : Bool

pub record TickResult : Type 0 where
  pub events : List Event
  pub done : Bool
  pub terminal_reason : Option String

-- `AdvanceRequest.until`
pub data Until : Type 0 where
  observation event terminal idle : Until

pub record AdvanceRequest : Type 0 where
  pub until : Until
  pub max_ticks : ℕ

pub record EpisodeUpdate : Type 0 where
  pub observation : Option Observation
  pub events : List Event
  pub done : Bool
  pub terminal_reason : Option String

pub record EpisodeCost (F : Type 0) : Type 0 where
  pub wall_seconds : F
  pub realize_seconds : F
  pub turns : ℕ

-- `EpisodeReport` with its cost.
pub record CostedReport (F : Type 0) : Type 0 where
  pub report : EpisodeReport
  pub cost : EpisodeCost F

pub record EpisodeCheckpoint : Type 0 where
  pub id : String
  pub episode_id : String
  pub snapshot_id : String
  pub task_id : String
  pub state : Value

-- `ActorTurn` of src/openrange/core/turn.py.
pub record ActorTurn : Type 0 where
  pub task_id : String
  pub actor_id : String
  pub actor_kind : String
  pub target : String
  pub action : Dict String Value
  pub observation : Option (Dict String Value)
  pub state : Option (Dict String Value)
  pub metadata : Dict String Value

-- `_RunningEpisode`. A runtime and an NPC are objects with an identity, a number here; `tick_rate`
-- is there while the thread of the auto tick is (`tick_thread` and `tick_stop`).
pub record RunningEpisode (F : Type 0) : Type 0 where
  pub handle : EpisodeHandle
  pub snapshot : Snapshot
  pub task : TaskSpec
  pub runtime : ℕ
  pub run_root : String
  pub surface_cache : Surface
  pub agent_summary : String
  pub final_state : Option (Dict String Value)
  pub episode_result : Option EpisodeResult
  pub tick_rate : Option F
  pub npcs : List ℕ
  pub stopped : Bool
  pub started_at : F
  pub realized_at : F
  pub stopped_at : F
  pub turns : ℕ

-- What the service calls outside of it.
pub data Call (F : Type 0) : Type 0 where
  realize : WorldGraph → Backing → Call F
  reset reset_episode poolable surface poll_events terminal checkpoint collect stop : ℕ → Call F
  restore : ℕ → Value → Call F
  make_npc : ℕ → Dict String Value → Call F
  npc_requires_llm npc_broken_reason npc_kind npc_stop : ℕ → Call F
  npc_start : ℕ → Dict String Value → Bool → Call F
  npc_step : ℕ → Surface → Call F
  record_turn : ActorTurn → Call F
  start_thread : EpisodeHandle → F → Call F
  join_thread : EpisodeHandle → Call F
  perf_counter uuid4 : Call F
  path_exists mkdir : String → Call F

-- What a call gives back when it raises nothing. A factory of NPCs may give back what is no NPC.
abbrev pub Answer : {F : Type 0} → Call F → Type 0
Answer (realize _ _) = ℕ
Answer (poolable _) = Bool
Answer (surface _) = Surface
Answer (poll_events _) = List Event
Answer (terminal _) = Bool × Option String
Answer (checkpoint _) = Value
Answer (collect _) = Dict String Value
Answer (make_npc _ _) = Option ℕ
Answer (npc_requires_llm _) = Bool
Answer (npc_broken_reason _) = Option String
Answer (npc_kind _) = String
Answer {F} perf_counter = F
Answer uuid4 = String
Answer (path_exists _) = Bool
Answer _ = Unit {0}

-- The outside: every call may raise, and changes its state `W`.
abbrev pub Outside : Type 0 → Type 0 → Type 0
Outside F W = (call : Call F) → W → Result (Answer call) × W

-- What an `EpisodeService` is given, and never changes. `npc_backend` tells whether it has a
-- backend for NPCs; `factories` is the registry of NPCs, a factory being an object with an identity.
pub record Config (F : Type 0) : Type 0 where
  pub pack : Pack F
  pub run_root : String
  pub dashboard : Bool
  pub npc_backend : Bool
  pub backing : Backing
  pub warm_capacity : ℕ
  pub factories : Dict String ℕ

-- `type(exc).__name__`, `str(exc)` and `repr(exc)`.
pub record ErrorTexts : Type 0 where
  pub type_name : Error → String
  pub str_of_error : Error → String
  pub repr_of_error : Error → String

-- The dicts of a service with the state of the outside, and the calls that were made so far.
pub record State (F W : Type 0) : Type 0 where
  pub episodes : Dict String (RunningEpisode F)
  pub warm : Dict String ℕ
  pub reports : Dict String (CostedReport F)
  pub world : W
  pub calls : List (Call F)
