-- ===== src/Examples/Episodes.antt =====
-- A service with one running episode, in an outside that counts the runtimes it realizes.
use open_range.Base.{
  ◌≡◌, refl, subst, ℕ, suc, String, [], ◌∷◌, true, false, none, some, ok, err, Error, get,
  string_eq, ok-injective, arith,
}
use open_range.Value.{Value, ℤ, pos, str}
use open_range.Sdk.{Backing, Snapshot}
use open_range.Episode.{
  Call, EpisodeHandle, RunningEpisode, CostedReport, EpisodeUpdate, AdvanceRequest, Until, Outside,
  Config, ErrorTexts, State, realize, poolable, surface, poll_events, terminal, checkpoint, collect,
  make_npc, npc_requires_llm, npc_broken_reason, npc_kind, perf_counter, uuid4, path_exists,
}
use open_range.Episode.Stops.{stop_episode, check_episode, close}
use open_range.Episode.Starts.{new_running}
use open_range.Episode.Actions.{◌>>=◌, attempt, ask, for_each, return}
use open_range.Episode.Events.{require, drain_events, record_world_event, terminal_state}
use open_range.Episode.Turns.{advance, advance_from, yields_on_events}
use open_range.Episode.Phases.{Steps, phases, unknown, stopped}
use open_range.Episode.Phases.Lifecycle.{
  starts, stops, after_call, after_call-Steps, here, next, Reaches-stopped,
}
use open_range.Episode.Reports.{stop_episode_again}
use open_range.Episode.Reports.Total.{Returns, IsJoinable}
use open_range.Episode.Reports.Total.Stopping.{stop_episode_total}
use open_range.Episode.Advancing.{IsUpdate, advance-IsUpdate}
use open_range.Episode.Capacity.{IsWithin}
use open_range.Episode.Capacity.Always.{after_call-IsWithin}
use open_range.Episode.Closing.Closed.{IsClosed, close-IsClosed}
use open_range.Examples.Millis.{millis}
use open_range.Examples.Worlds.{world}
use open_range.Examples.Packs.{pack, breach}

-- The state of the outside is the number of runtimes so far. Every stop fails.
abbrev outside : Outside ℤ ℕ
outside (realize graph backing) w = (ok w, suc w)
outside (Call.stop runtime) w = (err (Error.raised "OSError"), w)
outside (poolable runtime) w = (ok false, w)
outside (surface runtime) w = (ok (("base_url", str "http://web") ∷ []), w)
outside (poll_events runtime) w = (ok ((("hit", str "web") ∷ []) ∷ []), w)
outside (terminal runtime) w = (ok (false, none), w)
outside (checkpoint runtime) w = (ok Value.null, w)
outside (collect runtime) w = (ok (("flag", str "found") ∷ []), w)
outside (make_npc factory config) w = (ok none, w)
outside (npc_requires_llm npc) w = (ok false, w)
outside (npc_broken_reason npc) w = (ok none, w)
outside (npc_kind npc) w = (ok "npc", w)
outside perf_counter w = (ok (pos w), w)
outside uuid4 w = (ok "second", w)
outside (path_exists path) w = (ok false, w)
outside (Call.reset runtime) w = (ok tt, w)
outside (Call.reset_episode runtime) w = (ok tt, w)
outside (Call.restore runtime v) w = (ok tt, w)
outside (Call.npc_stop npc) w = (ok tt, w)
outside (Call.npc_start npc c b) w = (ok tt, w)
outside (Call.npc_step npc c) w = (ok tt, w)
outside (Call.record_turn turn) w = (ok tt, w)
outside (Call.start_thread h r) w = (ok tt, w)
outside (Call.join_thread h) w = (ok tt, w)
outside (Call.mkdir path) w = (ok tt, w)

abbrev config : Config ℤ
config = record {
  pack = pack;
  run_root = "runs";
  dashboard = false;
  npc_backend = false;
  backing = Backing.process;
  warm_capacity = 1;
  factories = [];
}

abbrev texts : ErrorTexts
texts = record {
  type_name = λ e. "OSError";
  str_of_error = λ e. "";
  repr_of_error = λ e. "OSError()";
}

abbrev snapshot : Snapshot
snapshot = record {
  snapshot_id = "world";
  ontology_id = "net";
  graph = world;
  tasks = breach ∷ [];
  lineage = [];
  history = [];
}

abbrev handle : EpisodeHandle
handle = record { id = "first"; snapshot_id = "world"; task_id = "breach" }

-- Its thread ticks.
abbrev entry : RunningEpisode ℤ
entry =
    record (new_running millis outside config handle snapshot breach 0 "runs/breach" [] (pos 0)
      (pos 1)) { tick_rate = some (pos 2) }

-- One episode runs, and one world is warm.
abbrev busy : State ℤ ℕ
busy = record {
  episodes = ("first", entry) ∷ [];
  warm = ("other", 7) ∷ [];
  reports = [];
  world = 1;
  calls = [];
}

second-is_new : (id : String) → ok "second" ≡ ok id → phases busy id ≡ unknown
unfolding get
second-is_new id e = subst (λ k. phases busy k ≡ unknown) (ok-injective e) refl

after_call-Steps_example :
    Steps busy (after_call millis outside config texts (starts snapshot none) busy)
after_call-Steps_example =
    after_call-Steps millis outside config texts (starts snapshot none) busy second-is_new

answered : (w : ℕ) → Returns (outside perf_counter w).0
answered w = (pos w, refl)

answered_pool : (runtime : ℕ) (w : ℕ) → Returns (outside (poolable runtime) w).0
answered_pool runtime w = (false, refl)

joined : IsJoinable outside entry
joined ticks w = (tt, refl)

stop_episode_total_example : Returns (stop_episode millis outside config texts handle busy).0
unfolding get
stop_episode_total_example =
    stop_episode_total millis outside config refl texts (answered_pool, answered) handle entry busy
      refl refl refl joined

reported : Returns (stop_episode millis outside config texts handle busy).0
unfolding get
reported =
    stop_episode_total millis outside config refl texts (answered_pool, answered) handle entry busy
      refl refl refl joined

stop_episode_again_example :
    (stop_episode millis outside config texts handle
        (stop_episode millis outside config texts handle busy).1
      ≡ (ok reported.0, (stop_episode millis outside config texts handle busy).1))
    × (check_episode millis outside config texts handle
          (stop_episode millis outside config texts handle busy).1
        ≡ (ok reported.0, (stop_episode millis outside config texts handle busy).1))
stop_episode_again_example =
    stop_episode_again millis outside config texts handle busy reported.0 reported.1

abbrev solved : CostedReport ℤ
solved = record {
  report = record {
    snapshot_id = "world";
    task_id = "breach";
    episode_result = record { success = true; subgoals = []; reason = "" };
    final_state = [];
    agent_summary = "";
  };
  cost = record { wall_seconds = pos 2; realize_seconds = pos 1; turns = 0 };
}

abbrev halted : State ℤ ℕ
halted = record {
  episodes = [];
  warm = [];
  reports = ("first", solved) ∷ [];
  world = 1;
  calls = [];
}

second-is_unknown : (id : String) → ok "second" ≡ ok id → phases halted id ≡ unknown
unfolding get
second-is_unknown id e = subst (λ k. phases halted k ≡ unknown) (ok-injective e) refl

is_stopped : phases halted "first" ≡ stopped solved
unfolding get
is_stopped = refl

Reaches-stopped_example :
    phases (after_call millis outside config texts (starts snapshot none) halted) "first"
    ≡ stopped solved
Reaches-stopped_example =
    Reaches-stopped millis outside config texts "first" solved
      (next (starts snapshot none) second-is_unknown here) is_stopped

abbrev request : AdvanceRequest
request = record { until = Until.event; max_ticks = 4 }

abbrev hit : EpisodeUpdate
hit = record {
  observation =
      some (record { visible_state = []; events = (("hit", str "web") ∷ []) ∷ []; metadata = [] });
  events = (("hit", str "web") ∷ []) ∷ [];
  done = false;
  terminal_reason = none;
}

advanced : (advance outside config handle request busy).0 ≡ ok hit
unfolding advance ◌>>=◌ require get advance_from drain_events attempt ask for_each
    record_world_event return terminal_state yields_on_events
advanced = refl

advance-IsUpdate_example :
    (running : RunningEpisode ℤ) × (get handle.id busy.episodes ≡ some running)
    × IsUpdate outside config running Until.event 4 [] busy hit
        (advance outside config handle request busy).1
advance-IsUpdate_example = advance-IsUpdate outside config handle request busy hit advanced

close-IsClosed_example : IsClosed millis outside config busy (close millis outside config busy).1
close-IsClosed_example = close-IsClosed millis outside config busy (joined, tt)

after_call-IsWithin_example :
    IsWithin millis outside config (after_call millis outside config texts (stops handle) busy)
after_call-IsWithin_example =
    after_call-IsWithin millis outside config texts (stops handle) busy (omega arith)
