-- ===== src/Examples/Pools.antt =====
-- The theorems on the pool and the curriculum, at the small world.
use open_range.Base.{
  ℕ, String, ◌≤◌, min, [], ◌∷◌, ◌++◌, Bool, true, false, Option, none, some, Result, ok, Memᴰ,
  is_empty, length, All, values, get, put, pop, elem, filter, update, sort_by, DistinctKeys, ◌≡◌,
  refl, ◌⊎◌, arith, string_eq, pair_eq, if◌then◌else◌,
}
use open_range.Value.{ℤ, pos, float}
use open_range.Graph.{
  apply_patch, remove_nodes, remove_node, pop_edges, add_nodes, add_edges, add_node, add_edge,
  update_nodes, update_edges,
}
use open_range.Schema.{parent_chain, merge_attrs, check_attr}
use open_range.Sdk.{
  process, simulator, container, backing_rank, resolve_backing, Snapshot, EpisodeReport,
}
use open_range.Sdk.Backings.{resolve_backing-rank}
use open_range.Wire.{sorted_nodes, node_data, sorted_items, sorted_edges, edge_data}
use open_range.Admit.{admit}
use open_range.Curriculum.{direction_from_reports, count_passed, patch_candidates}
use open_range.Curriculum.Difficulty.{Direction, harden, step_difficulty}
use open_range.Curriculum.Evolve.{auto_evolve}
use open_range.Curriculum.Candidates.{IsCandidate, IsOrdered, at_least, patch_candidates-IsOrdered}
use open_range.Curriculum.Acceptance.{IsPatched, IsGrown, auto_evolve-IsNext}
use open_range.Curriculum.Steering.{
  hardness, direction_from_reports_mono, IsUnit, step_difficulty-All,
}
use open_range.Pool.{Key, Member, WorldPool, easy_tier, select, bound}
use open_range.Pool.Selection.{keys_of}
use open_range.Pool.Groups.{select-length}
use open_range.Pool.Floor.{easy_of, select-floor}
use open_range.Pool.Bound.{bound-members}
use open_range.Examples.Millis.{millis}
use open_range.Examples.Packs.{digest_of, breach, swap, pack}
use open_range.Examples.Worlds.{world}

abbrev start : Snapshot
start = record {
  snapshot_id = "start";
  ontology_id = "net";
  graph = world;
  tasks = breach ∷ [];
  lineage = [];
  history = [];
}

abbrev report : Bool → EpisodeReport
report success = record {
  snapshot_id = "start";
  task_id = "breach";
  episode_result = record { success = success; subgoals = []; reason = "" };
  final_state = [];
  agent_summary = "";
}

resolve_backing-rank_example :
    (backing_rank process ≤ backing_rank (resolve_backing process simulator true))
    × (backing_rank simulator ≤ backing_rank (resolve_backing process simulator true))
    × (true ≡ true → backing_rank container ≤ backing_rank (resolve_backing process simulator true))
    × Memᴰ
        (resolve_backing process simulator true)
        (process ∷ simulator ∷ (if true then container ∷ [] else []))
resolve_backing-rank_example = resolve_backing-rank process simulator true

direction_from_reports_mono_example :
    hardness (direction_from_reports millis (pos 660) (pos 330) (report false ∷ report false ∷ []))
    ≤ hardness (direction_from_reports millis (pos 660) (pos 330) (report true ∷ report false ∷ []))
unfolding count_passed
direction_from_reports_mono_example =
    direction_from_reports_mono millis (pos 660) (pos 330) (report false ∷ report false ∷ [])
      (report true ∷ report false ∷ []) refl (omega arith)

stepped :
    step_difficulty millis (pos 200) (("depth", float "1.0") ∷ ("width", float "0.5") ∷ [])
    ≡ ok (("depth", pos 1000) ∷ ("width", pos 700) ∷ [])
unfolding step_difficulty
stepped = refl

step_difficulty-All_example :
    All (λ (e : String × ℤ). IsUnit millis e.1) (("depth", pos 1000) ∷ ("width", pos 700) ∷ [])
step_difficulty-All_example =
    step_difficulty-All millis (pos 200) (("depth", float "1.0") ∷ ("width", float "0.5") ∷ [])
      (("depth", pos 1000) ∷ ("width", pos 700) ∷ []) stepped

-- The next world of an evolution, and its parent where there is none.
abbrev next_of : Result (Option Snapshot) → Snapshot
next_of (ok (some s)) = s
next_of _ = start

next : Snapshot
next =
    next_of
      (auto_evolve millis digest_of start (report true ∷ []) pack (λ rs. ok (some harden)) 1 none)

evolves :
    auto_evolve millis digest_of start (report true ∷ []) pack (λ rs. ok (some harden)) 1 none
    ≡ ok (some next)
unfolding next auto_evolve get put pop filter update sort_by parent_chain merge_attrs check_attr
    apply_patch admit remove_nodes remove_node pop_edges add_nodes add_edges add_node add_edge
    update_nodes update_edges digest_of sorted_nodes node_data sorted_items sorted_edges edge_data
evolves = refl

auto_evolve-IsNext_example :
    (is_empty (report true ∷ []) ≡ false)
    × ((direction : Direction) × (ok (some harden) ≡ ok (some direction))
        × (IsPatched millis digest_of start pack 1 none next
            ⊎ IsGrown millis digest_of start pack 1 direction next))
auto_evolve-IsNext_example =
    auto_evolve-IsNext millis digest_of start pack 1 (report true ∷ []) (λ rs. ok (some harden))
      none next evolves

abbrev member : Snapshot → ℕ → Member ℤ
member s n = record {
  snapshot = s;
  task_id = "breach";
  instruction = "";
  family = "probe";
  difficulty = pos n;
  priority = pos n;
}

abbrev other : Snapshot
other = record start { snapshot_id = "other" }

abbrev pool : WorldPool millis
pool = record {
  members = (("start", "breach"), member start 100) ∷ (("other", "breach"), member other 900) ∷ [];
  max_size = 1;
  mix_floor = pos 250;
  last_difficulty_gain = none;
}

keys_differ : DistinctKeys (keys_of (values pool.members))
unfolding elem
keys_differ = (refl, (refl, tt))

select-length_example :
    (length (select millis pool 5) ≡ min 5 2) × DistinctKeys (keys_of (select millis pool 5))
select-length_example = select-length millis pool 5 keys_differ

bound-members_example :
    ((k : Key)
      → elem k (easy_tier millis pool.members ++ []) ≡ true
      → get k (bound millis pool []).members ≡ get k pool.members)
    × ((length (bound millis pool []).members ≤ 1)
        ⊎ ((k : Key)
            → elem k (easy_tier millis pool.members ++ []) ≡ false
            → get k (bound millis pool []).members ≡ none))
bound-members_example = bound-members millis pool [] (refl, (refl, tt))

select-floor_example :
    min
      (min
        (millis.round_ℕ (millis.mul pool.mix_floor (millis.of_ℕ (min 5 (length pool.members)))))
        (length (easy_tier millis pool.members)))
      (min 5 (length pool.members))
    ≤ length (easy_of (easy_tier millis pool.members) (select millis pool 5))
select-floor_example = select-floor millis pool 5 keys_differ

candidates : patch_candidates millis pack start (report true ∷ []) harden ≡ ok (swap ∷ [])
unfolding patch_candidates
candidates = refl

patch_candidates-IsOrdered_example :
    All (IsCandidate millis harden) (swap ∷ []) × IsOrdered (at_least millis) (swap ∷ [])
patch_candidates-IsOrdered_example =
    patch_candidates-IsOrdered millis pack start (report true ∷ []) harden (swap ∷ []) candidates
