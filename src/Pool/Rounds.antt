-- ===== src/Pool/Rounds.antt =====
-- src/openrange/pool.py: a round of the curriculum. The difficulty of a world, the gates, the policy
-- and the reward are the caller's.
use open_range.Base.{
  ℕ, String, List, [], ◌∷◌, ◌++◌, Bool, true, false, not, ◌&&◌, Option, none, some, Dict, get, put,
  contains, values, map, filter, is_empty, take, is_some, Result, ok, ◌>>=◌, if◌then◌else◌, ◌==◌,
  string_eq, pair_eq,
}
use open_range.Value.{Value, str, float}
use open_range.Floats.{Floats, less}
use open_range.Sdk.{TaskSpec, Manifest, Snapshot, EpisodeReport, Pack}
use open_range.Training.{Reward}
use open_range.Admit.{admit}
use open_range.Curriculum.Difficulty.{Direction}
use open_range.Curriculum.{Gate}
use open_range.Curriculum.Evolve.{auto_evolve, snapshot_of}
use open_range.Pool.{
  Key, key_of, Member, RoundReports, ran_of, members_from, WorldPool, by_priority, reprioritize,
  bound, max_priority,
}

-- What the caller of `update` chooses.
pub record Settings (F : Type 0) : Type 0 where
  pub difficulty_fn : Snapshot → F
  pub policy : List EpisodeReport → Result (Option Direction)
  pub gate : Option (Gate F)
  pub gate_factory : Option (Snapshot → Result (Gate F))
  pub evolve_top : ℕ
  pub max_repairs : ℕ
  pub reward_fn : EpisodeReport → Reward F

-- `all(g(evolved, mutation) for g in gates)`
unfoldable pub all_gates : {F : Type 0} → List (Gate F) → Gate F
all_gates [] evolved mutation = ok true
all_gates (g ∷ gates) evolved mutation =
    let rest = all_gates gates evolved mutation in
    g evolved mutation >>= λ b. if b then rest else ok false

abbrev pub gate_list {ℓ} : {A : Type ℓ} → Option A → List A
gate_list none = []
gate_list (some g) = g ∷ []

module _ {F : Type 0} where
  abbrev built_gate : Option (Snapshot → Result (Gate F)) → Snapshot → Result (List (Gate F))
  built_gate none parent = ok []
  built_gate (some factory) parent = do g ← factory parent; ok (g ∷ [])

  unfoldable pub compose_gate :
      Option (Gate F) → Option (Snapshot → Result (Gate F)) → Snapshot → Result (Option (Gate F))
  unfolding all_gates
  compose_gate gate gate_factory parent = do
    built ← built_gate gate_factory parent
    let gates = gate_list gate ++ built
    ok (if is_empty gates then none else some (all_gates gates))

-- `str(task.meta.get("family", ""))`; `show` stands for `str` on values that are no texts.
unfoldable pub family_of : (Value → String) → TaskSpec → String
family_of show task = elim (get "family" task.meta) [
  | none ↦ ""
  | some v ↦ elim v [ str s ↦ s | other ↦ show other ]
]

module _ (fl : Floats) (digest : Value → String) (show : Value → String) where
  open fl use {F, of_ℕ, add, sub, div, repr}

  -- `family is not None and fam != family`, the other way round.
  abbrev wanted : Option String → String → Bool
  wanted none fam = true
  wanted (some family) fam = fam == family

  unfoldable pub members_of : Snapshot → F → Option String → List TaskSpec → List (Member F)
  unfolding family_of
  members_of snapshot difficulty family [] = []
  members_of snapshot difficulty family (task ∷ tasks) =
      let rest = members_of snapshot difficulty family tasks in
      if wanted family (family_of show task)
      then record {
        snapshot = snapshot;
        task_id = task.id;
        instruction = task.instruction;
        family = family_of show task;
        difficulty = difficulty;
        priority = of_ℕ 1;
      }
        ∷ rest
      else rest

  unfoldable pub stamp_difficulty : Snapshot → F → Snapshot
  stamp_difficulty snapshot difficulty = record snapshot {
    lineage = put "world_difficulty" (float (repr difficulty)) snapshot.lineage;
  }

  abbrev seed_passes : Option (Snapshot → Result Bool) → Snapshot → Result Bool
  seed_passes none world = ok true
  seed_passes (some seed_gate) world = seed_gate world

  -- The members of one manifest of `_gated_members`.
  unfoldable pub seed_members :
      (Snapshot → F)
      → Option String
      → Option (Snapshot → Result Bool)
      → Option Snapshot
      → Result (List (Member F))
  unfolding members_of
  seed_members difficulty_fn family seed_gate none = ok []
  seed_members difficulty_fn family seed_gate (some world) = do
    let found = members_of world (difficulty_fn world) family world.tasks
    kept ← seed_passes seed_gate world
    ok (if kept then found else [])

  unfoldable pub gated_members :
      Pack F
      → List Manifest
      → (Snapshot → F)
      → Option String
      → ℕ
      → Option (Snapshot → Result Bool)
      → Result (List (Member F))
  unfolding seed_members admit
  gated_members pack [] difficulty_fn family max_repairs seed_gate = ok []
  gated_members pack (manifest ∷ manifests) difficulty_fn family max_repairs seed_gate = do
    result ← admit digest pack manifest none max_repairs
    here ← seed_members difficulty_fn family seed_gate (snapshot_of result)
    rest ← gated_members pack manifests difficulty_fn family max_repairs seed_gate
    ok (here ++ rest)

  -- `WorldPool.seed` with the constructor.
  unfoldable pub seed :
      Pack F
      → List Manifest
      → (Snapshot → F)
      → ℕ
      → Option String
      → F
      → ℕ
      → Option (Snapshot → Result Bool)
      → Result (WorldPool fl)
  seed pack manifests difficulty_fn max_size family mix_floor max_repairs seed_gate = do
    members ← gated_members pack manifests difficulty_fn family max_repairs seed_gate
    ok (record {
      members = members_from [] members;
      max_size = max_size;
      mix_floor = mix_floor;
      last_difficulty_gain = none;
    })

  -- The variables of the loop of `_grow`, with the pool's members, which it changes.
  pub record Growth : Type 0 where
    pub members : Dict Key (Member F)
    pub grown : List Key
    pub capped : Bool
    pub gains : List F

  abbrev pub child_member : Member F → Snapshot → F → TaskSpec → Member F
  child_member parent child difficulty task = record {
    snapshot = child;
    task_id = task.id;
    instruction = task.instruction;
    family = parent.family;
    difficulty = difficulty;
    priority = max_priority fl;
  }

  abbrev pub enter : Key → Member F → Growth → Growth
  enter key m g = record g { members = put key m g.members; grown = g.grown ++ key ∷ [] }

  -- The inner loop: the tasks of the child that are of the parent's family and are new.
  unfoldable pub add_child : Member F → Snapshot → F → List TaskSpec → Growth → Growth
  unfolding family_of
  add_child parent child difficulty [] g = g
  add_child parent child difficulty (task ∷ tasks) g =
      let key : Key = (child.snapshot_id, task.id) in
      add_child parent child difficulty tasks (
        if (family_of show task == parent.family) && not (contains key g.members)
        then enter key (child_member parent child difficulty task) g
        else g)

  unfoldable pub adopt : (Snapshot → F) → Member F → Option Snapshot → Growth → Growth
  adopt difficulty_fn parent none g = record g { capped = true }
  adopt difficulty_fn parent (some child) g =
      let difficulty = difficulty_fn child in
      add_child parent (stamp_difficulty child difficulty) difficulty child.tasks
        (record g { gains = g.gains ++ sub difficulty parent.difficulty ∷ [] })

  abbrev pub reports_of : Option (List EpisodeReport) → List EpisodeReport
  reports_of none = []
  reports_of (some l) = l

  unfoldable pub grow_each :
      Settings F → Pack F → RoundReports → List (Member F) → Growth → Result Growth
  grow_each settings pack reports [] g = ok g
  grow_each settings pack reports (m ∷ members) g = do
    gate ← compose_gate settings.gate settings.gate_factory m.snapshot
    child ←
        auto_evolve fl digest m.snapshot (reports_of (get (key_of m) reports)) pack settings.policy
          settings.max_repairs gate
    grow_each settings pack reports members (adopt settings.difficulty_fn m child g)

  -- `max(gains) if gains else None`
  abbrev max_gain : F → List F → F
  max_gain best [] = best
  max_gain best (x ∷ xs) = max_gain (if less fl best x then x else best) xs

  abbrev pub gain_of : List F → Option F
  gain_of [] = none
  gain_of (x ∷ xs) = some (max_gain x xs)

  unfoldable pub grow : Settings F → Pack F → RoundReports → Dict Key (Member F) → Result Growth
  grow settings pack reports members =
      grow_each settings pack reports
        (take settings.evolve_top
          (by_priority fl (filter (λ m. is_some (ran_of reports (key_of m))) (values members))))
        (record { members = members; grown = []; capped = false; gains = [] })

  unfoldable pub update_pool :
      WorldPool fl → RoundReports → Pack F → Settings F → Result (WorldPool fl × Bool)
  update_pool pool reports pack settings = do
    let members = map (λ e. (e.0, reprioritize fl reports settings.reward_fn e.1)) pool.members
    g ← grow settings pack reports members
    ok (
      bound fl (record pool { members = g.members; last_difficulty_gain = gain_of g.gains })
          g.grown,
      g.capped,
    )
