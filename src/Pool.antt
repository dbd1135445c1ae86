-- ===== src/Pool.antt =====
-- src/openrange/pool.py: the evolving pool of worlds and tasks.
pub mod Rounds
pub mod Run
pub mod Selection
pub mod Bound
pub mod Groups
pub mod Floor
pub mod Indexed
pub mod Keys
use open_range.Base.{
  ℕ, zero, suc, ◌+◌, ◌-◌, ◌/◌, max, min, String, List, [], ◌∷◌, ◌++◌, Bool, not, ◌&&◌, Option, none,
  some, Dict, get, put, pop, contains, values, map, filter, elem, is_empty, take, length, sort_by,
  str_leb, ltb, leb, if◌then◌else◌, ◌==◌, string_eq, pair_eq, nat_eq,
}
use open_range.Floats.{Floats, min_of, sum_from}
use open_range.Sdk.{Snapshot, EpisodeReport}
use open_range.Training.{Reward}

abbrev pub Key : Type 0
Key = String × String

pub record Member (F : Type 0) : Type 0 where
  pub snapshot : Snapshot
  pub task_id : String
  pub instruction : String
  pub family : String
  pub difficulty : F
  pub priority : F

-- `_Member.key`
abbrev pub key_of : {F : Type 0} → Member F → Key
key_of m = (m.snapshot.snapshot_id, m.task_id)

-- The order of Python's tuples of two texts.
unfoldable pub key_leb : Key → Key → Bool
key_leb a b = if a.0 == b.0 then str_leb a.1 b.1 else str_leb a.0 b.0

abbrev pub RoundReports : Type 0
RoundReports = Dict Key (List EpisodeReport)

-- `reports.get(key)`, with none for a missing key and for no reports.
unfoldable pub ran_of : RoundReports → Key → Option (List EpisodeReport)
ran_of reports key = elim (get key reports) [
  | none ↦ none
  | some l ↦ if is_empty l then none else some l
]

-- A row of `_rows_for`: the message of the user, and the key.
pub record PromptRow : Type 0 where
  pub content : String
  pub snapshot_id : String
  pub task_id : String

abbrev pub repeated {ℓ} : {A : Type ℓ} → ℕ → A → List A
repeated zero a = []
repeated (suc n) a = a ∷ repeated n a

-- The variables of `_select`'s loops.
pub record Picked (F : Type 0) : Type 0 where
  pub chosen : List (Member F)
  pub taken : List Key

abbrev pub pick : {F : Type 0} → Member F → Picked F → Picked F
pick m p = record { chosen = p.chosen ++ m ∷ []; taken = p.taken ++ key_of m ∷ [] }

module _ {F : Type 0} where
  unfoldable pub rows_for : List (Member F) → ℕ → List PromptRow
  rows_for [] num_generations = []
  rows_for (m ∷ members) num_generations =
      repeated num_generations (record {
        content = m.instruction;
        snapshot_id = m.snapshot.snapshot_id;
        task_id = m.task_id;
      })
      ++ rows_for members num_generations

  -- `by_id.setdefault(…)`: the first snapshot of an id stays.
  unfoldable pub snapshots_by_id : Dict String Snapshot → List (Member F) → Dict String Snapshot
  snapshots_by_id by_id [] = by_id
  snapshots_by_id by_id (m ∷ members) =
      let id = m.snapshot.snapshot_id in
      snapshots_by_id (if contains id by_id then by_id else put id m.snapshot by_id) members

  unfoldable pub snapshots_of : List (Member F) → List Snapshot
  unfolding snapshots_by_id
  snapshots_of members = values (snapshots_by_id [] members)

  -- `{m.key: m for m in members}`
  unfoldable pub members_from : Dict Key (Member F) → List (Member F) → Dict Key (Member F)
  members_from d [] = d
  members_from d (m ∷ ms) = members_from (put (key_of m) m d) ms

  -- The first loop: easy members, up to the floor.
  unfoldable pub pick_easy : List Key → ℕ → List (Member F) → Picked F → Picked F
  unfolding elem
  pick_easy easy floor_n [] p = p
  pick_easy easy floor_n (m ∷ ms) p =
      let rest = pick_easy easy floor_n ms (if elem (key_of m) easy then pick m p else p) in
      if leb floor_n (length p.chosen) then p else rest

  -- The second loop: whoever is left, up to the number of groups.
  unfoldable pub pick_rest : ℕ → List (Member F) → Picked F → Picked F
  unfolding elem
  pick_rest groups [] p = p
  pick_rest groups (m ∷ ms) p =
      let rest = pick_rest groups ms (if elem (key_of m) p.taken then p else pick m p) in
      if leb groups (length p.chosen) then p else rest

  -- The `while` loop of `_bound`, over the members that may go.
  unfoldable pub evict : ℕ → List (Member F) → Dict Key (Member F) → Dict Key (Member F)
  evict max_size [] members = members
  evict max_size (m ∷ evictable) members =
      let rest = evict max_size evictable (pop (key_of m) members) in
      if ltb max_size (length members) then rest else members

module _ (fl : Floats) where
  open fl use {F, of_ℕ, add, sub, mul, div, neg, absolute, beq, round_ℕ, literal}

  -- Tuples (float, key): the keys decide where the floats are equal.
  unfoldable pub tuple_leb : F × Key → F × Key → Bool
  unfolding key_leb
  tuple_leb a b = if beq a.0 b.0 then key_leb a.1 b.1 else fl.leb a.0 b.0

  pub record WorldPool : Type 0 where
    pub members : Dict Key (Member F)
    pub max_size : ℕ
    pub mix_floor : F
    pub last_difficulty_gain : Option F

  unfoldable pub by_difficulty : Dict Key (Member F) → List (Member F)
  unfolding sort_by tuple_leb
  by_difficulty members =
      sort_by (λ a b. tuple_leb (a.difficulty, key_of a) (b.difficulty, key_of b)) (values members)

  -- `sorted(…, key=lambda m: (-m.priority, m.key))`
  unfoldable pub by_priority : List (Member F) → List (Member F)
  unfolding sort_by tuple_leb
  by_priority = sort_by (λ a b. tuple_leb (neg a.priority, key_of a) (neg b.priority, key_of b))

  unfoldable pub easy_tier : Dict Key (Member F) → List Key
  unfolding by_difficulty
  easy_tier members =
      let ranked = by_difficulty members in map key_of (take (max 1 (length ranked / 3)) ranked)

  unfoldable pub floor_of : WorldPool → ℕ → ℕ
  unfolding easy_tier
  floor_of pool groups =
      min (min (round_ℕ (mul pool.mix_floor (of_ℕ groups))) (length (easy_tier pool.members)))
        groups

  unfoldable pub select : WorldPool → ℕ → List (Member F)
  unfolding floor_of by_priority pick_easy pick_rest
  select pool wanted =
      let groups = min wanted (length pool.members) in
      let ranked = by_priority (values pool.members) in
      let start =
        pick_easy (easy_tier pool.members) (floor_of pool groups) ranked
          (record { chosen = []; taken = [] }) in
      if groups == 0 then [] else (pick_rest groups ranked start).chosen

  unfoldable pub round_rows : WorldPool → ℕ → ℕ → List PromptRow
  unfolding select rows_for
  round_rows pool groups num_generations = rows_for (select pool groups) num_generations

  abbrev staleness_step : F
  staleness_step = literal 1 1

  abbrev pub max_priority : F
  max_priority = literal 20 1

  abbrev achieved : Dict String Bool → ℕ
  achieved [] = 0
  achieved ((_, hit) ∷ d) = (if hit then 1 else 0) + achieved d

  -- The gaps of the reports that have subgoals.
  unfoldable pub gaps_of : List EpisodeReport → List F
  gaps_of [] = []
  gaps_of (r ∷ reports) =
      let subgoals = r.episode_result.subgoals in
      let rest = gaps_of reports in
      if is_empty subgoals
      then rest
      else sub (of_ℕ 1) (div (of_ℕ (achieved subgoals)) (of_ℕ (length subgoals))) ∷ rest

  abbrev mean : List F → F
  mean xs = div (sum_from fl (of_ℕ 0) xs) (of_ℕ (length xs))

  unfoldable pub member_priority : List EpisodeReport → (EpisodeReport → Reward F) → F
  unfolding gaps_of sum_from
  member_priority reports reward_fn =
      let scalars = map (λ r. (reward_fn r).scalar) reports in
      let learnability = sub (of_ℕ 1) (absolute (sub (mul (of_ℕ 2) (mean scalars)) (of_ℕ 1))) in
      let gaps = gaps_of reports in add learnability (if is_empty gaps then of_ℕ 0 else mean gaps)

  -- The first loop of `update`, on one member.
  unfoldable pub reprioritize : RoundReports → (EpisodeReport → Reward F) → Member F → Member F
  reprioritize reports reward_fn m = elim (ran_of reports (key_of m)) [
    | some ran ↦ record m { priority = member_priority ran reward_fn }
    | none ↦ record m { priority = min_of fl (add m.priority staleness_step) max_priority }
  ]

  -- `_bound`
  unfoldable pub bound : WorldPool → List Key → WorldPool
  unfolding easy_tier evict sort_by tuple_leb filter elem
  bound pool protected_extra =
      let protected = easy_tier pool.members ++ protected_extra in
      let evictable =
        sort_by (λ a b. tuple_leb (a.priority, key_of a) (b.priority, key_of b))
          (filter (λ m. not (elem (key_of m) protected)) (values pool.members)) in
      record pool { members = evict pool.max_size evictable pool.members }
