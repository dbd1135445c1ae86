-- ===== src/Curriculum/Evolve.antt =====
-- src/openrange/core/curriculum.py: `auto_evolve`, and its two ways to a next world. What a `try`
-- swallows is an `err` that goes no further.
use open_range.Base.{
  ℕ, String, List, [], ◌∷◌, Bool, true, false, ◌||◌, Option, none, some, Dict, get, is_empty,
  Result, ok, err, ◌>>=◌, if◌then◌else◌, ◌==◌, string_eq,
}
use open_range.Value.{Value}
use open_range.Graph.{apply_patch}
use open_range.Floats.{Floats}
use open_range.Sdk.{PackPrior, Snapshot, Pack, Mutation, EpisodeReport}
use open_range.Admit.{Admission, admitted, failure, admit}
use open_range.Curriculum.Difficulty.{
  Direction, difficulty_step, step_difficulty, same_difficulty, difficulty_of,
}
use open_range.Curriculum.{
  Gate, clone_graph, manifest_of, pre_built_pack, regenerate, patch_candidates, with_grow_lineage,
  with_patch_lineage,
}

-- `None` for a failed admission.
abbrev pub snapshot_of : Admission → Option Snapshot
snapshot_of (admitted s) = some s
snapshot_of (failure f) = none

module _ (fl : Floats) (digest : Value → String) where
  open fl use {F}

  unfoldable pub evolve_snapshot : Snapshot → Pack F → Mutation F → ℕ → Result (Option Snapshot)
  unfolding clone_graph manifest_of regenerate pre_built_pack admit with_patch_lineage apply_patch
  evolve_snapshot snapshot pack mutation max_repairs = do
    builder ← pack.make_builder none
    patch ← builder.evolve snapshot mutation
    evolved_graph ← apply_patch (clone_graph snapshot.graph) patch
    let base_manifest = manifest_of snapshot
    regenerated ← regenerate pack.task_families evolved_graph base_manifest
    result ←
        admit digest (pre_built_pack pack evolved_graph regenerated) base_manifest none max_repairs
    ok (elim (snapshot_of result) [
      | none ↦ none
      | some evolved ↦ some (with_patch_lineage fl evolved snapshot mutation)
    ])

  -- A world of the same content is no new world.
  abbrev distinct_from : Snapshot → Snapshot → Option Snapshot
  distinct_from parent child = if child.snapshot_id == parent.snapshot_id then none else some child

  -- From the stepped difficulty on.
  unfoldable pub grow_with :
      Snapshot
      → Pack F
      → PackPrior F
      → Direction
      → Dict String Value
      → Dict String F
      → ℕ
      → Result (Option Snapshot)
  unfolding same_difficulty admit with_grow_lineage manifest_of
  grow_with snapshot pack baseline direction difficulty stepped max_repairs =
      if is_empty stepped || same_difficulty fl stepped difficulty then ok none else do
        result ←
            admit digest pack (manifest_of snapshot)
              (some (record baseline { source = "curriculum.grow"; difficulty = stepped }))
              max_repairs
        ok (elim (snapshot_of result) [
          | none ↦ none
          | some grown ↦
              distinct_from snapshot (with_grow_lineage fl grown snapshot direction stepped)
        ])

  unfoldable pub grow_from :
      Snapshot → Pack F → PackPrior F → Direction → ℕ → Result (Option Snapshot)
  grow_from snapshot pack baseline direction max_repairs = elim (difficulty_step fl direction) [
    | none ↦ ok none
    | some step ↦ do
      let difficulty = difficulty_of fl (get "curriculum_difficulty" snapshot.lineage) baseline
      stepped ← step_difficulty fl step difficulty
      grow_with snapshot pack baseline direction difficulty stepped max_repairs
  ]

  unfoldable pub grow_snapshot : Snapshot → Pack F → Direction → ℕ → Result (Option Snapshot)
  grow_snapshot snapshot pack direction max_repairs = elim pack.default_prior [
    | none ↦ ok none
    | some baseline ↦ grow_from snapshot pack baseline direction max_repairs
  ]

  -- `gate is not None`: whether the gate lets the world through; an exception keeps it out.
  abbrev pub gate_passes : Option (Gate F) → Snapshot → Mutation F → Bool
  gate_passes none evolved mutation = true
  gate_passes (some gate) evolved mutation = elim (gate evolved mutation) [
    | err _ ↦ false
    | ok b ↦ b
  ]

  -- What one candidate gives: a world, or the `continue` of the loop.
  unfoldable pub try_candidate :
      Snapshot → Pack F → Mutation F → Option (Gate F) → ℕ → Option Snapshot
  unfolding evolve_snapshot
  try_candidate snapshot pack chosen gate max_repairs =
      elim (evolve_snapshot snapshot pack chosen max_repairs) [
        | err _ ↦ none
        | ok result ↦ elim result [
          | none ↦ none
          | some evolved ↦
              if evolved.snapshot_id == snapshot.snapshot_id
              then none
              else if gate_passes gate evolved chosen
              then some evolved
              else none
        ]
      ]

  unfoldable pub first_candidate :
      Snapshot → Pack F → List (Mutation F) → Option (Gate F) → ℕ → Option Snapshot
  unfolding try_candidate
  first_candidate snapshot pack [] gate max_repairs = none
  first_candidate snapshot pack (chosen ∷ options) gate max_repairs =
      let rest = first_candidate snapshot pack options gate max_repairs in
      elim (try_candidate snapshot pack chosen gate max_repairs) [
        | none ↦ rest
        | some evolved ↦ some evolved
      ]

  abbrev pub swallow : Result (Option Snapshot) → Option Snapshot
  swallow (ok r) = r
  swallow (err _) = none

  -- The tail of `auto_evolve`, for a direction: the patches, and then the growth.
  unfoldable pub evolve_towards :
      Snapshot
      → List EpisodeReport
      → Pack F
      → Direction
      → ℕ
      → Option (Gate F)
      → Result (Option Snapshot)
  unfolding patch_candidates first_candidate grow_snapshot
  evolve_towards snapshot reports pack direction max_repairs gate = do
    options ← patch_candidates fl pack snapshot reports direction
    ok (elim (first_candidate snapshot pack options gate max_repairs) [
      | some evolved ↦ some evolved
      | none ↦ swallow (grow_snapshot snapshot pack direction max_repairs)
    ])

  unfoldable pub auto_evolve :
      Snapshot
      → List EpisodeReport
      → Pack F
      → (List EpisodeReport → Result (Option Direction))
      → ℕ
      → Option (Gate F)
      → Result (Option Snapshot)
  unfolding evolve_towards
  auto_evolve snapshot [] pack policy max_repairs gate = ok none
  auto_evolve snapshot (r ∷ rs) pack policy max_repairs gate = do
    direction ← policy (r ∷ rs)
    elim direction [
      | none ↦ ok none
      | some d ↦ evolve_towards snapshot (r ∷ rs) pack d max_repairs gate
    ]
