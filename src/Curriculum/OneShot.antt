-- ===== src/Curriculum/OneShot.antt =====
-- src/openrange/core/curriculum.py: an evolved world has a single attempt at admission.
use open_range.Base.{
  ℕ, zero, suc, String, List, [], ◌∷◌, true, false, Option, Result, ok, err, Error, not_implemented,
  ok-injective, Bool-cases, inl, inr, ◌⊎◌, ◌≡◌, refl, sym, ◌∙◌,
}
use open_range.Value.{Value, str}
use open_range.Graph.{WorldGraph}
use open_range.Sdk.{TaskSpec, Manifest, BuildResult, Snapshot, PackPrior, Pack}
use open_range.Admit.{
  Admission, admitted, failure, AdmissionFailure, Findings, passes, examine, examined, freeze,
  build_event, families_from, admit,
}
use open_range.Curriculum.{pre_built_pack}

-- What the one-shot builder builds.
abbrev pub patched_build : WorldGraph → List TaskSpec → BuildResult
patched_build graph tasks = record {
  graph = graph;
  tasks = tasks;
  admission_meta = ("builder", str "core.curriculum._PreBuiltPack") ∷ [];
}

module _ {F : Type 0} (digest : Value → String) (inner : Pack F) (graph : WorldGraph)
    (tasks : List TaskSpec) (manifest : Manifest) (prior : Option (PackPrior F)) where
  abbrev Examined : Result Findings → Type 0
  Examined r =
      examine (pre_built_pack inner graph tasks) (families_from [] inner.task_families)
        (patched_build graph tasks)
      ≡ r

  abbrev pub admit_patched : ℕ → Result Admission
  admit_patched max_repairs =
      admit digest (pre_built_pack inner graph tasks) manifest prior max_repairs

  -- The sole attempt passed.
  abbrev frozen_world : Findings → Snapshot
  frozen_world found =
      freeze digest (pre_built_pack inner graph tasks) manifest (patched_build graph tasks) 0
        (examined 0 found (build_event (patched_build graph tasks) ∷ []))

  passed_lem :
      (found : Findings)
      → Examined (ok found)
      → passes found ≡ true
      → (max_repairs : ℕ) → admit_patched max_repairs ≡ ok (admitted (frozen_world found))
  unfolding admit pre_built_pack
  passed_lem found ex good zero = rw (ex, good) refl
  passed_lem found ex good (suc n) = rw (ex, good) refl

  abbrev refusal : Findings → AdmissionFailure
  refusal found = record {
    issues = found.errors;
    infeasible_tasks = found.infeasible;
    attempts = 1;
    history = examined 0 found (build_event (patched_build graph tasks) ∷ []);
  }

  refused_lem :
      (found : Findings)
      → Examined (ok found)
      → passes found ≡ false
      → admit_patched 0 ≡ ok (failure (refusal found))
  unfolding admit pre_built_pack
  refused_lem found ex bad = rw (ex, bad) refl

  not_repaired :
      (found : Findings) (n : ℕ)
      → Examined (ok found)
      → passes found ≡ false
      → admit_patched (suc n) ≡ err not_implemented
  unfolding admit pre_built_pack
  not_repaired found n ex bad = rw (ex, bad) refl

  raised_lem : (e : Error) (n : ℕ) → Examined (err e) → admit_patched n ≡ err e
  unfolding admit pre_built_pack
  raised_lem e zero ex = rw ex refl
  raised_lem e (suc n) ex = rw ex refl

  -- The world is the patched graph with the given tasks, whatever repairs are allowed; or it is refused
  -- after one attempt, when none are.
  abbrev pub IsOneShot : ℕ → Admission → Type 0
  IsOneShot max_repairs a =
      ((s : Snapshot) × (a ≡ admitted s)
        × (s.graph ≡ graph)
        × (s.tasks ≡ tasks)
        × ((others : ℕ) → admit_patched others ≡ ok (admitted s)))
      ⊎ ((f : AdmissionFailure) × (a ≡ failure f) × (f.attempts ≡ 1) × (max_repairs ≡ 0))

  passed-IsOneShot :
      (found : Findings) (n : ℕ) (a : Admission)
      → Examined (ok found)
      → passes found ≡ true
      → admit_patched n ≡ ok a
      → IsOneShot n a
  unfolding freeze
  passed-IsOneShot found n a ex good h = inl (
    frozen_world found,
    ok-injective (sym h ∙ passed_lem found ex good n),
    refl,
    refl,
    passed_lem found ex good,
  )

  failed-IsOneShot :
      (found : Findings) (n : ℕ) (a : Admission)
      → Examined (ok found)
      → passes found ≡ false
      → admit_patched n ≡ ok a
      → IsOneShot n a
  failed-IsOneShot found zero a ex bad h =
      inr (refusal found, ok-injective (sym h ∙ refused_lem found ex bad), refl, refl)
  failed-IsOneShot found (suc n) a ex bad h = let raised = not_repaired found n ex bad in cc

  Examined-IsOneShot :
      (r : Result Findings) (n : ℕ) (a : Admission)
      → Examined r
      → admit_patched n ≡ ok a
      → IsOneShot n a
  Examined-IsOneShot (err e) n a ex h = let raised = raised_lem e n ex in cc
  Examined-IsOneShot (ok found) n a ex h = elim (Bool-cases (passes found)) [
    | inl good ↦ passed-IsOneShot found n a ex good h
    | inr bad ↦ failed-IsOneShot found n a ex bad h
  ]

  -- A patched world has a single attempt: what `admit` returns for it is either the snapshot of the
  -- patched graph itself with the given tasks, which `admit` then returns for every max_repairs; or a
  -- failure after one attempt, and then max_repairs is 0. With repairs allowed there is no failure, as
  -- the repair raises.
  pub admit-pre_built_pack :
      (max_repairs : ℕ) (a : Admission)
      → admit digest (pre_built_pack inner graph tasks) manifest prior max_repairs ≡ ok a
      → IsOneShot max_repairs a
  admit-pre_built_pack max_repairs a h = Examined-IsOneShot _ max_repairs a refl h
