-- ===== src/Examples/Admissions.antt =====
-- The theorems on admission, at the pack whose first build fails.
use open_range.Base.{
  List, [], ◌∷◌, false, ◌&&◌, none, is_empty, Result, ok, ◌≡◌, refl, arith, get, put, string_eq,
}
use open_range.Schema.{error_issue, parent_chain, merge_attrs, check_attr}
use open_range.Examples.Worlds.{world}
use open_range.Sdk.{BuildEvent, Snapshot}
use open_range.Admit.{
  Admission, admitted, failure, AdmissionFailure, Findings, admit, freeze, examine, families_from,
}
use open_range.Admit.Soundness.{IsFrozen}
use open_range.Admit.Attempts.{Numbered, Repaired}
use open_range.Admit.Gate.{admit-IsFrozen, admit-Numbered, admit-failure, admit-repaired}
use open_range.Curriculum.{pre_built_pack}
use open_range.Curriculum.OneShot.{IsOneShot, admit-pre_built_pack}
use open_range.Examples.Packs.{digest_of, repairer, broken_build, good_build, pack}

-- The snapshot of an admission, and a blank one for the rest.
abbrev snapshot_in : Result Admission → Snapshot
snapshot_in (ok (admitted s)) = s
snapshot_in _ = record {
  snapshot_id = "";
  ontology_id = "";
  graph = world;
  tasks = [];
  lineage = [];
  history = [];
}

abbrev failure_in : Result Admission → AdmissionFailure
failure_in (ok (failure f)) = f
failure_in _ = record { issues = []; infeasible_tasks = []; attempts = 0; history = [] }

frozen : Snapshot
frozen = snapshot_in (admit digest_of pack [] none 1)

admits : admit digest_of pack [] none 1 ≡ ok (admitted frozen)
unfolding frozen admit get put parent_chain merge_attrs check_attr
admits = refl

refused : AdmissionFailure
refused = failure_in (admit digest_of pack [] none 0)

refuses : admit digest_of pack [] none 0 ≡ ok (failure refused)
unfolding refused admit get put parent_chain merge_attrs check_attr
refuses = refl

broken_findings : Findings
broken_findings = record {
  errors = error_issue "task_hidden_entrypoint" "breach" ∷ [];
  infeasible = [];
}

broken_found : examine pack (families_from [] pack.task_families) broken_build ≡ ok broken_findings
unfolding broken_findings examine families_from get put parent_chain merge_attrs check_attr
broken_found = refl

good_found :
    examine pack (families_from [] pack.task_families) good_build
    ≡ ok (record { errors = []; infeasible = [] })
unfolding examine families_from get put parent_chain merge_attrs check_attr
good_found = refl

admit-IsFrozen_example : IsFrozen digest_of pack frozen
admit-IsFrozen_example = admit-IsFrozen digest_of pack [] none 1 frozen admits

admit-Numbered_example : Numbered 0 refused.history
admit-Numbered_example = admit-Numbered digest_of pack [] none 0 (failure refused) refuses

admit-failure_example :
    (refused.attempts ≡ 1)
    × ((is_empty refused.issues && is_empty refused.infeasible_tasks) ≡ false)
admit-failure_example = admit-failure digest_of pack [] none 0 refused refuses

repaired : Repaired digest_of pack repairer [] broken_build 1 good_build
unfolding broken_findings
repaired = Repaired.repair broken_findings broken_found refl refl Repaired.done

admit-repaired_example :
    (history : List BuildEvent) × (admit digest_of pack [] none 2
      ≡ ok (admitted (freeze digest_of pack [] good_build 1 history)))
admit-repaired_example =
    admit-repaired digest_of pack [] none 2 repairer broken_build good_build 1
      (record { errors = []; infeasible = [] }) refl refl repaired (omega arith) good_found refl

patched_world : Snapshot
patched_world =
    snapshot_in (admit digest_of (pre_built_pack pack good_build.graph good_build.tasks) [] none 2)

patched_admits :
    admit digest_of (pre_built_pack pack good_build.graph good_build.tasks) [] none 2
    ≡ ok (admitted patched_world)
unfolding patched_world admit pre_built_pack get put parent_chain merge_attrs check_attr
patched_admits = refl

admit-pre_built_pack_example :
    IsOneShot digest_of pack good_build.graph good_build.tasks [] none 2 (admitted patched_world)
admit-pre_built_pack_example =
    admit-pre_built_pack digest_of pack good_build.graph good_build.tasks [] none 2
      (admitted patched_world) patched_admits
