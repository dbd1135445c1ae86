-- ===== src/Admit/Gate.antt =====
-- src/openrange/core/admit.py: what `admit` promises, as its callers see it.
use open_range.Base.{
  ℕ, ◌+◌, ◌≤◌, List, [], ◌∷◌, true, false, ◌&&◌, Option, is_empty, ok, >>=-eq-ok, ◌≡◌, refl, String,
  arith,
}
use open_range.Value.{Value}
use open_range.Sdk.{Manifest, PackPrior, BuildResult, BuildEvent, Snapshot, Builder, Pack}
use open_range.Admit.{
  Admission, admitted, failure, AdmissionFailure, Findings, passes, examine, freeze, admit,
  families_from, build_event,
}
use open_range.Admit.Soundness.{IsFrozen}
use open_range.Admit.Attempts.{
  Numbered, history_of, Repaired, attempts-IsFrozen, attempts-admitted, attempts-Numbered,
  attempts-ReportsFailure,
}

module _ {F : Type 0} (digest : Value → String) (pack : Pack F) (manifest : Manifest)
    (prior : Option (PackPrior F)) (max_repairs : ℕ) where
  -- Every snapshot that `admit` returns is named by the hash of its content and holds a sound world:
  -- the graph is well formed and conforms to the pack's ontology, every task starts at a visible node
  -- and aims at nodes of the graph, and the family that its check names finds it feasible there.
  pub admit-IsFrozen :
      (s : Snapshot)
      → admit digest pack manifest prior max_repairs ≡ ok (admitted s)
      → IsFrozen digest pack s
  unfolding admit
  admit-IsFrozen s h =
      let (builder, made, tail) = >>=-eq-ok (pack.make_builder prior) _ h in
      let (result, built, rest) = >>=-eq-ok (builder.build manifest) _ tail in
      attempts-IsFrozen digest pack builder manifest max_repairs 0 result (build_event result ∷ [])
        s rest

  -- Whatever the verdict, the events of its history are numbered from 0 without a gap.
  pub admit-Numbered :
      (a : Admission)
      → admit digest pack manifest prior max_repairs ≡ ok a
      → Numbered 0 (history_of a)
  unfolding admit build_event
  admit-Numbered a h =
      let (builder, made, tail) = >>=-eq-ok (pack.make_builder prior) _ h in
      let (result, built, rest) = >>=-eq-ok (builder.build manifest) _ tail in
      attempts-Numbered digest pack builder manifest max_repairs 0 result (build_event result ∷ [])
        a rest (refl, tt)

  -- A failure comes after exactly `max_repairs` + 1 attempts, and reports an error or an infeasible
  -- task of the last of them.
  pub admit-failure :
      (f : AdmissionFailure)
      → admit digest pack manifest prior max_repairs ≡ ok (failure f)
      → (f.attempts ≡ max_repairs + 1)
        × ((is_empty f.issues && is_empty f.infeasible_tasks) ≡ false)
  unfolding admit
  admit-failure f h =
      let (builder, made, tail) = >>=-eq-ok (pack.make_builder prior) _ h in
      let (result, built, rest) = >>=-eq-ok (builder.build manifest) _ tail in
      let r =
        attempts-ReportsFailure digest pack builder manifest max_repairs 0 result
          (build_event result ∷ []) f rest in
      (omega (arith, r.0), r.1)

  -- If the builder's repairs lead, in at most `max_repairs` steps, from its first candidate to one
  -- that passes, then `admit` returns that candidate, frozen.
  pub admit-repaired :
      (builder : Builder F) (result final : BuildResult) (k : ℕ) (found : Findings)
      → pack.make_builder prior ≡ ok builder
      → builder.build manifest ≡ ok result
      → Repaired digest pack builder manifest result k final
      → k ≤ max_repairs
      → examine pack (families_from [] pack.task_families) final ≡ ok found
      → passes found ≡ true
      → (history : List BuildEvent) × (admit digest pack manifest prior max_repairs
          ≡ ok (admitted (freeze digest pack manifest final k history)))
  unfolding admit
  admit-repaired builder result final k found made built repaired fits ex pass =
      let (history, e) =
        attempts-admitted digest pack builder manifest max_repairs 0 (build_event result ∷ []) found
          repaired fits ex pass in
      let n : 0 + k ≡ k = omega arith in (history, rw (made, built) (rw n at e))
