-- ===== src/Admit/Attempts.antt =====
-- src/openrange/core/admit.py: the loop over the attempts, from the first build to the verdict.
use open_range.Base.{
  ℕ, zero, suc, ◌+◌, ◌≤◌, String, List, [], ◌∷◌, ◌++◌, true, false, ◌&&◌, Dict, is_empty, length,
  Bool-cases, Result, ok, >>=-eq-ok, ok-injective, ◌≡◌, refl, subst, ap, ◌∙◌, inl, inr, arith,
  if-then_lem, if-else_lem,
}
use native.Mathlib.Nat.{add-zero}
use open_range.Value.{Value, pos}
use open_range.Sdk.{Manifest, BuildResult, BuildEvent, Snapshot, TaskFamily, Builder, Pack}
use open_range.Admit.{
  Admission, admitted, failure, AdmissionFailure, Findings, passes, examine, examined, conclude,
  freeze, attempts_from, families_from, record_event, repair_event, validate_event,
  feasibility_event, freeze_event,
}
use open_range.Admit.Soundness.{IsFrozen, conclude-IsFrozen}

-- The sequence numbers of the events count up from `n`.
abbrev pub Numbered : ℕ → List BuildEvent → Type 0
Numbered n [] = Unit
Numbered n (e ∷ events) = (e.seq ≡ pos n) × Numbered (suc n) events

Numbered-record :
    (n : ℕ) (history : List BuildEvent) (event : ℕ → BuildEvent)
    → ((k : ℕ) → (event k).seq ≡ pos k)
    → (m : ℕ) → m ≡ n + length history
    → Numbered n history
    → Numbered n (history ++ event m ∷ [])
Numbered-record n [] event seq m e h = (seq m ∙ ap pos (omega arith), tt)
Numbered-record n (x ∷ history) event seq m e h =
    (h.0, Numbered-record (suc n) history event seq m (omega arith) h.1)

pub record_event-Numbered :
    (history : List BuildEvent) (event : ℕ → BuildEvent)
    → ((k : ℕ) → (event k).seq ≡ pos k)
    → Numbered 0 history
    → Numbered 0 (record_event history event)
record_event-Numbered history event seq h =
    Numbered-record 0 history event seq (length history) (omega arith) h

examined-Numbered :
    (attempt : ℕ) (found : Findings) (history : List BuildEvent)
    → Numbered 0 history
    → Numbered 0 (examined attempt found history)
unfolding examined
examined-Numbered attempt found history h =
    record_event-Numbered (record_event history (validate_event attempt found.errors))
      (feasibility_event attempt found.infeasible) (λ k. refl)
      (record_event-Numbered history (validate_event attempt found.errors) (λ k. refl) h)

repair_event-Numbered :
    (attempt : ℕ) (history : List BuildEvent)
    → Numbered 0 history
    → Numbered 0 (record_event history (repair_event attempt))
unfolding repair_event
repair_event-Numbered attempt history h =
    record_event-Numbered history (repair_event attempt) (λ k. refl) h

abbrev pub history_of : Admission → List BuildEvent
history_of (admitted s) = s.history
history_of (failure f) = f.history

-- What a failure reports: the number of attempts, and some error or infeasible task.
abbrev pub ReportsFailure : ℕ → Admission → Type 0
ReportsFailure n (admitted s) = Unit
ReportsFailure n (failure f) =
    (f.attempts ≡ n) × ((is_empty f.issues && is_empty f.infeasible_tasks) ≡ false)

conclude-Numbered :
    {F : Type 0} (digest : Value → String) (pack : Pack F) (manifest : Manifest)
    (result : BuildResult) (attempt : ℕ) (found : Findings) (history : List BuildEvent)
    → Numbered 0 history
    → Numbered 0 (history_of (conclude digest pack manifest result attempt found history))
unfolding conclude freeze
conclude-Numbered digest pack manifest result attempt found history h =
    elim (Bool-cases (passes found)) [
      | inl pass ↦ rw (pass, conclude) (record_event-Numbered history freeze_event (λ k. refl) h)
      | inr fails ↦ rw (fails, conclude) h
    ]

conclude-ReportsFailure :
    {F : Type 0} (digest : Value → String) (pack : Pack F) (manifest : Manifest)
    (result : BuildResult) (attempt : ℕ) (found : Findings) (history : List BuildEvent)
    → ReportsFailure (attempt + 1) (conclude digest pack manifest result attempt found history)
unfolding conclude
conclude-ReportsFailure digest pack manifest result attempt found history =
    elim (Bool-cases (passes found)) [
      | inl pass ↦ rw (pass, conclude) tt
      | inr fails ↦ rw (fails, conclude) (refl, fails)
    ]

module _ {F : Type 0} (digest : Value → String) (pack : Pack F) (builder : Builder F)
    (manifest : Manifest) where
  abbrev pub families : Dict String (TaskFamily F)
  families = families_from [] pack.task_families

  abbrev pub from : ℕ → ℕ → BuildResult → List BuildEvent → Result Admission
  from = attempts_from digest pack builder families manifest

  pub attempts-IsFrozen :
      (left attempt : ℕ) (result : BuildResult) (history : List BuildEvent) (s : Snapshot)
      → from left attempt result history ≡ ok (admitted s)
      → IsFrozen digest pack s
  unfolding attempts_from
  attempts-IsFrozen zero attempt result history s h =
      let (found, ex, e) = >>=-eq-ok (examine pack families result) _ h in
      conclude-IsFrozen digest pack manifest result attempt found _ s ex (ok-injective e)
  attempts-IsFrozen (suc left) attempt result history s h =
      let (found, ex, tail) = >>=-eq-ok (examine pack families result) _ h in
      elim (Bool-cases (passes found)) [
        | inl pass ↦
            conclude-IsFrozen digest pack manifest result attempt found _ s ex
              (ok-injective (if-then_lem (passes found) _ _ pass tail))
        | inr fails ↦
            let (repaired, rep, more) =
              >>=-eq-ok (builder.repair result found.errors found.infeasible) _
                (if-else_lem (passes found) _ _ fails tail) in
            attempts-IsFrozen left (attempt + 1) repaired _ s more
      ]

  -- `k` failed attempts, each with its repair, lead from one candidate to another.
  pub data Repaired : BuildResult → ℕ → BuildResult → Type 0 where
    done : {result : BuildResult} → Repaired result 0 result
    repair :
        {result repaired final : BuildResult} {k : ℕ} (found : Findings)
        → examine pack families result ≡ ok found
        → passes found ≡ false
        → builder.repair result found.errors found.infeasible ≡ ok repaired
        → Repaired repaired k final
        → Repaired result (suc k) final

  -- With enough repairs allowed, the first candidate to pass is admitted.
  pub attempts-admitted :
      {result final : BuildResult} {k : ℕ} (left attempt : ℕ) (history : List BuildEvent)
      (found : Findings)
      → Repaired result k final
      → k ≤ left
      → examine pack families final ≡ ok found
      → passes found ≡ true
      → (history' : List BuildEvent) × (from left attempt result history
          ≡ ok (admitted (freeze digest pack manifest final (attempt + k) history')))
  unfolding attempts_from
  attempts-admitted zero attempt history found done fits ex pass =
      (examined attempt found history, rw (ex, conclude, pass, add-zero))
  attempts-admitted (suc left) attempt history found done fits ex pass =
      (examined attempt found history, rw (ex, pass, add-zero))
  attempts-admitted zero attempt history found (repair f e p r more) fits ex pass =
      absurd (omega arith)
  attempts-admitted {k = suc k} (suc left) attempt history found (repair f e p r more) fits ex
        pass =
      let (history', ih) =
        attempts-admitted left (attempt + 1)
          (record_event (examined attempt f history) (repair_event attempt)) found more
          (omega arith) ex pass in
      let shift : attempt + 1 + k ≡ attempt + suc k = omega arith in
      (history', rw (e, p, r) (rw shift at ih))

  pub attempts-Numbered :
      (left attempt : ℕ) (result : BuildResult) (history : List BuildEvent) (a : Admission)
      → from left attempt result history ≡ ok a
      → Numbered 0 history
      → Numbered 0 (history_of a)
  unfolding attempts_from
  attempts-Numbered zero attempt result history a h numbered =
      let (found, ex, e) = >>=-eq-ok (examine pack families result) _ h in
      rw (← ok-injective e) (
        conclude-Numbered digest pack manifest result attempt found _
          (examined-Numbered attempt found history numbered))
  attempts-Numbered (suc left) attempt result history a h numbered =
      let (found, ex, tail) = >>=-eq-ok (examine pack families result) _ h in
      let numbered' = examined-Numbered attempt found history numbered in
      elim (Bool-cases (passes found)) [
        | inl pass ↦
            rw (← ok-injective (if-then_lem (passes found) _ _ pass tail))
              (conclude-Numbered digest pack manifest result attempt found _ numbered')
        | inr fails ↦
            let (repaired, rep, more) =
              >>=-eq-ok (builder.repair result found.errors found.infeasible) _
                (if-else_lem (passes found) _ _ fails tail) in
            attempts-Numbered left (attempt + 1) repaired _ a more
              (repair_event-Numbered attempt _ numbered')
      ]

  pub attempts-ReportsFailure :
      (left attempt : ℕ) (result : BuildResult) (history : List BuildEvent) (f : AdmissionFailure)
      → from left attempt result history ≡ ok (failure f)
      → ReportsFailure (attempt + left + 1) (failure f)
  unfolding attempts_from
  attempts-ReportsFailure zero attempt result history f h =
      let (found, ex, e) = >>=-eq-ok (examine pack families result) _ h in
      let n : attempt + 1 ≡ attempt + zero + 1 = omega arith in
      subst (λ k. ReportsFailure k (failure f)) n
        (subst (ReportsFailure (attempt + 1)) (ok-injective e)
          (conclude-ReportsFailure digest pack manifest result attempt found _))
  attempts-ReportsFailure (suc left) attempt result history f h =
      let (found, ex, tail) = >>=-eq-ok (examine pack families result) _ h in
      elim (Bool-cases (passes found)) [
        | inl pass ↦
            absurd
              (not-failure found pass (ok-injective (if-then_lem (passes found) _ _ pass tail)))
        | inr fails ↦
            let (repaired, rep, more) =
              >>=-eq-ok (builder.repair result found.errors found.infeasible) _
                (if-else_lem (passes found) _ _ fails tail) in
            let n : attempt + 1 + left + 1 ≡ attempt + suc left + 1 = omega arith in
            subst (λ k. ReportsFailure k (failure f)) n
              (attempts-ReportsFailure left (attempt + 1) repaired _ f more)
      ]
    where
      not-failure :
          (found : Findings)
          → passes found ≡ true
          → conclude digest pack manifest result attempt found (examined attempt found history)
            ≡ failure f
          → ⊥
      not-failure found pass e = cc (rw (pass, conclude) at e)
