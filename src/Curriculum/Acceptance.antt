-- ===== src/Curriculum/Acceptance.antt =====
-- src/openrange/core/curriculum.py: which worlds `auto_evolve` gives.
use open_range.Base.{
  ℕ, String, List, [], ◌∷◌, true, false, ◌||◌, Option, none, some, Result, ok, >>=-eq-ok,
  ok-injective, if◌then◌else◌, is_empty, if-then_lem, if-else_lem, Bool-cases, Option-cases, get,
  ◌≡◌, refl, ◌∙◌, ◌⊎◌, inl, inr, Result-cases, none≢some, some-injective, subst, ◌==◌, string_eq,
  Dict,
}
use open_range.Value.{Value}
use open_range.Floats.{Floats}
use open_range.Sdk.{Snapshot, Pack, PackPrior, Mutation, EpisodeReport}
use open_range.Admit.{Admission, admitted, failure, admit}
use open_range.Curriculum.{Gate, manifest_of, patch_candidates, with_grow_lineage}
use open_range.Curriculum.Difficulty.{
  Direction, difficulty_step, step_difficulty, same_difficulty, difficulty_of,
}
use open_range.Curriculum.Evolve.{
  evolve_snapshot, grow_with, grow_from, grow_snapshot, gate_passes, try_candidate, first_candidate,
  evolve_towards, auto_evolve, snapshot_of, swallow,
}

module _ (fl : Floats) (digest : Value → String) (snapshot : Snapshot) (pack : Pack (fl.F))
    (max_repairs : ℕ) where
  open fl use {F}

  -- The world of a mutation that was evolved, is new, and passed the gate.
  abbrev pub IsPatched : Option (Gate F) → Snapshot → Type 0
  IsPatched gate evolved =
      (mutation : Mutation F) × (evolve_snapshot fl digest snapshot pack mutation max_repairs
        ≡ ok (some evolved))
      × ((evolved.snapshot_id == snapshot.snapshot_id) ≡ false)
      × (gate_passes fl digest gate evolved mutation ≡ true)

  -- The world of the builder's growth that is new.
  abbrev pub IsGrown : Direction → Snapshot → Type 0
  IsGrown direction evolved =
      (grow_snapshot fl digest snapshot pack direction max_repairs ≡ ok (some evolved))
      × ((evolved.snapshot_id == snapshot.snapshot_id) ≡ false)

  try_candidate-IsPatched :
      (chosen : Mutation F) (gate : Option (Gate F)) (evolved : Snapshot)
      → try_candidate fl digest snapshot pack chosen gate max_repairs ≡ some evolved
      → IsPatched gate evolved
  unfolding try_candidate
  try_candidate-IsPatched chosen gate evolved h =
      elim (Result-cases (evolve_snapshot fl digest snapshot pack chosen max_repairs)) [
        | inl (e, bad) ↦ absurd (none≢some (rw (bad, try_candidate) at h))
        | inr (none, got) ↦ absurd (none≢some (rw (got, try_candidate) at h))
        | inr (some w, got) ↦ accepted w got (rw (got, try_candidate) at h)
      ]
    where
      accepted :
          (w : Snapshot)
          → evolve_snapshot fl digest snapshot pack chosen max_repairs ≡ ok (some w)
          → (if w.snapshot_id == snapshot.snapshot_id
              then none
              else if gate_passes fl digest gate w chosen
              then some w
              else none)
            ≡ some evolved
          → IsPatched gate evolved
      accepted w got h = elim (Bool-cases (w.snapshot_id == snapshot.snapshot_id)) [
        | inl same ↦ absurd (none≢some (rw same at h))
        | inr new ↦ elim (Bool-cases (gate_passes fl digest gate w chosen)) [
          | inl pass ↦
              subst (IsPatched gate) (some-injective (rw (new, pass) at h)) (chosen, got, new, pass)
          | inr shut ↦ absurd (none≢some (rw (new, shut) at h))
        ]
      ]

  first_candidate-IsPatched :
      (options : List (Mutation F)) (gate : Option (Gate F)) (evolved : Snapshot)
      → first_candidate fl digest snapshot pack options gate max_repairs ≡ some evolved
      → IsPatched gate evolved
  unfolding first_candidate
  first_candidate-IsPatched [] gate evolved h = cc
  first_candidate-IsPatched (chosen ∷ options) gate evolved h =
      elim (Option-cases (try_candidate fl digest snapshot pack chosen gate max_repairs)) [
        | inl e ↦ first_candidate-IsPatched options gate evolved (rw (e, first_candidate) at h)
        | inr (w, e) ↦
            try_candidate-IsPatched chosen gate evolved (e ∙ (rw (e, first_candidate) at h))
      ]

  grow_with-IsNew :
      (baseline : PackPrior F) (direction : Direction) (difficulty : Dict String Value)
      (stepped : Dict String F) (grown : Snapshot)
      → grow_with fl digest snapshot pack baseline direction difficulty stepped max_repairs
        ≡ ok (some grown)
      → (grown.snapshot_id == snapshot.snapshot_id) ≡ false
  unfolding grow_with
  grow_with-IsNew baseline direction difficulty stepped grown h =
      let b = is_empty stepped || same_difficulty fl stepped difficulty in
      elim (Bool-cases b) [
        | inl still ↦ absurd (none≢some (ok-injective (if-then_lem b _ _ still h)))
        | inr moved ↦
            let (a, p, tail) =
              >>=-eq-ok
                (admit digest pack (manifest_of snapshot)
                  (some (record baseline { source = "curriculum.grow"; difficulty = stepped }))
                  max_repairs)
                _ (if-else_lem b _ _ moved h) in
            is_new a (ok-injective tail)
      ]
    where
      is_new :
          (a : Admission)
          → (elim (snapshot_of a) [
            | none ↦ none
            | some w ↦
                let child = with_grow_lineage fl w snapshot direction stepped in
                if child.snapshot_id == snapshot.snapshot_id then none else some child
          ])
            ≡ some grown
          → (grown.snapshot_id == snapshot.snapshot_id) ≡ false
      is_new (failure f) h = absurd (none≢some h)
      is_new (admitted w) h =
          let child : Snapshot = with_grow_lineage fl w snapshot direction stepped in
          elim (Bool-cases (child.snapshot_id == snapshot.snapshot_id)) [
            | inl same ↦
                absurd
                  (none≢some (if-then_lem (child.snapshot_id == snapshot.snapshot_id) _ _ same h))
            | inr new ↦
                subst (λ v. (v.snapshot_id == snapshot.snapshot_id) ≡ false)
                  (some-injective
                    (if-else_lem (child.snapshot_id == snapshot.snapshot_id) _ _ new h))
                  new
          ]

  grow_from-IsNew :
      (baseline : PackPrior F) (direction : Direction) (grown : Snapshot)
      → grow_from fl digest snapshot pack baseline direction max_repairs ≡ ok (some grown)
      → (grown.snapshot_id == snapshot.snapshot_id) ≡ false
  unfolding grow_from
  grow_from-IsNew baseline direction grown h = elim (Option-cases (difficulty_step fl direction)) [
    | inl flat ↦ absurd (none≢some (ok-injective (rw (flat, grow_from) at h)))
    | inr (step, is) ↦
        let difficulty = difficulty_of fl (get "curriculum_difficulty" snapshot.lineage) baseline in
        let (stepped, _, tail) =
          >>=-eq-ok (step_difficulty fl step difficulty) _ (rw (is, grow_from) at h) in
        grow_with-IsNew baseline direction difficulty stepped grown tail
  ]

  grow_snapshot-IsNew :
      (direction : Direction) (grown : Snapshot)
      → grow_snapshot fl digest snapshot pack direction max_repairs ≡ ok (some grown)
      → (grown.snapshot_id == snapshot.snapshot_id) ≡ false
  unfolding grow_snapshot
  grow_snapshot-IsNew direction grown h = elim (Option-cases pack.default_prior) [
    | inl lack ↦ absurd (none≢some (ok-injective (rw (lack, grow_snapshot) at h)))
    | inr (baseline, have) ↦
        grow_from-IsNew baseline direction grown (rw (have, grow_snapshot) at h)
  ]

  evolve_towards-IsNext :
      (reports : List EpisodeReport) (direction : Direction) (gate : Option (Gate F))
      (evolved : Snapshot)
      → evolve_towards fl digest snapshot reports pack direction max_repairs gate
        ≡ ok (some evolved)
      → IsPatched gate evolved ⊎ IsGrown direction evolved
  unfolding evolve_towards
  evolve_towards-IsNext reports direction gate evolved h =
      let (options, _, tail) =
        >>=-eq-ok (patch_candidates fl pack snapshot reports direction) _ h in
      elim (Option-cases (first_candidate fl digest snapshot pack options gate max_repairs)) [
        | inl out ↦ inr (grown (rw out at tail))
        | inr (w, found) ↦
            let same : ok (some w) ≡ ok (some evolved) = rw found at tail in
            inl (first_candidate-IsPatched options gate evolved (found ∙ ok-injective same))
      ]
    where
      grown :
          ok (swallow fl digest (grow_snapshot fl digest snapshot pack direction max_repairs))
            ≡ ok (some evolved)
          → IsGrown direction evolved
      grown h = elim (Result-cases (grow_snapshot fl digest snapshot pack direction max_repairs)) [
        | inl (e, bad) ↦ absurd (none≢some (ok-injective (rw bad at h)))
        | inr (o, got) ↦
            let same : grow_snapshot fl digest snapshot pack direction max_repairs
                ≡ ok (some evolved) =
              got ∙ rw got at h in
            (same, grow_snapshot-IsNew direction evolved same)
      ]

  -- `auto_evolve` gives a world only for reports and a direction, a world of other content than its
  -- parent, that a mutation gave and the gate passed, or that the growth in the direction gave.
  pub auto_evolve-IsNext :
      (reports : List EpisodeReport) (policy : List EpisodeReport → Result (Option Direction))
      (gate : Option (Gate F)) (evolved : Snapshot)
      → auto_evolve fl digest snapshot reports pack policy max_repairs gate ≡ ok (some evolved)
      → (is_empty reports ≡ false)
        × ((direction : Direction) × (policy reports ≡ ok (some direction))
            × (IsPatched gate evolved ⊎ IsGrown direction evolved))
  unfolding auto_evolve
  auto_evolve-IsNext [] policy gate evolved h = absurd (none≢some (ok-injective h))
  auto_evolve-IsNext (r ∷ rs) policy gate evolved h =
      let (d, decided, tail) = >>=-eq-ok (policy (r ∷ rs)) _ h in (refl, from d decided tail)
    where
      from :
          (d : Option Direction)
          → policy (r ∷ rs) ≡ ok d
          → (elim d [
            | none ↦ ok none
            | some c ↦ evolve_towards fl digest snapshot (r ∷ rs) pack c max_repairs gate
          ])
            ≡ ok (some evolved)
          → (direction : Direction) × (policy (r ∷ rs) ≡ ok (some direction))
            × (IsPatched gate evolved ⊎ IsGrown direction evolved)
      from none decided h = absurd (none≢some (ok-injective h))
      from (some c) decided h = (c, decided, evolve_towards-IsNext (r ∷ rs) c gate evolved h)
