-- ===== src/Swe/Gradable.antt =====
-- packs/swe/swe/invariants.py: what the three invariants decide together.
use open_range.Base.{
  ℕ, String, List, [], ◌∷◌, ◌++◌, true, false, not, ◌&&◌, some, get, any, is_empty, when,
  when-nil_iff, append-nil_iff, flat_map-nil_iff, All, All_map, elem, length, ◌==◌, string_eq,
  nat_eq, Bool-cases, inl, inr, ◌≡◌, ◌↔◌, refl, arith,
}
use open_range.Graph.{Node, WorldGraph, by_kind, out_edges}
use open_range.Schema.{Issue}
use open_range.Swe.{
  ships_nothing, files_of, path_of, overlaps, dangling, tier_issues, tier, suite_round,
  suite_well_formed, repo_has_base_files, repo_links, solution_present,
}

-- No element of one list is in the other.
abbrev pub AreApart : List String → List String → Type 0
AreApart xs ys = (t : String) → elem t xs ≡ true → elem t ys ≡ false

overlaps-AreApart : (xs ys : List String) → overlaps xs ys ≡ false → AreApart xs ys
unfolding any elem
overlaps-AreApart [] ys h t m = cc
overlaps-AreApart (x ∷ xs) ys h t m =
    ground (arith, overlaps-AreApart xs ys (ground arith) t, string_eq.beq_iff x t)

AreApart-overlaps : (xs ys : List String) → AreApart xs ys → overlaps xs ys ≡ false
unfolding any elem
AreApart-overlaps [] ys h = refl
AreApart-overlaps (x ∷ xs) ys h = ground (
  arith,
  h x (ground (arith, string_eq.beq_iff x x)),
  AreApart-overlaps xs ys (λ t m. h t (ground arith)),
)

-- A suite ships files, grades something, keeps its tiers apart, and names only tests it ships.
pub record SuiteFits (suite : Node) : Type 0 where
  pub ships : ships_nothing (get "test_files" suite.attrs) ≡ false
  pub grades :
      (is_empty (tier "fail_to_pass" suite) && is_empty (tier "integration_tests" suite)) ≡ false
  pub apart : AreApart (tier "fail_to_pass" suite) (tier "pass_to_pass" suite)
  pub tiers_apart : AreApart (tier "unit_tests" suite) (tier "integration_tests" suite)
  pub shipped :
      All
        (λ tid. elem (path_of tid) (files_of (get "test_files" suite.attrs)) ≡ true)
        (tier "fail_to_pass" suite
          ++ (tier "pass_to_pass" suite
              ++ (tier "unit_tests" suite ++ tier "integration_tests" suite)))

-- Repositories and solutions ship files, every repository has one suite and one solution, and the
-- suites fit.
pub record IsGradable (graph : WorldGraph) : Type 0 where
  pub bases :
      All (λ (n : Node). ships_nothing (get "base_files" n.attrs) ≡ false) (by_kind graph "repo")
  pub suites : All SuiteFits (by_kind graph "test_suite")
  pub links :
      All
        (λ (n : Node).
          (length (out_edges graph n.id (some "has_suite")) ≡ 1)
          × (length (out_edges graph n.id (some "has_solution")) ≡ 1))
        (by_kind graph "repo")
  pub golds :
      All
        (λ (n : Node). ships_nothing (get "gold_files" n.attrs) ≡ false)
        (by_kind graph "solution")

dangling-nil_iff :
    (paths : List String) (suite_id : String) (tids : List String)
    → (dangling paths suite_id tids ≡ []) ↔ All (λ tid. elem (path_of tid) paths ≡ true) tids
unfolding dangling
dangling-nil_iff paths suite_id tids = (
  λ h. All_map (λ tid e. ground arith) tids ((flat_map-nil_iff _ tids).0 h),
  λ h. (flat_map-nil_iff _ tids).1 (All_map (λ tid e. ground arith) tids h),
)

tier_issues-nil_iff :
    (paths : List String) (suite_id : String) (f2p p2p units integration : List String)
    → (tier_issues paths suite_id f2p p2p units integration ≡ []) ↔ (
        ((is_empty f2p && is_empty integration) ≡ false)
        × (overlaps f2p p2p ≡ false)
        × (overlaps units integration ≡ false)
        × (dangling paths suite_id (f2p ++ (p2p ++ (units ++ integration))) ≡ []))
unfolding tier_issues
tier_issues-nil_iff paths suite_id f2p p2p units integration =
    elim (Bool-cases (is_empty f2p && is_empty integration)) [
      | inl t ↦ (λ h. absurd (ground arith), λ h. absurd (ground arith))
      | inr f ↦
          rw (tier_issues, f)
            (
              λ h.
                  let (apart, rest) = (append-nil_iff _ _).0 h in
                  let (tiers, shipped) = (append-nil_iff _ _).0 rest in
                  (refl, (when-nil_iff _ _).0 apart, (when-nil_iff _ _).0 tiers, shipped),
              λ h. (append-nil_iff _ _).1 (
                (when-nil_iff _ _).1 h.1,
                (append-nil_iff _ _).1 ((when-nil_iff _ _).1 h.2, h.3),
              ),
            )
    ]

suite_round-fits : (suite : Node) → suite_round suite ≡ [] → SuiteFits suite
unfolding suite_round
suite_round-fits suite h = elim (Bool-cases (ships_nothing (get "test_files" suite.attrs))) [
  | inl t ↦ absurd (ground arith)
  | inr ships ↦
      let (grades, apart, tiers, shipped) =
        (tier_issues-nil_iff _ suite.id _ _ _ _).0 (rw (suite_round, ships) at h) in
      record {
        ships = ships;
        grades = grades;
        apart = overlaps-AreApart _ _ apart;
        tiers_apart = overlaps-AreApart _ _ tiers;
        shipped = (dangling-nil_iff _ suite.id _).0 shipped;
      }
]

fits-suite_round : (suite : Node) → SuiteFits suite → suite_round suite ≡ []
unfolding suite_round
fits-suite_round suite fits =
    rw (suite_round, fits.ships)
      ((tier_issues-nil_iff _ suite.id _ _ _ _).1 (
        fits.grades,
        AreApart-overlaps _ _ fits.apart,
        AreApart-overlaps _ _ fits.tiers_apart,
        (dangling-nil_iff _ suite.id _).1 fits.shipped,
      ))

links-nil_iff : (n : ℕ) (i : Issue) → (when (not (n == 1)) i ≡ []) ↔ (n ≡ 1)
links-nil_iff n i = (λ h. ground arith, λ h. ground arith)

module _ (graph : WorldGraph) where
  repo_links-nil_iff :
      (repo : Node)
      → (repo_links graph repo ≡ []) ↔ (
          (length (out_edges graph repo.id (some "has_suite")) ≡ 1)
          × (length (out_edges graph repo.id (some "has_solution")) ≡ 1))
  unfolding repo_links
  repo_links-nil_iff repo = (
    λ h.
        let (suites, solutions) = (append-nil_iff _ _).0 h in
        ((links-nil_iff _ _).0 suites, (links-nil_iff _ _).0 solutions),
    λ h. (append-nil_iff _ _).1 ((links-nil_iff _ _).1 h.0, (links-nil_iff _ _).1 h.1),
  )

  -- The three invariants of the swe pack are silent exactly when every repository and every solution ships files,
  -- every repository has one suite and one solution, and every suite ships files, grades something,
  -- keeps its tiers apart and names only tests of files it ships.
  pub invariants-nil_iff :
      ((repo_has_base_files graph ≡ [])
        × (suite_well_formed graph ≡ [])
        × (solution_present graph ≡ []))
      ↔ IsGradable graph
  unfolding repo_has_base_files suite_well_formed solution_present
  invariants-nil_iff = (
    λ (bases, suites, rest).
        let (links, golds) = (append-nil_iff _ _).0 rest in
        record {
          bases =
              All_map (λ n. (when-nil_iff _ _).0) (by_kind graph "repo")
                ((flat_map-nil_iff _ _).0 bases);
          suites =
              All_map suite_round-fits (by_kind graph "test_suite")
                ((flat_map-nil_iff _ _).0 suites);
          links =
              All_map (λ n. (repo_links-nil_iff n).0) (by_kind graph "repo")
                ((flat_map-nil_iff _ _).0 links);
          golds =
              All_map (λ n. (when-nil_iff _ _).0) (by_kind graph "solution")
                ((flat_map-nil_iff _ _).0 golds);
        },
    λ g. (
      (flat_map-nil_iff _ _).1 (All_map (λ n. (when-nil_iff _ _).1) (by_kind graph "repo") g.bases),
      (flat_map-nil_iff _ _).1 (All_map fits-suite_round (by_kind graph "test_suite") g.suites),
      (append-nil_iff _ _).1 (
        (flat_map-nil_iff _ _).1
            (All_map (λ n. (repo_links-nil_iff n).1) (by_kind graph "repo") g.links),
        (flat_map-nil_iff _ _).1
            (All_map (λ n. (when-nil_iff _ _).1) (by_kind graph "solution") g.golds),
      ),
    ),
  )
