-- ===== src/Examples/Packs.antt =====
-- A pack for the small world, whose first build has a task that starts at a hidden node.
use open_range.Base.{ℕ, suc, ◌+◌, String, [], ◌∷◌, some, contains, ok, str_of, string_eq}
use open_range.Value.{Value, Items, Fields, list, dict, nil, cons, end, field, ℤ, pos}
use open_range.Sdk.{
  TaskSpec, PackPrior, BuildResult, Mutation, TaskFamily, Builder, Pack, default_evolve,
}
use open_range.Examples.Worlds.{world, net, swap_patch}

-- A digest that counts the parts of a value.
unfoldable mutual
  pub size_value : Value → ℕ
  size_value (list vs) = suc (size_items vs)
  size_value (dict fs) = suc (size_fields fs)
  size_value _ = 1

  pub size_items : Items → ℕ
  size_items nil = 0
  size_items (cons v vs) = size_value v + size_items vs

  pub size_fields : Fields → ℕ
  size_fields end = 0
  size_fields (field k v fs) = size_value v + size_fields fs

unfoldable pub digest_of : Value → String
unfolding size_value str_of
digest_of v = str_of (size_value v)

abbrev pub breach : TaskSpec
breach = record {
  id = "breach";
  instruction = "reach the database";
  entrypoints = "web" ∷ [];
  goal_nodes = "web" ∷ [];
  feasibility_check = "probe";
  success_check = "probe";
  meta = [];
}

abbrev pub hidden_start : TaskSpec
hidden_start = record breach { entrypoints = "db" ∷ [] }

abbrev pub swap : Mutation ℤ
swap = record {
  patch = swap_patch;
  direction = "harden";
  relevance = pos 1000;
  family = "probe";
  note = "";
}

abbrev pub probe : TaskFamily ℤ
probe = record {
  id = "probe";
  generate = λ graph manifest prior. ok (breach ∷ []);
  check_success = λ graph t final_state.
      ok (record { success = contains "flag" final_state; subgoals = []; reason = "" });
  check_feasibility = λ graph t. ok (record { feasible = contains "web" graph.nodes; reason = "" });
  available_mutations = λ snapshot reports. ok (swap ∷ []);
}

abbrev pub broken_build : BuildResult
broken_build = record { graph = world; tasks = hidden_start ∷ []; admission_meta = [] }

abbrev pub good_build : BuildResult
good_build = record { graph = world; tasks = breach ∷ []; admission_meta = [] }

abbrev pub repairer : Builder ℤ
repairer = record {
  build = λ manifest. ok broken_build;
  repair = λ prev errors infeasible. ok good_build;
  evolve = default_evolve;
}

abbrev pub prior : PackPrior ℤ
prior = record {
  source = "test";
  ontology = net;
  topology = [];
  task_seeds = [];
  difficulty = [];
  coverage = [];
}

abbrev pub pack : Pack ℤ
pack = record {
  id = "net";
  version = "1";
  ontology = net;
  invariants = [];
  make_builder = λ p. ok repairer;
  task_families = probe ∷ [];
  default_prior = some prior;
}
