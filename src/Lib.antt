-- ===== src/Lib.antt =====
-- A model of OpenRange (vecna-labs/open-range): worlds as typed graphs, the gate that admits them, the
-- curriculum that evolves them, the pool that keeps them, and the service that runs episodes in them.
--
-- The parts, and the file that models each:
--   * packages/graphschema/src/graphschema/_ir.py. Graph.antt has nodes, edges, `WorldGraph` and
--     `apply_patch`; Schema.antt the ontology and the checks of attributes; Validate.antt the three tiers
--     of `validate`; Wire.antt `content_hash`.
--   * packages/openrange-pack-sdk/src/openrange_pack_sdk/_types.py and _protocols.py: Sdk.antt. A
--     `Pack`, a `Builder` and a `TaskFamily` are records of functions that may raise.
--   * src/openrange/core/admit.py: Admit.antt has `admit`; Wire.antt `snapshot_to_dict`.
--   * src/openrange/core/store.py: Store.antt. The files are a dict from ids to texts.
--   * src/openrange/core/curriculum.py: Curriculum.antt, with the steps of difficulty in
--     Curriculum/Difficulty.antt and `auto_evolve` in Curriculum/Evolve.antt.
--   * src/openrange/training.py: Training.antt.
--   * src/openrange/pool.py: Pool.antt has the pool, its selection and its bound; Pool/Rounds.antt
--     the seeding and `update`; Pool/Run.antt the held-out pool and `run_pool_curriculum`.
--   * src/openrange/core/episode.py and core/turn.py: Episode.antt has the data and what the service
--     calls; Episode/Actions.antt the monad of its code; Episode/Events.antt the events of the dashboard;
--     Episode/Manifests.antt the reading of a manifest; Episode/Actors.antt the NPCs of an episode;
--     Episode/Starts.antt the starting, restoring and checking of episodes; Episode/Stops.antt their stop,
--     the warm pool and `close`; Episode/Turns.antt `advance`; Episode/Service.antt a call of any kind.
--   * src/openrange/npc.py: Episode/Npcs.antt.
--   * packs/cyber_webapp/cyber_webapp/invariants.py: Cyber/Invariants.antt, with
--     the chains of credentials in Cyber/Credentials.antt and the values of tokens and the flag in
--     Cyber/Tokens.antt. They are what the admission of a world of that pack runs in `validate`.
--   * packs/swe/swe/invariants.py: Swe.antt, run in the same place.
-- Base.antt and its children hold what all share; Value.antt the JSON values; Floats.antt the
-- operations on floats. The remaining children of a part hold its theorems, and Examples.antt concrete
-- worlds, packs and pools at which the theorems are applied.
--
-- How the program is read. A method that mutates an object is a function to the new object; an
-- exception is an `err` of Base/Results.antt. The episode service keeps what it changed before an
-- exception, so its methods are actions of Episode/Actions.antt, which return the state also then, with
-- the calls made so far; of the other parts a state left half changed is not modelled. A round
-- of the thread that ticks an episode is one of the calls of the service; calls come one after the
-- other, which the program leaves to its threads, as it holds no lock. A Python dict is the list of its
-- entries in insertion order, a set a list. Builders call families, `auto_evolve` calls `admit` on a
-- pack around the patched graph, and the pool calls `auto_evolve` on the members that ran: the
-- definitions are composed in the same way.
--
-- Fuel: the walk of the parent chain in `_compose_node_attrs` has two more than the number of declared
-- kinds, since every round but the first marks a further declared kind as seen; the search of `reaches`
-- one more than the enabled hops of its start and of all hops, since each is put on the stack at most
-- once for its hop. The
-- loops of the rest are structural; `max_repairs` and the sizes are natural numbers.
--
-- Parameters: the digest (`json.dumps` with SHA-256), `json.dumps` and `json.loads` of the store, `str` on
-- values that are no texts, floats with a total order and a monotone quotient of counts, what a caller
-- hands over (packs, policies, gates, rewards, trainers), and what the service calls (runtimes, NPCs,
-- the dashboard, the clock, uuid4, the disk, the start and the join of threads, the texts of exceptions).
--
-- Not modelled: the messages of issues, the runtimes of packs, agents, language models, the packs but
-- for those invariants, the dashboard, the command line and the adapters of trainers. The packs are
-- code of their own and may still be added; the others are processes, network calls and glue around
-- the parts above.
pub mod Base
pub mod Value
pub mod Graph
pub mod Schema
pub mod Validate
pub mod Floats
pub mod Sdk
pub mod Wire
pub mod Admit
pub mod Training
pub mod Curriculum
pub mod Pool
pub mod Store
pub mod Episode
pub mod Cyber
pub mod Swe
pub mod Examples
