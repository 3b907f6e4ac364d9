-- ===== src/Lib.antt =====
-- The core rules of the Premier League prediction platform: the league table and its final
-- ranking, the fixture contract they stand on, the chronology, the polling policy, the model
-- registry and its active model, the results that a prediction may use, the workflow that follows
-- a match, the provider client, and two parts of the HTTP interface, its rate limiter and its
-- pagination. Each is a Python module of src/pl_platform; what it computes is written here as
-- functions, and the properties below are about these functions.
--
-- Parts and files
--   Fixtures     src/pl_platform/domain/fixtures.py: statuses, scores and the validator of a
--                fixture, `check_fixture` for `fixture_state_must_be_consistent`.
--   Table        src/pl_platform/simulation/table.py and the state records of
--                src/pl_platform/domain/simulation.py: `build_league_table`, `apply_match_result`,
--                and `check_table` for the validator `table_shape_must_be_canonical`. Scoring has
--                the entries of one match.
--   Ranking      the same two files: `rank_final_table` and `head_to_head_values`.
--   Polling      src/pl_platform/automation/polling.py: `decision` and `plan`.
--   Chronology   src/pl_platform/features/chronology.py: `chronological_fixture_batches`.
--   RateLimit    src/pl_platform/api/controls.py: `evaluate` of the sliding window.
--   Registry     src/pl_platform/registry/registry.py: `check_event`, `make_event` for `_event`;
--                Store has `load_registry_entry`, Changes and Registration have the operations.
--   ActiveModel  src/pl_platform/registry/active_model.py: History is the source over the file
--                system, Chain is `_assert_supported_chain`, Lookup `load_current_active_model`.
--   Workflow     src/pl_platform/prediction/workflow.py and
--                src/pl_platform/persistence/post_match_workflow.py: Manifest has
--                `compose_post_match_workflow`, `check_history` is the validator of a history,
--                Journal the repository, Runner the resumable run.
--   Lifecycle    src/pl_platform/prediction/lifecycle.py: `relevant_results` for `_relevant_results`.
--   Provider     src/pl_platform/ingestion/current_client.py: Ledger is ProviderQuotaLedger,
--                Executor is CurrentProviderRequestExecutor; the quota and the error of the
--                contract are those of src/pl_platform/ingestion/current.py.
--   Pagination   src/pl_platform/api/pagination.py: `build` and the validators.
--   Prelude, Datetimes, Dicts and Grouping hold what these share: lists measured by native
--   numbers, exceptions as a result type, sets and stable sorting, datetimes, a dictionary in
--   insertion order, and grouping by a key.
--
-- How they interact
--   A table is built from a ledger of fixtures and re-validated by its own contract; a final
--   ranking reads a table. The chronology and the polling policy read the status and the kickoff
--   of a fixture. A prediction places its fixture among the batches of the chronology. The lookup
--   of the active model reads the histories of the registry. The runner of the workflow appends to
--   its journal and reads it back. The executor of the provider reads and writes its quota ledger.
--   The limiter, the registry and pagination stand alone.
--
-- How the code is read
--   A UUID, a digest and a client key are compared only and are numbers. A dictionary is an
--   association list, an exception is the error of a result, a validator raises the first
--   violation. A list is sorted by a stable insertion sort on a numeric key. Times are numbers:
--   microseconds for datetimes; ticks for the limiter, whose `unit` gives the ticks of a second,
--   in place of a float. `ceil` is the division rounded up. The limiter's lock makes a call one
--   step; its limit and its number of clients are positive, as Settings keeps them, and what the
--   source raises for a zero is not modelled. The attempts of the provider client recurse on the
--   attempts that are left. Loops are structural recursion and need no fuel, but for two.
--   `collect`, the client that follows `next_offset`, has fuel: more than the number of items
--   left is enough, since a page that is not the last one has at least one item. `run_loop`, the
--   loop of the workflow's runner, makes at most five checkpoints: they are enough, since a
--   history begins with the planned event and has six stages. What zoneinfo, hashlib, uuid and
--   json compute, and the loader of a model artifact, are parameters; the registry's theorems
--   name what they rely on in `IsFaithful`: an event whose fields are within their bounds is
--   decoded from its own encoding, and a file name with a smaller sequence number of six digits
--   comes first.
--
-- Not modelled
--   The CORS and header controls, the batches of the simulation and the quality report are not
--   modelled; neither are the validators of endpoints and headers, the urllib transport and the
--   captures of the provider client, nor the adapter of the post-match workflow that calls the
--   child repositories. Persistence, the API routes and the jobs are SQL, FastAPI and
--   command-line code. Ratings, evaluation and training are arithmetic on floats and calls of
--   numpy, scikit-learn and CatBoost.
pub mod Prelude
pub mod Datetimes
pub mod Dicts
pub mod Grouping
pub mod Fixtures
pub mod Table
pub mod Ranking
pub mod RateLimit
pub mod Registry
pub mod Polling
pub mod Pagination
pub mod Chronology
pub mod Provider
pub mod ActiveModel
pub mod Workflow
pub mod Lifecycle
