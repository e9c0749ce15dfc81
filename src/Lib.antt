-- ===== src/Lib.antt =====
-- chess-blunder-trainer: a web application that imports chess games, analyses them with an
-- engine, and trains its users on the blunders found. This library models parts of its Python
-- server, the package blunder_tutor, and proves what they promise.
--
-- The parts and how they interact:
-- - The analysis pipeline runs the steps of one game in an order that respects their
--   dependencies, marks what it executed, and its write step replaces the stored analysis of the
--   game.
-- - The event bus carries events between the jobs, the cache and the web sockets; the coalescing
--   broadcaster thins out what goes to the web sockets.
-- - The job service records the background jobs, their progress and their outcome, and publishes
--   it.
-- - The cache stores the responses of the statistics pages under tags of a user's scope; events
--   of the bus invalidate the tags of their scope.
-- - The judgement of moves turns the engine's evaluations into labels, losses, difficulties and
--   phases, finds tactical patterns and known traps, and decides which blunders are worth training.
-- - The engine pool hands the tasks of its callers to engine processes, and resolves their futures.
-- - The scheduler asks, at each tick, for the synchronisations that are due for its users.
-- - The authentication library keeps users, identities and sessions in SQLite tables.
--
-- Files and the code they model:
-- - Common and the modules below it: tests on numbers, integers, equality of keys, lists, loops
--   that search and sort, and Python's dict as a list of pairs in insertion order.
-- - Pipeline/Steps: blunder_tutor/analysis/pipeline/context.py and steps/base.py beside it.
--   Pipeline/Order: pipeline.py there, where AnalysisPipeline is the record of the configuration
--   and the step table, and visit, topological_sort, pull_in_missing_deps and get_ordered_steps
--   are its methods. Pipeline/Registry: steps/__init__.py. Pipeline/Executor: executor.py, where
--   a Run is the report and the state that execute_pipeline changes. Pipeline/Write:
--   steps/write.py with the write of blunder_tutor/repositories/analysis.py. The modules below
--   them hold the proofs.
-- - Events/Types: blunder_tutor/events/event_types.py. Events/Bus:
--   blunder_tutor/events/event_bus.py, a queue being a number with its contents;
--   Events/Bus/Reached, Listening and Window are about sequences of operations.
--   Events/Coalescing: blunder_tutor/events/coalescing.py, with the flush task as a state.
-- - Auth/Types: blunder_tutor/auth/core/types.py and errors.py. Auth/Tables:
--   blunder_tutor/auth/storage_sqlite/, with one module for each repository class. Auth/Policies:
--   blunder_tutor/auth/core/policies.py. Auth/Service: blunder_tutor/auth/core/service.py and
--   blunder_tutor/auth/providers/credentials.py, where the hooks after a registration and a
--   deletion are functions that give what they raise; its child modules hold the proofs.
-- - Cache/Backend: blunder_tutor/cache/backend.py, which Cache/Backend/Refines compares with a
--   cache that has no index. Cache/Decorator: blunder_tutor/cache/decorator.py, where what other
--   tasks do to the backend while the factory runs is part of what the factory gives.
--   Cache/Invalidation: blunder_tutor/cache/invalidation.py.
-- - Jobs/Repository: blunder_tutor/repositories/job_repository.py. Jobs/Service:
--   blunder_tutor/services/job_service.py, where the body of a job is the list of its progress
--   reports and its outcome. Jobs/Lifecycle is about whole runs.
-- - Moves/Floats: blunder_tutor/analysis/thresholds.py. Moves/Classifier:
--   blunder_tutor/analysis/pipeline/steps/_move_quality_classifier.py. Moves/Quality:
--   steps/move_quality.py there. Moves/Phase: blunder_tutor/analysis/phase.py and steps/phase.py.
--   Moves/Filtering: blunder_tutor/analysis/filtering.py.
-- - Tactics/Board, Fork, Pins, Lines, Threats, Blunder: the interface to python-chess and the
--   functions of blunder_tutor/analysis/tactics.py, under their names without the underscore.
-- - Engines/Pool: blunder_tutor/analysis/engine_pool.py; the workers, callers and engines are
--   events of a step function, and Placed and Drained are about its runs.
-- - Background/Scheduler: blunder_tutor/background/scheduler.py with the query of the last sync in
--   blunder_tutor/repositories/job_repository.py.
-- - Traps: blunder_tutor/analysis/traps.py; its child modules compare it with a direct search.
-- - TimeControl: blunder_tutor/utils/time_control.py.
-- - The modules named Examples evaluate the models on concrete data and apply the theorems there.
--
-- Conventions. Coroutines that share state do so under a lock, so a model takes what runs between
-- two waits as one step, and an interleaving is a list of steps. Clocks, fresh ids and hashes are
-- arguments. What a step of the analysis computes, the password hasher and the regular
-- expressions of the validation rules are parameters, functions in a record. So are Python's
-- floats, with the laws that rounding keeps, and what python-chess says of a board. A raised exception
-- is a value.
--
-- Bounds and fuel. The recursive visit of the topological sort has the depth of the Python stack
-- as fuel: each call goes one dependency deeper, so a stack deeper than the longest chain of
-- dependencies is enough. The flush task of the broadcaster needs one step for its sleep, one for
-- each event that it flushes, and one to end. Every other function is structurally recursive.
-- Numbers are unbounded, as in Python.
--
-- Not modelled: the HTTP routes, pages and web sockets, the command lines, the configuration and
-- the logging, which are glue; the SQL texts of the other repositories and the migrations; the
-- fetchers, which are HTTP clients; the engine and python-chess, which are not code of this
-- repository; the engine and opening steps of the analysis, the training and statistics services, and the
-- executor of the background jobs; the frontend and the translations.
pub mod Common
pub mod Pipeline
pub mod Events
pub mod Auth
pub mod Cache
pub mod Jobs
pub mod Moves
pub mod Tactics
pub mod Engines
pub mod Background
pub mod Traps
pub mod TimeControl
