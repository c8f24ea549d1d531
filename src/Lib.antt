-- ===== src/Lib.antt =====
-- safe-fs-ops keeps a SQLite database beside a workspace. Leases say who may write; the operation
-- journal records, under a lease, what is about to happen to the files and what has happened, so that
-- a crash is found and recovered from; claims say who owns a resource over time. This library models
-- the stores, the versions of their schema, the thread that keeps a lease, and the first part of
-- recovery, from the journal to what is to be done with a file, and proves what they promise, over
-- sequences of calls where these matter.
--
-- The parts, and where they stand:
--   Prelude      library names, Boolean tests, case splits that keep the equation
--   Table        SELECT, UPDATE, INSERT, DELETE, MAX and ORDER BY ... LIMIT 1 on a table that is a
--                list of rows; Table.Keys and Table.Order have the lemmas
--   Platform     what the code relies on outside itself: datetime texts and their order in SQLite,
--                sha256, JSON text. Parameters, with documented laws
--   Database     the tables, the rows (Database.Rows), the exceptions (Database.Errors), and
--                SqliteStore.transaction of src/safe_fs_ops/sqlite_store/store.py, as a monad of
--                statements that either raise or go on with a new database; Database.Keeps has
--                the rules for what a body of statements leaves alone
--   Schema       the schema versions of the same file: definitions, migrations, adoption. Schema.Runs
--                has the lemmas on migrations in a row, Schema.Versions and Schema.Upgrade the theorems
--   Lease        src/safe_fs_ops/workspace_state/leases.py. Definitions in Lease; the theorems in
--                Lease.Acquire, Lease.Holding, and, over sequences of calls, Lease.Fencing
--   Heartbeat    src/safe_fs_ops/workspace_state/lease_heartbeat.py; the theorems in
--                Heartbeat.Maintained
--   Claim        src/safe_fs_ops/workspace_state/claims.py. Definitions in Claim; the theorems in
--                Claim.Ownership and Claim.Release
--   Journal      src/safe_fs_ops/operation_journal/. One module for each source file:
--                Journal.Phase and Journal.Rows (journal_schema.py, journal_rows.py, models.py,
--                journal_operation_run_rows.py), Journal.Guards (journal_guards.py), Journal.Batch
--                (journal_batch.py, journal_batch_links.py), Journal.Recovery (journal_recovery.py,
--                journal_recovery_reads.py), Journal.Actions (journal_recovery_actions.py),
--                Journal.Cleanup (journal_artifact_cleanup.py), Journal.Runs (journal_operation_runs.py,
--                journal_operation_run_diagnostics.py). What a statement that returned has
--                done stands in Journal.Inversion, Attempt, Effects, Progress, Losses, Start, Records
--                and Creation, and the edges of a batch's life in Journal.Lifecycle; the theorems in
--                Journal.Steps, History, Fate, Attempt, Stale, Promises and Retry, and those on
--                operation runs in Journal.RunSteps, RunMoves, RunStale and RunRetry. Journal.Frame says
--                which tables the calls of the journal leave alone, as Lease.Frame and Claim.Steps do
--   System       sequences of calls of all the stores on one database, with the theorems in
--                System.Fencing and System.Histories
--   Json         the values of payloads, and Python's operations on them
--   Planning     what recovery may do, from the journal. Planning.Files is
--                operation_journal/file_recovery_planning.py and Planning.Renames is
--                operation_journal/rename_recovery_planning.py; the theorems in Planning.Latest,
--                Safety, Causes, Outcomes and Inverse, and, with the runner, in Planning.Execution
--   Runner       operation_journal/recovery_runner.py: the actions to take up, and the decoding of the
--                payload of a restore, with the checks of filesystem_ops/models.py on a backup; the
--                theorems on them in Runner.Latest and Runner.Ensured
--   Examples     a concrete platform and workspace, at which the results are applied
--
-- A method with the name `op` is the definition `op`; the body of its `with ... transaction()` is
-- `op_in`; a helper `_name` is `name`. Journal and claim writes check their lease in the table of
-- leases by `require_current_lease`, which is how the parts interact. The uuid and token values that the
-- code draws are arguments (`fresh`), and so is the instant of `_utcnow` (`now`), in microseconds. The
-- payload mappings of callers come in as texts. What an operation returns is the row that it read
-- back, where the code decodes that row into a record. All functions are total by structural
-- recursion, so there is no fuel.
--
-- Migrations, validation callbacks and what SQLite makes of a statement are parameters of Schema, and
-- so are pathlib and str in Planning and Runner. Theorems on schemas that need it say that migrations
-- work on the tables of the application only.
--
-- Not modelled: SQLite itself and its connections; foreign keys, which the guards check before; the
-- SQLAlchemy branch, which issues the same statements; the list queries, which change nothing; the
-- decoding of JSON columns, and floats in payloads; threads, whose rounds are given by their instants;
-- the planning for directories and trees; the execution of recovery beyond the decoding of a restore;
-- the filesystem operations; and the workspace facade on top of them.
pub mod Prelude
pub mod Table
pub mod Platform
pub mod Database
pub mod Lease
pub mod Journal
pub mod Claim
pub mod System
pub mod Schema
pub mod Json
pub mod Planning
pub mod Runner
pub mod Heartbeat
pub mod Examples
