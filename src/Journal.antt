-- ===== src/Journal.antt =====
-- operation_journal/: the durable journal of filesystem mutations. Rows and guards first, then the
-- operations of the mixins that make up OperationJournalStore, then what holds of them.
pub mod Phase
pub mod Rows
pub mod Guards
pub mod Inversion
pub mod Attempt
pub mod Lifecycle
pub mod Effects
pub mod Progress
pub mod Losses
pub mod Creation
pub mod Records
pub mod Start
pub mod Frame
pub mod Steps
pub mod RunMoves
pub mod RunStale
pub mod RunRetry
pub mod Retry
pub mod Promises
pub mod Stale
pub mod Fate
pub mod History
pub mod Batch
pub mod Recovery
pub mod Actions
pub mod Cleanup
pub mod Runs
pub mod RunSteps
