-- ===== src/Journal/Runs.antt =====
-- JournalOperationRunMixin of operation_journal/journal_operation_runs.py, with
-- journal_operation_run_diagnostics.py: operation runs, their phases, and the status of both.
-- `given` is the id that the caller may pass, and `fresh` what uuid4().hex returns.
mod Guards
mod Create
mod Status
unfoldable pub use Guards.*
unfoldable pub use Create.*
unfoldable pub use Status.*
