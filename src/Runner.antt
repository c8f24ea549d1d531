-- ===== src/Runner.antt =====
-- operation_journal/recovery_runner.py: the actions of the current recovery attempt, and how the
-- payload of a "restore_backup" action is decoded before the file is restored.
mod Decoding
mod Actions
pub mod Ensured
pub mod Latest
unfoldable pub use Decoding.*
unfoldable pub use Actions.*
