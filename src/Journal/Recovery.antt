-- ===== src/Journal/Recovery.antt =====
-- JournalRecoveryMixin of operation_journal/journal_recovery.py and `read_recovery_context` of
-- journal_recovery_reads.py: recovery attempts of a batch, under its lease, a newer one, or a lost
-- one. `fresh` is the uuid of the recovery record, `fresh'` that of a takeover record.
pub mod Attempts
pub mod Losses
unfoldable pub use Attempts.*
unfoldable pub use Losses.*
