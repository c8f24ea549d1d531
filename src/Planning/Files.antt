-- ===== src/Planning/Files.antt =====
-- operation_journal/file_recovery_planning.py: from the payload of an interrupted batch on one
-- file, its checkpoints and what was recorded of the failure, to what recovery may do with the
-- file.
mod Snapshots
mod Proofs
mod Plans
unfoldable pub use Snapshots.*
unfoldable pub use Proofs.*
unfoldable pub use Plans.*
