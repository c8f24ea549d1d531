-- ===== src/Planning.antt =====
-- What recovery may do after an interruption: the planning files of operation_journal/.
pub mod Files
pub mod Latest
pub mod Safety
pub mod Causes
pub mod Outcomes
pub mod Execution
pub mod Renames
pub mod Inverse
