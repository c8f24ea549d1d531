-- ===== src/Journal/Runs/Guards.antt =====
-- The checks of journal_operation_runs.py and journal_operation_run_diagnostics.py.
use safe_fs_ops.Prelude.{
  ℕ, String, Bool, false, not, ◌&&◌, ◌||◌, Option, none, some, ◌==◌, nat_eq, ltb,
}
use safe_fs_ops.Database.{
  OperationRunRow, OperationPhaseRow, LeaseRecord, idempotency_mismatch, lease_mismatch,
  value_error, Tx, ◌>>=◌, ◌>>◌, pure, raise_if, reads,
}
use safe_fs_ops.Journal.Rows.{operation_run_row, operation_phase_row}
use safe_fs_ops.Journal.Guards.{expect}

-- The keyword arguments of `create_operation_run` that describe the run.
pub record RunRequest : Type 0 where
  pub run_id : String
  pub owner : String
  pub status : String
  pub payload : String

-- The keyword arguments of `create_operation_phase` that describe the phase.
pub record PhaseRequest : Type 0 where
  pub phase_name : String
  pub status : String
  pub phase_order : ℕ
  pub payload : String

unfoldable pub require_matching_operation_run :
    OperationRunRow → RunRequest → LeaseRecord → Tx (Unit {0})
require_matching_operation_run row request lease = do
  raise_if (not (row.run_id == request.run_id)) idempotency_mismatch
  raise_if (not (row.owner == request.owner)) idempotency_mismatch
  raise_if (not (row.lease_name == lease.name)) idempotency_mismatch
  raise_if (not (nat_eq row.lease_fencing_token lease.fencing_token)) idempotency_mismatch
  raise_if (not (row.status == request.status)) idempotency_mismatch
  raise_if (not (row.payload == request.payload)) idempotency_mismatch

-- `operation_phase_id is not None` and another one is stored.
abbrev pub other_phase_id : Option String → OperationPhaseRow → Bool
other_phase_id none row = false
other_phase_id (some id) row = not (row.operation_phase_id == id)

unfoldable pub require_matching_operation_phase :
    OperationPhaseRow → PhaseRequest → Option String → Tx (Unit {0})
require_matching_operation_phase row request given = do
  raise_if (not (row.status == request.status)) idempotency_mismatch
  raise_if (not (nat_eq row.phase_order request.phase_order)) idempotency_mismatch
  raise_if (not (row.payload == request.payload)) idempotency_mismatch
  raise_if (other_phase_id given row) idempotency_mismatch

unfoldable pub require_operation_run_for_write : String → LeaseRecord → Tx OperationRunRow
unfolding expect
require_operation_run_for_write id lease = do
  found ← reads (operation_run_row id)
  row ← expect value_error found
  raise_if (not (row.lease_name == lease.name)) lease_mismatch
  raise_if (not (nat_eq row.lease_fencing_token lease.fencing_token)) lease_mismatch
  pure row

unfoldable pub require_operation_phase_for_write : String → LeaseRecord → Tx OperationPhaseRow
unfolding expect
require_operation_phase_for_write id lease = do
  found ← reads (operation_phase_row id)
  row ← expect value_error found
  require_operation_run_for_write row.operation_run_id lease
  pure row

-- Diagnostics may also be recorded under a newer lease.
unfoldable pub require_operation_run_for_terminal_diagnostic :
    String → LeaseRecord → Tx OperationRunRow
unfolding expect
require_operation_run_for_terminal_diagnostic id lease = do
  found ← reads (operation_run_row id)
  row ← expect value_error found
  raise_if (not (row.lease_name == lease.name)) lease_mismatch
  raise_if (ltb lease.fencing_token row.lease_fencing_token) lease_mismatch
  pure row

unfoldable pub require_operation_phase_for_terminal_diagnostic :
    String → LeaseRecord → Tx OperationPhaseRow
unfolding expect
require_operation_phase_for_terminal_diagnostic id lease = do
  found ← reads (operation_phase_row id)
  row ← expect value_error found
  require_operation_run_for_terminal_diagnostic row.operation_run_id lease
  pure row

-- `_require_operation_status_transition`: what it allows.
unfoldable pub status_transition : String → String → Bool
status_transition now next =
    now == next
    || now == "active"
      && (next == "succeeded" || (next == "failed" || next == "finalization_failed"))

-- `require_terminal_diagnostic_status`: what it allows.
abbrev pub is_diagnostic : String → Bool
is_diagnostic status = status == "failed" || status == "finalization_failed"

-- `_require_operation_terminal_diagnostic_transition`: what it allows.
unfoldable pub diagnostic_transition : String → String → Bool
diagnostic_transition now next =
    now == next
    || (next == "failed" && now == "active"
        || next == "finalization_failed" && (now == "active" || now == "succeeded"))
