-- ===== src/Journal/Runs/Status.antt =====
-- The status updates of journal_operation_runs.py and the terminal diagnostics of
-- journal_operation_run_diagnostics.py.
use safe_fs_ops.Prelude.{ℕ, String, Bool, not, ◌||◌, ◌==◌, if◌then◌else◌}
use safe_fs_ops.Table.{update}
use safe_fs_ops.Table.Keys.{has}
use safe_fs_ops.Platform.{Platform}
use safe_fs_ops.Database.{
  Database, OperationRunRow, OperationPhaseRow, LeaseRecord, runtime_error, value_error, Result, ok,
  err, Tx, ◌>>=◌, ◌>>◌, pure, raise_if, reads, branch, transaction,
}
use safe_fs_ops.Lease.{require_current_lease}
use safe_fs_ops.Journal.Rows.{run_key, phase_key, operation_run_row, operation_phase_row}
use safe_fs_ops.Journal.Guards.{expect}
use safe_fs_ops.Journal.Runs.Guards.{
  require_operation_run_for_write, require_operation_phase_for_write,
  require_operation_run_for_terminal_diagnostic, require_operation_phase_for_terminal_diagnostic,
  status_transition, diagnostic_transition, is_diagnostic,
}

-- UPDATE operation_runs SET ... WHERE operation_run_id = ?
unfoldable pub update_run : String → (OperationRunRow → OperationRunRow) → Tx (Unit {0})
update_run id f db = ok (tt, record db { runs = update (has run_key id) f db.runs })

unfoldable pub update_phase : String → (OperationPhaseRow → OperationPhaseRow) → Tx (Unit {0})
update_phase id f db = ok (tt, record db { phases = update (has phase_key id) f db.phases })

module _ ⦃p : Platform⦄ where
  abbrev pub with_status : String → ℕ → OperationRunRow → OperationRunRow
  with_status status now r = record r { status = status; updated_at = p.isoformat now }

  abbrev pub with_phase_status : String → ℕ → OperationPhaseRow → OperationPhaseRow
  with_phase_status status now r = record r { status = status; updated_at = p.isoformat now }

  -- What all status changes do once `allowed` has been checked: nothing, if the row has the status.
  unfoldable pub set_run_status : Bool → String → String → ℕ → OperationRunRow → Tx OperationRunRow
  unfolding expect
  set_run_status allowed id status now row = do
    raise_if (not allowed) value_error
    branch (row.status == status) (pure row) (do
      update_run id (with_status status now)
      found ← reads (operation_run_row id)
      expect runtime_error found)

  unfoldable pub set_phase_status :
      Bool → String → String → ℕ → OperationPhaseRow → Tx OperationPhaseRow
  unfolding expect
  set_phase_status allowed id status now row = do
    raise_if (not allowed) value_error
    branch (row.status == status) (pure row) (do
      update_phase id (with_phase_status status now)
      found ← reads (operation_phase_row id)
      expect runtime_error found)

  unfoldable pub update_operation_run_status_in :
      String → LeaseRecord → String → ℕ → Tx OperationRunRow
  update_operation_run_status_in id lease status now = do
    require_current_lease lease now
    row ← require_operation_run_for_write id lease
    set_run_status (status_transition row.status status) id status now row

  unfoldable pub update_operation_run_status :
      String → LeaseRecord → String → ℕ → Database → Result OperationRunRow × Database
  unfolding transaction
  update_operation_run_status id lease status now db =
      if id == "" || status == ""
      then (err value_error, db)
      else transaction (update_operation_run_status_in id lease status now) db

  unfoldable pub update_operation_phase_status_in :
      String → LeaseRecord → String → ℕ → Tx OperationPhaseRow
  update_operation_phase_status_in id lease status now = do
    require_current_lease lease now
    row ← require_operation_phase_for_write id lease
    set_phase_status (status_transition row.status status) id status now row

  unfoldable pub update_operation_phase_status :
      String → LeaseRecord → String → ℕ → Database → Result OperationPhaseRow × Database
  unfolding transaction
  update_operation_phase_status id lease status now db =
      if id == "" || status == ""
      then (err value_error, db)
      else transaction (update_operation_phase_status_in id lease status now) db

  unfoldable pub run_diagnostic_in : String → LeaseRecord → String → ℕ → Tx OperationRunRow
  run_diagnostic_in id lease status now = do
    require_current_lease lease now
    row ← require_operation_run_for_terminal_diagnostic id lease
    set_run_status (diagnostic_transition row.status status) id status now row

  unfoldable pub record_operation_run_terminal_diagnostic :
      String → LeaseRecord → String → ℕ → Database → Result OperationRunRow × Database
  unfolding transaction
  record_operation_run_terminal_diagnostic id lease status now db =
      if not (is_diagnostic status)
      then (err value_error, db)
      else transaction (run_diagnostic_in id lease status now) db

  unfoldable pub phase_diagnostic_in : String → LeaseRecord → String → ℕ → Tx OperationPhaseRow
  phase_diagnostic_in id lease status now = do
    require_current_lease lease now
    row ← require_operation_phase_for_terminal_diagnostic id lease
    set_phase_status (diagnostic_transition row.status status) id status now row

  unfoldable pub record_operation_phase_terminal_diagnostic :
      String → LeaseRecord → String → ℕ → Database → Result OperationPhaseRow × Database
  unfolding transaction
  record_operation_phase_terminal_diagnostic id lease status now db =
      if not (is_diagnostic status)
      then (err value_error, db)
      else transaction (phase_diagnostic_in id lease status now) db
