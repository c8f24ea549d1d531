-- ===== src/Journal/RunStale.antt =====
-- Calls on operation runs and phases under a lease record that is not current, and under one that
-- the run is not bound to.
use safe_fs_ops.Prelude.{
  ℕ, ◌<◌, String, ◌≡◌, ◌≢◌, refl, true, false, ◌||◌, ◌==◌, Option, some, arith, text_discrete,
  differ,
}
use safe_fs_ops.Table.{update}
use safe_fs_ops.Table.Keys.{has, select-update_key}
use safe_fs_ops.Platform.{Platform}
use safe_fs_ops.Database.{
  Database, LeaseRecord, OperationRunRow, ok, err, lease_lost, lease_mismatch, transaction,
}
use safe_fs_ops.Lease.{lease_is_current, require_current_lease}
use safe_fs_ops.Journal.Guards.{expect}
use safe_fs_ops.Journal.Rows.{run_key, operation_run_row}
use safe_fs_ops.Journal.Runs.{
  update_run, with_status, set_run_status, diagnostic_transition, RunRequest, PhaseRequest,
  create_operation_run, create_operation_run_in, create_operation_phase, create_operation_phase_in,
  update_operation_run_status, update_operation_run_status_in, update_operation_phase_status,
  update_operation_phase_status_in, record_operation_run_terminal_diagnostic, run_diagnostic_in,
  record_operation_phase_terminal_diagnostic, phase_diagnostic_in, require_operation_run_for_write,
  require_operation_run_for_terminal_diagnostic,
}

active_failed : ◌≢◌ {A = String} "active" "failed"
unfolding text_discrete
active_failed = differ "active" "failed" refl

module _ ⦃p : Platform⦄ where
  -- Under a lease record that is not current, every call on operation runs and phases that names
  -- all that it must name, the diagnostics with a status of theirs, raises LeaseLostError and
  -- changes nothing.
  pub stale_runs :
      (id : String) (lease : LeaseRecord) (now : ℕ) (db : Database) (run : RunRequest)
      (phase : PhaseRequest) (status diagnostic fresh : String) (given : Option String)
      → id ≢ ""
      → run.run_id ≢ ""
      → run.owner ≢ ""
      → run.status ≢ ""
      → phase.phase_name ≢ ""
      → phase.status ≢ ""
      → status ≢ ""
      → (diagnostic == "failed" || diagnostic == "finalization_failed") ≡ true
      → lease_is_current lease now db ≡ false
      → (create_operation_run run lease given fresh now db ≡ (err lease_lost, db))
        × (create_operation_phase id phase lease given fresh now db ≡ (err lease_lost, db))
        × (update_operation_run_status id lease status now db ≡ (err lease_lost, db))
        × (update_operation_phase_status id lease status now db ≡ (err lease_lost, db))
        × (record_operation_run_terminal_diagnostic id lease diagnostic now db
            ≡ (err lease_lost, db))
        × (record_operation_phase_terminal_diagnostic id lease diagnostic now db
            ≡ (err lease_lost, db))
  unfolding create_operation_run create_operation_run_in create_operation_phase
      create_operation_phase_in update_operation_run_status update_operation_run_status_in
      update_operation_phase_status update_operation_phase_status_in
      record_operation_run_terminal_diagnostic run_diagnostic_in
      record_operation_phase_terminal_diagnostic phase_diagnostic_in require_current_lease
      transaction
  stale_runs id lease now db run phase status diagnostic fresh given named k1 k2 k3 k4 k5 k6 is
        lost =
      (ground arith, ground arith, ground arith, ground arith, ground arith, ground arith)

  -- After a takeover, when the new holder's lease is current but the run is bound to an older
  -- fencing token of its name: its status updates and new phases raise LeaseMismatchError and
  -- change nothing, but the diagnostic "failed" of an active run is stored and returned, with
  -- the time of the call and all else as it was.
  pub newer_holder :
      (id : String) (lease : LeaseRecord) (now : ℕ) (db : Database) (phase : PhaseRequest)
      (status fresh : String) (given : Option String) (r : OperationRunRow)
      → id ≢ ""
      → phase.phase_name ≢ ""
      → phase.status ≢ ""
      → status ≢ ""
      → lease_is_current lease now db ≡ true
      → operation_run_row id db ≡ some r
      → r.lease_name ≡ lease.name
      → r.lease_fencing_token < lease.fencing_token
      → r.status ≡ "active"
      → (update_operation_run_status id lease status now db ≡ (err lease_mismatch, db))
        × (create_operation_phase id phase lease given fresh now db ≡ (err lease_mismatch, db))
        × (record_operation_run_terminal_diagnostic id lease "failed" now db ≡ (
          ok (record r { status = "failed"; updated_at = p.isoformat now }),
          record db {
            runs =
                update
                  (has run_key id)
                  (λ x. record x { status = "failed"; updated_at = p.isoformat now })
                  db.runs;
          },
        ))
  unfolding record_operation_run_terminal_diagnostic run_diagnostic_in set_run_status update_run
      diagnostic_transition require_operation_run_for_terminal_diagnostic create_operation_phase
      create_operation_phase_in update_operation_run_status update_operation_run_status_in
      require_current_lease transaction require_operation_run_for_write expect
  newer_holder id lease now db phase status fresh given r named k4 k5 k6 cur there name older
        active =
      let stored = select-update_key run_key (with_status "failed" now) (λ x. refl) id id db.runs in
      let differs : ◌≢◌ {A = String} "active" "failed" = active_failed in
      (ground arith, ground arith, ground arith)
