-- ===== src/Journal/RunSteps.antt =====
-- Sequences of calls that create and close operation runs and phases, by any callers, under any
-- leases, at any instants.
use safe_fs_ops.Prelude.{ℕ, String, Option}
use safe_fs_ops.Platform.{Platform}
use safe_fs_ops.Database.{Database, LeaseRecord}
use safe_fs_ops.Journal.Runs.{
  RunRequest, PhaseRequest, create_operation_run, create_operation_phase,
  update_operation_run_status, update_operation_phase_status,
  record_operation_run_terminal_diagnostic, record_operation_phase_terminal_diagnostic,
}

module _ ⦃p : Platform⦄ where
  -- One call, with any arguments.
  pub data Step (db : Database) : Database → Type 0 where
    runs :
        (request : RunRequest) (lease : LeaseRecord) (given : Option String) (fresh : String)
        (now : ℕ)
        → Step db (create_operation_run request lease given fresh now db).1
    phases :
        (run : String) (request : PhaseRequest) (lease : LeaseRecord) (given : Option String)
        (fresh : String) (now : ℕ)
        → Step db (create_operation_phase run request lease given fresh now db).1
    updates_run :
        (id : String) (lease : LeaseRecord) (status : String) (now : ℕ)
        → Step db (update_operation_run_status id lease status now db).1
    updates_phase :
        (id : String) (lease : LeaseRecord) (status : String) (now : ℕ)
        → Step db (update_operation_phase_status id lease status now db).1
    diagnoses_run :
        (id : String) (lease : LeaseRecord) (status : String) (now : ℕ)
        → Step db (record_operation_run_terminal_diagnostic id lease status now db).1
    diagnoses_phase :
        (id : String) (lease : LeaseRecord) (status : String) (now : ℕ)
        → Step db (record_operation_phase_terminal_diagnostic id lease status now db).1

  pub data Reach (db : Database) : Database → Type 0 where
    here : Reach db db
    next : {mid last : Database} → Reach db mid → Step mid last → Reach db last
