-- ===== src/Journal/Frame/RunSteps.antt =====
-- Every call on operation runs and phases, with any arguments, writes these two tables only.
use safe_fs_ops.Prelude.{◌≡◌, Bool, [], arith, if◌then◌else◌}
use safe_fs_ops.Platform.{Platform}
use safe_fs_ops.Database.{Database, Tx, value_error, err, transaction}
use safe_fs_ops.Database.Keeps.{Keeps, Keeps-call}
use safe_fs_ops.Journal.Runs.{
  create_operation_run, create_operation_phase, update_operation_run_status,
  update_operation_phase_status, record_operation_run_terminal_diagnostic,
  record_operation_phase_terminal_diagnostic,
}
use safe_fs_ops.Journal.RunSteps.{
  Step, runs, phases, updates_run, updates_phase, diagnoses_run, diagnoses_phase,
}
use safe_fs_ops.Journal.Frame.Runs.{
  besides_runs, besides_phases, Keeps-create_operation_run_in, Keeps-create_operation_phase_in,
  Keeps-update_operation_run_status_in, Keeps-update_operation_phase_status_in,
  Keeps-run_diagnostic_in, Keeps-phase_diagnostic_in,
}

-- All tables but those of runs and phases.
abbrev pub elsewhere : Database → Database
elsewhere db = record db { runs = []; phases = [] }

run_call :
    {A : Type 0} (refuse : Bool) (body : Tx A) (db : Database)
    → Keeps besides_runs body
    → elsewhere (if refuse then (err value_error, db) else transaction body db).1 ≡ elsewhere db
run_call refuse body db keeps =
    let same = Keeps-call value_error refuse body db keeps in ground arith

phase_call :
    {A : Type 0} (refuse : Bool) (body : Tx A) (db : Database)
    → Keeps besides_phases body
    → elsewhere (if refuse then (err value_error, db) else transaction body db).1 ≡ elsewhere db
phase_call refuse body db keeps =
    let same = Keeps-call value_error refuse body db keeps in ground arith

module _ ⦃p : Platform⦄ where
  pub Step-elsewhere : {db db' : Database} → Step db db' → elsewhere db' ≡ elsewhere db
  unfolding create_operation_run create_operation_phase update_operation_run_status
      update_operation_phase_status record_operation_run_terminal_diagnostic
      record_operation_phase_terminal_diagnostic
  Step-elsewhere {db} (runs request lease given fresh now) =
      run_call _ _ db (Keeps-create_operation_run_in request lease given fresh now)
  Step-elsewhere {db} (phases run request lease given fresh now) =
      phase_call _ _ db (Keeps-create_operation_phase_in run request lease given fresh now)
  Step-elsewhere {db} (updates_run id lease status now) =
      run_call _ _ db (Keeps-update_operation_run_status_in id lease status now)
  Step-elsewhere {db} (updates_phase id lease status now) =
      phase_call _ _ db (Keeps-update_operation_phase_status_in id lease status now)
  Step-elsewhere {db} (diagnoses_run id lease status now) =
      run_call _ _ db (Keeps-run_diagnostic_in id lease status now)
  Step-elsewhere {db} (diagnoses_phase id lease status now) =
      phase_call _ _ db (Keeps-phase_diagnostic_in id lease status now)
