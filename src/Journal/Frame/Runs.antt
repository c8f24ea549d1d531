-- ===== src/Journal/Frame/Runs.antt =====
-- The operations of Journal.Runs write the tables of runs and phases only, and those on phases
-- leave the runs alone, as those on runs the phases.
use safe_fs_ops.Prelude.{ℕ, String, Option, none, some, [], arith}
use safe_fs_ops.Platform.{Platform}
use safe_fs_ops.Database.{Database, LeaseRecord, OperationRunRow, OperationPhaseRow}
use safe_fs_ops.Database.Keeps.{Keeps, keeps_rules}
use safe_fs_ops.Journal.Frame.{Keeps-require_current_lease, Keeps-expect}
use safe_fs_ops.Table.{insert}
use safe_fs_ops.Journal.Runs.{
  RunRequest, PhaseRequest, require_matching_operation_run, require_matching_operation_phase,
  require_operation_run_for_write, require_operation_phase_for_write,
  require_operation_run_for_terminal_diagnostic, require_operation_phase_for_terminal_diagnostic,
  insert_run, insert_phase, update_run, update_phase, replay_or_insert_run, replay_or_insert_phase,
  create_operation_run_in, create_operation_phase_in, set_run_status, set_phase_status,
  update_operation_run_status_in, update_operation_phase_status_in, run_diagnostic_in,
  phase_diagnostic_in,
}

-- What the calls on runs do not write, and what the calls on phases do not.
abbrev pub besides_runs : Database → Database
besides_runs db = record db { runs = [] }

abbrev pub besides_phases : Database → Database
besides_phases db = record db { phases = [] }

Keeps-insert_run : (new : OperationRunRow) → Keeps besides_runs (insert_run new)
unfolding insert_run insert
Keeps-insert_run new = record { at = λ db db' a e. ground arith }

Keeps-insert_phase : (new : OperationPhaseRow) → Keeps besides_phases (insert_phase new)
unfolding insert_phase insert
Keeps-insert_phase new = record { at = λ db db' a e. ground arith }

Keeps-update_run :
    (id : String) (f : OperationRunRow → OperationRunRow) → Keeps besides_runs (update_run id f)
unfolding update_run
Keeps-update_run id f = record { at = λ db db' a e. ground arith }

Keeps-update_phase :
    (id : String) (f : OperationPhaseRow → OperationPhaseRow)
    → Keeps besides_phases (update_phase id f)
unfolding update_phase
Keeps-update_phase id f = record { at = λ db db' a e. ground arith }

ruleset run_rules = (
  keeps_rules, Keeps-expect, Keeps-insert_run, Keeps-insert_phase, Keeps-update_run,
  Keeps-update_phase,
)

module _ ⦃p : Platform⦄ where
  Keeps-replay_or_insert_run :
      (request : RunRequest) (lease : LeaseRecord) (id : String) (now : ℕ)
      (existing : Option OperationRunRow)
      → Keeps besides_runs (replay_or_insert_run request lease id now existing)
  unfolding replay_or_insert_run require_matching_operation_run
  Keeps-replay_or_insert_run request lease id now none = search run_rules depth 30 fits 4000
  Keeps-replay_or_insert_run request lease id now (some row) = search run_rules depth 30 fits 4000

  Keeps-replay_or_insert_phase :
      (request : PhaseRequest) (run : String) (given : Option String) (fresh : String) (now : ℕ)
      (existing : Option OperationPhaseRow)
      → Keeps besides_phases (replay_or_insert_phase request run given fresh now existing)
  unfolding replay_or_insert_phase require_matching_operation_phase
  Keeps-replay_or_insert_phase request run given fresh now none =
      search run_rules depth 30 fits 4000
  Keeps-replay_or_insert_phase request run given fresh now (some row) =
      search run_rules depth 30 fits 4000

  pub Keeps-create_operation_run_in :
      (request : RunRequest) (lease : LeaseRecord) (given : Option String) (fresh : String)
      (now : ℕ)
      → Keeps besides_runs (create_operation_run_in request lease given fresh now)
  unfolding create_operation_run_in
  Keeps-create_operation_run_in request lease given fresh now =
      search (run_rules, Keeps-require_current_lease, Keeps-replay_or_insert_run) depth 30 fits 4000

  pub Keeps-create_operation_phase_in :
      (run : String) (request : PhaseRequest) (lease : LeaseRecord) (given : Option String)
      (fresh : String) (now : ℕ)
      → Keeps besides_phases (create_operation_phase_in run request lease given fresh now)
  unfolding create_operation_phase_in require_operation_run_for_write
  Keeps-create_operation_phase_in run request lease given fresh now =
      search (run_rules, Keeps-require_current_lease, Keeps-replay_or_insert_phase) depth 30 fits
        4000

  pub Keeps-update_operation_run_status_in :
      (id : String) (lease : LeaseRecord) (status : String) (now : ℕ)
      → Keeps besides_runs (update_operation_run_status_in id lease status now)
  unfolding update_operation_run_status_in require_operation_run_for_write set_run_status
  Keeps-update_operation_run_status_in id lease status now =
      search (run_rules, Keeps-require_current_lease) depth 30 fits 4000

  pub Keeps-update_operation_phase_status_in :
      (id : String) (lease : LeaseRecord) (status : String) (now : ℕ)
      → Keeps besides_phases (update_operation_phase_status_in id lease status now)
  unfolding update_operation_phase_status_in require_operation_phase_for_write
      require_operation_run_for_write set_phase_status
  Keeps-update_operation_phase_status_in id lease status now =
      search (run_rules, Keeps-require_current_lease) depth 30 fits 4000

  pub Keeps-run_diagnostic_in :
      (id : String) (lease : LeaseRecord) (status : String) (now : ℕ)
      → Keeps besides_runs (run_diagnostic_in id lease status now)
  unfolding run_diagnostic_in require_operation_run_for_terminal_diagnostic set_run_status
  Keeps-run_diagnostic_in id lease status now =
      search (run_rules, Keeps-require_current_lease) depth 30 fits 4000

  pub Keeps-phase_diagnostic_in :
      (id : String) (lease : LeaseRecord) (status : String) (now : ℕ)
      → Keeps besides_phases (phase_diagnostic_in id lease status now)
  unfolding phase_diagnostic_in require_operation_phase_for_terminal_diagnostic
      require_operation_run_for_terminal_diagnostic set_phase_status
  Keeps-phase_diagnostic_in id lease status now =
      search (run_rules, Keeps-require_current_lease) depth 30 fits 4000
