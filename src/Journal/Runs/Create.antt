-- ===== src/Journal/Runs/Create.antt =====
-- `create_operation_run` and `create_operation_phase` of journal_operation_runs.py.
use safe_fs_ops.Prelude.{
  ℕ, String, Bool, not, ◌&&◌, ◌||◌, Option, none, some, ◌==◌, if◌then◌else◌, or_else,
}
use safe_fs_ops.Table.{insert}
use safe_fs_ops.Table.Keys.{has}
use safe_fs_ops.Platform.{Platform}
use safe_fs_ops.Database.{
  Database, OperationRunRow, OperationPhaseRow, LeaseRecord, Error, idempotency_mismatch,
  integrity_error, runtime_error, value_error, Result, ok, err, Tx, ◌>>=◌, ◌>>◌, pure, reads,
  transaction,
}
use safe_fs_ops.Lease.{require_current_lease}
use safe_fs_ops.Journal.Rows.{
  run_key, phase_key, operation_run_row, operation_phase_row, operation_phase_row_by_identity,
}
use safe_fs_ops.Journal.Guards.{expect}
use safe_fs_ops.Journal.Runs.Guards.{
  RunRequest, PhaseRequest, require_matching_operation_run, require_matching_operation_phase,
  require_operation_run_for_write,
}

-- `_raise_operation_run_integrity_error`, from the row that has the id.
abbrev run_clash : OperationRunRow → Option OperationRunRow → Error
run_clash new none = integrity_error
run_clash new (some stored) =
    if not (stored.run_id == new.run_id) || not (stored.owner == new.owner)
    then idempotency_mismatch
    else integrity_error

-- INSERT INTO operation_runs, with its PRIMARY KEY
unfoldable pub insert_run : OperationRunRow → Tx (Unit {0})
insert_run new db = elim (insert (has run_key new.operation_run_id) new db.runs) [
  | none ↦ err (run_clash new (operation_run_row new.operation_run_id db))
  | some rows ↦ ok (tt, record db { runs = rows })
]

abbrev same_identity : OperationPhaseRow → OperationPhaseRow → Bool
same_identity new r = r.operation_run_id == new.operation_run_id && r.phase_name == new.phase_name

-- `_raise_operation_phase_integrity_error`, from the row that has the id, if that is what clashed.
abbrev phase_clash : OperationPhaseRow → Option OperationPhaseRow → Error
phase_clash new none = value_error
phase_clash new (some stored) =
    if not (stored.operation_run_id == new.operation_run_id)
      || not (stored.phase_name == new.phase_name)
    then idempotency_mismatch
    else integrity_error

-- INSERT INTO operation_phases, with its PRIMARY KEY and its UNIQUE constraint
unfoldable pub insert_phase : OperationPhaseRow → Tx (Unit {0})
insert_phase new db =
    elim (insert (λ r. has phase_key new.operation_phase_id r || same_identity new r) new
      db.phases) [
        | none ↦ err (phase_clash new (operation_phase_row new.operation_phase_id db))
        | some rows ↦ ok (tt, record db { phases = rows })
      ]

-- `None` for no id.
abbrev pub given_run : Option String → Database → Option OperationRunRow
given_run none db = none
given_run (some id) db = operation_run_row id db

module _ ⦃p : Platform⦄ where
  unfoldable pub new_run : RunRequest → LeaseRecord → String → ℕ → OperationRunRow
  new_run request lease id now = record {
    operation_run_id = id;
    run_id = request.run_id;
    owner = request.owner;
    lease_name = lease.name;
    lease_fencing_token = lease.fencing_token;
    status = request.status;
    payload = request.payload;
    created_at = p.isoformat now;
    updated_at = p.isoformat now;
  }

  unfoldable pub replay_or_insert_run :
      RunRequest → LeaseRecord → String → ℕ → Option OperationRunRow → Tx OperationRunRow
  unfolding expect
  replay_or_insert_run request lease id now none = do
    insert_run (new_run request lease id now)
    found ← reads (operation_run_row id)
    expect runtime_error found
  replay_or_insert_run request lease id now (some row) = do
    require_matching_operation_run row request lease
    pure row

  unfoldable pub create_operation_run_in :
      RunRequest → LeaseRecord → Option String → String → ℕ → Tx OperationRunRow
  create_operation_run_in request lease given fresh now = do
    require_current_lease lease now
    existing ← reads (given_run given)
    replay_or_insert_run request lease (or_else given fresh) now existing

  unfoldable pub create_operation_run :
      RunRequest
      → LeaseRecord
      → Option String
      → String
      → ℕ
      → Database
      → Result OperationRunRow × Database
  unfolding transaction
  create_operation_run request lease given fresh now db =
      if request.run_id == "" || (request.owner == "" || request.status == "")
      then (err value_error, db)
      else transaction (create_operation_run_in request lease given fresh now) db

  unfoldable pub new_phase : PhaseRequest → String → String → ℕ → OperationPhaseRow
  new_phase request run id now = record {
    operation_phase_id = id;
    operation_run_id = run;
    phase_name = request.phase_name;
    status = request.status;
    phase_order = request.phase_order;
    payload = request.payload;
    created_at = p.isoformat now;
    updated_at = p.isoformat now;
  }

  unfoldable pub replay_or_insert_phase :
      PhaseRequest
      → String
      → Option String
      → String
      → ℕ
      → Option OperationPhaseRow
      → Tx OperationPhaseRow
  unfolding expect
  replay_or_insert_phase request run given fresh now none = do
    insert_phase (new_phase request run (or_else given fresh) now)
    found ← reads (operation_phase_row (or_else given fresh))
    expect runtime_error found
  replay_or_insert_phase request run given fresh now (some row) = do
    require_matching_operation_phase row request given
    pure row

  unfoldable pub create_operation_phase_in :
      String → PhaseRequest → LeaseRecord → Option String → String → ℕ → Tx OperationPhaseRow
  create_operation_phase_in run request lease given fresh now = do
    require_current_lease lease now
    row ← require_operation_run_for_write run lease
    existing ← reads (operation_phase_row_by_identity row.operation_run_id request.phase_name)
    replay_or_insert_phase request row.operation_run_id given fresh now existing

  unfoldable pub create_operation_phase :
      String
      → PhaseRequest
      → LeaseRecord
      → Option String
      → String
      → ℕ
      → Database
      → Result OperationPhaseRow × Database
  unfolding transaction
  create_operation_phase run request lease given fresh now db =
      if run == "" || (request.phase_name == "" || request.status == "")
      then (err value_error, db)
      else transaction (create_operation_phase_in run request lease given fresh now) db
