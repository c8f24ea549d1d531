-- ===== src/Journal/Rows.antt =====
-- operation_journal/journal_rows.py: the SELECT statements of the journal, and its INSERTs with the
-- PRIMARY KEY and UNIQUE constraints of journal_schema.py. The rows that an INSERT refers to are
-- read by the guards before it, so foreign keys are not modelled apart.
use safe_fs_ops.Prelude.{
  ℕ, ◌+◌, max, String, Bool, ◌&&◌, ◌||◌, Option, none, some, ◌==◌, nat_eq, is_some,
}
use safe_fs_ops.Table.{select, update, insert, max_of, latest}
use safe_fs_ops.Table.Keys.{has}
use safe_fs_ops.Database.{
  Database, BatchRow, OperationRow, CheckpointRow, RecoveryRow, RecoveryActionRow,
  ArtifactCleanupRow, OperationRunRow, OperationPhaseRow, Result, ok, err, integrity_error, Tx,
}
use safe_fs_ops.Journal.Phase.{is_recovering}

abbrev pub batch_key : BatchRow → String
batch_key r = r.batch_id

abbrev pub batch_row : String → Database → Option BatchRow
batch_row id db = select (has batch_key id) db.batches

unfoldable pub batch_row_by_idempotency_key : String → Database → Option BatchRow
batch_row_by_idempotency_key key db = select (λ r. r.idempotency_key == key) db.batches

abbrev pub of_operation : String → OperationRow → Bool
of_operation id r = r.batch_id == id

abbrev pub of_checkpoint : String → CheckpointRow → Bool
of_checkpoint id r = r.batch_id == id

abbrev pub of_recovery : String → RecoveryRow → Bool
of_recovery id r = r.batch_id == id

abbrev pub of_action : String → RecoveryActionRow → Bool
of_action id r = r.batch_id == id

abbrev pub of_cleanup : String → ArtifactCleanupRow → Bool
of_cleanup id r = r.batch_id == id

abbrev pub recovery_sequence : RecoveryRow → ℕ
recovery_sequence r = r.sequence

-- One more than every sequence number that a record of the batch has, in five tables.
unfoldable pub next_sequence : String → Database → ℕ
next_sequence id db =
    max (max_of (λ r. r.sequence) (of_operation id) db.operations) (
      max (max_of (λ r. r.sequence) (of_checkpoint id) db.checkpoints) (
        max (max_of recovery_sequence (of_recovery id) db.recoveries) (
          max (max_of (λ r. r.sequence) (of_action id) db.actions)
            (max_of (λ r. r.sequence) (of_cleanup id) db.cleanups))))
    + 1

unfoldable pub batch_has_journal_records : String → Database → Bool
batch_has_journal_records id db =
    is_some (select (of_operation id) db.operations)
    || (is_some (select (of_checkpoint id) db.checkpoints)
        || (is_some (select (of_recovery id) db.recoveries)
            || (is_some (select (of_action id) db.actions)
                || is_some (select (of_cleanup id) db.cleanups))))

abbrev pub operation_row : String → Database → Option OperationRow
operation_row id db = select (λ r. r.operation_id == id) db.operations

abbrev pub checkpoint_row : String → Database → Option CheckpointRow
checkpoint_row id db = select (λ r. r.checkpoint_id == id) db.checkpoints

abbrev pub recovery_row : String → Database → Option RecoveryRow
recovery_row id db = select (λ r. r.recovery_id == id) db.recoveries

abbrev pub recovery_action_row : String → Database → Option RecoveryActionRow
recovery_action_row id db = select (λ r. r.action_record_id == id) db.actions

abbrev pub artifact_cleanup_row : String → Database → Option ArtifactCleanupRow
artifact_cleanup_row id db = select (λ r. r.cleanup_record_id == id) db.cleanups

abbrev pub latest_recovery_row : String → Database → Option RecoveryRow
latest_recovery_row id db = latest recovery_sequence (of_recovery id) db.recoveries

abbrev pub latest_recovering_recovery_row : String → Database → Option RecoveryRow
latest_recovering_recovery_row id db =
    latest recovery_sequence (λ r. of_recovery id r && is_recovering r.phase) db.recoveries

unfoldable pub latest_recovery_action_for_attempt :
    String → String → Database → Option RecoveryActionRow
latest_recovery_action_for_attempt attempt action db =
    latest (λ r. r.sequence) (λ r. r.recovery_attempt_id == attempt && r.action_id == action)
      db.actions

unfoldable pub latest_artifact_cleanup_row : String → String → Database → Option ArtifactCleanupRow
latest_artifact_cleanup_row id artifact db =
    latest (λ r. r.sequence) (λ r. of_cleanup id r && r.artifact_id == artifact) db.cleanups

abbrev pub run_key : OperationRunRow → String
run_key r = r.operation_run_id

abbrev pub phase_key : OperationPhaseRow → String
phase_key r = r.operation_phase_id

-- operation_journal/journal_operation_run_rows.py
abbrev pub operation_run_row : String → Database → Option OperationRunRow
operation_run_row id db = select (has run_key id) db.runs

abbrev pub operation_phase_row : String → Database → Option OperationPhaseRow
operation_phase_row id db = select (has phase_key id) db.phases

unfoldable pub operation_phase_row_by_identity :
    String → String → Database → Option OperationPhaseRow
operation_phase_row_by_identity run name db =
    select (λ r. r.operation_run_id == run && r.phase_name == name) db.phases

-- UPDATE operation_batches SET ... WHERE batch_id = ?
unfoldable pub update_batch : String → (BatchRow → BatchRow) → Tx (Unit {0})
update_batch id f db = ok (tt, record db { batches = update (has batch_key id) f db.batches })

abbrev or_integrity : {A : Type 0} → Option A → (A → Database) → Result (Unit {0} × Database)
or_integrity none store = err integrity_error
or_integrity (some rows) store = ok (tt, store rows)

unfoldable pub insert_batch : BatchRow → Tx (Unit {0})
insert_batch new db =
    or_integrity
      (insert (λ r. r.batch_id == new.batch_id || r.idempotency_key == new.idempotency_key) new
        db.batches)
      (λ rows. record db { batches = rows })

unfoldable pub insert_operation : OperationRow → Tx (Unit {0})
insert_operation new db =
    or_integrity
      (insert
        (λ r.
          r.operation_id == new.operation_id
          || (of_operation new.batch_id r && nat_eq r.sequence new.sequence))
        new db.operations)
      (λ rows. record db { operations = rows })

unfoldable pub insert_checkpoint : CheckpointRow → Tx (Unit {0})
insert_checkpoint new db =
    or_integrity
      (insert
        (λ r.
          r.checkpoint_id == new.checkpoint_id
          || (of_checkpoint new.batch_id r && nat_eq r.sequence new.sequence))
        new db.checkpoints)
      (λ rows. record db { checkpoints = rows })

unfoldable pub insert_recovery : RecoveryRow → Tx (Unit {0})
insert_recovery new db =
    or_integrity
      (insert
        (λ r.
          r.recovery_id == new.recovery_id
          || (of_recovery new.batch_id r && nat_eq r.sequence new.sequence))
        new db.recoveries)
      (λ rows. record db { recoveries = rows })

unfoldable pub insert_recovery_action : RecoveryActionRow → Tx (Unit {0})
insert_recovery_action new db =
    or_integrity
      (insert
        (λ r.
          r.action_record_id == new.action_record_id
          || (of_action new.batch_id r && nat_eq r.sequence new.sequence))
        new db.actions)
      (λ rows. record db { actions = rows })

unfoldable pub insert_artifact_cleanup : ArtifactCleanupRow → Tx (Unit {0})
insert_artifact_cleanup new db =
    or_integrity
      (insert
        (λ r.
          r.cleanup_record_id == new.cleanup_record_id
          || (of_cleanup new.batch_id r && nat_eq r.sequence new.sequence))
        new db.cleanups)
      (λ rows. record db { cleanups = rows })
