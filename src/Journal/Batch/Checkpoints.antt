-- ===== src/Journal/Batch/Checkpoints.antt =====
-- `record_checkpoint` of operation_journal/journal_batch.py.
use safe_fs_ops.Prelude.{
  String, not, ◌||◌, Option, none, some, if◌then◌else◌, ◌==◌, ℕ, opt_eq, or_else,
}
use safe_fs_ops.Platform.{Platform}
use safe_fs_ops.Database.{
  Database, BatchRow, CheckpointRow, LeaseRecord, value_error, runtime_error, Result, err, Tx,
  ◌>>=◌, ◌>>◌, pure, raise_if, reads, transaction,
}
use safe_fs_ops.Journal.Rows.{next_sequence, operation_row, checkpoint_row, insert_checkpoint}
use safe_fs_ops.Journal.Guards.{
  expect, require_batch_resource_key, require_appendable_phase, require_active_recovery_attempt,
  require_batch_for_write, require_batch_for_recovery_action_write,
}

module _ ⦃p : Platform⦄ where
  unfoldable pub checkpoint_batch : String → LeaseRecord → Option String → String → ℕ → Tx BatchRow
  unfolding require_appendable_phase
  checkpoint_batch id lease none fresh now = do
    row ← require_batch_for_write id lease now
    require_appendable_phase row.phase
    pure row
  checkpoint_batch id lease (some attempt) fresh now = do
    row ← require_batch_for_recovery_action_write id lease fresh now
    require_active_recovery_attempt id (some attempt)
    pure row

  -- The operation that a checkpoint names is one of the batch, on the same resource.
  unfoldable pub require_checkpoint_operation : String → String → Option String → Tx (Unit {0})
  unfolding expect
  require_checkpoint_operation id key none = pure tt
  require_checkpoint_operation id key (some operation_id) = do
    found ← reads (operation_row operation_id)
    row ← expect value_error found
    raise_if (not (row.batch_id == id)) value_error
    raise_if (not (opt_eq row.resource_key (some key))) value_error

  unfoldable pub new_checkpoint :
      String → String → ℕ → Option String → String → String → String → ℕ → CheckpointRow
  new_checkpoint checkpoint_id id sequence operation_id key checkpoint_type payload now = record {
    checkpoint_id = checkpoint_id;
    batch_id = id;
    sequence = sequence;
    operation_id = operation_id;
    resource_key = key;
    checkpoint_type = checkpoint_type;
    payload = payload;
    created_at = p.isoformat now;
  }

  unfoldable pub record_checkpoint_in :
      String
      → LeaseRecord
      → String
      → String
      → String
      → Option String
      → String
      → Option String
      → String
      → ℕ
      → Tx CheckpointRow
  unfolding expect require_batch_resource_key
  record_checkpoint_in id lease key checkpoint_type payload operation_id checkpoint_id attempt fresh
        now =
      do
        row ← checkpoint_batch id lease attempt fresh now
        require_batch_resource_key row (some key)
        require_checkpoint_operation id key operation_id
        sequence ← reads (next_sequence id)
        insert_checkpoint (
            new_checkpoint checkpoint_id row.batch_id sequence operation_id key checkpoint_type
              payload now)
        found ← reads (checkpoint_row checkpoint_id)
        expect runtime_error found

  -- `fresh` is the uuid of the checkpoint, `fresh'` that of a takeover record.
  unfoldable pub record_checkpoint :
      String
      → LeaseRecord
      → String
      → String
      → String
      → Option String
      → Option String
      → Option String
      → String
      → String
      → ℕ
      → Database
      → Result CheckpointRow × Database
  unfolding transaction
  record_checkpoint id lease key checkpoint_type payload operation_id checkpoint_id attempt fresh
        fresh' now db =
      if id == "" || (key == "" || checkpoint_type == "")
      then (err value_error, db)
      else transaction
          (record_checkpoint_in id lease key checkpoint_type payload operation_id
            (or_else checkpoint_id fresh) attempt fresh' now)
          db
