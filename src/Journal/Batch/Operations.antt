-- ===== src/Journal/Batch/Operations.antt =====
-- `append_operation` and `start_batch_operation` of operation_journal/journal_batch.py.
use safe_fs_ops.Prelude.{String, ◌||◌, Option, none, some, if◌then◌else◌, ◌==◌, ℕ, nat_eq, or_else}
use safe_fs_ops.Platform.{Platform, started_operation}
use safe_fs_ops.Database.{
  Database, BatchPhase, BatchRow, OperationRow, LeaseRecord, batch_not_found, value_error,
  runtime_error, Result, err, Tx, ◌>>=◌, ◌>>◌, pure, reads, branch, transaction,
}
use safe_fs_ops.Lease.{require_current_lease}
use safe_fs_ops.Journal.Rows.{
  batch_row, next_sequence, operation_row, update_batch, insert_operation,
}
use safe_fs_ops.Journal.Guards.{
  expect, require_batch_resource_key, require_appendable_phase, rebound, require_batch_for_write,
  require_startable_batch,
}

module _ ⦃p : Platform⦄ where
  -- The row of `append_operation` and `start_batch_operation`.
  unfoldable pub new_operation :
      String → String → ℕ → String → Option String → String → ℕ → OperationRow
  new_operation operation_id id sequence operation_type key payload now = record {
    operation_id = operation_id;
    batch_id = id;
    sequence = sequence;
    operation_type = operation_type;
    resource_key = key;
    payload = payload;
    created_at = p.isoformat now;
  }

  unfoldable pub append_operation_in :
      String → LeaseRecord → String → Option String → String → String → ℕ → Tx OperationRow
  unfolding expect require_appendable_phase require_batch_resource_key
  append_operation_in id lease operation_type key payload operation_id now = do
    row ← require_batch_for_write id lease now
    require_batch_resource_key row key
    require_appendable_phase row.phase
    sequence ← reads (next_sequence id)
    insert_operation
        (new_operation operation_id row.batch_id sequence operation_type key payload now)
    found ← reads (operation_row operation_id)
    expect runtime_error found

  unfoldable pub append_operation :
      String
      → LeaseRecord
      → String
      → Option String
      → String
      → Option String
      → String
      → ℕ
      → Database
      → Result OperationRow × Database
  unfolding transaction
  append_operation id lease operation_type key payload operation_id fresh now db =
      if id == "" || operation_type == ""
      then (err value_error, db)
      else transaction
          (append_operation_in id lease operation_type key payload (or_else operation_id fresh) now)
          db

  abbrev pub started : String → ℕ → BatchRow → BatchRow
  started status_payload now r = record r {
    phase = BatchPhase.attempting;
    status_message = none;
    status_payload = status_payload;
    updated_at = p.isoformat now;
  }

  -- `value if value is not None else other`
  abbrev pub given_or : Option String → String → String
  given_or none other = other
  given_or (some text) other = text

  -- A batch that an older lease planned is bound to this lease first.
  unfoldable pub rebind_planned : BatchRow → LeaseRecord → String → ℕ → Tx BatchRow
  unfolding expect
  rebind_planned row lease id now =
      branch (nat_eq row.lease_fencing_token lease.fencing_token) (pure row) (do
        update_batch id (rebound lease now)
        again ← reads (batch_row id)
        expect runtime_error again)

  unfoldable pub start_batch_operation_in :
      String
      → LeaseRecord
      → String
      → Option String
      → String
      → String
      → Option String
      → ℕ
      → Tx (BatchRow × OperationRow)
  unfolding expect
  start_batch_operation_in id lease operation_type key payload operation_id status_payload now = do
    require_current_lease lease now
    found ← reads (batch_row id)
    row ← expect batch_not_found found
    require_startable_batch row lease key
    rebind_planned row lease id now
    sequence ← reads (next_sequence id)
    insert_operation (new_operation operation_id id sequence operation_type key payload now)
    update_batch id
        (started (given_or status_payload (p.payload_json (started_operation operation_id))) now)
    updated ← reads (batch_row id)
    operation ← reads (operation_row operation_id)
    batch ← expect runtime_error updated
    first ← expect runtime_error operation
    pure (batch, first)

  unfoldable pub start_batch_operation :
      String
      → LeaseRecord
      → String
      → Option String
      → String
      → Option String
      → String
      → Option String
      → ℕ
      → Database
      → Result (BatchRow × OperationRow) × Database
  unfolding transaction
  start_batch_operation id lease operation_type key payload operation_id fresh status_payload now
        db =
      if id == "" || operation_type == ""
      then (err value_error, db)
      else transaction
          (start_batch_operation_in id lease operation_type key payload (or_else operation_id fresh)
            status_payload now)
          db
