-- ===== src/Journal/Batch/Create.antt =====
-- `create_batch` of operation_journal/journal_batch.py, with journal_batch_links.py.
use safe_fs_ops.Prelude.{
  String, not, ◌||◌, Option, none, some, if◌then◌else◌, ◌==◌, ℕ, or_else, is_some,
}
use safe_fs_ops.Platform.{Platform, absent}
use safe_fs_ops.Database.{
  Database, BatchPhase, BatchRow, LeaseRecord, value_error, runtime_error, Result, err, Tx, ◌>>=◌,
  ◌>>◌, pure, raise_if, reads, transaction,
}
use safe_fs_ops.Lease.{require_current_lease}
use safe_fs_ops.Journal.Rows.{
  batch_row, batch_row_by_idempotency_key, insert_batch, operation_run_row, operation_phase_row,
}
use safe_fs_ops.Journal.Guards.{
  BatchRequest, expect, token_digest, require_matching_idempotent_batch,
}

-- `_require_valid_batch_operation_links`
unfoldable pub require_phase_link : String → Option String → Tx (Unit {0})
unfolding expect
require_phase_link run none = pure tt
require_phase_link run (some phase) = do
  found ← reads (operation_phase_row phase)
  row ← expect value_error found
  raise_if (not (row.operation_run_id == run)) value_error
  raise_if (not (row.status == "active")) value_error

unfoldable pub require_valid_batch_operation_links :
    String → String → Option String → Option String → Tx (Unit {0})
unfolding require_phase_link expect
require_valid_batch_operation_links run_id owner none phase = raise_if (is_some phase) value_error
require_valid_batch_operation_links run_id owner (some run) phase = do
  found ← reads (operation_run_row run)
  row ← expect value_error found
  raise_if (not (row.run_id == run_id)) value_error
  raise_if (not (row.owner == owner)) value_error
  raise_if (not (row.status == "active")) value_error
  require_phase_link run phase

module _ ⦃p : Platform⦄ where
  unfoldable pub new_batch : BatchRequest → LeaseRecord → String → ℕ → BatchRow
  new_batch request lease id now = record {
    batch_id = id;
    idempotency_key = request.idempotency_key;
    lease_name = lease.name;
    lease_owner = some lease.owner;
    lease_fencing_token = lease.fencing_token;
    lease_token_digest = some (token_digest lease);
    owner = request.owner;
    run_id = request.run_id;
    operation_run_id = request.operation_run_id;
    operation_phase_id = request.operation_phase_id;
    resource_key = request.resource_key;
    claim_owner = request.claim_owner;
    claim_scope = request.claim_scope;
    phase = BatchPhase.planned;
    payload = request.payload;
    status_message = none;
    status_payload = p.payload_json absent;
    created_at = p.isoformat now;
    updated_at = p.isoformat now;
  }

  -- The row that the idempotency key found, or a new one.
  unfoldable pub replay_or_insert :
      BatchRequest → LeaseRecord → String → ℕ → Option BatchRow → Tx BatchRow
  unfolding expect
  replay_or_insert request lease id now none = do
    require_valid_batch_operation_links request.run_id request.owner request.operation_run_id
        request.operation_phase_id
    insert_batch (new_batch request lease id now)
    found ← reads (batch_row id)
    expect runtime_error found
  replay_or_insert request lease id now (some row) = do
    require_matching_idempotent_batch row lease request
    pure row

  unfoldable pub create_batch_in : BatchRequest → LeaseRecord → String → ℕ → Tx BatchRow
  create_batch_in request lease id now = do
    require_current_lease lease now
    existing ← reads (batch_row_by_idempotency_key request.idempotency_key)
    replay_or_insert request lease id now existing

  unfoldable pub create_batch :
      BatchRequest
      → LeaseRecord
      → Option String
      → String
      → ℕ
      → Database
      → Result BatchRow × Database
  unfolding transaction
  create_batch request lease batch_id fresh now db =
      if request.idempotency_key == "" || (request.owner == "" || request.run_id == "")
      then (err value_error, db)
      else transaction (create_batch_in request lease (or_else batch_id fresh) now) db
