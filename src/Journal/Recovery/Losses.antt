-- ===== src/Journal/Recovery/Losses.antt =====
-- `record_interrupted_recovery_desired` and `record_lease_lost_recovery_desired` of
-- operation_journal/journal_recovery.py: batches whose lease was superseded or lost.
use safe_fs_ops.Prelude.{String, Option, some, if◌then◌else◌, ◌==◌, ℕ, or_else}
use safe_fs_ops.Platform.{Platform}
use safe_fs_ops.Database.{
  Database, BatchPhase, BatchRow, RecoveryRow, LeaseRecord, batch_not_found, value_error,
  lease_mismatch, runtime_error, Result, err, Tx, ◌>>=◌, ◌>>◌, raise_if, reads, transaction,
}
use safe_fs_ops.Lease.{require_current_lease, lease_is_current}
use safe_fs_ops.Journal.Rows.{batch_row, next_sequence, recovery_row, update_batch, insert_recovery}
use safe_fs_ops.Journal.Guards.{
  expect, token_digest, require_recovery_takeover, require_lease_lost_recovery_marker,
}
use safe_fs_ops.Journal.Batch.{moved}
use safe_fs_ops.Journal.Recovery.Attempts.{new_recovery}

module _ ⦃p : Platform⦄ where
  abbrev pub interrupted : LeaseRecord → Option String → String → ℕ → BatchRow → BatchRow
  interrupted lease reason payload now r = record r {
    phase = BatchPhase.recovery_desired;
    lease_fencing_token = lease.fencing_token;
    lease_owner = some lease.owner;
    lease_token_digest = some (token_digest lease);
    status_message = reason;
    status_payload = payload;
    updated_at = p.isoformat now;
  }

  unfoldable pub record_interrupted_recovery_desired_in :
      String → LeaseRecord → Option String → Option String → String → String → ℕ → Tx RecoveryRow
  unfolding expect
  record_interrupted_recovery_desired_in id lease key reason payload recovery_id now = do
    require_current_lease lease now
    found ← reads (batch_row id)
    row ← expect batch_not_found found
    require_recovery_takeover row lease key
    sequence ← reads (next_sequence id)
    update_batch id (interrupted lease reason payload now)
    insert_recovery
        (new_recovery recovery_id id sequence BatchPhase.recovery_desired reason payload now)
    inserted ← reads (recovery_row recovery_id)
    expect runtime_error inserted

  unfoldable pub record_interrupted_recovery_desired :
      String
      → LeaseRecord
      → Option String
      → Option String
      → String
      → Option String
      → String
      → ℕ
      → Database
      → Result RecoveryRow × Database
  unfolding transaction
  record_interrupted_recovery_desired id lease key reason payload recovery_id fresh now db =
      if id == ""
      then (err value_error, db)
      else transaction
          (record_interrupted_recovery_desired_in id lease key reason payload
            (or_else recovery_id fresh) now)
          db

  unfoldable pub record_lease_lost_recovery_desired_in :
      String → LeaseRecord → Option String → Option String → String → String → ℕ → Tx RecoveryRow
  unfolding expect
  record_lease_lost_recovery_desired_in id lease key reason payload recovery_id now = do
    current ← reads (lease_is_current lease now)
    raise_if current lease_mismatch
    found ← reads (batch_row id)
    row ← expect batch_not_found found
    require_lease_lost_recovery_marker row lease key
    sequence ← reads (next_sequence id)
    update_batch id (moved BatchPhase.recovery_desired reason payload now)
    insert_recovery
        (new_recovery recovery_id id sequence BatchPhase.recovery_desired reason payload now)
    inserted ← reads (recovery_row recovery_id)
    expect runtime_error inserted

  unfoldable pub record_lease_lost_recovery_desired :
      String
      → LeaseRecord
      → Option String
      → Option String
      → String
      → Option String
      → String
      → ℕ
      → Database
      → Result RecoveryRow × Database
  unfolding transaction
  record_lease_lost_recovery_desired id lease key reason payload recovery_id fresh now db =
      if id == ""
      then (err value_error, db)
      else transaction
          (record_lease_lost_recovery_desired_in id lease key reason payload
            (or_else recovery_id fresh) now)
          db
