-- ===== src/Journal/Cleanup.antt =====
-- JournalArtifactCleanupMixin of operation_journal/journal_artifact_cleanup.py: the cleanup of a
-- batch's artifacts, record by record.
use safe_fs_ops.Prelude.{
  String, Bool, true, false, not, ◌&&◌, ◌||◌, Option, none, some, if◌then◌else◌, ◌==◌, ℕ, or_else,
  nat_eq, ltb,
}
use safe_fs_ops.Platform.{Platform}
use safe_fs_ops.Database.{
  Database, BatchPhase, BatchRow, ArtifactCleanupRow, CleanupStatus, CleanupTrigger, LeaseRecord,
  value_error, runtime_error, batch_not_found, lease_mismatch, idempotency_mismatch,
  invalid_transition, Result, err, Tx, ◌>>=◌, ◌>>◌, pure, raise_if, reads, branch, transaction,
}
use safe_fs_ops.Lease.{require_current_lease}
use safe_fs_ops.Journal.Phase.{is_complete, is_succeeded}
use safe_fs_ops.Journal.Rows.{
  batch_row, next_sequence, latest_artifact_cleanup_row, artifact_cleanup_row,
  insert_artifact_cleanup,
}
use safe_fs_ops.Journal.Guards.{expect, require_batch_resource_key}
use safe_fs_ops.Journal.Actions.{asks_other}

-- _ARTIFACT_CLEANUP_TRANSITIONS
unfoldable pub cleanup_transition : CleanupStatus → CleanupStatus → Bool
cleanup_transition CleanupStatus.planned CleanupStatus.planned = false
cleanup_transition CleanupStatus.planned _ = true
cleanup_transition CleanupStatus.attempting CleanupStatus.succeeded = true
cleanup_transition CleanupStatus.attempting CleanupStatus.skipped = true
cleanup_transition CleanupStatus.attempting CleanupStatus.failed = true
cleanup_transition CleanupStatus.attempting CleanupStatus.manual_intervention_required = true
cleanup_transition _ _ = false

abbrev pub is_planned_cleanup : CleanupStatus → Bool
is_planned_cleanup CleanupStatus.planned = true
is_planned_cleanup _ = false

-- _ARTIFACT_CLEANUP_RETRYABLE_STATUSES
abbrev pub is_retryable : CleanupStatus → Bool
is_retryable CleanupStatus.failed = true
is_retryable CleanupStatus.manual_intervention_required = true
is_retryable _ = false

abbrev is_supported : CleanupTrigger → Bool
is_supported (CleanupTrigger.unsupported _) = false
is_supported _ = true

abbrev is_attempting : BatchPhase → Bool
is_attempting BatchPhase.attempting = true
is_attempting _ = false

abbrev is_recovery_succeeded : BatchPhase → Bool
is_recovery_succeeded BatchPhase.recovery_succeeded = true
is_recovery_succeeded _ = false

-- _BATCH_PHASE_BY_TRIGGER
unfoldable pub require_batch_phase_for_trigger :
    BatchRow → CleanupTrigger → CleanupStatus → Tx (Unit {0})
require_batch_phase_for_trigger row CleanupTrigger.deferred_cleanup status =
    raise_if (is_planned_cleanup status && not (is_attempting row.phase)) invalid_transition
require_batch_phase_for_trigger row CleanupTrigger.commit_cleanup status =
    raise_if (is_planned_cleanup status && not (is_succeeded row.phase)) invalid_transition
require_batch_phase_for_trigger row CleanupTrigger.recovery_cleanup status =
    raise_if (is_planned_cleanup status && not (is_recovery_succeeded row.phase)) invalid_transition
require_batch_phase_for_trigger row (CleanupTrigger.unsupported _) status =
    raise_if (is_planned_cleanup status) value_error

-- Planning: the first cleanup of an artifact, or a retry after one that failed.
unfoldable pub prepare_plan :
    CleanupTrigger → Option String → Option ArtifactCleanupRow → Tx (Option ArtifactCleanupRow)
prepare_plan trigger key none = do raise_if (not (is_supported trigger)) value_error; pure none
prepare_plan trigger key (some e) = do
  raise_if (not (is_supported trigger)) value_error
  raise_if (asks_other key e.resource_key) idempotency_mismatch
  raise_if (not (is_retryable e.status)) invalid_transition
  pure (some e)

-- A transition of the latest record of the artifact.
unfoldable pub prepare_step :
    CleanupStatus → Option String → Option ArtifactCleanupRow → Tx (Option ArtifactCleanupRow)
unfolding expect
prepare_step status key existing = do
  e ← expect invalid_transition existing
  raise_if (asks_other key e.resource_key) idempotency_mismatch
  raise_if (not (cleanup_transition e.status status)) invalid_transition
  pure (some e)

-- `trigger` counts only where a cleanup is planned; the mixin passes None elsewhere.
unfoldable pub prepare_artifact_cleanup_write :
    String
    → String
    → CleanupStatus
    → CleanupTrigger
    → Option String
    → Tx (Option ArtifactCleanupRow)
unfolding prepare_plan prepare_step
prepare_artifact_cleanup_write id artifact status trigger key = do
  existing ← reads (latest_artifact_cleanup_row id artifact)
  branch (is_planned_cleanup status) (prepare_plan trigger key existing)
      (prepare_step status key existing)

-- A planned retry takes the new trigger; a transition keeps the stored one.
abbrev pub next_trigger :
    CleanupStatus → CleanupTrigger → Option ArtifactCleanupRow → CleanupTrigger
next_trigger status trigger none = trigger
next_trigger status trigger (some e) =
    if is_planned_cleanup status && is_retryable e.status then trigger else e.trigger

abbrev pub next_key : Option String → Option ArtifactCleanupRow → Option String
next_key key none = key
next_key key (some e) = e.resource_key

module _ ⦃p : Platform⦄ where
  -- An older batch may still be cleaned up under a newer lease once it is complete.
  unfoldable pub require_batch_for_artifact_cleanup_write : String → LeaseRecord → ℕ → Tx BatchRow
  unfolding expect
  require_batch_for_artifact_cleanup_write id lease now = do
    require_current_lease lease now
    found ← reads (batch_row id)
    row ← expect batch_not_found found
    raise_if (not (row.lease_name == lease.name)) lease_mismatch
    raise_if
        (not (
          nat_eq row.lease_fencing_token lease.fencing_token
          || ltb row.lease_fencing_token lease.fencing_token && is_complete row.phase))
        lease_mismatch
    pure row

  unfoldable pub new_cleanup :
      String
      → String
      → String
      → ℕ
      → CleanupTrigger
      → CleanupStatus
      → Option String
      → Option String
      → String
      → ℕ
      → ArtifactCleanupRow
  new_cleanup record_id artifact id sequence trigger status key reason payload now = record {
    cleanup_record_id = record_id;
    artifact_id = artifact;
    batch_id = id;
    sequence = sequence;
    trigger = trigger;
    status = status;
    resource_key = key;
    reason = reason;
    payload = payload;
    created_at = p.isoformat now;
  }

  unfoldable pub record_artifact_cleanup_in :
      String
      → LeaseRecord
      → String
      → CleanupStatus
      → CleanupTrigger
      → Option String
      → Option String
      → String
      → String
      → ℕ
      → Tx ArtifactCleanupRow
  unfolding expect require_batch_resource_key require_batch_phase_for_trigger
  record_artifact_cleanup_in id lease artifact status trigger key reason payload record_id now = do
    row ← require_batch_for_artifact_cleanup_write id lease now
    existing ← prepare_artifact_cleanup_write id artifact status trigger key
    sequence ← reads (next_sequence id)
    require_batch_phase_for_trigger row (next_trigger status trigger existing) status
    require_batch_resource_key row (next_key key existing)
    insert_artifact_cleanup (
        new_cleanup record_id artifact id sequence (next_trigger status trigger existing) status
          (next_key key existing) reason payload now)
    found ← reads (artifact_cleanup_row record_id)
    expect runtime_error found

  unfoldable pub record_artifact_cleanup :
      String
      → LeaseRecord
      → String
      → CleanupStatus
      → CleanupTrigger
      → Option String
      → Option String
      → String
      → Option String
      → String
      → ℕ
      → Database
      → Result ArtifactCleanupRow × Database
  unfolding transaction
  record_artifact_cleanup id lease artifact status trigger key reason payload record_id fresh now
        db =
      if id == "" || artifact == ""
      then (err value_error, db)
      else transaction
          (record_artifact_cleanup_in id lease artifact status trigger key reason payload
            (or_else record_id fresh) now)
          db
