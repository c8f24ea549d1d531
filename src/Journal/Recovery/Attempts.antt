-- ===== src/Journal/Recovery/Attempts.antt =====
-- Recovery attempts of operation_journal/journal_recovery.py under the lease of the batch or a
-- newer one, and the attempt that `read_recovery_context` of journal_recovery_reads.py finds.
use safe_fs_ops.Prelude.{
  String, Bool, ◌&&◌, ◌||◌, Option, none, some, if◌then◌else◌, ◌==◌, ℕ, or_else,
}
use safe_fs_ops.Platform.{Platform}
use safe_fs_ops.Database.{
  Database, BatchPhase, BatchRow, RecoveryRow, LeaseRecord, batch_not_found, value_error,
  runtime_error, recovery_context, Result, err, Tx, ◌>>=◌, ◌>>◌, pure, reads, transaction, branch,
}
use safe_fs_ops.Journal.Phase.{
  is_recovering, is_recovery_desired, is_succeeded, is_recovery_outcome,
}
use safe_fs_ops.Journal.Rows.{
  batch_row, next_sequence, recovery_row, latest_recovering_recovery_row, update_batch,
  insert_recovery,
}
use safe_fs_ops.Journal.Guards.{
  expect, require_valid_transition, require_active_recovery_attempt,
  require_batch_for_recovery_write, require_batch_for_recovery_attempt_check,
}
use safe_fs_ops.Journal.Batch.{moved}

module _ ⦃p : Platform⦄ where
  unfoldable pub new_recovery :
      String → String → ℕ → BatchPhase → Option String → String → ℕ → RecoveryRow
  new_recovery recovery_id id sequence phase reason payload now = record {
    recovery_id = recovery_id;
    batch_id = id;
    sequence = sequence;
    phase = phase;
    reason = reason;
    payload = payload;
    created_at = p.isoformat now;
  }

  unfoldable pub start_recovery_in :
      String
      → LeaseRecord
      → Option String
      → String
      → String
      → String
      → ℕ
      → Tx (BatchRow × RecoveryRow)
  unfolding expect require_valid_transition
  start_recovery_in id lease reason payload recovery_id fresh' now = do
    writable ← require_batch_for_recovery_write id lease BatchPhase.recovering fresh' now
    require_valid_transition writable.0.phase BatchPhase.recovering
    sequence ← reads (next_sequence id)
    update_batch id (moved BatchPhase.recovering reason payload now)
    insert_recovery (new_recovery recovery_id id sequence BatchPhase.recovering reason payload now)
    updated ← reads (batch_row id)
    inserted ← reads (recovery_row recovery_id)
    batch ← expect runtime_error updated
    attempt ← expect runtime_error inserted
    pure (batch, attempt)

  unfoldable pub start_recovery :
      String
      → LeaseRecord
      → Option String
      → String
      → Option String
      → String
      → String
      → ℕ
      → Database
      → Result (BatchRow × RecoveryRow) × Database
  unfolding transaction
  start_recovery id lease reason payload recovery_id fresh fresh' now db =
      if id == ""
      then (err value_error, db)
      else transaction
          (start_recovery_in id lease reason payload (or_else recovery_id fresh) fresh' now) db

  -- Also the check that `run_with_active_recovery_attempt` makes before it calls back.
  unfoldable pub require_active_recovery_attempt_in :
      String → LeaseRecord → String → ℕ → Tx RecoveryRow
  require_active_recovery_attempt_in id lease attempt now = do
    require_batch_for_recovery_attempt_check id lease now
    require_active_recovery_attempt id (some attempt)

  -- The transitions that recovery adds to _VALID_TRANSITIONS.
  abbrev pub is_extra_transition : Bool → BatchPhase → BatchPhase → Bool
  is_extra_transition taken_over now next =
      taken_over && (is_recovering now && is_recovery_desired next)
      || is_succeeded now && is_recovery_desired next

  unfoldable pub require_recovery_transition : Bool → BatchPhase → BatchPhase → Tx (Unit {0})
  unfolding require_valid_transition
  require_recovery_transition taken_over now next =
      branch (is_extra_transition taken_over now next) (pure tt) (require_valid_transition now next)

  -- RECOVERY_SUCCEEDED and RECOVERY_FAILED are recorded for the active attempt only.
  unfoldable pub require_outcome_attempt : BatchPhase → String → Option String → Tx (Unit {0})
  require_outcome_attempt phase id attempt =
      branch (is_recovery_outcome phase) (do require_active_recovery_attempt id attempt; pure tt)
        (pure tt)

  unfoldable pub record_recovery_phase_in :
      String
      → LeaseRecord
      → BatchPhase
      → Option String
      → Option String
      → String
      → String
      → String
      → ℕ
      → Tx RecoveryRow
  unfolding expect
  record_recovery_phase_in id lease phase attempt reason payload recovery_id fresh' now = do
    writable ← require_batch_for_recovery_write id lease phase fresh' now
    require_recovery_transition writable.1 writable.0.phase phase
    require_outcome_attempt phase id attempt
    sequence ← reads (next_sequence id)
    update_batch id (moved phase reason payload now)
    insert_recovery (new_recovery recovery_id id sequence phase reason payload now)
    inserted ← reads (recovery_row recovery_id)
    expect runtime_error inserted

  unfoldable pub record_recovery_phase :
      String
      → LeaseRecord
      → BatchPhase
      → Option String
      → Option String
      → String
      → Option String
      → String
      → String
      → ℕ
      → Database
      → Result RecoveryRow × Database
  unfolding transaction
  record_recovery_phase id lease phase attempt reason payload recovery_id fresh fresh' now db =
      if id == ""
      then (err value_error, db)
      else transaction
          (record_recovery_phase_in id lease phase attempt reason payload
            (or_else recovery_id fresh) fresh' now)
          db

  unfoldable pub record_recovery_desired :
      String
      → LeaseRecord
      → Option String
      → String
      → Option String
      → String
      → String
      → ℕ
      → Database
      → Result RecoveryRow × Database
  unfolding record_recovery_phase
  record_recovery_desired id lease reason payload recovery_id fresh fresh' now =
      record_recovery_phase id lease BatchPhase.recovery_desired none reason payload recovery_id
        fresh fresh' now

  unfoldable pub record_recovery_succeeded :
      String
      → LeaseRecord
      → Option String
      → Option String
      → String
      → Option String
      → String
      → String
      → ℕ
      → Database
      → Result RecoveryRow × Database
  unfolding record_recovery_phase
  record_recovery_succeeded id lease attempt reason payload recovery_id fresh fresh' now =
      record_recovery_phase id lease BatchPhase.recovery_succeeded attempt reason payload
        recovery_id fresh fresh' now

  unfoldable pub record_recovery_failed :
      String
      → LeaseRecord
      → Option String
      → Option String
      → String
      → Option String
      → String
      → String
      → ℕ
      → Database
      → Result RecoveryRow × Database
  unfolding record_recovery_phase
  record_recovery_failed id lease attempt reason payload recovery_id fresh fresh' now =
      record_recovery_phase id lease BatchPhase.recovery_failed attempt reason payload recovery_id
        fresh fresh' now

-- The active attempt that `read_recovery_context` puts into the context of a batch.
unfoldable pub read_recovery_attempt : String → Tx (Option RecoveryRow)
unfolding expect
read_recovery_attempt id = do
  found ← reads (batch_row id)
  row ← expect batch_not_found found
  if is_recovering row.phase
      then (do
        newest ← reads (latest_recovering_recovery_row id)
        attempt ← expect recovery_context newest
        pure (some attempt))
      else pure none
