-- ===== src/Journal/Batch/Transitions.antt =====
-- `_transition_batch` and the three `mark_` operations of operation_journal/journal_batch.py.
use safe_fs_ops.Prelude.{String, Option, none, some, if◌then◌else◌, ◌==◌, ℕ}
use safe_fs_ops.Platform.{Platform}
use safe_fs_ops.Database.{
  Database, BatchPhase, BatchRow, LeaseRecord, value_error, runtime_error, Result, err, Tx, ◌>>=◌,
  ◌>>◌, reads, transaction,
}
use safe_fs_ops.Journal.Rows.{batch_row, update_batch}
use safe_fs_ops.Journal.Guards.{expect, require_valid_transition, require_batch_for_write}

module _ ⦃p : Platform⦄ where
  abbrev pub moved : BatchPhase → Option String → String → ℕ → BatchRow → BatchRow
  moved phase message status_payload now r = record r {
    phase = phase;
    status_message = message;
    status_payload = status_payload;
    updated_at = p.isoformat now;
  }

  unfoldable pub transition_batch_in :
      String → LeaseRecord → BatchPhase → Option String → String → ℕ → Tx BatchRow
  unfolding expect require_valid_transition
  transition_batch_in id lease phase message status_payload now = do
    row ← require_batch_for_write id lease now
    require_valid_transition row.phase phase
    update_batch id (moved phase message status_payload now)
    found ← reads (batch_row id)
    expect runtime_error found

  unfoldable pub transition_batch :
      String
      → LeaseRecord
      → BatchPhase
      → Option String
      → String
      → ℕ
      → Database
      → Result BatchRow × Database
  unfolding transaction
  transition_batch id lease phase message status_payload now db =
      if id == ""
      then (err value_error, db)
      else transaction (transition_batch_in id lease phase message status_payload now) db

  unfoldable pub mark_attempting :
      String → LeaseRecord → String → ℕ → Database → Result BatchRow × Database
  unfolding transition_batch
  mark_attempting id lease payload now =
      transition_batch id lease BatchPhase.attempting none payload now

  unfoldable pub mark_succeeded :
      String → LeaseRecord → String → ℕ → Database → Result BatchRow × Database
  unfolding transition_batch
  mark_succeeded id lease result now =
      transition_batch id lease BatchPhase.succeeded none result now

  unfoldable pub mark_failed :
      String → LeaseRecord → String → String → ℕ → Database → Result BatchRow × Database
  unfolding transition_batch
  mark_failed id lease error observed now db =
      if error == ""
      then (err value_error, db)
      else transition_batch id lease BatchPhase.failed (some error) observed now db
