-- ===== src/Journal/Frame.antt =====
-- The journal of batches writes its own tables only: those of leases, claims, operation runs and
-- their phases are as before.
pub mod Batches
pub mod Recovery
pub mod Runs
pub mod Steps
pub mod RunSteps
use safe_fs_ops.Prelude.{ℕ, String, ◌≡◌, refl, Bool, true, false, Option, none, some, List, arith}
use safe_fs_ops.Table.{update, insert}
use safe_fs_ops.Platform.{Platform}
use safe_fs_ops.Database.{
  Database, BatchPhase, BatchRow, OperationRow, CheckpointRow, RecoveryRow, RecoveryActionRow,
  ArtifactCleanupRow, LeaseRow, ClaimRow, OperationRunRow, OperationPhaseRow, LeaseRecord, Error,
  Result, ok, err, Tx,
}
use safe_fs_ops.Database.Keeps.{
  Keeps, keeps_rules, Keeps-pure, Keeps-raise, Keeps-reads, Keeps-raise_if, Keeps-bind,
  Keeps-branch,
}
use safe_fs_ops.Lease.{require_current_lease}
use safe_fs_ops.Journal.Rows.{
  update_batch, insert_batch, insert_operation, insert_checkpoint, insert_recovery,
  insert_recovery_action, insert_artifact_cleanup,
}
use safe_fs_ops.Journal.Guards.{
  expect, require_batch_for_write, require_active_recovery_attempt,
  record_recovery_takeover_handoff, take_over_batch, bind_or_take_over,
  require_batch_for_recovery_write, require_batch_for_recovery_action_write,
  require_recovering_batch,
}

-- The tables that the journal of batches does not write.
abbrev pub others :
    Database → List LeaseRow × List ClaimRow × List OperationRunRow × List OperationPhaseRow
others db = (db.leases, db.claims, db.runs, db.phases)

pub Keeps-expect :
    {B A : Type 0} {part : Database → B} (e : Error) (found : Option A)
    → Keeps part (expect e found)
unfolding expect
Keeps-expect e none = Keeps-raise e
Keeps-expect e (some a) = Keeps-pure a

pub Keeps-update_batch : (id : String) (f : BatchRow → BatchRow) → Keeps others (update_batch id f)
unfolding update_batch
Keeps-update_batch id f = record { at = λ db db' a e. ground arith }

pub Keeps-insert_batch : (new : BatchRow) → Keeps others (insert_batch new)
unfolding insert_batch insert
Keeps-insert_batch new = record { at = λ db db' a e. ground arith }

pub Keeps-insert_operation : (new : OperationRow) → Keeps others (insert_operation new)
unfolding insert_operation insert
Keeps-insert_operation new = record { at = λ db db' a e. ground arith }

pub Keeps-insert_checkpoint : (new : CheckpointRow) → Keeps others (insert_checkpoint new)
unfolding insert_checkpoint insert
Keeps-insert_checkpoint new = record { at = λ db db' a e. ground arith }

pub Keeps-insert_recovery : (new : RecoveryRow) → Keeps others (insert_recovery new)
unfolding insert_recovery insert
Keeps-insert_recovery new = record { at = λ db db' a e. ground arith }

pub Keeps-insert_recovery_action :
    (new : RecoveryActionRow) → Keeps others (insert_recovery_action new)
unfolding insert_recovery_action insert
Keeps-insert_recovery_action new = record { at = λ db db' a e. ground arith }

pub Keeps-insert_artifact_cleanup :
    (new : ArtifactCleanupRow) → Keeps others (insert_artifact_cleanup new)
unfolding insert_artifact_cleanup insert
Keeps-insert_artifact_cleanup new = record { at = λ db db' a e. ground arith }

pub ruleset statement_rules = (
  keeps_rules, Keeps-expect, Keeps-update_batch, Keeps-insert_batch, Keeps-insert_operation,
  Keeps-insert_checkpoint, Keeps-insert_recovery, Keeps-insert_recovery_action,
  Keeps-insert_artifact_cleanup,
)

pub Keeps-require_active_recovery_attempt :
    (id : String) (attempt : Option String)
    → Keeps others (require_active_recovery_attempt id attempt)
unfolding require_active_recovery_attempt
Keeps-require_active_recovery_attempt id none = search statement_rules depth 30 fits 4000
Keeps-require_active_recovery_attempt id (some attempt) = search statement_rules depth 30 fits 4000

module _ ⦃p : Platform⦄ where
  pub Keeps-require_current_lease :
      {B : Type 0} {part : Database → B} (lease : LeaseRecord) (now : ℕ)
      → Keeps part (require_current_lease lease now)
  unfolding require_current_lease
  Keeps-require_current_lease lease now = record { at = λ db db' a e. ground arith }

  pub Keeps-require_batch_for_write :
      (id : String) (lease : LeaseRecord) (now : ℕ)
      → Keeps others (require_batch_for_write id lease now)
  unfolding require_batch_for_write
  Keeps-require_batch_for_write id lease now =
      search (statement_rules, Keeps-require_current_lease) depth 30 fits 4000

  pub Keeps-bind_or_take_over :
      (allowed : Bool) (id : String) (row : BatchRow) (lease : LeaseRecord) (fresh : String)
      (now : ℕ)
      → Keeps others (bind_or_take_over allowed id row lease fresh now)
  unfolding bind_or_take_over take_over_batch record_recovery_takeover_handoff
  Keeps-bind_or_take_over allowed id row lease fresh now = search statement_rules depth 30 fits 4000

  pub Keeps-require_batch_for_recovery_write :
      (id : String) (lease : LeaseRecord) (requested : BatchPhase) (fresh : String) (now : ℕ)
      → Keeps others (require_batch_for_recovery_write id lease requested fresh now)
  unfolding require_batch_for_recovery_write
  Keeps-require_batch_for_recovery_write id lease requested fresh now =
      search (statement_rules, Keeps-require_current_lease, Keeps-bind_or_take_over) depth 30 fits
        4000

  pub Keeps-require_batch_for_recovery_action_write :
      (id : String) (lease : LeaseRecord) (fresh : String) (now : ℕ)
      → Keeps others (require_batch_for_recovery_action_write id lease fresh now)
  unfolding require_batch_for_recovery_action_write require_recovering_batch
  Keeps-require_batch_for_recovery_action_write id lease fresh now =
      search (statement_rules, Keeps-require_current_lease, Keeps-bind_or_take_over) depth 30 fits
        4000
