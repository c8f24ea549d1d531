-- ===== src/Journal/Inversion.antt =====
-- What it means that a guard of journal_guards.py, or an INSERT, let an operation go on.
use safe_fs_ops.Prelude.{
  ℕ, ◌<◌, String, ◌≡◌, Bool, true, false, Option, none, some, [], ◌∷◌, ◌++◌, arith, nat_eq,
  Bool-cases, Option-cases, ◌⊎◌, inl, inr,
}
use safe_fs_ops.Table.{update, insert}
use safe_fs_ops.Table.Keys.{has}
use safe_fs_ops.Platform.{Platform, recovery_takeover}
use safe_fs_ops.Database.{
  Database, BatchPhase, BatchRow, RecoveryRow, OperationRow, CheckpointRow, RecoveryActionRow,
  ArtifactCleanupRow, LeaseRecord, Error, runtime_error, ok, Result-cases,
}
use safe_fs_ops.Lease.{require_current_lease, lease_is_current}
use safe_fs_ops.Journal.Rows.{
  batch_key, batch_row, next_sequence, update_batch, insert_recovery, insert_operation,
  insert_checkpoint, insert_recovery_action, insert_artifact_cleanup,
}
use safe_fs_ops.Journal.Guards.{
  take_over_batch, bind_or_take_over, expect, rebound, require_batch_for_write,
  record_recovery_takeover_handoff, require_batch_for_recovery_write, may_take_over,
}

pub expect_inv :
    {A : Type 0} (e : Error) (found : Option A) (db db' : Database) (a : A)
    → expect e found db ≡ ok (a, db')
    → (db' ≡ db) × (found ≡ some a)
unfolding expect
expect_inv e none db db' a h = cc
expect_inv e (some x) db db' a h = ground arith

pub insert_recovery_inv :
    (new : RecoveryRow) (db db' : Database)
    → insert_recovery new db ≡ ok (tt, db')
    → db' ≡ record db { recoveries = db.recoveries ++ new ∷ [] }
unfolding insert_recovery insert
insert_recovery_inv new db db' e = ground arith

pub insert_operation_inv :
    (new : OperationRow) (db db' : Database)
    → insert_operation new db ≡ ok (tt, db')
    → db' ≡ record db { operations = db.operations ++ new ∷ [] }
unfolding insert_operation insert
insert_operation_inv new db db' e = ground arith

pub insert_checkpoint_inv :
    (new : CheckpointRow) (db db' : Database)
    → insert_checkpoint new db ≡ ok (tt, db')
    → db' ≡ record db { checkpoints = db.checkpoints ++ new ∷ [] }
unfolding insert_checkpoint insert
insert_checkpoint_inv new db db' e = ground arith

pub insert_recovery_action_inv :
    (new : RecoveryActionRow) (db db' : Database)
    → insert_recovery_action new db ≡ ok (tt, db')
    → db' ≡ record db { actions = db.actions ++ new ∷ [] }
unfolding insert_recovery_action insert
insert_recovery_action_inv new db db' e = ground arith

pub insert_artifact_cleanup_inv :
    (new : ArtifactCleanupRow) (db db' : Database)
    → insert_artifact_cleanup new db ≡ ok (tt, db')
    → db' ≡ record db { cleanups = db.cleanups ++ new ∷ [] }
unfolding insert_artifact_cleanup insert
insert_artifact_cleanup_inv new db db' e = ground arith

module _ ⦃p : Platform⦄ where
  pub require_current_lease_inv :
      (lease : LeaseRecord) (now : ℕ) (db db' : Database)
      → require_current_lease lease now db ≡ ok (tt, db')
      → (db' ≡ db) × (lease_is_current lease now db ≡ true)
  unfolding require_current_lease
  require_current_lease_inv lease now db db' e = ground arith

  pub require_batch_for_write_inv :
      (id : String) (lease : LeaseRecord) (now : ℕ) (db db' : Database) (row : BatchRow)
      → require_batch_for_write id lease now db ≡ ok (row, db')
      → (db' ≡ db)
        × (lease_is_current lease now db ≡ true)
        × (batch_row id db ≡ some row)
        × (row.lease_name ≡ lease.name)
        × (row.lease_fencing_token ≡ lease.fencing_token)
  unfolding require_batch_for_write
  require_batch_for_write_inv id lease now db db' row e =
      elim (Result-cases (require_current_lease lease now db)) [
        | inl ((_, mid), held) ↦
            let (same, cur) = require_current_lease_inv lease now db mid held in ground arith
        | inr (_, lost) ↦ ground arith
      ]

  abbrev pub takeover_record : BatchRow → LeaseRecord → String → ℕ → ℕ → RecoveryRow
  takeover_record row lease fresh now sequence = record {
    recovery_id = fresh;
    batch_id = row.batch_id;
    sequence = sequence;
    phase = BatchPhase.recovery_desired;
    reason = some "recovery takeover";
    payload = p.payload_json (
        recovery_takeover row.lease_name row.lease_fencing_token lease.name lease.fencing_token
          row.phase);
    created_at = p.isoformat now;
  }

  -- The database after a takeover.
  abbrev pub handed_off : BatchRow → LeaseRecord → String → ℕ → Database → Database
  handed_off row lease fresh now db = record db {
    batches = update (has batch_key row.batch_id) (rebound lease now) db.batches;
    recoveries =
        db.recoveries ++ takeover_record row lease fresh now (next_sequence row.batch_id db) ∷ [];
  }

  pub record_recovery_takeover_handoff_inv :
      (row : BatchRow) (lease : LeaseRecord) (fresh : String) (now : ℕ) (db db' : Database)
      → record_recovery_takeover_handoff row lease fresh now db ≡ ok (tt, db')
      → db' ≡ handed_off row lease fresh now db
  unfolding record_recovery_takeover_handoff update_batch insert_recovery insert
  record_recovery_takeover_handoff_inv row lease fresh now db db' e = ground arith

  pub take_over_batch_inv :
      (id : String) (row : BatchRow) (lease : LeaseRecord) (fresh : String) (now : ℕ)
      (db db' : Database) (again : BatchRow)
      → take_over_batch id row lease fresh now db ≡ ok (again, db')
      → (db' ≡ handed_off row lease fresh now db) × (batch_row id db' ≡ some again)
  unfolding take_over_batch
  take_over_batch_inv id row lease fresh now db db' again e =
      elim (Result-cases (record_recovery_takeover_handoff row lease fresh now db)) [
        | inr (_, failed) ↦ ground arith
        | inl ((_, mid), handed) ↦ ground (
          arith,
          record_recovery_takeover_handoff_inv row lease fresh now db mid handed,
          expect_inv runtime_error (batch_row id mid) mid db' again,
        )
      ]

  -- Either the batch is bound to the lease, or it was handed off to it.
  abbrev pub Bound : LeaseRecord → BatchRow → Bool → Database → Database → Type 0
  Bound lease row taken_over db db' =
      (db' ≡ db) × (taken_over ≡ false) × (row.lease_fencing_token ≡ lease.fencing_token)

  abbrev pub TakenOver :
      LeaseRecord → Bool → String → ℕ → BatchRow → Bool → Database → Database → Type 0
  TakenOver lease allowed fresh now row taken_over db db' =
      (db' ≡ handed_off row lease fresh now db)
      × (taken_over ≡ true)
      × (row.lease_fencing_token < lease.fencing_token)
      × (allowed ≡ true)

  pub bind_or_take_over_inv :
      (allowed : Bool) (id : String) (row : BatchRow) (lease : LeaseRecord) (fresh : String)
      (now : ℕ) (db db' : Database) (written : BatchRow) (taken_over : Bool)
      → batch_row id db ≡ some row
      → bind_or_take_over allowed id row lease fresh now db ≡ ok ((written, taken_over), db')
      → (batch_row id db' ≡ some written)
        × (Bound lease row taken_over db db'
            ⊎ TakenOver lease allowed fresh now row taken_over db db')
  unfolding bind_or_take_over
  bind_or_take_over_inv allowed id row lease fresh now db db' written taken_over found e =
      elim (Bool-cases (nat_eq row.lease_fencing_token lease.fencing_token)) [
        | inl same ↦ ground arith
        | inr other ↦ elim (Result-cases (take_over_batch id row lease fresh now db)) [
          | inl ((again, mid), handed) ↦
              ground (arith, take_over_batch_inv id row lease fresh now db mid again handed)
          | inr (_, refused) ↦ ground arith
        ]
      ]

  pub require_batch_for_recovery_write_inv :
      (id : String) (lease : LeaseRecord) (requested : BatchPhase) (fresh : String) (now : ℕ)
      (db db' : Database) (written : BatchRow) (taken_over : Bool)
      → require_batch_for_recovery_write id lease requested fresh now db
        ≡ ok ((written, taken_over), db')
      → (row : BatchRow) × (lease_is_current lease now db ≡ true)
        × (batch_row id db ≡ some row)
        × (row.lease_name ≡ lease.name)
        × (batch_row id db' ≡ some written)
        × (Bound lease row taken_over db db'
            ⊎ TakenOver lease (may_take_over requested row.phase) fresh now row taken_over db db')
  unfolding require_batch_for_recovery_write require_current_lease
  require_batch_for_recovery_write_inv id lease requested fresh now db db' written taken_over e =
      elim (Bool-cases (lease_is_current lease now db)) [
        | inr lost ↦ absurd (ground arith)
        | inl cur ↦ elim (Option-cases (batch_row id db)) [
          | inl gone ↦ absurd (ground arith)
          | inr (row, found) ↦
              let same : row.lease_name ≡ lease.name = ground arith in
              let (there, how) =
                bind_or_take_over_inv (may_take_over requested row.phase) id row lease fresh now db
                  db' written taken_over found (ground arith) in
              (row, cur, found, same, there, how)
        ]
      ]
