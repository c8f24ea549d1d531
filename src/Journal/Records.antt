-- ===== src/Journal/Records.antt =====
-- The operations of the journal that record something about a batch and leave its row alone:
-- `append_operation`, `record_checkpoint`, `record_recovery_action`, `record_artifact_cleanup`.
use safe_fs_ops.Prelude.{ℕ, String, ◌≡◌, true, Option, none, some, [], ◌∷◌, ◌++◌, arith, inl, inr}
use safe_fs_ops.Platform.{Platform}
use safe_fs_ops.Database.{
  Database, BatchRow, OperationRow, CheckpointRow, RecoveryActionRow, ActionStatus, LeaseRecord, ok,
  Result-cases,
}
use safe_fs_ops.Lease.{lease_is_current}
use safe_fs_ops.Journal.Phase.{is_appendable}
use safe_fs_ops.Journal.Rows.{
  batch_row, next_sequence, insert_operation, insert_checkpoint, insert_recovery_action,
}
use safe_fs_ops.Journal.Guards.{
  expect, require_batch_for_write, require_batch_resource_key, require_appendable_phase,
  require_batch_for_recovery_action_write, require_active_recovery_attempt,
}
use safe_fs_ops.Journal.Batch.{
  new_operation, append_operation_in, new_checkpoint, checkpoint_batch,
  require_checkpoint_operation, record_checkpoint_in,
}
use safe_fs_ops.Journal.Actions.{
  action_identity, new_action, prepare_recovery_action_write, require_new_action,
  require_existing_action, record_recovery_action_in,
}
use safe_fs_ops.Journal.Inversion.{
  require_batch_for_write_inv, insert_operation_inv, insert_checkpoint_inv,
  insert_recovery_action_inv,
}
use safe_fs_ops.Journal.Attempt.{recovery_action_write_bound}

module _ ⦃p : Platform⦄ where
  -- An operation that was appended has the next sequence number of its batch, and nothing else
  -- has changed.
  pub append_operation_in_inv :
      (id : String) (lease : LeaseRecord) (operation_type : String) (key : Option String)
      (payload operation_id : String) (now : ℕ) (db db' : Database) (a : OperationRow)
      → append_operation_in id lease operation_type key payload operation_id now db ≡ ok (a, db')
      → (row : BatchRow) × (lease_is_current lease now db ≡ true)
        × (batch_row id db ≡ some row)
        × (row.lease_fencing_token ≡ lease.fencing_token)
        × (is_appendable row.phase ≡ true)
        × (db' ≡ record db {
          operations =
              db.operations
              ++ new_operation operation_id row.batch_id
                  (next_sequence id db)
                  operation_type
                  key
                  payload
                  now
                ∷ [];
        })
  unfolding append_operation_in expect require_appendable_phase require_batch_resource_key
  append_operation_in_inv id lease operation_type key payload operation_id now db db' a e =
      elim (Result-cases (require_batch_for_write id lease now db)) [
        | inr (_, refused) ↦ absurd (ground arith)
        | inl ((row, mid), write) ↦
            let (same, cur, found, name, token) =
              require_batch_for_write_inv id lease now db mid row write in
            let new =
              new_operation operation_id row.batch_id (next_sequence id mid) operation_type key
                payload now in
            elim (Result-cases (insert_operation new mid)) [
              | inr (_, refused) ↦ absurd (ground arith)
              | inl ((_, last), done) ↦ (
                row,
                cur,
                found,
                token,
                ground arith,
                ground (arith, insert_operation_inv new mid last done),
              )
            ]
      ]

  require_checkpoint_operation_inv :
      (id key : String) (operation : Option String) (db db' : Database)
      → require_checkpoint_operation id key operation db ≡ ok (tt, db')
      → db' ≡ db
  unfolding require_checkpoint_operation expect
  require_checkpoint_operation_inv id key none db db' e = ground arith
  require_checkpoint_operation_inv id key (some operation) db db' e = ground arith

  checkpoint_batch_inv :
      (id : String) (lease : LeaseRecord) (attempt : Option String) (fresh : String) (now : ℕ)
      (db db' : Database) (row : BatchRow)
      → checkpoint_batch id lease attempt fresh now db ≡ ok (row, db')
      → db' ≡ db
  unfolding checkpoint_batch require_appendable_phase
  checkpoint_batch_inv id lease none fresh now db db' row e =
      elim (Result-cases (require_batch_for_write id lease now db)) [
        | inr (_, refused) ↦ absurd (ground arith)
        | inl ((stored, mid), write) ↦
            let (same, _, _, _, _) = require_batch_for_write_inv id lease now db mid stored write in
            ground arith
      ]
  checkpoint_batch_inv id lease (some attempt) fresh now db db' row e =
      elim (Result-cases (require_batch_for_recovery_action_write id lease fresh now db)) [
        | inr (_, refused) ↦ absurd (ground arith)
        | inl ((stored, mid), write) ↦
            elim (Result-cases (require_active_recovery_attempt id (some attempt) mid)) [
              | inr (_, refused) ↦ absurd (ground arith)
              | inl ((found, last), active) ↦
                  let (_, same, _, _, _, _, _) =
                    recovery_action_write_bound id attempt lease fresh now db mid last stored found
                      write active in
                  ground arith
            ]
      ]

  pub record_checkpoint_in_inv :
      (id : String) (lease : LeaseRecord) (key checkpoint_type payload : String)
      (operation : Option String) (checkpoint_id : String) (attempt : Option String)
      (fresh : String) (now : ℕ) (db db' : Database) (a : CheckpointRow)
      → record_checkpoint_in id lease key checkpoint_type payload operation checkpoint_id attempt
          fresh now db
        ≡ ok (a, db')
      → db'.batches ≡ db.batches
  unfolding record_checkpoint_in expect require_batch_resource_key
  record_checkpoint_in_inv id lease key checkpoint_type payload operation checkpoint_id attempt
        fresh now db db' a e =
      elim (Result-cases (checkpoint_batch id lease attempt fresh now db)) [
        | inr (_, refused) ↦ absurd (ground arith)
        | inl ((row, mid), write) ↦
            elim (Result-cases (require_checkpoint_operation id key operation mid)) [
              | inr (_, refused) ↦ absurd (ground arith)
              | inl ((_, mid'), linked) ↦
                  let same = checkpoint_batch_inv id lease attempt fresh now db mid row write in
                  let same' = require_checkpoint_operation_inv id key operation mid mid' linked in
                  let new =
                    new_checkpoint checkpoint_id row.batch_id (next_sequence id mid') operation key
                      checkpoint_type payload now in
                  elim (Result-cases (insert_checkpoint new mid')) [
                    | inr (_, refused) ↦ absurd (ground arith)
                    | inl ((_, last), done) ↦
                        ground (arith, insert_checkpoint_inv new mid' last done)
                  ]
            ]
      ]

  prepare_recovery_action_write_bound :
      (id attempt : String) (status : ActionStatus) (action action_type key : Option String)
      (db db' : Database) (existing : Option RecoveryActionRow)
      → prepare_recovery_action_write id attempt status action action_type key db
        ≡ ok (existing, db')
      → db' ≡ db
  unfolding prepare_recovery_action_write require_new_action require_existing_action expect
  prepare_recovery_action_write_bound id attempt status none action_type key db db' existing e =
      ground arith
  prepare_recovery_action_write_bound id attempt status (some action) action_type key db db'
        existing e =
      ground arith

  pub record_recovery_action_in_inv :
      (id : String) (lease : LeaseRecord) (attempt : String) (status : ActionStatus)
      (action_type key reason : Option String) (payload : String) (action : Option String)
      (record_id fresh fresh' : String) (now : ℕ) (db db' : Database) (a : RecoveryActionRow)
      → record_recovery_action_in id lease attempt status action_type key reason payload action
          record_id fresh fresh' now db
        ≡ ok (a, db')
      → db'.batches ≡ db.batches
  unfolding record_recovery_action_in expect require_batch_resource_key
  record_recovery_action_in_inv id lease attempt status action_type key reason payload action
        record_id fresh fresh' now db db' a e =
      elim (Result-cases (require_batch_for_recovery_action_write id lease fresh' now db)) [
        | inr (_, refused) ↦ absurd (ground arith)
        | inl ((row, mid), write) ↦
            elim (Result-cases (require_active_recovery_attempt id (some attempt) mid)) [
              | inr (_, refused) ↦ absurd (ground arith)
              | inl ((found, mid'), active) ↦
                  elim (Result-cases
                    (prepare_recovery_action_write id attempt status action action_type key mid')) [
                      | inr (_, refused) ↦ absurd (ground arith)
                      | inl ((existing, last), prepared) ↦
                          let (_, same, _, _, _, _, _) =
                            recovery_action_write_bound id attempt lease fresh' now db mid mid' row
                              found write active in
                          let same' =
                            prepare_recovery_action_write_bound id attempt status action action_type
                              key mid' last existing prepared in
                          let new =
                            new_action record_id
                              (action_identity existing action action_type key fresh)
                              found.recovery_id id (next_sequence id last) status reason payload
                              now in
                          elim (Result-cases (insert_recovery_action new last)) [
                            | inr (_, refused) ↦ absurd (ground arith)
                            | inl ((_, end), done) ↦
                                ground (arith, insert_recovery_action_inv new last end done)
                          ]
                    ]
            ]
      ]
