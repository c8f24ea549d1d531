-- ===== src/Journal/Creation.antt =====
-- `create_batch` of journal_batch.py: a new batch, or the one that has the idempotency key; and
-- `record_artifact_cleanup` of journal_artifact_cleanup.py, which leaves the batch alone.
use safe_fs_ops.Prelude.{
  ℕ, String, ◌≡◌, true, Option, none, some, [], ◌∷◌, ◌++◌, arith, Bool-cases, Option-cases, ◌⊎◌,
  inl, inr,
}
use safe_fs_ops.Table.{insert}
use safe_fs_ops.Platform.{Platform}
use safe_fs_ops.Database.{
  Database, BatchRow, ArtifactCleanupRow, CleanupStatus, CleanupTrigger, LeaseRecord, ok,
  Result-cases,
}
use safe_fs_ops.Lease.{require_current_lease, lease_is_current}
use safe_fs_ops.Journal.Phase.{is_complete}
use safe_fs_ops.Journal.Rows.{
  latest_artifact_cleanup_row, batch_row_by_idempotency_key, batch_row, next_sequence,
  insert_artifact_cleanup, insert_batch,
}
use safe_fs_ops.Journal.Guards.{
  BatchRequest, expect, require_batch_resource_key, require_matching_idempotent_batch,
}
use safe_fs_ops.Journal.Batch.{
  create_batch_in, replay_or_insert, new_batch, require_valid_batch_operation_links,
  require_phase_link,
}
use safe_fs_ops.Journal.Cleanup.{
  next_trigger, next_key, new_cleanup, require_batch_for_artifact_cleanup_write,
  prepare_artifact_cleanup_write, prepare_plan, prepare_step, record_artifact_cleanup_in,
  require_batch_phase_for_trigger,
}
use safe_fs_ops.Journal.Inversion.{insert_artifact_cleanup_inv}

pub require_valid_batch_operation_links_inv :
    (run_id owner : String) (run phase : Option String) (db db' : Database)
    → require_valid_batch_operation_links run_id owner run phase db ≡ ok (tt, db')
    → db' ≡ db
unfolding require_valid_batch_operation_links require_phase_link expect
require_valid_batch_operation_links_inv run_id owner none phase db db' e = ground arith
require_valid_batch_operation_links_inv run_id owner (some run) none db db' e = ground arith
require_valid_batch_operation_links_inv run_id owner (some run) (some phase) db db' e = ground arith

pub insert_batch_inv :
    (new : BatchRow) (db db' : Database)
    → insert_batch new db ≡ ok (tt, db')
    → db' ≡ record db { batches = db.batches ++ new ∷ [] }
unfolding insert_batch insert
insert_batch_inv new db db' e = ground arith

module _ ⦃p : Platform⦄ where
  pub require_matching_idempotent_batch_inv :
      (row : BatchRow) (lease : LeaseRecord) (request : BatchRequest) (db db' : Database)
      → require_matching_idempotent_batch row lease request db ≡ ok (tt, db')
      → db' ≡ db
  unfolding require_matching_idempotent_batch
  require_matching_idempotent_batch_inv row lease request db db' e = ground arith

  -- Either the key was used and nothing changes, or one row is appended.
  pub create_batch_in_inv :
      (request : BatchRequest) (lease : LeaseRecord) (id : String) (now : ℕ) (db db' : Database)
      (a : BatchRow)
      → create_batch_in request lease id now db ≡ ok (a, db')
      → (db' ≡ db)
        ⊎ (db' ≡ record db { batches = db.batches ++ new_batch request lease id now ∷ [] })
  unfolding create_batch_in replay_or_insert require_current_lease expect
  create_batch_in_inv request lease id now db db' a e =
      elim (Option-cases (batch_row_by_idempotency_key request.idempotency_key db)) [
        | inr (row, used) ↦
            elim (Result-cases (require_matching_idempotent_batch row lease request db)) [
              | inr (_, refused) ↦ absurd (ground arith)
              | inl ((_, mid), agrees) ↦ inl (
                  ground
                    (arith, require_matching_idempotent_batch_inv row lease request db mid agrees))
            ]
        | inl unused ↦
            elim (Result-cases (
              require_valid_batch_operation_links request.run_id request.owner
                request.operation_run_id request.operation_phase_id db)) [
                  | inr (_, refused) ↦ absurd (ground arith)
                  | inl ((_, mid), linked) ↦
                      let same =
                        require_valid_batch_operation_links_inv request.run_id request.owner
                          request.operation_run_id request.operation_phase_id db mid linked in
                      elim (Result-cases (insert_batch (new_batch request lease id now) mid)) [
                        | inr (_, refused) ↦ absurd (ground arith)
                        | inl ((_, last), done) ↦ inr (
                            ground (
                              arith,
                              insert_batch_inv (new_batch request lease id now) mid last done,
                            ))
                      ]
                ]
      ]

  pub require_batch_for_artifact_cleanup_write_inv :
      (id : String) (lease : LeaseRecord) (now : ℕ) (db db' : Database) (row : BatchRow)
      → require_batch_for_artifact_cleanup_write id lease now db ≡ ok (row, db')
      → (db' ≡ db)
        × (lease_is_current lease now db ≡ true)
        × (batch_row id db ≡ some row)
        × (row.lease_name ≡ lease.name)
        × ((row.lease_fencing_token ≡ lease.fencing_token) ⊎ (is_complete row.phase ≡ true))
  unfolding require_batch_for_artifact_cleanup_write require_current_lease expect
  require_batch_for_artifact_cleanup_write_inv id lease now db db' row e =
      elim (Bool-cases (lease_is_current lease now db)) [
        | inr lost ↦ absurd (ground arith)
        | inl cur ↦ ground arith
      ]

  prepare_artifact_cleanup_write_inv :
      (id artifact : String) (status : CleanupStatus) (trigger : CleanupTrigger)
      (key : Option String) (db db' : Database) (existing : Option ArtifactCleanupRow)
      → prepare_artifact_cleanup_write id artifact status trigger key db ≡ ok (existing, db')
      → db' ≡ db
  unfolding prepare_artifact_cleanup_write prepare_plan prepare_step expect
  prepare_artifact_cleanup_write_inv id artifact status trigger key db db' existing e =
      elim (Option-cases (latest_artifact_cleanup_row id artifact db)) [
        | inl unused ↦ ground arith
        | inr (row, used) ↦ ground arith
      ]

  require_batch_phase_for_trigger_inv :
      (row : BatchRow) (trigger : CleanupTrigger) (status : CleanupStatus) (db db' : Database)
      → require_batch_phase_for_trigger row trigger status db ≡ ok (tt, db')
      → db' ≡ db
  unfolding require_batch_phase_for_trigger
  require_batch_phase_for_trigger_inv row trigger status db db' e = ground arith

  pub record_artifact_cleanup_in_inv :
      (id : String) (lease : LeaseRecord) (artifact : String) (status : CleanupStatus)
      (trigger : CleanupTrigger) (key reason : Option String) (payload record_id : String) (now : ℕ)
      (db db' : Database) (a : ArtifactCleanupRow)
      → record_artifact_cleanup_in id lease artifact status trigger key reason payload record_id now
          db
        ≡ ok (a, db')
      → db'.batches ≡ db.batches
  unfolding record_artifact_cleanup_in expect require_batch_resource_key
  record_artifact_cleanup_in_inv id lease artifact status trigger key reason payload record_id now
        db db' a e =
      elim (Result-cases (require_batch_for_artifact_cleanup_write id lease now db)) [
        | inr (_, refused) ↦ absurd (ground arith)
        | inl ((row, mid), write) ↦
            elim (Result-cases
              (prepare_artifact_cleanup_write id artifact status trigger key mid)) [
                | inr (_, refused) ↦ absurd (ground arith)
                | inl ((existing, mid'), prepared) ↦
                    elim (Result-cases (
                      require_batch_phase_for_trigger row (next_trigger status trigger existing)
                        status mid')) [
                          | inr (_, refused) ↦ absurd (ground arith)
                          | inl ((_, last), allowed) ↦
                              let (same, _, _, _, _) =
                                require_batch_for_artifact_cleanup_write_inv id lease now db mid row
                                  write in
                              let same' =
                                prepare_artifact_cleanup_write_inv id artifact status trigger key
                                  mid mid' existing prepared in
                              let same'' =
                                require_batch_phase_for_trigger_inv row
                                  (next_trigger status trigger existing) status mid' last allowed in
                              let new =
                                new_cleanup record_id artifact id (next_sequence id mid')
                                  (next_trigger status trigger existing) status
                                  (next_key key existing) reason payload now in
                              elim (Result-cases (insert_artifact_cleanup new last)) [
                                | inr (_, refused) ↦ absurd (ground arith)
                                | inl ((_, end), done) ↦
                                    ground (arith, insert_artifact_cleanup_inv new last end done)
                              ]
                        ]
              ]
      ]
