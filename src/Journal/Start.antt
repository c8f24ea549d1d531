-- ===== src/Journal/Start.antt =====
-- `start_batch_operation` of journal_batch.py: what it requires of the batch, and how it moves it.
use safe_fs_ops.Prelude.{
  ℕ, ◌≤◌, String, ◌≡◌, refl, false, Option, some, arith, Bool-cases, Option-cases, ◌⊎◌, inl, inr,
}
use safe_fs_ops.Table.{update}
use safe_fs_ops.Table.Keys.{has}
use safe_fs_ops.Platform.{Platform, started_operation}
use safe_fs_ops.Database.{
  Database, BatchPhase, BatchRow, OperationRow, LeaseRecord, ok, Result-cases,
}
use safe_fs_ops.Lease.{require_current_lease, lease_is_current}
use safe_fs_ops.Journal.Rows.{
  batch_key, batch_row, update_batch, next_sequence, insert_operation, batch_has_journal_records,
}
use safe_fs_ops.Journal.Guards.{expect, rebound, require_startable_batch}
use safe_fs_ops.Journal.Batch.{
  given_or, started, new_operation, start_batch_operation_in, rebind_planned,
}
use safe_fs_ops.Journal.Inversion.{insert_operation_inv}
use safe_fs_ops.Journal.Lifecycle.{may_move, Moved, update-Moved, rebound-Moved}

module _ ⦃p : Platform⦄ where
  require_startable_batch_inv :
      (row : BatchRow) (lease : LeaseRecord) (key : Option String) (db db' : Database)
      → require_startable_batch row lease key db ≡ ok (tt, db')
      → (db' ≡ db)
        × (row.phase ≡ BatchPhase.planned)
        × (row.lease_name ≡ lease.name)
        × (row.lease_fencing_token ≤ lease.fencing_token)
        × (batch_has_journal_records row.batch_id db ≡ false)
  unfolding require_startable_batch
  require_startable_batch_inv row lease key db db' e = ground arith

  rebind_planned_inv :
      (row : BatchRow) (lease : LeaseRecord) (id : String) (now : ℕ) (db db' : Database)
      (again : BatchRow)
      → rebind_planned row lease id now db ≡ ok (again, db')
      → (db' ≡ db)
        ⊎ (db' ≡ record db { batches = update (has batch_key id) (rebound lease now) db.batches })
  unfolding rebind_planned update_batch expect
  rebind_planned_inv row lease id now db db' again e = ground arith

  pub start_batch_operation_in-Moved :
      (id : String) (lease : LeaseRecord) (operation_type : String) (key : Option String)
      (payload operation_id : String) (status_payload : Option String) (now : ℕ) (db db' : Database)
      (a : BatchRow × OperationRow) (k : String) (r : BatchRow)
      → start_batch_operation_in id lease operation_type key payload operation_id status_payload now
          db
        ≡ ok (a, db')
      → batch_row k db ≡ some r
      → Moved k r db'.batches
  unfolding start_batch_operation_in expect update_batch require_current_lease may_move
  start_batch_operation_in-Moved id lease operation_type key payload operation_id status_payload now
        db db' a k r e there =
      elim (Bool-cases (lease_is_current lease now db)) [
        | inr lost ↦ absurd (ground arith)
        | inl cur ↦ elim (Option-cases (batch_row id db)) [
          | inl gone ↦ absurd (ground arith)
          | inr (row, found) ↦ elim (Result-cases (require_startable_batch row lease key db)) [
            | inr (_, refused) ↦ absurd (ground arith)
            | inl ((_, mid), startable) ↦
                elim (Result-cases (rebind_planned row lease id now mid)) [
                  | inr (_, refused) ↦ absurd (ground arith)
                  | inl ((_, bound), rebind) ↦
                      let (same, phase, name, older, _) =
                        require_startable_batch_inv row lease key db mid startable in
                      let new =
                        new_operation operation_id id (next_sequence id bound) operation_type key
                          payload now in
                      let text =
                        given_or status_payload (p.payload_json (started_operation operation_id)) in
                      let go = started text now in
                      let rows : db'.batches ≡ update (has batch_key id) go bound.batches =
                        elim (Result-cases (insert_operation new bound)) [
                          | inr (_, refused) ↦ absurd (ground arith)
                          | inl ((_, last), done) ↦
                              ground (arith, insert_operation_inv new bound last done)
                        ] in
                      elim (rebind_planned_inv row lease id now mid bound _ rebind) [
                        | inl kept ↦
                            let is : bound.batches ≡ db.batches = ground arith in
                            rw rows (
                              rw is (
                                update-Moved go id k row r db.batches (λ x. refl) found
                                  (refl, omega arith, inr (rw phase refl)) there))
                        | inr changed ↦
                            let is : bound.batches
                                ≡ update (has batch_key id) (rebound lease now) db.batches =
                              ground arith in
                            rw rows (
                              rw is (
                                rebound-Moved (rebound lease now) id k row r db.batches (λ x. refl)
                                  (λ x. (refl, refl)) found (omega arith) go (λ x. refl)
                                  (refl, omega arith, inr (rw phase refl)) there))
                      ]
                ]
          ]
        ]
      ]
