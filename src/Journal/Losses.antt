-- ===== src/Journal/Losses.antt =====
-- How a batch moves when its lease was superseded or lost, in journal_recovery.py.
use safe_fs_ops.Prelude.{
  ℕ, ◌<◌, String, ◌≡◌, refl, true, Option, some, arith, Bool-cases, Option-cases, inl, inr,
}
use safe_fs_ops.Table.{update}
use safe_fs_ops.Table.Keys.{has}
use safe_fs_ops.Platform.{Platform}
use safe_fs_ops.Database.{
  Database, BatchPhase, BatchRow, RecoveryRow, LeaseRecord, ok, Result-cases,
}
use safe_fs_ops.Lease.{require_current_lease, lease_is_current}
use safe_fs_ops.Journal.Phase.{is_interruptible, is_markable}
use safe_fs_ops.Journal.Rows.{batch_key, batch_row, update_batch, next_sequence, insert_recovery}
use safe_fs_ops.Journal.Guards.{
  expect, require_recovery_takeover, require_lease_lost_recovery_marker,
}
use safe_fs_ops.Journal.Batch.{moved}
use safe_fs_ops.Journal.Recovery.{
  new_recovery, record_interrupted_recovery_desired_in, record_lease_lost_recovery_desired_in,
  interrupted,
}
use safe_fs_ops.Journal.Inversion.{insert_recovery_inv}
use safe_fs_ops.Journal.Lifecycle.{desired_may_move, Moved, update-Moved}

module _ ⦃p : Platform⦄ where
  require_recovery_takeover_inv :
      (row : BatchRow) (lease : LeaseRecord) (key : Option String) (db db' : Database)
      → require_recovery_takeover row lease key db ≡ ok (tt, db')
      → (db' ≡ db)
        × (is_interruptible row.phase ≡ true)
        × (row.lease_name ≡ lease.name)
        × (row.lease_fencing_token < lease.fencing_token)
  unfolding require_recovery_takeover
  require_recovery_takeover_inv row lease key db db' e = ground arith

  require_lease_lost_recovery_marker_inv :
      (row : BatchRow) (lease : LeaseRecord) (key : Option String) (db db' : Database)
      → require_lease_lost_recovery_marker row lease key db ≡ ok (tt, db')
      → (db' ≡ db) × (is_markable row.phase ≡ true)
  unfolding require_lease_lost_recovery_marker
  require_lease_lost_recovery_marker_inv row lease key db db' e = ground arith

  pub record_interrupted_recovery_desired_in-Moved :
      (id : String) (lease : LeaseRecord) (key reason : Option String)
      (payload recovery_id : String) (now : ℕ) (db db' : Database) (a : RecoveryRow) (k : String)
      (r : BatchRow)
      → record_interrupted_recovery_desired_in id lease key reason payload recovery_id now db
        ≡ ok (a, db')
      → batch_row k db ≡ some r
      → Moved k r db'.batches
  unfolding record_interrupted_recovery_desired_in expect update_batch require_current_lease
  record_interrupted_recovery_desired_in-Moved id lease key reason payload recovery_id now db db' a
        k r e there =
      elim (Bool-cases (lease_is_current lease now db)) [
        | inr lost ↦ absurd (ground arith)
        | inl cur ↦ elim (Option-cases (batch_row id db)) [
          | inl gone ↦ absurd (ground arith)
          | inr (row, found) ↦ elim (Result-cases (require_recovery_takeover row lease key db)) [
            | inr (_, refused) ↦ absurd (ground arith)
            | inl ((_, mid), took) ↦
                let (same, ready, name, older) =
                  require_recovery_takeover_inv row lease key db mid took in
                let go = interrupted lease reason payload now in
                let new =
                  new_recovery recovery_id id (next_sequence id mid) BatchPhase.recovery_desired
                    reason payload now in
                let set = record mid { batches = update (has batch_key id) go mid.batches } in
                let rows : db'.batches ≡ update (has batch_key id) go db.batches =
                  elim (Result-cases (insert_recovery new set)) [
                    | inr (_, refused) ↦ absurd (ground arith)
                    | inl ((_, last), done) ↦ ground (arith, insert_recovery_inv new set last done)
                  ] in
                rw rows (
                  update-Moved go id k row r db.batches (λ x. refl) found
                    (refl, omega arith, inr (desired_may_move row.phase (ground arith))) there)
          ]
        ]
      ]

  pub record_lease_lost_recovery_desired_in-Moved :
      (id : String) (lease : LeaseRecord) (key reason : Option String)
      (payload recovery_id : String) (now : ℕ) (db db' : Database) (a : RecoveryRow) (k : String)
      (r : BatchRow)
      → record_lease_lost_recovery_desired_in id lease key reason payload recovery_id now db
        ≡ ok (a, db')
      → batch_row k db ≡ some r
      → Moved k r db'.batches
  unfolding record_lease_lost_recovery_desired_in expect update_batch
  record_lease_lost_recovery_desired_in-Moved id lease key reason payload recovery_id now db db' a k
        r e there =
      elim (Bool-cases (lease_is_current lease now db)) [
        | inl cur ↦ absurd (ground arith)
        | inr lost ↦ elim (Option-cases (batch_row id db)) [
          | inl gone ↦ absurd (ground arith)
          | inr (row, found) ↦
              elim (Result-cases (require_lease_lost_recovery_marker row lease key db)) [
                | inr (_, refused) ↦ absurd (ground arith)
                | inl ((_, mid), took) ↦
                    let (same, ready) =
                      require_lease_lost_recovery_marker_inv row lease key db mid took in
                    let go = moved BatchPhase.recovery_desired reason payload now in
                    let new =
                      new_recovery recovery_id id (next_sequence id mid) BatchPhase.recovery_desired
                        reason payload now in
                    let set = record mid { batches = update (has batch_key id) go mid.batches } in
                    let rows : db'.batches ≡ update (has batch_key id) go db.batches =
                      elim (Result-cases (insert_recovery new set)) [
                        | inr (_, refused) ↦ absurd (ground arith)
                        | inl ((_, last), done) ↦
                            ground (arith, insert_recovery_inv new set last done)
                      ] in
                    rw rows (
                      update-Moved go id k row r db.batches (λ x. refl) found
                        (refl, omega arith, inr (desired_may_move row.phase (ground arith))) there)
              ]
        ]
      ]
