-- ===== src/Journal/Effects.antt =====
-- What the operations of journal_batch.py and journal_recovery.py do to the table of batches when
-- they return.
use safe_fs_ops.Prelude.{ℕ, String, ◌≡◌, refl, Bool, true, Option, some, arith, inl, inr, sym}
use safe_fs_ops.Table.{update}
use safe_fs_ops.Table.Keys.{has, select-update_key, select_sound}
use safe_fs_ops.Platform.{Platform}
use safe_fs_ops.Database.{Database, BatchPhase, BatchRow, LeaseRecord, ok, Result-cases}
use safe_fs_ops.Lease.{lease_is_current}
use safe_fs_ops.Journal.Phase.{valid_transition}
use safe_fs_ops.Journal.Rows.{batch_key, batch_row, update_batch}
use safe_fs_ops.Journal.Guards.{
  require_batch_for_write, expect, require_valid_transition, require_batch_for_recovery_write,
  rebound,
}
use safe_fs_ops.Journal.Batch.{transition_batch_in, moved}
use safe_fs_ops.Journal.Inversion.{
  require_batch_for_write_inv, require_batch_for_recovery_write_inv, handed_off,
}
use safe_fs_ops.Journal.Lifecycle.{may_move, valid_may_move, Moved, update-Moved, rebound-Moved}

module _ ⦃p : Platform⦄ where
  -- A transition that returns found the batch bound to the lease, followed _VALID_TRANSITIONS, and
  -- changed the status columns of that batch and nothing else.
  pub transition_batch_in_inv :
      (id : String) (lease : LeaseRecord) (phase : BatchPhase) (message : Option String)
      (status_payload : String) (now : ℕ) (db db' : Database) (a : BatchRow)
      → transition_batch_in id lease phase message status_payload now db ≡ ok (a, db')
      → (row : BatchRow) × (lease_is_current lease now db ≡ true)
        × (batch_row id db ≡ some row)
        × (row.lease_name ≡ lease.name)
        × (row.lease_fencing_token ≡ lease.fencing_token)
        × (valid_transition row.phase phase ≡ true)
        × (db' ≡ record db {
          batches = update (has batch_key id) (moved phase message status_payload now) db.batches;
        })
        × (a ≡ moved phase message status_payload now row)
  unfolding transition_batch_in update_batch expect require_valid_transition
  transition_batch_in_inv id lease phase message status_payload now db db' a e =
      elim (Result-cases (require_batch_for_write id lease now db)) [
        | inr (_, refused) ↦ absurd (ground arith)
        | inl ((row, mid), write) ↦
            let (same, cur, found, name, token) =
              require_batch_for_write_inv id lease now db mid row write in
            let again =
              select-update_key batch_key (moved phase message status_payload now) (λ x. refl) id id
                db.batches in
            (row, cur, found, name, token, ground arith, ground arith, ground (arith, again))
      ]

  pub transition_batch_in-Moved :
      (id : String) (lease : LeaseRecord) (phase : BatchPhase) (message : Option String)
      (status_payload : String) (now : ℕ) (db db' : Database) (a : BatchRow) (k : String)
      (r : BatchRow)
      → transition_batch_in id lease phase message status_payload now db ≡ ok (a, db')
      → batch_row k db ≡ some r
      → Moved k r db'.batches
  transition_batch_in-Moved id lease phase message status_payload now db db' a k r e there =
      let (row, cur, found, name, token, valid, is, _) =
        transition_batch_in_inv id lease phase message status_payload now db db' a e in
      rw is (
        update-Moved (moved phase message status_payload now) id k row r db.batches (λ x. refl)
          found (refl, omega arith, inr (valid_may_move row.phase phase valid)) there)

  pub handed_off_batches :
      (id : String) (row : BatchRow) (lease : LeaseRecord) (fresh : String) (now : ℕ)
      (db : Database)
      → batch_row id db ≡ some row
      → (handed_off row lease fresh now db).batches
        ≡ update (has batch_key id) (rebound lease now) db.batches
  handed_off_batches id row lease fresh now db found =
      let is : row.batch_id ≡ id = ground (arith, select_sound (has batch_key id) db.batches row) in
      rw is refl

  -- Where a recovery write leaves the batch: rebound or not, and then moved.
  pub recovery_write-Moved :
      (id : String) (lease : LeaseRecord) (requested : BatchPhase) (fresh : String) (now : ℕ)
      (db mid : Database) (written : BatchRow) (taken_over : Bool) (message : Option String)
      (status_payload : String) (k : String) (r : BatchRow)
      → require_batch_for_recovery_write id lease requested fresh now db
        ≡ ok ((written, taken_over), mid)
      → may_move written.phase requested ≡ true
      → batch_row k db ≡ some r
      → Moved k r
          (update (has batch_key id) (moved requested message status_payload now) mid.batches)
  recovery_write-Moved id lease requested fresh now db mid written taken_over message status_payload
        k r e edge there =
      let go = moved requested message status_payload now in
      let (row, cur, found, name, again, how) =
        require_batch_for_recovery_write_inv id lease requested fresh now db mid written taken_over
          e in
      elim how [
        | inl (same, _, _) ↦
            let is : written ≡ row = ground arith in
            rw same (
              update-Moved go id k row r db.batches (λ x. refl) found
                (refl, omega arith, inr (rw (sym is) edge)) there)
        | inr (handed, _, older, _) ↦
            let bind = rebound lease now in
            let rows : mid.batches ≡ update (has batch_key id) bind db.batches =
              ground (arith, handed_off_batches id row lease fresh now db found) in
            let phase : written.phase ≡ row.phase =
              ground (arith, rows, select-update_key batch_key bind (λ x. refl) id id db.batches) in
            rw rows (
              rebound-Moved bind id k row r db.batches (λ x. refl) (λ x. (refl, refl)) found
                (omega arith) go (λ x. refl) (refl, omega arith, inr (rw (sym phase) edge)) there)
      ]
