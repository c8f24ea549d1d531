-- ===== src/Journal/Attempt.antt =====
-- The active recovery attempt of journal_guards.py: a takeover of a recovering batch ends its
-- attempt, so that actions and checkpoints of the attempt are refused from then on.
use safe_fs_ops.Prelude.{
  ℕ, ◌<◌, String, ◌≡◌, refl, true, Option, none, some, [], ◌∷◌, ◌++◌, arith, Bool-cases,
  Option-cases, inl, inr,
}
use safe_fs_ops.Table.{max_of, latest}
use safe_fs_ops.Table.Keys.{has, select_sound}
use safe_fs_ops.Table.Order.{latest-append}
use safe_fs_ops.Platform.{Platform}
use safe_fs_ops.Database.{Database, BatchRow, RecoveryRow, LeaseRecord, ok, Result-cases}
use safe_fs_ops.Lease.{require_current_lease, lease_is_current}
use safe_fs_ops.Journal.Phase.{is_recovering}
use safe_fs_ops.Journal.Rows.{
  batch_key, batch_row, next_sequence, latest_recovery_row, recovery_sequence, of_recovery,
}
use safe_fs_ops.Journal.Guards.{
  bind_or_take_over, require_batch_for_recovery_action_write, require_active_recovery_attempt,
}
use safe_fs_ops.Journal.Inversion.{bind_or_take_over_inv, handed_off, takeover_record}

-- `_next_sequence` is above every recovery record of the batch.
pub next_sequence_above :
    (id : String) (db : Database)
    → max_of recovery_sequence (of_recovery id) db.recoveries < next_sequence id db
unfolding next_sequence
next_sequence_above id db = omega arith

-- A recovery record appended with the next sequence number is the batch's newest.
pub latest_recovery-append :
    (new : RecoveryRow) (db : Database)
    → new.sequence ≡ next_sequence new.batch_id db
    → latest recovery_sequence (of_recovery new.batch_id) (db.recoveries ++ new ∷ []) ≡ some new
latest_recovery-append new db e =
    latest-append recovery_sequence (of_recovery new.batch_id) new db.recoveries (ground arith)
      (rw e (next_sequence_above new.batch_id db))

-- What it means that the attempt check passed.
pub require_active_recovery_attempt_inv :
    (id attempt : String) (db db' : Database) (row : RecoveryRow)
    → require_active_recovery_attempt id (some attempt) db ≡ ok (row, db')
    → (db' ≡ db)
      × (newest : RecoveryRow) × (latest_recovery_row id db ≡ some newest)
      × (newest.recovery_id ≡ attempt)
      × (is_recovering newest.phase ≡ true)
unfolding require_active_recovery_attempt
require_active_recovery_attempt_inv id attempt db db' row e =
    elim (Option-cases (latest_recovery_row id db)) [
      | inl missing ↦ absurd (ground arith)
      | inr (newest, found) ↦ (ground arith, newest, found, ground arith, ground arith)
    ]

pub require_active_recovery_attempt_same :
    (id : String) (attempt : Option String) (db db' : Database) (row : RecoveryRow)
    → require_active_recovery_attempt id attempt db ≡ ok (row, db')
    → db' ≡ db
unfolding require_active_recovery_attempt
require_active_recovery_attempt_same id none db db' row e = absurd (ground arith)
require_active_recovery_attempt_same id (some attempt) db db' row e =
    (require_active_recovery_attempt_inv id attempt db db' row e).0

module _ ⦃p : Platform⦄ where
  -- After a takeover the newest recovery record asks for recovery: no attempt is active.
  pub no_attempt_after_handoff :
      (id attempt : String) (row : BatchRow) (lease : LeaseRecord) (fresh : String) (now : ℕ)
      (db db' : Database) (found : RecoveryRow)
      → batch_row id db ≡ some row
      → ¬ (
          require_active_recovery_attempt id (some attempt) (handed_off row lease fresh now db)
          ≡ ok (found, db'))
  no_attempt_after_handoff id attempt row lease fresh now db db' found stored e =
      let (_, newest, latest_is, _, active) =
        require_active_recovery_attempt_inv id attempt (handed_off row lease fresh now db) db' found
          e in
      let made = takeover_record row lease fresh now (next_sequence row.batch_id db) in
      ground
        (arith, select_sound (has batch_key id) db.batches row, latest_recovery-append made db refl)

  -- When the guard of recovery actions and then the check of the attempt pass, nothing has been
  -- written, the lease is current, and the stored batch is recovering and bound to that lease by
  -- name and fencing token: a lease that would have to take the batch over is refused.
  pub recovery_action_write_bound :
      (id attempt : String) (lease : LeaseRecord) (fresh : String) (now : ℕ) (db mid db' : Database)
      (row : BatchRow) (found : RecoveryRow)
      → require_batch_for_recovery_action_write id lease fresh now db ≡ ok (row, mid)
      → require_active_recovery_attempt id (some attempt) mid ≡ ok (found, db')
      → (mid ≡ db)
        × (db' ≡ db)
        × (lease_is_current lease now db ≡ true)
        × (batch_row id db ≡ some row)
        × (row.lease_fencing_token ≡ lease.fencing_token)
        × (row.lease_name ≡ lease.name)
        × (is_recovering row.phase ≡ true)
  unfolding require_batch_for_recovery_action_write require_current_lease
  recovery_action_write_bound id attempt lease fresh now db mid db' row found write active =
      elim (Bool-cases (lease_is_current lease now db)) [
        | inr lost ↦ absurd (ground arith)
        | inl cur ↦ elim (Option-cases (batch_row id db)) [
          | inl gone ↦ absurd (ground arith)
          | inr (stored, there) ↦
              elim (Result-cases (bind_or_take_over true id stored lease fresh now db)) [
                | inr (_, refused) ↦ absurd (ground arith)
                | inl (((written, taken), handed), went) ↦
                    let (again, how) =
                      bind_or_take_over_inv true id stored lease fresh now db handed written taken
                        there went in
                    elim how [
                      | inl bound ↦
                          let (same, _, _, _, _) =
                            require_active_recovery_attempt_inv id attempt mid db' found active in
                          ground arith
                      | inr (is_handed, _, _, _) ↦
                          let is_mid : mid ≡ handed_off stored lease fresh now db = ground arith in
                          absurd (
                            no_attempt_after_handoff id attempt stored lease fresh now db db' found
                              there (rw is_mid at active))
                    ]
              ]
        ]
      ]
