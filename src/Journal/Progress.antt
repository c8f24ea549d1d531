-- ===== src/Journal/Progress.antt =====
-- How a batch moves under the operations of journal_recovery.py and the start of its first
-- operation in journal_batch.py.
use safe_fs_ops.Prelude.{ℕ, String, ◌≡◌, Bool, true, ◌||◌, Option, some, arith, ◌⊎◌, inl, inr}
use safe_fs_ops.Table.{update}
use safe_fs_ops.Table.Keys.{has}
use safe_fs_ops.Platform.{Platform}
use safe_fs_ops.Database.{
  Database, BatchPhase, BatchRow, RecoveryRow, LeaseRecord, ok, Result-cases,
}
use safe_fs_ops.Journal.Phase.{valid_transition, is_recovering, is_recovery_desired, is_succeeded}
use safe_fs_ops.Journal.Rows.{batch_key, batch_row, update_batch, next_sequence, insert_recovery}
use safe_fs_ops.Journal.Guards.{
  expect, require_valid_transition, require_batch_for_recovery_write,
  require_active_recovery_attempt,
}
use safe_fs_ops.Journal.Batch.{moved}
use safe_fs_ops.Journal.Recovery.{
  start_recovery_in, new_recovery, record_recovery_phase_in, require_recovery_transition,
  require_outcome_attempt,
}
use safe_fs_ops.Journal.Inversion.{insert_recovery_inv}
use safe_fs_ops.Journal.Attempt.{require_active_recovery_attempt_same}
use safe_fs_ops.Journal.Lifecycle.{may_move, valid_may_move, desired_may_move, Moved}
use safe_fs_ops.Journal.Effects.{recovery_write-Moved}

module _ ⦃p : Platform⦄ where
  pub start_recovery_in-Moved :
      (id : String) (lease : LeaseRecord) (reason : Option String)
      (payload recovery_id fresh : String) (now : ℕ) (db db' : Database)
      (a : BatchRow × RecoveryRow) (k : String) (r : BatchRow)
      → start_recovery_in id lease reason payload recovery_id fresh now db ≡ ok (a, db')
      → batch_row k db ≡ some r
      → Moved k r db'.batches
  unfolding start_recovery_in expect require_valid_transition update_batch
  start_recovery_in-Moved id lease reason payload recovery_id fresh now db db' a k r e there =
      elim (Result-cases
        (require_batch_for_recovery_write id lease BatchPhase.recovering fresh now db)) [
          | inr (_, refused) ↦ absurd (ground arith)
          | inl (((row, taken), mid), write) ↦
              let go = moved BatchPhase.recovering reason payload now in
              let valid : valid_transition row.phase BatchPhase.recovering ≡ true = ground arith in
              let new =
                new_recovery recovery_id id (next_sequence id mid) BatchPhase.recovering reason
                  payload now in
              let set = record mid { batches = update (has batch_key id) go mid.batches } in
              let rows : db'.batches ≡ update (has batch_key id) go mid.batches =
                elim (Result-cases (insert_recovery new set)) [
                  | inr (_, refused) ↦ absurd (ground arith)
                  | inl ((_, last), done) ↦ ground (arith, insert_recovery_inv new set last done)
                ] in
              rw rows (
                recovery_write-Moved id lease BatchPhase.recovering fresh now db mid row taken
                  reason payload k r write (valid_may_move row.phase BatchPhase.recovering valid)
                  there)
        ]

  extra_or_valid :
      (taken : Bool) (now next : BatchPhase) (db db' : Database)
      → require_recovery_transition taken now next db ≡ ok (tt, db')
      → (db' ≡ db)
        × ((((is_recovering now || is_succeeded now) ≡ true) × (is_recovery_desired next ≡ true))
            ⊎ (valid_transition now next ≡ true))
  unfolding require_recovery_transition require_valid_transition
  extra_or_valid taken now next db db' e = ground arith

  recovery_transition_edge :
      (taken : Bool) (now next : BatchPhase) (db db' : Database)
      → require_recovery_transition taken now next db ≡ ok (tt, db')
      → (db' ≡ db) × (may_move now next ≡ true)
  unfolding may_move
  recovery_transition_edge taken now next db db' e =
      let (same, extra) = extra_or_valid taken now next db db' e in
      elim extra [
        | inl to_desired ↦ (same, ground (arith, desired_may_move now))
        | inr valid ↦ (same, valid_may_move now next valid)
      ]

  require_outcome_attempt_inv :
      (phase : BatchPhase) (id : String) (attempt : Option String) (db db' : Database)
      → require_outcome_attempt phase id attempt db ≡ ok (tt, db')
      → db' ≡ db
  unfolding require_outcome_attempt
  require_outcome_attempt_inv phase id attempt db db' e =
      elim (Result-cases (require_active_recovery_attempt id attempt db)) [
        | inr (_, refused) ↦ ground arith
        | inl ((row, mid), active) ↦
            ground (arith, require_active_recovery_attempt_same id attempt db mid row active)
      ]

  pub record_recovery_phase_in-Moved :
      (id : String) (lease : LeaseRecord) (phase : BatchPhase) (attempt reason : Option String)
      (payload recovery_id fresh : String) (now : ℕ) (db db' : Database) (a : RecoveryRow)
      (k : String) (r : BatchRow)
      → record_recovery_phase_in id lease phase attempt reason payload recovery_id fresh now db
        ≡ ok (a, db')
      → batch_row k db ≡ some r
      → Moved k r db'.batches
  unfolding record_recovery_phase_in expect update_batch
  record_recovery_phase_in-Moved id lease phase attempt reason payload recovery_id fresh now db db'
        a k r e there =
      elim (Result-cases (require_batch_for_recovery_write id lease phase fresh now db)) [
        | inr (_, refused) ↦ absurd (ground arith)
        | inl (((row, taken), mid), write) ↦
            elim (Result-cases (require_recovery_transition taken row.phase phase mid)) [
              | inr (_, refused) ↦ absurd (ground arith)
              | inl ((_, mid'), stepped) ↦
                  elim (Result-cases (require_outcome_attempt phase id attempt mid')) [
                    | inr (_, refused) ↦ absurd (ground arith)
                    | inl ((_, mid''), checked) ↦
                        let (same, edge) =
                          recovery_transition_edge taken row.phase phase mid mid' stepped in
                        let same' : mid'' ≡ mid = ground (
                          arith,
                          require_outcome_attempt_inv phase id attempt mid' mid'' checked,
                        ) in
                        let go = moved phase reason payload now in
                        let new =
                          new_recovery recovery_id id (next_sequence id mid'') phase reason payload
                            now in
                        let set = record mid'' {
                          batches = update (has batch_key id) go mid''.batches;
                        } in
                        let rows : db'.batches ≡ update (has batch_key id) go mid.batches =
                          elim (Result-cases (insert_recovery new set)) [
                            | inr (_, refused) ↦ absurd (ground arith)
                            | inl ((_, last), done) ↦
                                ground (arith, insert_recovery_inv new set last done)
                          ] in
                        rw rows (
                          recovery_write-Moved id lease phase fresh now db mid row taken reason
                            payload k r write edge there)
                  ]
            ]
      ]
