-- ===== src/Journal/History.antt =====
-- How a batch lives through sequences of journal calls.
use safe_fs_ops.Prelude.{
  String, ◌≡◌, refl, Bool, true, false, some, List, [], ◌∷◌, ◌++◌, arith, ◌==◌, ◌||◌, if◌then◌else◌,
  or_else, inl, inr,
}
use safe_fs_ops.Table.{select}
use safe_fs_ops.Table.Keys.{has, select-append}
use safe_fs_ops.Platform.{Platform}
use safe_fs_ops.Database.{
  Database, BatchRow, Error, Result, ok, err, value_error, attempt_mismatch, Tx, transaction,
  transaction_inv,
}
use safe_fs_ops.Journal.Rows.{batch_key, batch_row}
use safe_fs_ops.Journal.Batch.{
  create_batch, create_batch_in, new_batch, append_operation, append_operation_in,
  start_batch_operation, start_batch_operation_in, record_checkpoint, record_checkpoint_in,
  transition_batch, transition_batch_in,
}
use safe_fs_ops.Journal.Recovery.{
  start_recovery, start_recovery_in, record_recovery_phase, record_recovery_phase_in,
  record_interrupted_recovery_desired, record_interrupted_recovery_desired_in,
  record_lease_lost_recovery_desired, record_lease_lost_recovery_desired_in,
}
use safe_fs_ops.Journal.Actions.{record_recovery_action, record_recovery_action_in}
use safe_fs_ops.Journal.Cleanup.{record_artifact_cleanup, record_artifact_cleanup_in}
use safe_fs_ops.Journal.Lifecycle.{Moved, still-Moved}
use safe_fs_ops.Journal.Effects.{transition_batch_in-Moved}
use safe_fs_ops.Journal.Progress.{start_recovery_in-Moved, record_recovery_phase_in-Moved}
use safe_fs_ops.Journal.Losses.{
  record_interrupted_recovery_desired_in-Moved, record_lease_lost_recovery_desired_in-Moved,
}
use safe_fs_ops.Journal.Start.{start_batch_operation_in-Moved}
use safe_fs_ops.Journal.Records.{
  append_operation_in_inv, record_checkpoint_in_inv, record_recovery_action_in_inv,
}
use safe_fs_ops.Journal.Creation.{create_batch_in_inv, record_artifact_cleanup_in_inv}
use safe_fs_ops.Journal.Steps.{
  Step, creates, appends, starts, checkpoints, transitions, recovers, records_phase, interrupts,
  loses_lease, acts, cleans,
}

append-Moved :
    (new : BatchRow) (k : String) (r : BatchRow) (rows : List BatchRow)
    → select (has batch_key k) rows ≡ some r
    → Moved k r (rows ++ new ∷ [])
append-Moved new k r rows there =
    (r, ground (arith, select-append batch_key new k rows), (refl, omega arith, inl refl))

transaction-Moved :
    {A : Type 0} (body : Tx A) (k : String) (r : BatchRow) (db : Database)
    → batch_row k db ≡ some r
    → ((a : A) (db' : Database) → body db ≡ ok (a, db') → Moved k r db'.batches)
    → Moved k r (transaction body db).1.batches
transaction-Moved body k r db there moves = elim (transaction_inv body db) [
  | inl (a, db', done, is) ↦ rw is (moves a db' done)
  | inr (e, refused, is) ↦ rw is (still-Moved k r db.batches there)
]

guarded-Moved :
    {A : Type 0} (refuse : Bool) (k : String) (r : BatchRow) (x y : Result A × Database)
    → Moved k r x.1.batches
    → Moved k r y.1.batches
    → Moved k r (if refuse then x else y).1.batches
guarded-Moved true k r x y m n = m
guarded-Moved false k r x y m n = n

call-Moved :
    {A : Type 0} (x : Error) (refuse : Bool) (body : Tx A) (k : String) (r : BatchRow)
    (db : Database)
    → batch_row k db ≡ some r
    → ((a : A) (db' : Database) → body db ≡ ok (a, db') → Moved k r db'.batches)
    → Moved k r (if refuse then (err x, db) else transaction body db).1.batches
call-Moved x true body k r db there moves = still-Moved k r db.batches there
call-Moved x false body k r db there moves = transaction-Moved body k r db there moves

module _ ⦃p : Platform⦄ where
  -- Whatever one call of the journal does, with any arguments, a stored batch stays stored, keeps
  -- the columns that identify it, does not lose fencing token, and keeps its phase or follows one
  -- edge of `may_move`.
  pub batch_moves :
      {db db' : Database} (k : String) (r : BatchRow)
      → Step db db'
      → batch_row k db ≡ some r
      → Moved k r db'.batches
  unfolding create_batch append_operation start_batch_operation record_checkpoint transition_batch
      start_recovery record_recovery_phase record_interrupted_recovery_desired
      record_lease_lost_recovery_desired record_recovery_action record_artifact_cleanup
  batch_moves {db} k r (creates request lease batch_id fresh now) there =
      call-Moved value_error
        (request.idempotency_key == "" || (request.owner == "" || request.run_id == ""))
        (create_batch_in request lease (or_else batch_id fresh) now) k r db there
        (λ a db' e.
          elim (create_batch_in_inv request lease (or_else batch_id fresh) now db db' a e) [
            | inl same ↦ rw same (still-Moved k r db.batches there)
            | inr more ↦ rw more (
                append-Moved (new_batch request lease (or_else batch_id fresh) now) k r db.batches
                  there)
          ])
  batch_moves {db} k r (appends id lease operation_type key payload operation_id fresh now) there =
      call-Moved value_error (id == "" || operation_type == "")
        (append_operation_in id lease operation_type key payload (or_else operation_id fresh) now) k
        r db there
        (λ a db' e.
          let (_, _, _, _, _, is) =
            append_operation_in_inv id lease operation_type key payload (or_else operation_id fresh)
              now db db' a e in
          rw is (still-Moved k r db.batches there))
  batch_moves {db} k r
        (starts id lease operation_type key payload operation_id fresh status_payload now) there =
      call-Moved value_error (id == "" || operation_type == "")
        (start_batch_operation_in id lease operation_type key payload (or_else operation_id fresh)
          status_payload now)
        k r db there
        (λ a db' e.
          start_batch_operation_in-Moved id lease operation_type key payload
            (or_else operation_id fresh) status_payload now db db' a k r e there)
  batch_moves {db} k r
        (checkpoints id lease key checkpoint_type payload operation_id checkpoint_id attempt fresh
          fresh' now)
        there =
      call-Moved value_error (id == "" || (key == "" || checkpoint_type == ""))
        (record_checkpoint_in id lease key checkpoint_type payload operation_id
          (or_else checkpoint_id fresh) attempt fresh' now)
        k r db there
        (λ a db' e.
          rw
            (record_checkpoint_in_inv id lease key checkpoint_type payload operation_id
              (or_else checkpoint_id fresh) attempt fresh' now db db' a e)
            (still-Moved k r db.batches there))
  batch_moves {db} k r (transitions id lease phase message payload now) there =
      call-Moved value_error (id == "") (transition_batch_in id lease phase message payload now) k r
        db there
        (λ a db' e.
          transition_batch_in-Moved id lease phase message payload now db db' a k r e there)
  batch_moves {db} k r (recovers id lease reason payload recovery_id fresh fresh' now) there =
      call-Moved value_error (id == "")
        (start_recovery_in id lease reason payload (or_else recovery_id fresh) fresh' now) k r db
        there
        (λ a db' e.
          start_recovery_in-Moved id lease reason payload (or_else recovery_id fresh) fresh' now db
            db' a k r e there)
  batch_moves {db} k r
        (records_phase id lease phase attempt reason payload recovery_id fresh fresh' now) there =
      call-Moved value_error (id == "")
        (record_recovery_phase_in id lease phase attempt reason payload (or_else recovery_id fresh)
          fresh' now)
        k r db there
        (λ a db' e.
          record_recovery_phase_in-Moved id lease phase attempt reason payload
            (or_else recovery_id fresh) fresh' now db db' a k r e there)
  batch_moves {db} k r (interrupts id lease key reason payload recovery_id fresh now) there =
      call-Moved value_error (id == "")
        (record_interrupted_recovery_desired_in id lease key reason payload
          (or_else recovery_id fresh) now)
        k r db there
        (λ a db' e.
          record_interrupted_recovery_desired_in-Moved id lease key reason payload
            (or_else recovery_id fresh) now db db' a k r e there)
  batch_moves {db} k r (loses_lease id lease key reason payload recovery_id fresh now) there =
      call-Moved value_error (id == "")
        (record_lease_lost_recovery_desired_in id lease key reason payload
          (or_else recovery_id fresh) now)
        k r db there
        (λ a db' e.
          record_lease_lost_recovery_desired_in-Moved id lease key reason payload
            (or_else recovery_id fresh) now db db' a k r e there)
  batch_moves {db} k r
        (acts id lease attempt status action_type key reason payload action record_id fresh fresh'
          fresh'' now)
        there =
      guarded-Moved (id == "") k r (err value_error, db) _ (still-Moved k r db.batches there)
        (call-Moved attempt_mismatch (attempt == "")
          (record_recovery_action_in id lease attempt status action_type key reason payload action
            (or_else record_id fresh'') fresh fresh' now)
          k r db there
          (λ a db' e.
            rw
              (record_recovery_action_in_inv id lease attempt status action_type key reason payload
                action (or_else record_id fresh'') fresh fresh' now db db' a e)
              (still-Moved k r db.batches there)))
  batch_moves {db} k r
        (cleans id lease artifact status trigger key reason payload record_id fresh now) there =
      call-Moved value_error (id == "" || artifact == "")
        (record_artifact_cleanup_in id lease artifact status trigger key reason payload
          (or_else record_id fresh) now)
        k r db there
        (λ a db' e.
          rw
            (record_artifact_cleanup_in_inv id lease artifact status trigger key reason payload
              (or_else record_id fresh) now db db' a e)
            (still-Moved k r db.batches there))
