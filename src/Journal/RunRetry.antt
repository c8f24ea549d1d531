-- ===== src/Journal/RunRetry.antt =====
-- Retries of `create_operation_run`: the id that the caller gives makes it idempotent.
use safe_fs_ops.Prelude.{ℕ, String, ◌≡◌, ◌≢◌, true, some, arith, inl, inr, Option-cases}
use safe_fs_ops.Table.{insert}
use safe_fs_ops.Table.Keys.{select-append}
use safe_fs_ops.Platform.{Platform}
use safe_fs_ops.Database.{Database, OperationRunRow, LeaseRecord, ok, transaction}
use safe_fs_ops.Lease.{lease_is_current, require_current_lease}
use safe_fs_ops.Journal.Guards.{expect}
use safe_fs_ops.Journal.Rows.{run_key, operation_run_row}
use safe_fs_ops.Journal.Runs.{
  RunRequest, create_operation_run, create_operation_run_in, replay_or_insert_run,
  require_matching_operation_run, insert_run, new_run,
}

module _ ⦃p : Platform⦄ where
  new_run-agrees :
      (request : RunRequest) (lease : LeaseRecord) (id : String) (now : ℕ) (db : Database)
      → require_matching_operation_run (new_run request lease id now) request lease db ≡ ok (tt, db)
  unfolding require_matching_operation_run new_run
  new_run-agrees request lease id now db = ground arith

  create_operation_run_in_answer :
      (request : RunRequest) (lease : LeaseRecord) (id fresh : String) (now : ℕ) (db db' : Database)
      (a : OperationRunRow)
      → id ≢ ""
      → create_operation_run_in request lease (some id) fresh now db ≡ ok (a, db')
      → (operation_run_row id db' ≡ some a)
        × (require_matching_operation_run a request lease db' ≡ ok (tt, db'))
  unfolding create_operation_run_in replay_or_insert_run require_current_lease insert_run insert
      expect require_matching_operation_run new_run
  create_operation_run_in_answer request lease id fresh now db db' a named e =
      elim (Option-cases (operation_run_row id db)) [
        | inl new ↦
            let stored = select-append run_key (new_run request lease id now) id db.runs in
            let is : a ≡ new_run request lease id now = ground arith in
            (ground arith, rw is (new_run-agrees request lease id now db'))
        | inr (row, there) ↦ (ground arith, ground arith)
      ]

  -- A retry of a `create_operation_run` that returned, with the same request and the same id, which
  -- is not empty, returns the same run and stores nothing, on the database that the first call left
  -- and at any instant at which the lease is still current.
  pub create_operation_run_idempotent :
      (request : RunRequest) (lease : LeaseRecord) (id fresh fresh' : String) (now now' : ℕ)
      (db db' : Database) (a : OperationRunRow)
      → id ≢ ""
      → create_operation_run request lease (some id) fresh now db ≡ (ok a, db')
      → lease_is_current lease now' db' ≡ true
      → create_operation_run request lease (some id) fresh' now' db' ≡ (ok a, db')
  unfolding create_operation_run create_operation_run_in replay_or_insert_run require_current_lease
      transaction
  create_operation_run_idempotent request lease id fresh fresh' now now' db db' a named e cur =
      ground (arith, create_operation_run_in_answer request lease id fresh now db db' a named)
