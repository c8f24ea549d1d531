-- ===== src/Journal/Retry.antt =====
-- `create_batch` of journal_batch.py under retries: the idempotency key gives one batch.
use safe_fs_ops.Prelude.{
  ℕ, String, ◌≡◌, ◌≢◌, refl, Bool, true, Option, none, some, List, [], ◌∷◌, ◌++◌, arith, ◌==◌, ◌||◌,
  or_else, Bool-cases, Option-cases, inl, inr,
}
use safe_fs_ops.Table.{select, insert}
use safe_fs_ops.Table.Keys.{has}
use safe_fs_ops.Platform.{Platform}
use safe_fs_ops.Database.{
  Database, BatchRow, LeaseRecord, ok, transaction, transaction_ok, Result-cases,
}
use safe_fs_ops.Lease.{lease_is_current, require_current_lease}
use safe_fs_ops.Journal.Rows.{batch_key, batch_row, batch_row_by_idempotency_key, insert_batch}
use safe_fs_ops.Journal.Guards.{BatchRequest, expect, require_matching_idempotent_batch}
use safe_fs_ops.Journal.Batch.{
  create_batch, create_batch_in, replay_or_insert, new_batch, require_valid_batch_operation_links,
}
use safe_fs_ops.Journal.Creation.{
  require_valid_batch_operation_links_inv, insert_batch_inv, require_matching_idempotent_batch_inv,
}

select-append_first :
    {R : Type 0} (q : R → Bool) (new : R) (rows : List R)
    → select q rows ≡ none
    → q new ≡ true
    → select q (rows ++ new ∷ []) ≡ some new
unfolding select
select-append_first q new [] e h = ground arith
select-append_first q new (x ∷ rows) e h = ground (arith, select-append_first q new rows)

select-left :
    {R : Type 0} (a b : R → Bool) (rows : List R)
    → select (λ r. a r || b r) rows ≡ none
    → select a rows ≡ none
unfolding select
select-left a b [] e = refl
select-left a b (x ∷ rows) e = ground (arith, select-left a b rows)

insert_batch_unused :
    (new : BatchRow) (db db' : Database)
    → insert_batch new db ≡ ok (tt, db')
    → batch_row new.batch_id db ≡ none
unfolding insert_batch insert
insert_batch_unused new db db' e =
    select-left (λ r. r.batch_id == new.batch_id) (λ r. r.idempotency_key == new.idempotency_key)
      db.batches (ground arith)

module _ ⦃p : Platform⦄ where
  -- A row that a request may be answered with: the key finds it, and it agrees with the request.
  Answers : BatchRequest → LeaseRecord → BatchRow → Database → Type 0
  Answers request lease row db =
      (batch_row_by_idempotency_key request.idempotency_key db ≡ some row)
      × (require_matching_idempotent_batch row lease request db ≡ ok (tt, db))

  new_batch-agrees :
      (request : BatchRequest) (lease : LeaseRecord) (id : String) (now : ℕ) (db : Database)
      → require_matching_idempotent_batch (new_batch request lease id now) lease request db
        ≡ ok (tt, db)
  unfolding require_matching_idempotent_batch new_batch
  new_batch-agrees request lease id now db = ground arith

  create_batch_in-Answers :
      (request : BatchRequest) (lease : LeaseRecord) (id : String) (now : ℕ) (db db' : Database)
      (a : BatchRow)
      → create_batch_in request lease id now db ≡ ok (a, db')
      → Answers request lease a db'
  unfolding create_batch_in replay_or_insert require_current_lease expect Answers
      batch_row_by_idempotency_key new_batch
  create_batch_in-Answers request lease id now db db' a e =
      elim (Option-cases (batch_row_by_idempotency_key request.idempotency_key db)) [
        | inr (row, used) ↦
            elim (Result-cases (require_matching_idempotent_batch row lease request db)) [
              | inr (_, refused) ↦ absurd (ground arith)
              | inl ((_, mid), agrees) ↦
                  ground
                    (arith, require_matching_idempotent_batch_inv row lease request db mid agrees)
            ]
        | inl unused ↦
            elim (Result-cases (
              require_valid_batch_operation_links request.run_id request.owner
                request.operation_run_id request.operation_phase_id db)) [
                  | inr (_, refused) ↦ absurd (ground arith)
                  | inl ((_, mid), linked) ↦
                      let new = new_batch request lease id now in
                      let same =
                        require_valid_batch_operation_links_inv request.run_id request.owner
                          request.operation_run_id request.operation_phase_id db mid linked in
                      elim (Result-cases (insert_batch new mid)) [
                        | inr (_, refused) ↦ absurd (ground arith)
                        | inl ((_, last), done) ↦
                            let is : last ≡ record mid { batches = mid.batches ++ new ∷ [] } =
                              insert_batch_inv new mid last done in
                            let by_id : batch_row id last ≡ some new = rw is (
                              select-append_first (has batch_key id) new mid.batches
                                (insert_batch_unused new mid last done) (ground arith)) in
                            let by_key : select (λ r. r.idempotency_key == request.idempotency_key)
                                  last.batches
                                ≡ some new =
                              rw is (
                                select-append_first
                                  (λ r. r.idempotency_key == request.idempotency_key) new
                                  mid.batches (ground arith) (ground arith)) in
                            let answer : a ≡ new = ground arith in
                            let ends : db' ≡ last = ground arith in
                            rw ends (rw answer (by_key, new_batch-agrees request lease id now last))
                      ]
                ]
      ]

  replay :
      (request : BatchRequest) (lease : LeaseRecord) (row : BatchRow) (given : Option String)
      (fresh : String) (now : ℕ) (db : Database)
      → request.idempotency_key ≢ ""
      → request.owner ≢ ""
      → request.run_id ≢ ""
      → lease_is_current lease now db ≡ true
      → Answers request lease row db
      → create_batch request lease given fresh now db ≡ (ok row, db)
  unfolding create_batch create_batch_in replay_or_insert require_current_lease transaction Answers
  replay request lease row given fresh now db k1 k2 k3 cur (found, agrees) = ground arith

  -- When `create_batch` has returned a batch, calling it again with the same request and lease
  -- record, at an instant when that lease is current, with any batch id, returns the same batch
  -- and changes nothing.
  pub create_batch_idempotent :
      (request : BatchRequest) (lease : LeaseRecord) (given given' : Option String)
      (fresh fresh' : String) (now now' : ℕ) (db db' : Database) (row : BatchRow)
      → create_batch request lease given fresh now db ≡ (ok row, db')
      → lease_is_current lease now' db' ≡ true
      → create_batch request lease given' fresh' now' db' ≡ (ok row, db')
  unfolding create_batch
  create_batch_idempotent request lease given given' fresh fresh' now now' db db' row e cur =
      elim (Bool-cases
        (request.idempotency_key == "" || (request.owner == "" || request.run_id == ""))) [
          | inl blank ↦ absurd (ground arith)
          | inr given_all ↦
              replay request lease row given' fresh' now' db' (ground arith) (ground arith)
                (ground arith) cur
                (create_batch_in-Answers request lease (or_else given fresh) now db db' row (
                  transaction_ok (create_batch_in request lease (or_else given fresh) now) db db'
                    row (ground arith)))
        ]
