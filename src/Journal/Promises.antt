-- ===== src/Journal/Promises.antt =====
-- What the journal promises a caller who holds the lease of a batch: when its calls succeed, and
-- what they store.
use safe_fs_ops.Prelude.{
  ℕ, ◌<◌, String, ◌≡◌, ◌≢◌, refl, Bool, true, false, Option, none, some, List, [], ◌∷◌, ◌++◌, arith,
  ◌==◌, ◌||◌, ◌&&◌, nat_eq, or_else,
}
use safe_fs_ops.Table.{select, insert, max_of}
use safe_fs_ops.Table.Keys.{has, select-update_key, select-append, select_sound}
use safe_fs_ops.Table.Order.{select_above}
use safe_fs_ops.Platform.{Platform}
use safe_fs_ops.Database.{
  Database, BatchPhase, BatchRow, OperationRow, LeaseRecord, ok, err, transaction,
  invalid_transition,
}
use safe_fs_ops.Lease.{lease_is_current, require_current_lease}
use safe_fs_ops.Journal.Phase.{valid_transition, is_appendable}
use safe_fs_ops.Journal.Rows.{
  batch_key, batch_row, update_batch, next_sequence, operation_row, of_operation, insert_operation,
}
use safe_fs_ops.Journal.Guards.{
  expect, other_resource, require_batch_for_write, require_valid_transition,
  require_batch_resource_key, require_appendable_phase,
}
use safe_fs_ops.Journal.Batch.{
  moved, transition_batch, transition_batch_in, new_operation, append_operation,
  append_operation_in,
}

select-either :
    {R : Type 0} (a b : R → Bool) (rows : List R)
    → select a rows ≡ none
    → select b rows ≡ none
    → select (λ r. a r || b r) rows ≡ none
unfolding select
select-either a b [] ea eb = refl
select-either a b (x ∷ rows) ea eb = ground (arith, select-either a b rows)

operation_sequence_above :
    (id : String) (db : Database)
    → max_of (λ r. r.sequence) (of_operation id) db.operations < next_sequence id db
unfolding next_sequence
operation_sequence_above id db = omega arith

-- An operation with a new id and a sequence number above its batch's is stored.
insert_operation_new :
    (new : OperationRow) (db : Database)
    → operation_row new.operation_id db ≡ none
    → max_of (λ r. r.sequence) (of_operation new.batch_id) db.operations < new.sequence
    → insert_operation new db ≡ ok (tt, record db { operations = db.operations ++ new ∷ [] })
unfolding insert_operation insert
insert_operation_new new db unused above = ground (
  arith,
  select-either (λ r. r.operation_id == new.operation_id)
      (λ r. of_operation new.batch_id r && nat_eq r.sequence new.sequence) db.operations unused
      (select_above (λ r. r.sequence) (of_operation new.batch_id) new.sequence db.operations above),
)

module _ ⦃p : Platform⦄ where
  -- Under the current lease that a stored batch is bound to, `transition_batch` is decided by
  -- _VALID_TRANSITIONS. On an edge it answers with the batch in the phase, with the message, the
  -- payload and the time of the call and all else as it was; from then on that is the batch stored
  -- under the id; what is stored under another id stays, and so do all other tables. Off the edges
  -- it raises InvalidTransitionError and changes nothing.
  pub transition_batch_lem :
      (id : String) (lease : LeaseRecord) (phase : BatchPhase) (message : Option String)
      (payload : String) (now : ℕ) (db : Database) (row : BatchRow) (other : String)
      → id ≢ ""
      → other ≢ id
      → lease_is_current lease now db ≡ true
      → batch_row id db ≡ some row
      → row.lease_name ≡ lease.name
      → row.lease_fencing_token ≡ lease.fencing_token
      → let (answer, db') = transition_batch id lease phase message payload now db in
        (valid_transition row.phase phase ≡ true
          → (after : BatchRow) × (after ≡ record row {
            phase = phase;
            status_message = message;
            status_payload = payload;
            updated_at = p.isoformat now;
          })
            × (answer ≡ ok after)
            × (batch_row id db' ≡ some after)
            × (batch_row other db' ≡ batch_row other db)
            × (record db' { batches = [] } ≡ record db { batches = [] }))
        × (valid_transition row.phase phase ≡ false
            → (answer ≡ err invalid_transition) × (db' ≡ db))
  unfolding transition_batch transition_batch_in require_batch_for_write require_current_lease
      require_valid_transition update_batch expect transaction
  transition_batch_lem id lease phase message payload now db row other named apart cur found name
        token =
      let new = moved phase message payload now in
      let mine = select-update_key batch_key new (λ x. refl) id id db.batches in
      let theirs = select-update_key batch_key new (λ x. refl) id other db.batches in
      (
        λ edge. (
          new row,
          refl,
          ground (arith, mine),
          ground (arith, mine),
          ground (arith, mine, theirs),
          ground (arith, mine),
        ),
        λ off. (ground (arith, mine), ground (arith, mine)),
      )

  -- Under the current lease that a stored batch is bound to, with a resource that the batch allows
  -- and an operation id that is not in use, appending to a PLANNED or ATTEMPTING batch succeeds.
  -- The operation has a sequence number above every operation of the batch, and is the only change.
  pub append_operation_lem :
      (id : String) (lease : LeaseRecord) (operation_type : String) (key : Option String)
      (payload : String) (operation_id : Option String) (fresh : String) (now : ℕ) (db : Database)
      (row : BatchRow)
      → id ≢ ""
      → operation_type ≢ ""
      → lease_is_current lease now db ≡ true
      → batch_row id db ≡ some row
      → row.lease_name ≡ lease.name
      → row.lease_fencing_token ≡ lease.fencing_token
      → other_resource row key ≡ false
      → is_appendable row.phase ≡ true
      → operation_row (or_else operation_id fresh) db ≡ none
      → append_operation id lease operation_type key payload operation_id fresh now db ≡ (
        ok (
            new_operation
              (or_else operation_id fresh)
              id
              (next_sequence id db)
              operation_type
              key
              payload
              now),
        record db {
          operations =
              db.operations
              ++ new_operation
                  (or_else operation_id fresh)
                  id
                  (next_sequence id db)
                  operation_type
                  key
                  payload
                  now
                ∷ [];
        },
      )
  unfolding append_operation append_operation_in require_batch_for_write require_current_lease
      require_batch_resource_key require_appendable_phase expect transaction new_operation
  append_operation_lem id lease operation_type key payload operation_id fresh now db row named typed
        cur found name token key_ok phase_ok unused =
      let chosen = or_else operation_id fresh in
      let new = new_operation chosen id (next_sequence id db) operation_type key payload now in
      let is : row.batch_id ≡ id = ground (arith, select_sound (has batch_key id) db.batches row) in
      let stored = insert_operation_new new db unused (operation_sequence_above id db) in
      let back : operation_row chosen (record db { operations = db.operations ++ new ∷ [] })
          ≡ some new =
        ground (arith, select-append (λ r. r.operation_id) new chosen db.operations) in
      ground arith
