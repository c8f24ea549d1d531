-- ===== src/Examples/Runs.antt =====
-- The theorems on operation runs at a workspace with one run.
use safe_fs_ops.Prelude.{arith, true, false, none, some, [], ◌∷◌, ◌≡◌, refl, text_discrete, differ}
use safe_fs_ops.Table.{select, insert, update}
use safe_fs_ops.Table.Keys.{has}
use safe_fs_ops.Database.{
  Database, BatchPhase, BatchRow, OperationRunRow, transaction, ok, err, lease_lost, lease_mismatch,
}
use safe_fs_ops.Lease.{lease_is_current, require_current_lease, lease_row}
use safe_fs_ops.Lease.Acquire.{is_free}
use safe_fs_ops.Journal.Rows.{run_key, operation_run_row, batch_row}
use safe_fs_ops.Journal.Guards.{expect}
use safe_fs_ops.Journal.Runs.{
  RunRequest, PhaseRequest, create_operation_run, create_operation_run_in, replay_or_insert_run,
  new_run, insert_run, create_operation_phase, update_operation_run_status,
  update_operation_phase_status, record_operation_run_terminal_diagnostic,
  record_operation_phase_terminal_diagnostic,
}
use safe_fs_ops.Journal.RunStale.{stale_runs, newer_holder}
use safe_fs_ops.Journal.RunRetry.{create_operation_run_idempotent}
use safe_fs_ops.Examples.{demo, marks, held, stored, batch, workspace}

abbrev pub run : OperationRunRow
run = record {
  operation_run_id = "r1";
  run_id = "run";
  owner = "ann";
  lease_name = "work";
  lease_fencing_token = 1;
  status = "active";
  payload = "{}";
  created_at = marks 1;
  updated_at = marks 1;
}

abbrev pub request : RunRequest
request = record { run_id = "run"; owner = "ann"; status = "active"; payload = "{}" }

abbrev pub phase : PhaseRequest
phase = record { phase_name = "copy"; status = "active"; phase_order = 0; payload = "{}" }

-- A planned batch and an active run.
abbrev pub db : Database
db = record (workspace (batch BatchPhase.planned ∷ [])) { runs = run ∷ [] }

pub run_stored : operation_run_row "r1" db ≡ some run
unfolding text_discrete select
run_stored = refl

pub batch_stored : batch_row "b1" db ≡ some (batch BatchPhase.planned)
unfolding text_discrete select
batch_stored = refl

pub db_current : lease_is_current held 5 db ≡ true
unfolding lease_is_current text_discrete select
db_current = refl

db_expired : lease_is_current held 9 db ≡ false
unfolding lease_is_current text_discrete select
db_expired = refl

pub db_free : is_free 9 (lease_row "work" db) ≡ true
unfolding text_discrete select
db_free = refl

-- The holder after a takeover.
abbrev pub new_holder : safe_fs_ops.Database.LeaseRecord
new_holder = record held {
  owner = "bob";
  token = "t2";
  fencing_token = 2;
  acquired_at = 9;
  heartbeat_at = 9;
  expires_at = 13;
}

stale_runs_example :
    (create_operation_run request held none "r2" 9 db ≡ (err lease_lost, db))
    × (create_operation_phase "r1" phase held none "r2" 9 db ≡ (err lease_lost, db))
    × (update_operation_run_status "r1" held "succeeded" 9 db ≡ (err lease_lost, db))
    × (update_operation_phase_status "r1" held "succeeded" 9 db ≡ (err lease_lost, db))
    × (record_operation_run_terminal_diagnostic "r1" held "failed" 9 db ≡ (err lease_lost, db))
    × (record_operation_phase_terminal_diagnostic "r1" held "failed" 9 db ≡ (err lease_lost, db))
unfolding text_discrete
stale_runs_example =
    stale_runs "r1" held 9 db request phase "succeeded" "failed" "r2" none (differ "r1" "" refl)
      (differ "run" "" refl) (differ "ann" "" refl) (differ "active" "" refl)
      (differ "copy" "" refl) (differ "active" "" refl) (differ "succeeded" "" refl) refl db_expired

-- The run of the database is bound to fencing token 1, and the lease has passed to bob.
abbrev bobs_db : Database
bobs_db = record db {
  leases =
      record stored { owner = "bob"; token = "t2"; fencing_token = 2; expires_at = marks 13 } ∷ [];
}

bob_current : lease_is_current new_holder 10 bobs_db ≡ true
unfolding lease_is_current text_discrete select
bob_current = refl

run_there : operation_run_row "r1" bobs_db ≡ some run
unfolding text_discrete select
run_there = refl

newer_holder_example :
    (update_operation_run_status "r1" new_holder "succeeded" 10 bobs_db
      ≡ (err lease_mismatch, bobs_db))
    × (create_operation_phase "r1" phase new_holder none "r2" 10 bobs_db
        ≡ (err lease_mismatch, bobs_db))
    × (record_operation_run_terminal_diagnostic "r1" new_holder "failed" 10 bobs_db ≡ (
      ok (record run { status = "failed"; updated_at = marks 10 }),
      record bobs_db {
        runs =
            update
              (has run_key "r1")
              (λ x. record x { status = "failed"; updated_at = marks 10 })
              bobs_db.runs;
      },
    ))
unfolding text_discrete
newer_holder_example =
    newer_holder "r1" new_holder 10 bobs_db phase "succeeded" "r2" none run (differ "r1" "" refl)
      (differ "copy" "" refl) (differ "active" "" refl) (differ "succeeded" "" refl) bob_current
      run_there refl (omega arith) refl

abbrev first_db : Database
first_db = record (workspace []) { runs = new_run request held "r1" 5 ∷ [] }

first_run :
    create_operation_run request held (some "r1") "x" 5 (workspace [])
    ≡ (ok (new_run request held "r1" 5), first_db)
unfolding create_operation_run create_operation_run_in replay_or_insert_run require_current_lease
    lease_is_current insert_run insert new_run expect transaction text_discrete select
first_run = refl

first_current : lease_is_current held 6 first_db ≡ true
unfolding lease_is_current text_discrete select
first_current = refl

create_operation_run_idempotent_example :
    create_operation_run request held (some "r1") "y" 6 first_db
    ≡ (ok (new_run request held "r1" 5), first_db)
unfolding text_discrete
create_operation_run_idempotent_example =
    create_operation_run_idempotent request held "r1" "x" "y" 5 6 (workspace []) first_db
      (new_run request held "r1" 5) (differ "r1" "" refl) first_run first_current
