-- ===== src/Examples/Systems.antt =====
-- The theorems on mixed calls of all stores, at the workspace of the runs.
use safe_fs_ops.Prelude.{arith, ◌<◌, ◌≤◌, ◌⊎◌, true, false, none, some, ◌≡◌}
use safe_fs_ops.Database.{Database, BatchPhase, BatchRow, OperationRunRow}
use safe_fs_ops.Lease.{lease_is_current, acquire}
use safe_fs_ops.Lease.Fencing as LeaseSteps
use safe_fs_ops.Journal.Rows.{operation_run_row, batch_row}
use safe_fs_ops.Journal.Lifecycle.{identity}
use safe_fs_ops.Journal.Fate.{stage}
use safe_fs_ops.Journal.Steps as BatchSteps
use safe_fs_ops.Journal.RunSteps as RunSteps
use safe_fs_ops.Claim.Steps as ClaimSteps
use safe_fs_ops.Journal.Batch.{transition_batch}
use safe_fs_ops.Journal.Runs.{update_operation_run_status, record_operation_run_terminal_diagnostic}
use safe_fs_ops.Journal.RunMoves.{run_identity, may_become}
use safe_fs_ops.System.{Reach, here, next, on_leases, on_claims, on_batches, on_runs}
use safe_fs_ops.System.Fencing.{taken_over_forever}
use safe_fs_ops.System.Histories.{run_history, workspace_batch_history}
use safe_fs_ops.Examples.{request as batch_request, demo, held, batch, leases-IsValid}
use safe_fs_ops.Examples.Runs.{
  run, request, phase, db, run_stored, batch_stored, db_current, db_free, new_holder,
}

-- The run succeeds, a resource is claimed, the batch starts to be recovered, and another caller
-- acquires the lease once it has expired.
abbrev closed_db : Database
closed_db = (update_operation_run_status "r1" held "succeeded" 5 db).1

abbrev claimed_db : Database
claimed_db = (safe_fs_ops.Claim.create "res" held "ann" none none 5 closed_db).1

abbrev moved_db : Database
moved_db = (transition_batch "b1" held BatchPhase.attempting none "{}" 6 claimed_db).1

abbrev taken_db : Database
taken_db = (acquire "work" "bob" 4 none "t2" 9 moved_db).1

mixed : Reach db taken_db
mixed =
    next
      (next
        (next (next here (on_runs (RunSteps.updates_run "r1" held "succeeded" 5)))
          (on_claims (ClaimSteps.creates "res" held "ann" none none 5)))
        (on_batches (BatchSteps.transitions "b1" held BatchPhase.attempting none "{}" 6)))
      (on_leases (LeaseSteps.acquires "work" "bob" 4 none "t2" 9))

run_history_example :
    (r' : OperationRunRow) × (operation_run_row "r1" taken_db ≡ some r')
    × (run_identity r' ≡ run_identity run)
    × (may_become "active" r'.status ≡ true)
run_history_example = run_history "r1" run mixed run_stored

workspace_batch_history_example :
    (r' : BatchRow) × (batch_row "b1" taken_db ≡ some r')
    × (identity r' ≡ identity (batch BatchPhase.planned))
    × (1 ≤ r'.lease_fencing_token)
    × ((BatchPhase.planned ≡ r'.phase)
        ⊎ ((stage BatchPhase.planned < stage r'.phase)
            ⊎ ((stage BatchPhase.planned ≡ 3) × (stage r'.phase ≡ 3))))
workspace_batch_history_example =
    workspace_batch_history "b1" (batch BatchPhase.planned) mixed batch_stored

-- The new holder closes the run, and claims a resource.
abbrev later_db : Database
later_db =
    (record_operation_run_terminal_diagnostic "r1" new_holder "failed" 10
      (acquire "work" "bob" 4 none "t2" 9 db).1).1

taken_over_forever_example :
    lease_is_current held 10
      (safe_fs_ops.Claim.create "res" new_holder "bob" none none 10 later_db).1
    ≡ false
taken_over_forever_example =
    taken_over_forever held 5 "bob" 4 none "t2" 9 10 db leases-IsValid (ground arith) db_current
      db_free
      (next (next here (on_runs (RunSteps.diagnoses_run "r1" new_holder "failed" 10)))
        (on_claims (ClaimSteps.creates "res" new_holder "bob" none none 10)))
