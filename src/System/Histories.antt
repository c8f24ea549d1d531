-- ===== src/System/Histories.antt =====
-- The life of a batch and of an operation run in a workspace whose stores are all in use.
use safe_fs_ops.Prelude.{◌<◌, ◌≤◌, String, ◌≡◌, refl, true, some, arith, ◌⊎◌, inl, ◌∙◌}
use safe_fs_ops.Platform.{Platform}
use safe_fs_ops.Database.{Database, BatchRow, OperationRunRow}
use safe_fs_ops.Lease.Frame.{Step-besides_leases}
use safe_fs_ops.Claim.Steps.{Step-besides_claims}
use safe_fs_ops.Journal.Rows.{batch_row, operation_run_row}
use safe_fs_ops.Journal.Lifecycle.{Moved, identity, still-Moved}
use safe_fs_ops.Journal.History.{batch_moves}
use safe_fs_ops.Journal.Fate.{stage, Forward-Moves}
use safe_fs_ops.Journal.RunMoves.{
  RunMoved, still-RunMoved, run_moves, run_identity, may_become, may_become_trans,
}
use safe_fs_ops.Journal.Frame.Steps.{Step-others}
use safe_fs_ops.Journal.Frame.RunSteps.{Step-elsewhere}
use safe_fs_ops.System.{Call, on_leases, on_claims, on_batches, on_runs, Reach, here, next}

module _ ⦃p : Platform⦄ where
  Call-Moved :
      {db db' : Database} (k : String) (r : BatchRow)
      → Call db db'
      → batch_row k db ≡ some r
      → Moved k r db'.batches
  Call-Moved {db} {db'} k r (on_leases s) there =
      let e = Step-besides_leases s in still-Moved k r db'.batches (ground arith)
  Call-Moved {db} {db'} k r (on_claims s) there =
      let e = Step-besides_claims s in still-Moved k r db'.batches (ground arith)
  Call-Moved k r (on_batches s) there = batch_moves k r s there
  Call-Moved {db} {db'} k r (on_runs s) there =
      let e = Step-elsewhere s in still-Moved k r db'.batches (ground arith)

  Call-RunMoved :
      {db db' : Database} (k : String) (r : OperationRunRow)
      → Call db db'
      → operation_run_row k db ≡ some r
      → RunMoved k r db'
  Call-RunMoved {db} {db'} k r (on_leases s) there =
      let e = Step-besides_leases s in still-RunMoved k r db' (ground arith)
  Call-RunMoved {db} {db'} k r (on_claims s) there =
      let e = Step-besides_claims s in still-RunMoved k r db' (ground arith)
  Call-RunMoved {db} {db'} k r (on_batches s) there =
      let e = Step-others s in still-RunMoved k r db' (ground arith)
  Call-RunMoved k r (on_runs s) there = run_moves k r s there

  -- Whatever the stores of a workspace do, in any order, a stored operation run stays stored, only
  -- its status and the time of its update change, and the status is the same, or follows: a closed
  -- one after "active", and "finalization_failed" after "succeeded".
  pub run_history :
      {db db' : Database} (k : String) (r : OperationRunRow)
      → Reach db db'
      → operation_run_row k db ≡ some r
      → (r' : OperationRunRow) × (operation_run_row k db' ≡ some r')
        × (run_identity r' ≡ run_identity r)
        × (may_become r.status r'.status ≡ true)
  run_history {db} k r here e = still-RunMoved k r db e
  run_history k r (next reach c) e =
      let (r1, e1, same, so_far) = run_history k r reach e in
      let (r2, e2, same', moves) = Call-RunMoved k r1 c e1 in
      (r2, e2, same' ∙ same, may_become_trans r.status r1.status r2.status so_far moves)

  -- Whatever the stores of a workspace do, in any order, a stored batch stays stored with the
  -- columns that identify it, its fencing token does not fall, and its phase is the same, a later
  -- stage's, or another one of the recovery cycle.
  pub workspace_batch_history :
      {db db' : Database} (k : String) (r : BatchRow)
      → Reach db db'
      → batch_row k db ≡ some r
      → (r' : BatchRow) × (batch_row k db' ≡ some r')
        × (identity r' ≡ identity r)
        × (r.lease_fencing_token ≤ r'.lease_fencing_token)
        × ((r.phase ≡ r'.phase)
            ⊎ ((stage r.phase < stage r'.phase) ⊎ ((stage r.phase ≡ 3) × (stage r'.phase ≡ 3))))
  workspace_batch_history k r here e = (r, e, refl, omega arith, inl refl)
  workspace_batch_history k r (next reach c) e =
      let (r1, e1, same, grows, so_far) = workspace_batch_history k r reach e in
      let (r2, e2, moved) = Call-Moved k r1 c e1 in
      (r2, e2, moved.0 ∙ same, omega (arith, grows, moved.1), Forward-Moves r r1 r2 so_far moved)
