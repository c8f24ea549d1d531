-- ===== src/System.antt =====
-- The stores of a workspace at work on one database: calls of leases, claims, batches, operation
-- runs and phases in any order, by any callers, under any leases, at any instants.
pub mod Fencing
pub mod Histories
use safe_fs_ops.Platform.{Platform}
use safe_fs_ops.Database.{Database}
use safe_fs_ops.Lease.Fencing as LeaseSteps
use safe_fs_ops.Claim.Steps as ClaimSteps
use safe_fs_ops.Journal.Steps as BatchSteps
use safe_fs_ops.Journal.RunSteps as RunSteps

module _ ⦃p : Platform⦄ where
  -- One call of any store.
  pub data Call (db db' : Database) : Type 0 where
    on_leases : LeaseSteps.Step db db' → Call db db'
    on_claims : ClaimSteps.Step db db' → Call db db'
    on_batches : BatchSteps.Step db db' → Call db db'
    on_runs : RunSteps.Step db db' → Call db db'

  pub data Reach (db : Database) : Database → Type 0 where
    here : Reach db db
    next : {mid last : Database} → Reach db mid → Call mid last → Reach db last
