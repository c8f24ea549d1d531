-- ===== src/System/Fencing.antt =====
-- Fencing in a workspace whose stores are all in use: a lease that was taken over never acts again.
use safe_fs_ops.Prelude.{ℕ, ◌<◌, ◌≤◌, String, ◌≡◌, ◌≢◌, true, false, Option, arith, false}
use safe_fs_ops.Platform.{Platform}
use safe_fs_ops.Database.{Database, LeaseRecord}
use safe_fs_ops.Lease.{lease_row, lease_is_current, acquire}
use safe_fs_ops.Lease.Rows.{IsValid}
use safe_fs_ops.Lease.Acquire.{fence, is_free}
use safe_fs_ops.Lease.Fencing.{fencing_monotone, superseded_forever, acquire_passes}
use safe_fs_ops.Lease.Fencing as LeaseSteps
use safe_fs_ops.Claim.Steps.{Step-besides_claims}
use safe_fs_ops.Journal.Frame.Steps.{Step-others}
use safe_fs_ops.Journal.Frame.RunSteps.{Step-elsewhere}
use safe_fs_ops.System.{Call, on_leases, on_claims, on_batches, on_runs, Reach, here, next}

module _ ⦃p : Platform⦄ where
  -- Only the calls on leases touch the table of leases.
  Call-leases :
      {db db' : Database}
      → Call db db'
      → IsValid db.leases
      → IsValid db'.leases × ((k : String) → fence (lease_row k db) ≤ fence (lease_row k db'))
  Call-leases (on_leases s) v = fencing_monotone (LeaseSteps.next LeaseSteps.here s) v
  Call-leases {db} {db'} (on_claims s) v =
      let same : db'.leases ≡ db.leases = let e = Step-besides_claims s in ground arith in
      rw same (v, λ k. omega arith)
  Call-leases {db} {db'} (on_batches s) v =
      let same : db'.leases ≡ db.leases = let e = Step-others s in ground arith in
      rw same (v, λ k. omega arith)
  Call-leases {db} {db'} (on_runs s) v =
      let same : db'.leases ≡ db.leases = let e = Step-elsewhere s in ground arith in
      rw same (v, λ k. omega arith)

  -- Whatever the stores of a workspace do, with any calls of leases, claims, batches, runs and
  -- phases in any order, a well-formed table of leases stays well formed, and no fencing token
  -- falls.
  pub workspace_fencing_monotone :
      {db db' : Database}
      → Reach db db'
      → IsValid db.leases
      → IsValid db'.leases × ((k : String) → fence (lease_row k db) ≤ fence (lease_row k db'))
  workspace_fencing_monotone here v = (v, λ k. omega arith)
  workspace_fencing_monotone (next r c) v =
      let (valid, grows) = workspace_fencing_monotone r v in
      let (valid', grows') = Call-leases c valid in (valid', λ k. omega (arith, grows k, grows' k))

  passed_forever :
      (lease : LeaseRecord) (t : ℕ) {db db' : Database}
      → IsValid db.leases
      → lease.fencing_token < fence (lease_row lease.name db)
      → Reach db db'
      → lease_is_current lease t db' ≡ false
  passed_forever lease t v passed r =
      let (valid, grows) = workspace_fencing_monotone r v in
      superseded_forever lease t valid (omega (arith, grows lease.name)) LeaseSteps.here

  -- Once the expired lease of a holder on a well-formed table has been acquired, its old record is
  -- never current again, whatever all the stores of the workspace do in between and whenever it is
  -- asked.
  pub taken_over_forever :
      (old : LeaseRecord) (t0 : ℕ) (owner : String) (ttl : ℕ) (token : Option String)
      (fresh : String) (now t : ℕ) (db : Database) {db' : Database}
      → IsValid db.leases
      → ttl ≢ 0
      → lease_is_current old t0 db ≡ true
      → is_free now (lease_row old.name db) ≡ true
      → Reach (acquire old.name owner ttl token fresh now db).1 db'
      → lease_is_current old t db' ≡ false
  taken_over_forever old t0 owner ttl token fresh now t db v pos held free r =
      let (valid, grown) = acquire_passes old t0 owner ttl token fresh now db v pos held free in
      passed_forever old t valid grown r
