-- ===== src/Lease/Frame.antt =====
-- LeaseStore's calls write the table of leases only.
use safe_fs_ops.Prelude.{ℕ, String, ◌≡◌, [], arith, or_else, nat_eq}
use safe_fs_ops.Table.{insert}
use safe_fs_ops.Platform.{Platform}
use safe_fs_ops.Database.{Database, LeaseRow, LeaseRecord, value_error}
use safe_fs_ops.Database.Keeps.{Keeps, Keeps-call, Keeps-transaction}
use safe_fs_ops.Lease.{
  lease_from_row, new_lease, acquire, acquire_in, heartbeat, heartbeat_in, release, release_in,
}
use safe_fs_ops.Lease.Fencing.{Step, acquires, heartbeats, releases}

module _ ⦃p : Platform⦄ where
  -- All tables but that of leases.
  abbrev pub besides_leases : Database → Database
  besides_leases db = record db { leases = [] }

  Keeps-acquire_in : (new : LeaseRow) (now : ℕ) → Keeps besides_leases (acquire_in new now)
  unfolding acquire_in lease_from_row insert
  Keeps-acquire_in new now = record { at = λ db db' a e. ground arith }

  Keeps-heartbeat_in :
      (lease : LeaseRecord) (ttl now : ℕ) → Keeps besides_leases (heartbeat_in lease ttl now)
  unfolding heartbeat_in lease_from_row
  Keeps-heartbeat_in lease ttl now = record { at = λ db db' a e. ground arith }

  Keeps-release_in :
      (lease : LeaseRecord) (fresh : String) (now : ℕ)
      → Keeps besides_leases (release_in lease fresh now)
  unfolding release_in
  Keeps-release_in lease fresh now = record { at = λ db db' a e. ground arith }

  pub Step-besides_leases :
      {db db' : Database} → Step db db' → besides_leases db' ≡ besides_leases db
  unfolding acquire heartbeat release
  Step-besides_leases {db} (acquires name owner ttl token fresh now) =
      Keeps-call value_error (nat_eq ttl 0) _ db
        (Keeps-acquire_in (new_lease name owner ttl (or_else token fresh) now) now)
  Step-besides_leases {db} (heartbeats lease ttl now) =
      Keeps-call value_error (nat_eq ttl 0) _ db (Keeps-heartbeat_in lease ttl now)
  Step-besides_leases {db} (releases lease fresh now) =
      Keeps-transaction _ db (Keeps-release_in lease fresh now)
