-- ===== src/Examples/Leases.antt =====
-- The theorems on leases at a table with one lease, held until instant 9.
use safe_fs_ops.Prelude.{
  ◌≤◌, ◌+◌, suc, String, true, false, none, some, [], ◌≡◌, refl, arith, ltb, text_discrete, or_else,
  differ,
}
use safe_fs_ops.Table.{select}
use safe_fs_ops.Database.{Database, LeaseRecord, ok}
use safe_fs_ops.Lease.{lease_is_current, lease_row, acquire, heartbeat, release}
use safe_fs_ops.Lease.Rows.{IsValid}
use safe_fs_ops.Lease.Acquire.{acquire_live, acquire_free, fence, is_free}
use safe_fs_ops.Lease.Holding.{current_unique, stale_calls, heartbeat_extends, release_revokes}
use safe_fs_ops.Lease.Fencing.{Reach, here, next, heartbeats, acquires, fencing_monotone}
use safe_fs_ops.Examples.{demo, stored, held, workspace, leases-IsValid, held_current, held_expired}

abbrev db : Database
db = workspace []

work_stored : lease_row "work" db ≡ some stored
unfolding text_discrete select
work_stored = refl

work_free : is_free 9 (lease_row "work" db) ≡ true
unfolding text_discrete select
work_free = refl

acquire_live_example : acquire "work" "bob" 4 none "t2" 5 db ≡ (
  ok (record {
    name = "work";
    owner = "ann";
    token = "";
    fencing_token = 0;
    acquired_at = 0;
    heartbeat_at = 0;
    expires_at = 9;
    acquired = false;
  }),
  db,
)
acquire_live_example =
    acquire_live "work" "bob" 4 none "t2" 5 db stored 0 0 9 (ground arith) work_stored refl refl
      refl (omega arith)

acquire_free_example :
    let (answer, db') = acquire "work" "bob" 4 none "t2" 9 db in
    (lease : LeaseRecord) × (answer ≡ ok lease)
    × (lease.acquired ≡ true)
    × (lease.token ≡ or_else none "t2")
    × (lease.fencing_token ≡ suc (fence (lease_row "work" db)))
    × (lease_is_current lease 10 db' ≡ ltb 10 (9 + 4))
    × (lease_row "other" db' ≡ lease_row "other" db)
    × IsValid db'.leases
unfolding text_discrete
acquire_free_example =
    acquire_free "work" "bob" 4 none "t2" 9 db 10 "other" leases-IsValid (ground arith) work_free
      (differ "other" "work" refl)

heartbeat_extends_example :
    let (answer, db') = heartbeat held 7 5 db in
    (beat : LeaseRecord) × (answer ≡ ok (some beat))
    × (beat.token ≡ held.token)
    × (beat.fencing_token ≡ held.fencing_token)
    × (lease_is_current held 11 db' ≡ ltb 11 (5 + 7))
    × (lease_row "other" db' ≡ lease_row "other" db)
    × IsValid db'.leases
unfolding text_discrete
heartbeat_extends_example =
    heartbeat_extends held 7 5 db 11 "other" leases-IsValid (ground arith) (held_current [])
      (differ "other" "work" refl)

release_revokes_example :
    let (answer, db') = release held "t2" 5 db in
    (answer ≡ ok true) × (lease_is_current held 6 db' ≡ false) × IsValid db'.leases
unfolding text_discrete
release_revokes_example =
    release_revokes held "t2" 5 db held 6 leases-IsValid (held_current []) refl
      (differ "t1" "t2" refl)

stale_calls_example :
    (heartbeat held 7 9 db ≡ (ok none, db)) × (release held "t2" 9 db ≡ (ok false, db))
stale_calls_example = stale_calls held 7 9 "t2" db leases-IsValid (ground arith) (held_expired [])

current_unique_example :
    (held.owner ≡ held.owner)
    × (held.token ≡ held.token)
    × (held.fencing_token ≡ held.fencing_token)
current_unique_example =
    current_unique held held 5 5 db leases-IsValid refl (held_current []) (held_current [])

-- A heartbeat and a takeover.
abbrev beaten_db : Database
beaten_db = (heartbeat held 2 5 db).1

abbrev taken_db : Database
taken_db = (acquire "work" "bob" 4 none "t2" 9 beaten_db).1

taken : Reach db taken_db
taken = next (next here (heartbeats held 2 5)) (acquires "work" "bob" 4 none "t2" 9)

fencing_monotone_example :
    IsValid taken_db.leases × ((k : String) → fence (lease_row k db) ≤ fence (lease_row k taken_db))
fencing_monotone_example = fencing_monotone taken leases-IsValid
