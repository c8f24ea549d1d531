-- ===== src/Examples/Heartbeats.antt =====
-- The theorems on lease heartbeats, at the lease of the example and a ttl of 5.
use safe_fs_ops.Prelude.{
  ℕ, ◌*◌, ◌≤◌, ◌<◌, true, false, none, [], ◌∷◌, List, ◌≡◌, arith, ltb, text_discrete,
}
use safe_fs_ops.Table.{select}
use safe_fs_ops.Database.{Database, BatchPhase}
use safe_fs_ops.Lease.{lease_is_current}
use safe_fs_ops.Lease.Rows.{IsValid}
use safe_fs_ops.Heartbeat.{fresh, interval}
use safe_fs_ops.Heartbeat.Maintained.{
  Event, round, attempt, move, all_happen, timely, last_expiry, all_happen-last_expiry,
  interval_lem,
}
use safe_fs_ops.Examples.{demo, held, batch, workspace, leases-IsValid, count-marks}

abbrev db : Database
db = workspace (batch BatchPhase.planned ∷ [])

-- A move of the batch, an attempt of bob, a round, another attempt that would have been in time,
-- and a round.
abbrev events : List Event
events =
    move "b1" BatchPhase.attempting none "{}" 5
    ∷ attempt "bob" 4 none "t2" 6
    ∷ round 7
    ∷ attempt "bob" 4 none "t3" 10
    ∷ round 11
    ∷ []

held_until : (t : ℕ) → lease_is_current held t db ≡ ltb t 9
unfolding lease_is_current text_discrete select
held_until t = ground (arith, count-marks t)

events-timely : timely 5 9 events ≡ true
unfolding timely
events-timely = ground arith

all_happen-last_expiry_example :
    let (h, db') = all_happen held 5 events (fresh, db) in
    (h.error ≡ none)
    × (h.stop ≡ false)
    × (IsValid db'.leases
        × ((t : ℕ) → lease_is_current held t db' ≡ ltb t (last_expiry 5 9 events)))
all_happen-last_expiry_example =
    all_happen-last_expiry held 5 9 events db (ground arith) leases-IsValid held_until events-timely

interval_lem_example :
    (10000 < 3000000 → interval 3000000 < 3 * 3000000)
    × (3000000 ≤ 10000 → 3 * 3000000 ≤ interval 3000000)
interval_lem_example = interval_lem 3000000
