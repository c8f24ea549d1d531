-- ===== src/Heartbeat.antt =====
-- LeaseHeartbeat of workspace_state/lease_heartbeat.py: a thread that beats a lease while other
-- work goes on. The instants of its rounds are arguments, and so is what runs between them; the
-- joining of the thread is not modelled. A ttl is in microseconds.

pub mod Maintained
use safe_fs_ops.Prelude.{
  ℕ, ◌+◌, max, String, Bool, true, false, not, ◌&&◌, ◌||◌, Option, none, some, if◌then◌else◌,
  nat_eq, ltb,
}
use safe_fs_ops.Platform.{Platform}
use safe_fs_ops.Database.{Database, LeaseRecord, Error, lease_lost, Result, ok, err}
use safe_fs_ops.Lease.{heartbeat}

-- `_error`, and whether `_stop` is set.
pub record Heartbeat : Type 0 where
  pub error : Option Error
  pub stop : Bool

abbrev least : ℕ → ℕ → ℕ
least m n = if ltb m n then m else n

-- `_interval_seconds`, in thirds of a microsecond: the third of the ttl, between 0.01 and 5 seconds
unfoldable pub interval : ℕ → ℕ
interval ttl = max 30000 (least 15000000 ttl)

module _ ⦃p : Platform⦄ where
  abbrev beaten_once : Result (Option LeaseRecord) → Result (Unit {0})
  beaten_once (ok none) = err lease_lost
  beaten_once (ok (some _)) = ok tt
  beaten_once (err e) = err e

  -- `_heartbeat_once`
  unfoldable pub heartbeat_once : LeaseRecord → ℕ → ℕ → Database → Result (Unit {0}) × Database
  heartbeat_once lease ttl now db =
      let (answer, db') = heartbeat lease ttl now db in (beaten_once answer, db')

  abbrev noted : Heartbeat → Result (Unit {0}) → Heartbeat
  noted h (ok _) = h
  noted h (err e) = record { error = some e; stop = true }

  -- One round of the loop of `_run`, which ends once `_stop` is set.
  unfoldable pub run_round : LeaseRecord → ℕ → ℕ → Heartbeat → Database → Heartbeat × Database
  unfolding heartbeat_once
  run_round lease ttl now h db =
      if h.stop
      then (h, db)
      else let (answer, db') = heartbeat_once lease ttl now db in (noted h answer, db')

  abbrev pub fresh : Heartbeat
  fresh = record { error = none; stop = false }

  -- `__enter__`, for a store that can beat: the thread starts after a first heartbeat, or not at
  -- all.
  unfoldable pub enter :
      Bool → LeaseRecord → ℕ → ℕ → Database → Result (Option Heartbeat) × Database
  unfolding heartbeat_once
  enter enabled lease ttl now db =
      if not enabled || nat_eq ttl 0
      then (ok none, db)
      else let (answer, db') = heartbeat_once lease ttl now db in
        (elim answer [ ok _ ↦ ok (some fresh) | err e ↦ err e ], db')

  -- `__exit__`, where `failed` says that an exception is already on its way.
  unfoldable pub exit : Bool → Heartbeat → Result (Unit {0})
  exit failed h = if failed then ok tt else elim h.error [ none ↦ ok tt | some e ↦ err e ]
