-- ===== src/Lease/Rows.antt =====
-- The lease table of workspace_state/leases.py: its well-formed states, and the row that each
-- statement of LeaseStore leaves under a name.
use safe_fs_ops.Prelude.{ℕ, ◌≡◌, Bool, false, ◌&&◌, Option, none, some, List, arith, ◌==◌, nat_eq}
use safe_fs_ops.Table.Keys.{Unique, All, select-narrowed}
use safe_fs_ops.Platform.{Platform}
use safe_fs_ops.Database.{Database, LeaseRow, LeaseRecord}
use safe_fs_ops.Lease.{lease_name, lease_row, lease_is_current}

module _ ⦃p : Platform⦄ where
  -- The three time columns hold texts that `isoformat` wrote.
  abbrev pub Stamped : LeaseRow → Type 0
  Stamped r =
      (a : ℕ) × (h : ℕ) × (e : ℕ) × (r.acquired_at ≡ p.isoformat a)
      × (r.heartbeat_at ≡ p.isoformat h)
      × (r.expires_at ≡ p.isoformat e)

  -- The lease table: a row for each name, with readable times.
  pub record IsValid (rows : List LeaseRow) : Type 0 where
    pub unique : Unique lease_name rows
    pub stamped : All Stamped rows

  -- Whether the row of its name lets a lease record act.
  abbrev pub allows : LeaseRecord → ℕ → Option LeaseRow → Bool
  allows lease now none = false
  allows lease now (some r) =
      r.owner == lease.owner
      && (r.token == lease.token
          && (nat_eq r.fencing_token lease.fencing_token
              && p.text_lt (p.isoformat now) r.expires_at))

  pub lease_is_current_lem :
      (lease : LeaseRecord) (now : ℕ) (db : Database)
      → Unique lease_name db.leases
      → lease_is_current lease now db ≡ allows lease now (lease_row lease.name db)
  unfolding lease_is_current
  lease_is_current_lem lease now db u =
      ground
        (arith, select-narrowed lease_name (λ r. allows lease now (some r)) lease.name db.leases u)
