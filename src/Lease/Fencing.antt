-- ===== src/Lease/Fencing.antt =====
-- Sequences of LeaseStore calls, in any order and by any callers: fencing tokens only grow, so a
-- superseded lease never acts again.
use safe_fs_ops.Prelude.{
  ℕ, suc, ◌<◌, ◌≤◌, String, ◌≡◌, ◌≢◌, refl, true, false, Option, none, some, arith, or_else, ltb,
  zero, Bool-cases, inl, inr, Option-cases,
}
use safe_fs_ops.Table.Keys.{has, select-All}
use safe_fs_ops.Platform.{Platform}
use safe_fs_ops.Database.{Database, LeaseRow, LeaseRecord}
use safe_fs_ops.Lease.{
  lease_name, lease_row, lease_is_current, beaten, released, acquire, heartbeat, release,
}
use safe_fs_ops.Lease.Rows.{IsValid, Stamped, lease_is_current_lem}
use safe_fs_ops.Lease.Acquire.{
  fence, is_free, acquire_live, acquire-granted, granted_lookup, granted-IsValid,
}
use safe_fs_ops.Lease.Holding.{
  stale_calls, heartbeat_current, beaten-IsValid, released-IsValid, lookup_update,
}

module _ ⦃p : Platform⦄ where
  -- One call on the lease table, with any arguments.
  pub data Step (db : Database) : Database → Type 0 where
    acquires :
        (name owner : String) (ttl : ℕ) (token : Option String) (fresh : String) (now : ℕ)
        → Step db (acquire name owner ttl token fresh now db).1
    heartbeats : (lease : LeaseRecord) (ttl now : ℕ) → Step db (heartbeat lease ttl now db).1
    releases :
        (lease : LeaseRecord) (fresh : String) (now : ℕ) → Step db (release lease fresh now db).1

  pub data Reach (db : Database) : Database → Type 0 where
    here : Reach db db
    next : {mid last : Database} → Reach db mid → Step mid last → Reach db last

  -- Each call keeps the table well formed, and no fencing token falls.
  Keeps : Database → Database → Type 0
  Keeps db db' =
      IsValid db'.leases × ((k : String) → fence (lease_row k db) ≤ fence (lease_row k db'))

  acquire-Keeps_at :
      (name owner : String) (ttl : ℕ) (token : Option String) (fresh : String) (now : ℕ)
      (db : Database) (row : Option LeaseRow)
      → IsValid db.leases
      → ttl ≢ 0
      → lease_row name db ≡ row
      → Keeps db (acquire name owner ttl token fresh now db).1
  unfolding Keeps
  acquire-Keeps_at name owner ttl token fresh now db none v pos e =
      let chosen = or_else token fresh in
      rw (acquire-granted name owner ttl token fresh now db none v pos e refl) (
        granted-IsValid name owner chosen ttl now none db.leases v e,
        λ k. ground (arith, granted_lookup name owner chosen k ttl now none db.leases e refl),
      )
  acquire-Keeps_at name owner ttl token fresh now db (some r) v pos e =
      let (a, h, x, ea, eh, ex) =
        select-All Stamped (has lease_name name) db.leases r v.stamped e in
      let chosen = or_else token fresh in
      elim (Bool-cases (ltb now x)) [
        | inl live ↦
            rw
              (acquire_live name owner ttl token fresh now db r a h x pos e ea eh ex (ground arith))
              (v, λ k. omega arith)
        | inr over ↦
            let free : is_free now (some r) ≡ true = ground (arith, p.isoformat_order now x) in
            rw (acquire-granted name owner ttl token fresh now db (some r) v pos e free) (
              granted-IsValid name owner chosen ttl now (some r) db.leases v e,
              λ k.
                  ground
                    (arith, granted_lookup name owner chosen k ttl now (some r) db.leases e free),
            )
      ]

  acquire-Keeps :
      (name owner : String) (ttl : ℕ) (token : Option String) (fresh : String) (now : ℕ)
      (db : Database)
      → IsValid db.leases
      → Keeps db (acquire name owner ttl token fresh now db).1
  unfolding Keeps acquire
  acquire-Keeps name owner zero token fresh now db v = (v, λ k. omega arith)
  acquire-Keeps name owner (suc ttl) token fresh now db v =
      acquire-Keeps_at name owner (suc ttl) token fresh now db (lease_row name db) v (omega arith)
        refl

  heartbeat-Keeps_at :
      (lease : LeaseRecord) (ttl now : ℕ) (db : Database) (row : Option LeaseRow)
      → IsValid db.leases
      → ttl ≢ 0
      → lease_is_current lease now db ≡ true
      → lease_row lease.name db ≡ row
      → Keeps db (heartbeat lease ttl now db).1
  unfolding Keeps
  heartbeat-Keeps_at lease ttl now db none v pos cur e =
      absurd (ground (arith, lease_is_current_lem lease now db v.unique))
  heartbeat-Keeps_at lease ttl now db (some r) v pos cur e =
      let s = select-All Stamped (has lease_name lease.name) db.leases r v.stamped e in
      rw (heartbeat_current lease ttl now db r s.0 v.unique pos cur e s.3) (
        beaten-IsValid lease ttl now db.leases v,
        λ k. ground (arith, lookup_update lease now (beaten ttl now) k db (λ x. refl)),
      )

  heartbeat-Keeps :
      (lease : LeaseRecord) (ttl now : ℕ) (db : Database)
      → IsValid db.leases
      → Keeps db (heartbeat lease ttl now db).1
  unfolding Keeps heartbeat
  heartbeat-Keeps lease zero now db v = (v, λ k. omega arith)
  heartbeat-Keeps lease (suc ttl) now db v = elim (Bool-cases (lease_is_current lease now db)) [
    | inl cur ↦
        heartbeat-Keeps_at lease (suc ttl) now db (lease_row lease.name db) v (omega arith) cur refl
    | inr stale ↦
        rw ((stale_calls lease (suc ttl) now "" db v (omega arith) stale).0) (v, λ k. omega arith)
  ]

  release-Keeps :
      (lease : LeaseRecord) (fresh : String) (now : ℕ) (db : Database)
      → IsValid db.leases
      → Keeps db (release lease fresh now db).1
  unfolding Keeps release
  release-Keeps lease fresh now db v = (
    released-IsValid lease fresh now db.leases v,
    λ k. ground (
      arith,
      Option-cases (lease_row k db),
      lookup_update lease now (released fresh now) k db (λ x. refl),
    ),
  )

  Step-Keeps : {db db' : Database} → Step db db' → IsValid db.leases → Keeps db db'
  Step-Keeps (acquires name owner ttl token fresh now) v =
      acquire-Keeps name owner ttl token fresh now _ v
  Step-Keeps (heartbeats lease ttl now) v = heartbeat-Keeps lease ttl now _ v
  Step-Keeps (releases lease fresh now) v = release-Keeps lease fresh now _ v

  -- After any sequence of calls on a well-formed table, the table is well formed and the fencing
  -- token of every name is at least what it was.
  pub fencing_monotone :
      {db db' : Database}
      → Reach db db'
      → IsValid db.leases
      → IsValid db'.leases × ((k : String) → fence (lease_row k db) ≤ fence (lease_row k db'))
  unfolding Keeps
  fencing_monotone here v = (v, λ k. omega arith)
  fencing_monotone (next r s) v =
      let (valid, grows) = fencing_monotone r v in
      let (valid', grows') = Step-Keeps s valid in (valid', λ k. omega (arith, grows k, grows' k))

  -- On a well-formed table, a lease record whose fencing token the table has passed is never
  -- current again: not at any instant, after any sequence of lease calls by anyone.
  pub superseded_forever :
      (lease : LeaseRecord) (t : ℕ) {db db' : Database}
      → IsValid db.leases
      → lease.fencing_token < fence (lease_row lease.name db)
      → Reach db db'
      → lease_is_current lease t db' ≡ false
  superseded_forever lease t {db' = db'} v passed r =
      let (valid, grows) = fencing_monotone r v in
      elim (Option-cases (lease_row lease.name db')) [
        | inl gone ↦ ground (arith, lease_is_current_lem lease t db' valid.unique)
        | inr (row, found) ↦
            ground (arith, grows lease.name, lease_is_current_lem lease t db' valid.unique)
      ]

  pub acquire_passes :
      (old : LeaseRecord) (t0 : ℕ) (owner : String) (ttl : ℕ) (token : Option String)
      (fresh : String) (now : ℕ) (db : Database)
      → IsValid db.leases
      → ttl ≢ 0
      → lease_is_current old t0 db ≡ true
      → is_free now (lease_row old.name db) ≡ true
      → let db' = (acquire old.name owner ttl token fresh now db).1 in
        IsValid db'.leases × (old.fencing_token < fence (lease_row old.name db'))
  unfolding Keeps
  acquire_passes old t0 owner ttl token fresh now db v pos held free =
      let row = lease_row old.name db in
      let chosen = or_else token fresh in
      let (valid, _) = acquire-Keeps old.name owner ttl token fresh now db v in
      let grown : fence row
          < fence (lease_row old.name (acquire old.name owner ttl token fresh now db).1) =
        rw (acquire-granted old.name owner ttl token fresh now db row v pos refl free) (
          ground (
            arith,
            granted_lookup old.name owner chosen old.name ttl now row db.leases refl free,
          )) in
      (valid, ground (arith, lease_is_current_lem old t0 db v.unique))
