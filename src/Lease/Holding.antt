-- ===== src/Lease/Holding.antt =====
-- LeaseStore.heartbeat, release and is_current of workspace_state/leases.py: who holds a lease, and
-- what the holder's calls do.
use safe_fs_ops.Prelude.{
  ℕ, ◌+◌, String, ◌≡◌, ◌≢◌, refl, true, false, none, some, List, arith, if◌then◌else◌, ◌==◌, ltb,
  inl, inr, Option-cases,
}
use safe_fs_ops.Table.{select, update, count}
use safe_fs_ops.Table.Keys.{
  has, Unique, updated, count-has, update-Unique, update-All, select-All, select-update_at,
  update_of_count_zero,
}
use safe_fs_ops.Platform.{Platform}
use safe_fs_ops.Database.{Database, LeaseRow, LeaseRecord, ok}
use safe_fs_ops.Lease.{
  lease_name, lease_row, lease_is_current, matches, heartbeat_in, heartbeat, release, beaten,
  released,
}
use safe_fs_ops.Lease.Rows.{IsValid, Stamped, lease_is_current_lem, allows}

module _ ⦃p : Platform⦄ where
  -- Two lease records of one name that are both current in one state of the table, at whatever
  -- instants, have the same owner, token and fencing token.
  pub current_unique :
      (a b : LeaseRecord) (t u : ℕ) (db : Database)
      → IsValid db.leases
      → a.name ≡ b.name
      → lease_is_current a t db ≡ true
      → lease_is_current b u db ≡ true
      → (a.owner ≡ b.owner) × (a.token ≡ b.token) × (a.fencing_token ≡ b.fencing_token)
  current_unique a b t u db v e ca cb = elim (Option-cases (lease_row a.name db)) [
    | inl gone ↦
        ground (arith, lease_is_current_lem a t db v.unique, lease_is_current_lem b u db v.unique)
    | inr (r, found) ↦
        ground (arith, lease_is_current_lem a t db v.unique, lease_is_current_lem b u db v.unique)
  ]

  pub count-matches :
      (lease : LeaseRecord) (now : ℕ) (db : Database)
      → Unique lease_name db.leases
      → count (matches lease now) db.leases ≡ (if lease_is_current lease now db then 1 else 0)
  count-matches lease now db u = elim (Option-cases (lease_row lease.name db)) [
    | inl gone ↦ ground (
      arith,
      lease_is_current_lem lease now db u,
      count-has lease_name (λ r. allows lease now (some r)) lease.name db.leases u,
    )
    | inr (r, found) ↦ ground (
      arith,
      lease_is_current_lem lease now db u,
      count-has lease_name (λ r. allows lease now (some r)) lease.name db.leases u,
    )
  ]

  -- A call with a record that is not current changes nothing: `heartbeat` answers None and
  -- `release` answers False.
  pub stale_calls :
      (lease : LeaseRecord) (ttl now : ℕ) (fresh : String) (db : Database)
      → IsValid db.leases
      → ttl ≢ 0
      → lease_is_current lease now db ≡ false
      → (heartbeat lease ttl now db ≡ (ok none, db)) × (release lease fresh now db ≡ (ok false, db))
  unfolding heartbeat heartbeat_in release
  stale_calls lease ttl now fresh db v pos stale =
      let zero_rows : count (matches lease now) db.leases ≡ 0 =
        ground (arith, count-matches lease now db v.unique) in
      (
        ground (arith, update_of_count_zero (matches lease now) (beaten ttl now) db.leases),
        ground (arith, update_of_count_zero (matches lease now) (released fresh now) db.leases),
      )

  -- The lookup after an UPDATE of the row that a current record matches.
  pub lookup_update :
      (lease : LeaseRecord) (now : ℕ) (f : LeaseRow → LeaseRow) (k : String) (db : Database)
      → ((r : LeaseRow) → (f r).name ≡ r.name)
      → select (has lease_name k) (update (matches lease now) f db.leases) ≡ (
          if lease.name == k
          then updated (λ r. allows lease now (some r)) f (select (has lease_name k) db.leases)
          else select (has lease_name k) db.leases)
  lookup_update lease now f k db keeps =
      select-update_at lease_name (λ r. allows lease now (some r)) f keeps lease.name k db.leases

  abbrev pub beat_record : LeaseRecord → LeaseRow → ℕ → ℕ → ℕ → LeaseRecord
  beat_record lease r acquired_at ttl now = record {
    name = r.name;
    owner = r.owner;
    token = r.token;
    fencing_token = r.fencing_token;
    acquired_at = acquired_at;
    heartbeat_at = now;
    expires_at = now + ttl;
    acquired = false;
  }

  pub heartbeat_current :
      (lease : LeaseRecord) (ttl now : ℕ) (db : Database) (r : LeaseRow) (a : ℕ)
      → Unique lease_name db.leases
      → ttl ≢ 0
      → lease_is_current lease now db ≡ true
      → lease_row lease.name db ≡ some r
      → r.acquired_at ≡ p.isoformat a
      → heartbeat lease ttl now db ≡ (
        ok (some (beat_record lease r a ttl now)),
        record db { leases = update (matches lease now) (beaten ttl now) db.leases },
      )
  unfolding heartbeat heartbeat_in
  heartbeat_current lease ttl now db r a u pos cur found ea = ground (
    arith,
    lease_is_current_lem lease now db u,
    count-matches lease now db u,
    lookup_update lease now (beaten ttl now) lease.name db (λ s. refl),
    p.parse-isoformat a,
    p.parse-isoformat now,
    p.parse-isoformat (now + ttl),
  )

  pub beaten-IsValid :
      (lease : LeaseRecord) (ttl now : ℕ) (rows : List LeaseRow)
      → IsValid rows
      → IsValid (update (matches lease now) (beaten ttl now) rows)
  beaten-IsValid lease ttl now rows v = record {
    unique = update-Unique lease_name _ _ (λ r. refl) rows v.unique;
    stamped =
        update-All Stamped _ (beaten ttl now) (λ r s. (s.0, now, now + ttl, s.3, refl, refl)) rows
          v.stamped;
  }

  pub released-IsValid :
      (lease : LeaseRecord) (fresh : String) (now : ℕ) (rows : List LeaseRow)
      → IsValid rows
      → IsValid (update (matches lease now) (released fresh now) rows)
  released-IsValid lease fresh now rows v = record {
    unique = update-Unique lease_name _ _ (λ r. refl) rows v.unique;
    stamped =
        update-All Stamped _ (released fresh now) (λ r s. (s.0, now, now, s.3, refl, refl)) rows
          v.stamped;
  }

  -- A heartbeat with a current record succeeds: the answer has the tokens of the record, which is
  -- from then on current at exactly the instants before `now + ttl`; the row of another name is as
  -- before, and the table stays well formed.
  pub heartbeat_extends :
      (lease : LeaseRecord) (ttl now : ℕ) (db : Database) (t : ℕ) (k : String)
      → IsValid db.leases
      → ttl ≢ 0
      → lease_is_current lease now db ≡ true
      → k ≢ lease.name
      → let (answer, db') = heartbeat lease ttl now db in
        (beat : LeaseRecord) × (answer ≡ ok (some beat))
        × (beat.token ≡ lease.token)
        × (beat.fencing_token ≡ lease.fencing_token)
        × (lease_is_current lease t db' ≡ ltb t (now + ttl))
        × (lease_row k db' ≡ lease_row k db)
        × IsValid db'.leases
  heartbeat_extends lease ttl now db t k v pos cur ne =
      elim (Option-cases (lease_row lease.name db)) [
        | inl gone ↦ absurd (ground (arith, lease_is_current_lem lease now db v.unique))
        | inr (r, found) ↦
            let s = select-All Stamped (has lease_name lease.name) db.leases r v.stamped found in
            let valid = beaten-IsValid lease ttl now db.leases v in
            let after = record db {
              leases = update (matches lease now) (beaten ttl now) db.leases;
            } in
            rw (heartbeat_current lease ttl now db r s.0 v.unique pos cur found s.3) (
              beat_record lease r s.0 ttl now,
              refl,
              ground (arith, lease_is_current_lem lease now db v.unique),
              ground (arith, lease_is_current_lem lease now db v.unique),
              ground (
                arith,
                lease_is_current_lem lease now db v.unique,
                lease_is_current_lem lease t after valid.unique,
                lookup_update lease now (beaten ttl now) lease.name db (λ x. refl),
                p.isoformat_order t (now + ttl),
              ),
              ground (arith, lookup_update lease now (beaten ttl now) k db (λ x. refl)),
              valid,
            )
      ]

  -- After a release by the holder no record of that name with another token than the fresh one is
  -- current, at any instant, and the table stays well formed.
  pub release_revokes :
      (lease : LeaseRecord) (fresh : String) (now : ℕ) (db : Database) (stale : LeaseRecord) (t : ℕ)
      → IsValid db.leases
      → lease_is_current lease now db ≡ true
      → stale.name ≡ lease.name
      → stale.token ≢ fresh
      → let (answer, db') = release lease fresh now db in
        (answer ≡ ok true) × (lease_is_current stale t db' ≡ false) × IsValid db'.leases
  unfolding release
  release_revokes lease fresh now db stale t v cur e other =
      let valid = released-IsValid lease fresh now db.leases v in
      (
        ground (arith, count-matches lease now db v.unique),
        ground (
          arith,
          lease_is_current_lem lease now db v.unique,
          lease_is_current_lem stale t
              (record db { leases = update (matches lease now) (released fresh now) db.leases })
              valid.unique,
          lookup_update lease now (released fresh now) stale.name db (λ x. refl),
        ),
        valid,
      )
