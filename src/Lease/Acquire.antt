-- ===== src/Lease/Acquire.antt =====
-- LeaseStore.acquire of workspace_state/leases.py: a live lease is refused, a free one is granted.
use safe_fs_ops.Prelude.{
  ℕ, suc, ◌+◌, ◌<◌, ◌≤◌, String, ◌≡◌, ◌≢◌, refl, Bool, true, false, not, Option, none, some, List,
  [], ◌∷◌, ◌++◌, arith, if◌then◌else◌, ◌==◌, ltb, or_else,
}
use safe_fs_ops.Table.{select, update, insert}
use safe_fs_ops.Table.Keys.{
  has, Unique, select-update, select-append, count-has, update-Unique, append-Unique, update-All,
  append-All, select_sound, select-All, select-update_at,
}
use safe_fs_ops.Platform.{Platform}
use safe_fs_ops.Database.{Database, LeaseRow, LeaseRecord, ok}
use safe_fs_ops.Lease.{
  lease_name, lease_row, lease_is_current, granted_to, expired, new_lease, acquire_in, acquire,
}
use safe_fs_ops.Lease.Rows.{IsValid, Stamped, lease_is_current_lem, allows}

module _ ⦃p : Platform⦄ where
  -- While the stored lease has not expired, `acquire` writes nothing and answers with a record of
  -- the holder that says it was not acquired and shows neither token.
  pub acquire_live :
      (name owner : String) (ttl : ℕ) (token : Option String) (fresh : String) (now : ℕ)
      (db : Database) (r : LeaseRow) (a h e : ℕ)
      → ttl ≢ 0
      → lease_row name db ≡ some r
      → r.acquired_at ≡ p.isoformat a
      → r.heartbeat_at ≡ p.isoformat h
      → r.expires_at ≡ p.isoformat e
      → now < e
      → acquire name owner ttl token fresh now db ≡ (
        ok (record {
          name = r.name;
          owner = r.owner;
          token = "";
          fencing_token = 0;
          acquired_at = a;
          heartbeat_at = h;
          expires_at = e;
          acquired = false;
        }),
        db,
      )
  unfolding acquire acquire_in
  acquire_live name owner ttl token fresh now db r a h e pos row ea eh ee live =
      ground (arith, p.parse-isoformat a, p.parse-isoformat h, p.parse-isoformat e)

  -- The table after a grant.
  abbrev pub granted : LeaseRow → ℕ → Option LeaseRow → List LeaseRow → List LeaseRow
  granted new now none rows = rows ++ new ∷ []
  granted new now (some _) rows = update (expired new.name now) (granted_to new) rows

  abbrev pub fence : Option LeaseRow → ℕ
  fence none = 0
  fence (some r) = r.fencing_token

  -- The name's lease is not held at `now`.
  abbrev pub is_free : ℕ → Option LeaseRow → Bool
  is_free now none = true
  is_free now (some r) = not (p.text_lt (p.isoformat now) r.expires_at)

  abbrev pub holder : String → String → String → ℕ → ℕ → ℕ → LeaseRecord
  holder name owner token fencing now ttl = record {
    name = name;
    owner = owner;
    token = token;
    fencing_token = fencing;
    acquired_at = now;
    heartbeat_at = now;
    expires_at = now + ttl;
    acquired = true;
  }

  acquire_in_new :
      (name owner token : String) (ttl now : ℕ) (db : Database)
      → lease_row name db ≡ none
      → acquire_in (new_lease name owner ttl token now) now db
        ≡ ok (
          holder name owner token 1 now ttl,
          record db { leases = db.leases ++ new_lease name owner ttl token now ∷ [] },
        )
  unfolding acquire_in new_lease insert
  acquire_in_new name owner token ttl now db free = ground (
    arith,
    select-append lease_name (new_lease name owner ttl token now) name db.leases,
    p.parse-isoformat now,
    p.parse-isoformat (now + ttl),
  )

  acquire_in-expired :
      (name owner token : String) (ttl now : ℕ) (db : Database) (r : LeaseRow) (e : ℕ)
      → Unique lease_name db.leases
      → lease_row name db ≡ some r
      → r.expires_at ≡ p.isoformat e
      → e ≤ now
      → acquire_in (new_lease name owner ttl token now) now db
        ≡ ok (
          holder name owner token (r.fencing_token + 1) now ttl,
          record db {
            leases =
                update
                  (expired name now)
                  (granted_to (new_lease name owner ttl token now))
                  db.leases;
          },
        )
  unfolding acquire_in new_lease
  acquire_in-expired name owner token ttl now db r e u row ee over = ground (
    arith,
    select_sound (has lease_name name) db.leases r,
    count-has lease_name (λ s. not (p.text_lt (p.isoformat now) s.expires_at)) name db.leases u,
    select-update lease_name (expired name now) (granted_to (new_lease name owner ttl token now))
        (λ s. refl) name db.leases,
    p.isoformat_order now e,
    p.parse-isoformat e,
    p.parse-isoformat now,
    p.parse-isoformat (now + ttl),
  )

  -- What a grant leaves under the name: the new holder, one fencing step on.
  abbrev pub granted_row : String → String → String → ℕ → ℕ → ℕ → LeaseRow
  granted_row name owner token fencing now ttl = record {
    name = name;
    owner = owner;
    token = token;
    fencing_token = fencing;
    acquired_at = p.isoformat now;
    heartbeat_at = p.isoformat now;
    expires_at = p.isoformat (now + ttl);
  }

  new_lease-Stamped :
      (name owner token : String) (ttl now : ℕ) → Stamped (new_lease name owner ttl token now)
  unfolding new_lease
  new_lease-Stamped name owner token ttl now = (now, now, now + ttl, refl, refl, refl)

  pub granted-IsValid :
      (name owner token : String) (ttl now : ℕ) (row : Option LeaseRow) (rows : List LeaseRow)
      → IsValid rows
      → select (has lease_name name) rows ≡ row
      → IsValid (granted (new_lease name owner ttl token now) now row rows)
  unfolding new_lease
  granted-IsValid name owner token ttl now none rows v e = record {
    unique = append-Unique lease_name (new_lease name owner ttl token now) rows e v.unique;
    stamped =
        append-All Stamped (new_lease name owner ttl token now) rows
          (new_lease-Stamped name owner token ttl now) v.stamped;
  }
  granted-IsValid name owner token ttl now (some r) rows v e = record {
    unique = update-Unique lease_name _ _ (λ s. refl) rows v.unique;
    stamped =
        update-All Stamped _ (granted_to (new_lease name owner ttl token now))
          (λ s k. (now, now, now + ttl, refl, refl, refl)) rows v.stamped;
  }

  pub granted_lookup :
      (name owner token k : String) (ttl now : ℕ) (row : Option LeaseRow) (rows : List LeaseRow)
      → select (has lease_name name) rows ≡ row
      → is_free now row ≡ true
      → select (has lease_name k) (granted (new_lease name owner ttl token now) now row rows) ≡ (
          if name == k
          then some (granted_row name owner token (suc (fence row)) now ttl)
          else select (has lease_name k) rows)
  unfolding new_lease
  granted_lookup name owner token k ttl now none rows e f =
      ground (arith, select-append lease_name (new_lease name owner ttl token now) k rows)
  granted_lookup name owner token k ttl now (some r) rows e f = ground (
    arith,
    select_sound (has lease_name name) rows r,
    select-update_at lease_name (λ s. not (p.text_lt (p.isoformat now) s.expires_at))
        (granted_to (new_lease name owner ttl token now)) (λ s. refl) name k rows,
  )

  pub acquire-granted :
      (name owner : String) (ttl : ℕ) (token : Option String) (fresh : String) (now : ℕ)
      (db : Database) (row : Option LeaseRow)
      → IsValid db.leases
      → ttl ≢ 0
      → lease_row name db ≡ row
      → is_free now row ≡ true
      → acquire name owner ttl token fresh now db ≡ (
        ok (holder name owner (or_else token fresh) (suc (fence row)) now ttl),
        record db {
          leases = granted (new_lease name owner ttl (or_else token fresh) now) now row db.leases;
        },
      )
  unfolding acquire
  acquire-granted name owner ttl token fresh now db none v pos e f =
      ground (arith, acquire_in_new name owner (or_else token fresh) ttl now db)
  acquire-granted name owner ttl token fresh now db (some r) v pos e f =
      let (a, h, x, ea, eh, ex) =
        select-All Stamped (has lease_name name) db.leases r v.stamped e in
      ground (
        arith,
        acquire_in-expired name owner (or_else token fresh) ttl now db r x v.unique e ex,
        p.isoformat_order now x,
      )

  granted_row_current :
      (name owner token : String) (fencing now ttl t : ℕ)
      → allows
          (holder name owner token fencing now ttl)
          t
          (some (granted_row name owner token fencing now ttl))
        ≡ ltb t (now + ttl)
  granted_row_current name owner token fencing now ttl t =
      ground (arith, p.isoformat_order t (now + ttl))

  -- On a well-formed table, `acquire` of a lease that is free succeeds: the record says so, has the
  -- requested or the fresh token and the next fencing token, and is current at exactly the
  -- instants before its expiry; the row of another name is as before, and the table stays well
  -- formed.
  pub acquire_free :
      (name owner : String) (ttl : ℕ) (token : Option String) (fresh : String) (now : ℕ)
      (db : Database) (t : ℕ) (k : String)
      → IsValid db.leases
      → ttl ≢ 0
      → is_free now (lease_row name db) ≡ true
      → k ≢ name
      → let (answer, db') = acquire name owner ttl token fresh now db in
        (lease : LeaseRecord) × (answer ≡ ok lease)
        × (lease.acquired ≡ true)
        × (lease.token ≡ or_else token fresh)
        × (lease.fencing_token ≡ suc (fence (lease_row name db)))
        × (lease_is_current lease t db' ≡ ltb t (now + ttl))
        × (lease_row k db' ≡ lease_row k db)
        × IsValid db'.leases
  acquire_free name owner ttl token fresh now db t k v pos f ne =
      let row = lease_row name db in
      let chosen = or_else token fresh in
      let rows = granted (new_lease name owner ttl chosen now) now row db.leases in
      let valid : IsValid rows = granted-IsValid name owner chosen ttl now row db.leases v refl in
      let found = λ (j : String). granted_lookup name owner chosen j ttl now row db.leases refl f in
      let lease = holder name owner chosen (suc (fence row)) now ttl in
      rw (acquire-granted name owner ttl token fresh now db row v pos refl f) (
        lease,
        refl,
        refl,
        refl,
        refl,
        ground (
          arith,
          lease_is_current_lem lease t (record db { leases = rows }) valid.unique,
          found name,
          granted_row_current name owner chosen (suc (fence row)) now ttl t,
        ),
        ground (arith, found k),
        valid,
      )
