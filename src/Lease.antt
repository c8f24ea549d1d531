-- ===== src/Lease.antt =====
-- workspace_state/leases.py: LeaseStore.acquire, active, heartbeat, is_current, require_current and
-- release on the table workspace_leases. A timedelta is in microseconds, with 0 for every one that
-- is not positive; `now` is the instant of `_utcnow`; `fresh` is what secrets.token_hex returns.
-- The branch for SQLAlchemy sessions issues the same statements and is not modelled apart.
pub mod Rows
pub mod Acquire
pub mod Holding
pub mod Fencing
pub mod Frame
use safe_fs_ops.Prelude.{
  ℕ, suc, ◌+◌, String, Bool, true, false, ◌&&◌, not, Option, none, some, if◌then◌else◌, ◌==◌,
  nat_eq, ltb, or_else, is_some,
}
use safe_fs_ops.Table.{select, update, count, insert}
use safe_fs_ops.Table.Keys.{has}
use safe_fs_ops.Platform.{Platform}
use safe_fs_ops.Database.{
  Database, LeaseRow, LeaseRecord, Error, value_error, runtime_error, integrity_error, lease_lost,
  Result, ok, err, Tx, ◌>>=◌, ◌>>◌, pure, raise, raise_if, transaction,
}

abbrev pub lease_name : LeaseRow → String
lease_name r = r.name

abbrev pub lease_row : String → Database → Option LeaseRow
lease_row name db = select (has lease_name name) db.leases

module _ ⦃p : Platform⦄ where
  abbrev pub parse : String → Tx ℕ
  parse text db = elim (p.parse_datetime text) [ none ↦ err value_error | some t ↦ ok (t, db) ]

  -- `expose` is `expose_authority`: without it the token and the fencing token are hidden.
  unfoldable pub lease_from_row : Bool → Bool → LeaseRow → Tx LeaseRecord
  lease_from_row acquired expose r = do
    acquired_at ← parse r.acquired_at
    heartbeat_at ← parse r.heartbeat_at
    expires_at ← parse r.expires_at
    pure (record {
      name = r.name;
      owner = r.owner;
      token = if expose then r.token else "";
      fencing_token = if expose then r.fencing_token else 0;
      acquired_at = acquired_at;
      heartbeat_at = heartbeat_at;
      expires_at = expires_at;
      acquired = acquired;
    })

  -- The WHERE clause that heartbeat, release and is_current share.
  abbrev pub matches : LeaseRecord → ℕ → LeaseRow → Bool
  matches lease now r =
      has lease_name lease.name r
      && (r.owner == lease.owner
          && (r.token == lease.token
              && (nat_eq r.fencing_token lease.fencing_token
                  && p.text_lt (p.isoformat now) r.expires_at)))

  unfoldable pub lease_is_current : LeaseRecord → ℕ → Database → Bool
  lease_is_current lease now db = is_some (select (matches lease now) db.leases)

  unfoldable pub require_current_lease : LeaseRecord → ℕ → Tx (Unit {0})
  require_current_lease lease now db =
      if lease_is_current lease now db then ok (tt, db) else err lease_lost

  abbrev insert_lease : LeaseRow → Tx Bool
  insert_lease new db = elim (insert (has lease_name new.name) new db.leases) [
    | none ↦ ok (false, db)
    | some rows ↦ ok (true, record db { leases = rows })
  ]

  abbrev granted_to : LeaseRow → LeaseRow → LeaseRow
  granted_to new r = record r {
    owner = new.owner;
    token = new.token;
    fencing_token = r.fencing_token + 1;
    acquired_at = new.acquired_at;
    heartbeat_at = new.heartbeat_at;
    expires_at = new.expires_at;
  }

  -- WHERE name = ? AND expires_at <= ?
  abbrev expired : String → ℕ → LeaseRow → Bool
  expired name now r = has lease_name name r && not (p.text_lt (p.isoformat now) r.expires_at)

  abbrev take_over : LeaseRow → ℕ → Tx Bool
  take_over new now db = ok (
    nat_eq (count (expired new.name now) db.leases) 1,
    record db { leases = update (expired new.name now) (granted_to new) db.leases },
  )

  -- The answer of `acquire`: the row of the table now, or an error if there is none.
  abbrev answer : Bool → Error → Option LeaseRow → Tx LeaseRecord
  answer won missing none = raise missing
  answer won missing (some r) = lease_from_row won won r

  abbrev current_row : String → Tx (Option LeaseRow)
  current_row name db = ok (lease_row name db, db)

  abbrev is_busy : Option LeaseRow → ℕ → Tx Bool
  is_busy none now = pure false
  is_busy (some r) now = do expires_at ← parse r.expires_at; pure (ltb now expires_at)

  -- The statement that stores the new holder, and the error if its row is then missing.
  abbrev store_lease : Option LeaseRow → LeaseRow → ℕ → Tx Bool
  store_lease none new now = insert_lease new
  store_lease (some _) new now = take_over new now

  abbrev lost_error : Option LeaseRow → Error
  lost_error none = integrity_error
  lost_error (some _) = runtime_error

  unfoldable pub acquire_in : LeaseRow → ℕ → Tx LeaseRecord
  unfolding lease_from_row
  acquire_in new now = do
    row ← current_row new.name
    busy ← is_busy row now
    if busy then answer false runtime_error row else do
      stored ← store_lease row new now
      current ← current_row new.name
      answer stored (if stored then runtime_error else lost_error row) current

  -- The row that `acquire` writes for a lease that nobody held before.
  unfoldable pub new_lease : String → String → ℕ → String → ℕ → LeaseRow
  new_lease name owner ttl token now = record {
    name = name;
    owner = owner;
    token = token;
    fencing_token = 1;
    acquired_at = p.isoformat now;
    heartbeat_at = p.isoformat now;
    expires_at = p.isoformat (now + ttl);
  }

  unfoldable pub acquire :
      String → String → ℕ → Option String → String → ℕ → Database → Result LeaseRecord × Database
  unfolding new_lease transaction
  acquire name owner ttl token fresh now db =
      if nat_eq ttl 0
      then (err value_error, db)
      else transaction (acquire_in (new_lease name owner ttl (or_else token fresh) now) now) db

  abbrev shown : Option LeaseRow → ℕ → Tx (Option LeaseRecord)
  shown none now = pure none
  shown (some r) now = do
    lease ← lease_from_row false false r
    pure (if ltb now lease.expires_at then some lease else none)

  unfoldable pub active : String → ℕ → Tx (Option LeaseRecord)
  unfolding lease_from_row
  active name now = do row ← current_row name; shown row now

  abbrev beaten : ℕ → ℕ → LeaseRow → LeaseRow
  beaten ttl now r = record r {
    heartbeat_at = p.isoformat now;
    expires_at = p.isoformat (now + ttl);
  }

  abbrev refreshed : Option LeaseRow → Tx (Option LeaseRecord)
  refreshed none = raise runtime_error
  refreshed (some r) = do lease ← lease_from_row false true r; pure (some lease)

  unfoldable pub heartbeat_in : LeaseRecord → ℕ → ℕ → Tx (Option LeaseRecord)
  unfolding lease_from_row
  heartbeat_in lease ttl now db =
      let db' = record db { leases = update (matches lease now) (beaten ttl now) db.leases } in
      if nat_eq (count (matches lease now) db.leases) 1
      then refreshed (lease_row lease.name db') db'
      else ok (none, db')

  unfoldable pub heartbeat : LeaseRecord → ℕ → ℕ → Database → Result (Option LeaseRecord) × Database
  unfolding transaction
  heartbeat lease ttl now db =
      if nat_eq ttl 0 then (err value_error, db) else transaction (heartbeat_in lease ttl now) db

  abbrev released : String → ℕ → LeaseRow → LeaseRow
  released fresh now r = record r {
    heartbeat_at = p.isoformat now;
    expires_at = p.isoformat now;
    token = fresh;
  }

  unfoldable pub release_in : LeaseRecord → String → ℕ → Tx Bool
  release_in lease fresh now db = ok (
    nat_eq (count (matches lease now) db.leases) 1,
    record db { leases = update (matches lease now) (released fresh now) db.leases },
  )

  unfoldable pub release : LeaseRecord → String → ℕ → Database → Result Bool × Database
  unfolding release_in transaction
  release lease fresh now = transaction (release_in lease fresh now)
