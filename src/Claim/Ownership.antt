-- ===== src/Claim/Ownership.antt =====
-- Who owns a resource: what ClaimStore's operations do to the claim of a resource, by its owner and
-- by others.
use safe_fs_ops.Prelude.{
  ℕ, String, ◌≡◌, ◌≢◌, refl, true, false, Option, none, some, [], ◌∷◌, ◌++◌, arith, if◌then◌else◌,
  ◌&&◌, ◌==◌, opt_eq,
}
use safe_fs_ops.Table.{update, insert}
use safe_fs_ops.Table.Keys.{has, select-append, select-update_key}
use safe_fs_ops.Platform.{Platform}
use safe_fs_ops.Database.{
  Database, ClaimRow, ClaimRecord, LeaseRecord, claim_conflict, lease_lost, ok, err, transaction,
}
use safe_fs_ops.Lease.{require_current_lease, lease_is_current}
use safe_fs_ops.Claim.{
  claim_key, claim_row, claim_from_row, new_claim, create, create_in, upsert, upsert_in,
  refreshed_claim, release, release_claim_in, other_key,
}

module _ ⦃p : Platform⦄ where
  -- The record that a row reads back as, whose times are `a` and `u`.
  abbrev pub claim_of : ClaimRow → ℕ → ℕ → ClaimRecord
  claim_of r a u = record {
    resource_key = r.resource_key;
    owner = r.owner;
    scope = r.scope;
    details = r.details;
    created_at = a;
    updated_at = u;
  }

  pub claim_from_row_lem :
      (r : ClaimRow) (a u : ℕ) (db : Database)
      → r.created_at ≡ p.isoformat a
      → r.updated_at ≡ p.isoformat u
      → claim_from_row r db ≡ ok (claim_of r a u, db)
  unfolding claim_from_row
  claim_from_row_lem r a u db ea eu = ground (arith, p.parse-isoformat a, p.parse-isoformat u)

  -- `create` of a claim on a resource that nobody has claimed, under a current lease: the claim is
  -- appended, and returned.
  pub create_free :
      (key : String) (lease : LeaseRecord) (owner : String) (scope details : Option String)
      (now : ℕ) (db : Database)
      → key ≢ ""
      → owner ≢ ""
      → lease_is_current lease now db ≡ true
      → claim_row key db ≡ none
      → create key lease owner scope details now db ≡ (
        ok (claim_of (new_claim key owner scope details now) now now),
        record db { claims = db.claims ++ new_claim key owner scope details now ∷ [] },
      )
  unfolding create create_in insert require_current_lease transaction new_claim
  create_free key lease owner scope details now db k o cur free =
      let new = new_claim key owner scope details now in
      ground (
        arith,
        select-append claim_key new key db.claims,
        claim_from_row_lem new now now (record db { claims = db.claims ++ new ∷ [] }) refl refl,
      )

  -- `create` of a claim on a resource that is claimed, by anyone, raises ClaimConflictError with
  -- the existing claim and changes nothing.
  pub create_taken :
      (key : String) (lease : LeaseRecord) (owner : String) (scope details : Option String)
      (now : ℕ) (db : Database) (r : ClaimRow) (a u : ℕ)
      → key ≢ ""
      → owner ≢ ""
      → lease_is_current lease now db ≡ true
      → claim_row key db ≡ some r
      → r.created_at ≡ p.isoformat a
      → r.updated_at ≡ p.isoformat u
      → create key lease owner scope details now db ≡ (err (claim_conflict (claim_of r a u)), db)
  unfolding create create_in insert require_current_lease transaction new_claim
  create_taken key lease owner scope details now db r a u k o cur taken ea eu =
      ground (arith, claim_from_row_lem r a u db ea eu)

  -- `upsert` on a claimed resource, under a current lease: for the owner and scope of the claim it
  -- sets the details and the time of the update and keeps the rest; for any other it raises
  -- ClaimConflictError with the existing claim and changes nothing.
  pub upsert_taken :
      (key : String) (lease : LeaseRecord) (owner : String) (scope details : Option String)
      (now : ℕ) (db : Database) (r : ClaimRow) (a u : ℕ)
      → key ≢ ""
      → owner ≢ ""
      → lease_is_current lease now db ≡ true
      → claim_row key db ≡ some r
      → r.created_at ≡ p.isoformat a
      → r.updated_at ≡ p.isoformat u
      → upsert key lease owner scope details now db ≡ (
          if r.owner == owner && opt_eq r.scope scope
          then (
            ok (record {
              resource_key = r.resource_key;
              owner = r.owner;
              scope = r.scope;
              details = details;
              created_at = a;
              updated_at = now;
            }),
            record db {
              claims =
                  update
                    (has claim_key key)
                    (λ c. record c { details = details; updated_at = p.isoformat now })
                    db.claims;
            },
          )
          else (err (claim_conflict (claim_of r a u)), db))
  unfolding upsert upsert_in require_current_lease transaction new_claim
  upsert_taken key lease owner scope details now db r a u k o cur taken ea eu =
      let after = record db {
        claims = update (has claim_key key) (refreshed_claim details now) db.claims;
      } in
      ground (
        arith,
        claim_from_row_lem r a u db ea eu,
        claim_from_row_lem (refreshed_claim details now r) a now after ea refl,
        select-update_key claim_key (refreshed_claim details now) (λ x. refl) key key db.claims,
      )

  -- Under a lease record that is not current, `create`, `upsert` and `release` with a resource key
  -- and an owner that are not empty raise LeaseLostError and change nothing, whoever owns the
  -- claim; for `release`, with or without an expected claim, if that is one of the same resource.
  pub stale_claims :
      (key : String) (lease : LeaseRecord) (owner : String) (scope details : Option String)
      (expected : Option ClaimRecord) (now : ℕ) (db : Database)
      → key ≢ ""
      → owner ≢ ""
      → other_key key expected ≡ false
      → lease_is_current lease now db ≡ false
      → (create key lease owner scope details now db ≡ (err lease_lost, db))
        × (upsert key lease owner scope details now db ≡ (err lease_lost, db))
        × (release key lease owner scope expected now db ≡ (err lease_lost, db))
  unfolding create create_in upsert upsert_in release release_claim_in require_current_lease
      transaction new_claim
  stale_claims key lease owner scope details expected now db k o same lost =
      (ground arith, ground arith, ground arith)
