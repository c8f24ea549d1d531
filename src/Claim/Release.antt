-- ===== src/Claim/Release.antt =====
-- Giving a claim up: `release` and `release_if_owner_scope_matches` of claims.py delete the claim
-- that they are meant for, and no other.
use safe_fs_ops.Prelude.{
  ℕ, String, ◌≡◌, ◌≢◌, refl, Bool, true, false, ◌&&◌, ◌||◌, Option, none, some, List, [], ◌∷◌, ◌++◌,
  arith, ◌==◌, opt_eq, Option-cases,
}
use safe_fs_ops.Table.{select, count, delete}
use safe_fs_ops.Table.Keys.{has, Unique, count-has}
use safe_fs_ops.Platform.{Platform}
use safe_fs_ops.Database.{
  Database, ClaimRow, ClaimRecord, LeaseRecord, ok, err, lease_lost, transaction,
}
use safe_fs_ops.Lease.{require_current_lease, lease_is_current}
use safe_fs_ops.Claim.{
  claim_key, claim_row, new_claim, create, same_claim, release, release_claim, release_claim_in,
  release_if_owner_scope_matches, release_matching_in, claim_matches_lease_authority,
}
use safe_fs_ops.Claim.Ownership.{claim_of, create_free}

delete_of_count_zero :
    {R : Type 0} (q : R → Bool) (rows : List R) → count q rows ≡ 0 → delete q rows ≡ rows
unfolding count delete
delete_of_count_zero q [] e = refl
delete_of_count_zero q (x ∷ rows) e = ground (arith, delete_of_count_zero q rows)

-- A DELETE on a key that only the last row has.
delete-append :
    {R : Type 0} (key : R → String) (q : R → Bool) (new : R) (rows : List R)
    → select (has key (key new)) rows ≡ none
    → q new ≡ true
    → (count (λ r. has key (key new) r && q r) (rows ++ new ∷ []) ≡ 1)
      × (delete (λ r. has key (key new) r && q r) (rows ++ new ∷ []) ≡ rows)
unfolding select count delete
delete-append key q new [] e h = (ground arith, ground arith)
delete-append key q new (x ∷ rows) e h =
    let (one, kept) = delete-append key q new rows (ground arith) h in (ground arith, ground arith)

module _ ⦃p : Platform⦄ where
  -- Neither form of release takes a claim from another owner or scope, on a table with one claim
  -- for each resource, where the key and the owner are not empty and the expected claim is one of
  -- the same resource. Under a current lease `release` answers False and changes nothing, with and
  -- without the expected claim; under another it raises LeaseLostError and changes nothing. Where
  -- the lease is current or the expected claim names it, `release_if_owner_scope_matches` answers
  -- False and changes nothing.
  pub release_foreign :
      (key : String) (lease : LeaseRecord) (owner : String) (scope : Option String)
      (expected : ClaimRecord) (now : ℕ) (db : Database) (r : ClaimRow)
      → key ≢ ""
      → owner ≢ ""
      → expected.resource_key ≡ key
      → Unique claim_key db.claims
      → claim_row key db ≡ some r
      → (r.owner == owner && opt_eq r.scope scope) ≡ false
      → (lease_is_current lease now db ≡ true
          → (release key lease owner scope none now db ≡ (ok false, db))
            × (release key lease owner scope (some expected) now db ≡ (ok false, db)))
        × (lease_is_current lease now db ≡ false
            → (release key lease owner scope none now db ≡ (err lease_lost, db))
              × (release key lease owner scope (some expected) now db ≡ (err lease_lost, db)))
        × ((lease_is_current lease now db || claim_matches_lease_authority expected lease) ≡ true
            → release_if_owner_scope_matches key lease owner scope (some expected) now db
              ≡ (ok false, db))
  unfolding release release_claim_in release_if_owner_scope_matches release_matching_in
      release_claim require_current_lease transaction
  release_foreign key lease owner scope expected now db r k o same one found foreign =
      let none_at =
        count-has claim_key (λ x. x.owner == owner && opt_eq x.scope scope) key db.claims one in
      let none_at' =
        count-has claim_key
          (λ x.
            x.owner == owner
            && (opt_eq x.scope scope
                && (opt_eq x.details expected.details
                    && (x.created_at == p.isoformat expected.created_at
                        && x.updated_at == p.isoformat expected.updated_at))))
          key db.claims one in
      let kept = delete_of_count_zero (same_claim key owner scope none) db.claims in
      let kept' = delete_of_count_zero (same_claim key owner scope (some expected)) db.claims in
      (
        λ current. (ground (arith, none_at, kept), ground (arith, none_at', kept')),
        λ lost. (ground arith, ground arith),
        λ may. ground (arith, none_at', kept'),
      )

  lease_is_current_frame :
      (lease : LeaseRecord) (t : ℕ) (rows : List ClaimRow) (db : Database)
      → lease_is_current lease t (record db { claims = rows }) ≡ lease_is_current lease t db
  unfolding lease_is_current
  lease_is_current_frame lease t rows db = refl

  -- A claim that `create` made on an unclaimed resource is given up by `release` with the record
  -- that `create` returned, under a lease that is current at both instants: `release` answers True
  -- and leaves the database as it was before.
  pub release-create :
      (key : String) (lease : LeaseRecord) (owner : String) (scope details : Option String)
      (now now' : ℕ) (db : Database)
      → key ≢ ""
      → owner ≢ ""
      → lease_is_current lease now db ≡ true
      → lease_is_current lease now' db ≡ true
      → claim_row key db ≡ none
      → let (answer, db') = create key lease owner scope details now db in
        (claim : ClaimRecord) × (answer ≡ ok claim)
        × (release key lease owner scope (some claim) now' db' ≡ (ok true, db))
  unfolding release release_claim_in release_claim require_current_lease transaction new_claim
  release-create key lease owner scope details now now' db k o cur cur' free =
      let new = new_claim key owner scope details now in
      let rest = λ (r : ClaimRow).
        r.owner == owner
        && (opt_eq r.scope scope
            && (opt_eq r.details details
                && (r.created_at == p.isoformat now && r.updated_at == p.isoformat now))) in
      let all : rest new ≡ true = ground (arith, Option-cases scope, Option-cases details) in
      let (one, back) = delete-append claim_key rest new db.claims free all in
      rw (create_free key lease owner scope details now db k o cur free) (
        claim_of new now now,
        refl,
        ground (arith, lease_is_current_frame lease now' (db.claims ++ new ∷ []) db),
      )
