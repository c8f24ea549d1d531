-- ===== src/Claim.antt =====
-- ClaimStore of workspace_state/claims.py on the table workspace_claims: create, upsert, get,
-- conflict_for, release and release_if_owner_scope_matches. The branch for SQLAlchemy sessions
-- issues the same statements and is not modelled apart.
pub mod Ownership
pub mod Release
pub mod Steps
use safe_fs_ops.Prelude.{
  ℕ, String, Bool, true, false, not, ◌&&◌, ◌||◌, Option, none, some, if◌then◌else◌, ◌==◌, opt_eq,
  nat_eq, is_some,
}
use safe_fs_ops.Table.{select, update, insert, count, delete}
use safe_fs_ops.Table.Keys.{has}
use safe_fs_ops.Platform.{Platform, ClaimDetails}
use safe_fs_ops.Database.{
  Database, ClaimRow, ClaimRecord, LeaseRecord, value_error, runtime_error, integrity_error,
  claim_conflict, Result, ok, err, Tx, ◌>>=◌, ◌>>◌, pure, raise, raise_if, reads, transaction,
}
use safe_fs_ops.Lease.{parse, require_current_lease, lease_is_current}

abbrev pub claim_key : ClaimRow → String
claim_key r = r.resource_key

abbrev pub claim_row : String → Database → Option ClaimRow
claim_row key db = select (has claim_key key) db.claims

-- `_conflicts`
abbrev pub conflicts : ClaimRecord → String → Option String → Bool
conflicts existing owner scope = not (existing.owner == owner) || not (opt_eq existing.scope scope)

-- INSERT INTO workspace_claims; `false` is sqlite3.IntegrityError.
abbrev pub insert_claim : ClaimRow → Tx Bool
insert_claim new db = elim (insert (has claim_key new.resource_key) new db.claims) [
  | none ↦ ok (false, db)
  | some rows ↦ ok (true, record db { claims = rows })
]

module _ ⦃p : Platform⦄ where
  unfoldable pub claim_from_row : ClaimRow → Tx ClaimRecord
  claim_from_row r = do
    created_at ← parse r.created_at
    updated_at ← parse r.updated_at
    pure (record {
      resource_key = r.resource_key;
      owner = r.owner;
      scope = r.scope;
      details = r.details;
      created_at = created_at;
      updated_at = updated_at;
    })

  unfoldable pub new_claim : String → String → Option String → Option String → ℕ → ClaimRow
  new_claim key owner scope details now = record {
    resource_key = key;
    owner = owner;
    scope = scope;
    details = details;
    created_at = p.isoformat now;
    updated_at = p.isoformat now;
  }

  -- The answer of `create`, from whether the INSERT went through and the row that is there then.
  abbrev created : Bool → Option ClaimRow → Tx ClaimRecord
  created true none = raise runtime_error
  created true (some r) = claim_from_row r
  created false none = raise integrity_error
  created false (some r) = do existing ← claim_from_row r; raise (claim_conflict existing)

  unfoldable pub create_in : ClaimRow → LeaseRecord → ℕ → Tx ClaimRecord
  create_in new lease now = do
    require_current_lease lease now
    stored ← insert_claim new
    row ← reads (claim_row new.resource_key)
    created stored row

  unfoldable pub create :
      String
      → LeaseRecord
      → String
      → Option String
      → Option String
      → ℕ
      → Database
      → Result ClaimRecord × Database
  unfolding transaction new_claim
  create key lease owner scope details now db =
      if key == "" || owner == ""
      then (err value_error, db)
      else transaction (create_in (new_claim key owner scope details now) lease now) db

  abbrev pub refreshed_claim : Option String → ℕ → ClaimRow → ClaimRow
  refreshed_claim details now r = record r { details = details; updated_at = p.isoformat now }

  -- The statement of `upsert`: an INSERT, or an UPDATE of the details of a claim of the same owner
  -- and scope.
  abbrev store_claim : ClaimRow → ℕ → Option ClaimRow → Tx (Unit {0})
  store_claim new now none = do stored ← insert_claim new; raise_if (not stored) integrity_error
  store_claim new now (some r) = do
    existing ← claim_from_row r
    raise_if (conflicts existing new.owner new.scope) (claim_conflict existing)
    λ db. ok (
      tt,
      record db {
        claims =
            update (has claim_key new.resource_key) (refreshed_claim new.details now) db.claims;
      },
    )

  abbrev upserted : Option ClaimRow → Tx ClaimRecord
  upserted none = raise runtime_error
  upserted (some r) = claim_from_row r

  unfoldable pub upsert_in : ClaimRow → LeaseRecord → ℕ → Tx ClaimRecord
  upsert_in new lease now = do
    require_current_lease lease now
    existing ← reads (claim_row new.resource_key)
    store_claim new now existing
    row ← reads (claim_row new.resource_key)
    upserted row

  unfoldable pub upsert :
      String
      → LeaseRecord
      → String
      → Option String
      → Option String
      → ℕ
      → Database
      → Result ClaimRecord × Database
  unfolding transaction new_claim
  upsert key lease owner scope details now db =
      if key == "" || owner == ""
      then (err value_error, db)
      else transaction (upsert_in (new_claim key owner scope details now) lease now) db

  unfoldable pub get : String → Tx (Option ClaimRecord)
  unfolding claim_from_row
  get key db = elim (claim_row key db) [
    | none ↦ ok (none, db)
    | some r ↦ (do claim ← claim_from_row r; pure (some claim)) db
  ]

  -- The WHERE clause of the DELETE statements.
  abbrev pub same_claim : String → String → Option String → Option ClaimRecord → ClaimRow → Bool
  same_claim key owner scope none r =
      has claim_key key r && (r.owner == owner && opt_eq r.scope scope)
  same_claim key owner scope (some expected) r =
      has claim_key key r
      && (r.owner == owner
          && (opt_eq r.scope scope
              && (opt_eq r.details expected.details
                  && (r.created_at == p.isoformat expected.created_at
                      && r.updated_at == p.isoformat expected.updated_at))))

  unfoldable pub release_claim : String → String → Option String → Option ClaimRecord → Tx Bool
  release_claim key owner scope expected db = ok (
    nat_eq (count (same_claim key owner scope expected) db.claims) 1,
    record db { claims = delete (same_claim key owner scope expected) db.claims },
  )

  abbrev pub other_key : String → Option ClaimRecord → Bool
  other_key key none = false
  other_key key (some expected) = not (expected.resource_key == key)

  unfoldable pub release_claim_in :
      String → LeaseRecord → String → Option String → Option ClaimRecord → ℕ → Tx Bool
  release_claim_in key lease owner scope expected now = do
    require_current_lease lease now
    release_claim key owner scope expected

  unfoldable pub release :
      String
      → LeaseRecord
      → String
      → Option String
      → Option ClaimRecord
      → ℕ
      → Database
      → Result Bool × Database
  unfolding transaction
  release key lease owner scope expected now db =
      if key == "" || (owner == "" || other_key key expected)
      then (err value_error, db)
      else transaction (release_claim_in key lease owner scope expected now) db

  -- The details of a claim that name the lease.
  abbrev names_lease : LeaseRecord → ClaimDetails → Bool
  names_lease lease d =
      (is_some d.claim_id && not (opt_eq d.claim_id (some "")))
      && (opt_eq d.lease_name (some lease.name)
          && (opt_eq d.lease_owner (some lease.owner)
              && (opt_eq d.lease_token_digest (some (p.sha256 lease.token))
                  && elim d.lease_fencing_token [
                    | none ↦ false
                    | some token ↦ nat_eq token lease.fencing_token
                  ])))

  abbrev lease_bound : LeaseRecord → Option ClaimDetails → Bool
  lease_bound lease none = false
  lease_bound lease (some d) = names_lease lease d

  abbrev details_of : Option String → Option ClaimDetails
  details_of none = none
  details_of (some text) = p.claim_details text

  unfoldable pub claim_matches_lease_authority : ClaimRecord → LeaseRecord → Bool
  claim_matches_lease_authority claim lease = lease_bound lease (details_of claim.details)

  unfoldable pub release_matching_in :
      String → LeaseRecord → String → Option String → ClaimRecord → ℕ → Tx Bool
  release_matching_in key lease owner scope expected now = do
    current ← reads (lease_is_current lease now)
    raise_if (not current && not (claim_matches_lease_authority expected lease)) value_error
    release_claim key owner scope (some expected)

  -- `expected_claim` may not be None here.
  unfoldable pub release_if_owner_scope_matches :
      String
      → LeaseRecord
      → String
      → Option String
      → Option ClaimRecord
      → ℕ
      → Database
      → Result Bool × Database
  unfolding transaction
  release_if_owner_scope_matches key lease owner scope none now db = (err value_error, db)
  release_if_owner_scope_matches key lease owner scope (some expected) now db =
      if key == "" || (owner == "" || not (expected.resource_key == key))
      then (err value_error, db)
      else transaction (release_matching_in key lease owner scope expected now) db
