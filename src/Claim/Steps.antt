-- ===== src/Claim/Steps.antt =====
-- Sequences of ClaimStore calls, by any callers, under any leases: they write the table of claims
-- only.
use safe_fs_ops.Prelude.{ℕ, String, ◌≡◌, refl, Option, none, some, [], arith, not, ◌||◌, ◌==◌}
use safe_fs_ops.Table.{insert}
use safe_fs_ops.Platform.{Platform}
use safe_fs_ops.Database.{Database, ClaimRow, ClaimRecord, LeaseRecord, value_error}
use safe_fs_ops.Database.Keeps.{Keeps, Keeps-call}
use safe_fs_ops.Lease.{require_current_lease}
use safe_fs_ops.Claim.{
  create, create_in, upsert, upsert_in, release, release_claim, release_claim_in,
  release_if_owner_scope_matches, release_matching_in, new_claim, claim_from_row, other_key,
}

module _ ⦃p : Platform⦄ where
  -- One call on the table of claims, with any arguments.
  pub data Step (db : Database) : Database → Type 0 where
    creates :
        (key : String) (lease : LeaseRecord) (owner : String) (scope details : Option String)
        (now : ℕ)
        → Step db (create key lease owner scope details now db).1
    upserts :
        (key : String) (lease : LeaseRecord) (owner : String) (scope details : Option String)
        (now : ℕ)
        → Step db (upsert key lease owner scope details now db).1
    releases :
        (key : String) (lease : LeaseRecord) (owner : String) (scope : Option String)
        (expected : Option ClaimRecord) (now : ℕ)
        → Step db (release key lease owner scope expected now db).1
    releases_matching :
        (key : String) (lease : LeaseRecord) (owner : String) (scope : Option String)
        (expected : Option ClaimRecord) (now : ℕ)
        → Step db (release_if_owner_scope_matches key lease owner scope expected now db).1

  -- All tables but that of claims.
  abbrev pub besides_claims : Database → Database
  besides_claims db = record db { claims = [] }

  Keeps-create_in :
      (new : ClaimRow) (lease : LeaseRecord) (now : ℕ)
      → Keeps besides_claims (create_in new lease now)
  unfolding create_in require_current_lease insert claim_from_row
  Keeps-create_in new lease now = record { at = λ db db' a e. ground arith }

  Keeps-upsert_in :
      (new : ClaimRow) (lease : LeaseRecord) (now : ℕ)
      → Keeps besides_claims (upsert_in new lease now)
  unfolding upsert_in require_current_lease insert claim_from_row
  Keeps-upsert_in new lease now = record { at = λ db db' a e. ground arith }

  Keeps-release_claim_in :
      (key : String) (lease : LeaseRecord) (owner : String) (scope : Option String)
      (expected : Option ClaimRecord) (now : ℕ)
      → Keeps besides_claims (release_claim_in key lease owner scope expected now)
  unfolding release_claim_in release_claim require_current_lease
  Keeps-release_claim_in key lease owner scope expected now = record {
    at = λ db db' a e. ground arith;
  }

  Keeps-release_matching_in :
      (key : String) (lease : LeaseRecord) (owner : String) (scope : Option String)
      (expected : ClaimRecord) (now : ℕ)
      → Keeps besides_claims (release_matching_in key lease owner scope expected now)
  unfolding release_matching_in release_claim
  Keeps-release_matching_in key lease owner scope expected now = record {
    at = λ db db' a e. ground arith;
  }

  pub Step-besides_claims :
      {db db' : Database} → Step db db' → besides_claims db' ≡ besides_claims db
  unfolding create upsert release release_if_owner_scope_matches
  Step-besides_claims {db} (creates key lease owner scope details now) =
      Keeps-call value_error (key == "" || owner == "") _ db
        (Keeps-create_in (new_claim key owner scope details now) lease now)
  Step-besides_claims {db} (upserts key lease owner scope details now) =
      Keeps-call value_error (key == "" || owner == "") _ db
        (Keeps-upsert_in (new_claim key owner scope details now) lease now)
  Step-besides_claims {db} (releases key lease owner scope expected now) =
      Keeps-call value_error (key == "" || (owner == "" || other_key key expected)) _ db
        (Keeps-release_claim_in key lease owner scope expected now)
  Step-besides_claims {db} (releases_matching key lease owner scope none now) = refl
  Step-besides_claims {db} (releases_matching key lease owner scope (some expected) now) =
      Keeps-call value_error (key == "" || (owner == "" || not (expected.resource_key == key))) _ db
        (Keeps-release_matching_in key lease owner scope expected now)
