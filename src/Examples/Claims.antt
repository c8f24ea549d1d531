-- ===== src/Examples/Claims.antt =====
-- The theorems on claims at a workspace with one claim, of bob on the resource "res".
use safe_fs_ops.Prelude.{
  ◌||◌, true, false, none, some, [], ◌∷◌, ◌≡◌, refl, text_discrete, differ, if◌then◌else◌,
}
use safe_fs_ops.Table.{select, update}
use safe_fs_ops.Table.Keys.{has, Unique}
use safe_fs_ops.Database.{Database, ClaimRow, ClaimRecord, ok, err, claim_conflict, lease_lost}
use safe_fs_ops.Lease.{lease_is_current}
use safe_fs_ops.Claim.{
  claim_key, claim_row, claim_matches_lease_authority, create, upsert, release,
  release_if_owner_scope_matches,
}
use safe_fs_ops.Claim.Ownership.{claim_of, upsert_taken, stale_claims}
use safe_fs_ops.Claim.Release.{release_foreign, release-create}
use safe_fs_ops.Examples.{demo, marks, held, workspace}

abbrev bobs : ClaimRow
bobs = record {
  resource_key = "res";
  owner = "bob";
  scope = none;
  details = none;
  created_at = marks 1;
  updated_at = marks 2;
}

abbrev claimed_db : Database
claimed_db = record (workspace []) { claims = bobs ∷ [] }

bobs_there : claim_row "res" claimed_db ≡ some bobs
unfolding select text_discrete
bobs_there = refl

free_there : claim_row "new" claimed_db ≡ none
unfolding select text_discrete
free_there = refl

claims-Unique : Unique claim_key claimed_db.claims
unfolding select
claims-Unique = (refl, tt)

current_at : lease_is_current held 5 claimed_db ≡ true
unfolding lease_is_current select text_discrete
current_at = refl

expired_at : lease_is_current held 9 claimed_db ≡ false
unfolding lease_is_current select text_discrete
expired_at = refl

upsert_taken_example : upsert "res" held "bob" none (some "why") 5 claimed_db ≡ (
    if true
    then (
      ok (record {
        resource_key = "res";
        owner = "bob";
        scope = none;
        details = some "why";
        created_at = 1;
        updated_at = 5;
      }),
      record claimed_db {
        claims =
            update
              (has claim_key "res")
              (λ c. record c { details = some "why"; updated_at = marks 5 })
              (bobs ∷ []);
      },
    )
    else (err (claim_conflict (claim_of bobs 1 2)), claimed_db))
unfolding text_discrete
upsert_taken_example =
    upsert_taken "res" held "bob" none (some "why") 5 claimed_db bobs 1 2 (differ "res" "" refl)
      (differ "bob" "" refl) current_at bobs_there refl refl

stale_claims_example :
    (create "res" held "ann" none none 9 claimed_db ≡ (err lease_lost, claimed_db))
    × (upsert "res" held "ann" none none 9 claimed_db ≡ (err lease_lost, claimed_db))
    × (release "res" held "ann" none (some (claim_of bobs 1 2)) 9 claimed_db
        ≡ (err lease_lost, claimed_db))
unfolding text_discrete
stale_claims_example =
    stale_claims "res" held "ann" none none (some (claim_of bobs 1 2)) 9 claimed_db
      (differ "res" "" refl) (differ "ann" "" refl) refl expired_at

release_foreign_example :
    (lease_is_current held 5 claimed_db ≡ true
      → (release "res" held "ann" none none 5 claimed_db ≡ (ok false, claimed_db))
        × (release "res" held "ann" none (some (claim_of bobs 1 2)) 5 claimed_db
            ≡ (ok false, claimed_db)))
    × (lease_is_current held 5 claimed_db ≡ false
        → (release "res" held "ann" none none 5 claimed_db ≡ (err lease_lost, claimed_db))
          × (release "res" held "ann" none (some (claim_of bobs 1 2)) 5 claimed_db
              ≡ (err lease_lost, claimed_db)))
    × ((lease_is_current held 5 claimed_db
            || claim_matches_lease_authority (claim_of bobs 1 2) held)
          ≡ true
        → release_if_owner_scope_matches "res" held "ann" none
            (some (claim_of bobs 1 2))
            5
            claimed_db
          ≡ (ok false, claimed_db))
unfolding text_discrete
release_foreign_example =
    release_foreign "res" held "ann" none (claim_of bobs 1 2) 5 claimed_db bobs
      (differ "res" "" refl) (differ "ann" "" refl) refl claims-Unique bobs_there refl

release-create_example :
    let (answer, db') = create "new" held "ann" none none 5 claimed_db in
    (claim : ClaimRecord) × (answer ≡ ok claim)
    × (release "new" held "ann" none (some claim) 5 db' ≡ (ok true, claimed_db))
unfolding text_discrete
release-create_example =
    release-create "new" held "ann" none none 5 5 claimed_db (differ "new" "" refl)
      (differ "ann" "" refl) current_at current_at free_there
