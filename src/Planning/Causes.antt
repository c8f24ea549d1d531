-- ===== src/Planning/Causes.antt =====
-- What a proof of file_recovery_planning.py comes from: a backup and a recorded state, a file that
-- was seen as it was, or what is missing for either.
use safe_fs_ops.Prelude.{
  String, ◌≡◌, refl, true, false, Option, none, some, List, arith, ◌⊎◌, inl, inr, Option-cases,
  text_discrete,
}
use Prim.Native.String.{◌++◌ as append}
use safe_fs_ops.Json.{
  Json, object, text, Fields, Attempt-cases, answer, get, find, as_mapping, Paths,
}
use safe_fs_ops.Planning.Files.{
  Checkpoint, latest_checkpoint, is_backup_payload, is_snapshot_payload, same_snapshot_payload,
  failure_snapshot_payload, expected_current, payload_of, usable_backup, with_backup, proof_for,
  before_mutation_noop_proof, no_side_effect_noop_proof, noop_proof, missing_backup,
  missing_current, restore_proof, manual, Proof, same_as,
}
use safe_fs_ops.Planning.Safety.{Recorded, expected_current_inv}

module _ ⦃p : Paths⦄ where
  -- The latest backup checkpoint of the file has a backup, and the state to overwrite is recorded.
  abbrev pub Restores : List Checkpoint → String → String → Json → Proof → Type 0
  Restores checkpoints key path failure proof =
      (c : Checkpoint) × (current : Fields) × (latest_checkpoint "backup" key path checkpoints
        ≡ some c)
      × (is_backup_payload c.payload path ≡ answer true)
      × (is_snapshot_payload current path ≡ answer true)
      × Recorded checkpoints key path failure current
      × (proof ≡ restore_proof key path c.payload current)

  -- The file as it was seen at the failure is as it was before the mutation, or as the backup has
  -- it.
  abbrev pub Unchanged : List Checkpoint → String → String → Json → Proof → Type 0
  Unchanged checkpoints key path failure proof =
      (seen : Fields) × (before : Fields) × (failure_snapshot_payload failure ≡ some seen)
      × ((payload_of (latest_checkpoint "before" key path checkpoints) ≡ some before)
          ⊎ ((c : Checkpoint) × (latest_checkpoint "backup" key path checkpoints ≡ some c)
              × (as_mapping (get "snapshot" c.payload) ≡ some before)))
      × (same_snapshot_payload before seen path ≡ answer true)
      × (proof ≡ noop_proof key path failure)

  same_as_inv :
      (given : Option Fields) (snapshot : Fields) (path : String)
      → same_as given snapshot path ≡ answer true
      → (before : Fields) × (given ≡ some before)
        × (same_snapshot_payload before snapshot path ≡ answer true)
  same_as_inv none snapshot path e = absurd (ground arith)
  same_as_inv (some before) snapshot path e = (before, refl, e)

  before_mutation_noop_proof_inv :
      (checkpoints : List Checkpoint) (key path : String) (failure : Json) (proof : Proof)
      → before_mutation_noop_proof checkpoints key path failure ≡ answer (some proof)
      → Unchanged checkpoints key path failure proof
  unfolding before_mutation_noop_proof
  before_mutation_noop_proof_inv checkpoints key path failure proof e =
      let before_payload = payload_of (latest_checkpoint "before" key path checkpoints) in
      elim (Option-cases (failure_snapshot_payload failure)) [
        | inl missing ↦ absurd (ground arith)
        | inr (seen, there) ↦ elim (Attempt-cases (same_as before_payload seen path)) [
          | inl (true, same) ↦
              let (before, is, agree) = same_as_inv before_payload seen path same in
              (seen, before, there, inl is, agree, ground arith)
          | inl (false, other) ↦ absurd (ground arith)
          | inr raised ↦ absurd (ground arith)
        ]
      ]

  no_side_effect_noop_proof_inv :
      (checkpoints : List Checkpoint) (key path : String) (c : Checkpoint) (failure : Json)
      (proof : Proof)
      → latest_checkpoint "backup" key path checkpoints ≡ some c
      → no_side_effect_noop_proof checkpoints key path c.payload failure ≡ answer (some proof)
      → Unchanged checkpoints key path failure proof
  unfolding no_side_effect_noop_proof
  no_side_effect_noop_proof_inv checkpoints key path c failure proof backup e =
      let before_payload = payload_of (latest_checkpoint "before" key path checkpoints) in
      let snapshot = as_mapping (get "snapshot" c.payload) in
      elim (Option-cases (failure_snapshot_payload failure)) [
        | inl missing ↦ absurd (ground arith)
        | inr (seen, there) ↦ elim (Attempt-cases (same_as before_payload seen path)) [
          | inr raised ↦ absurd (ground arith)
          | inl (true, same) ↦
              let (before, is, agree) = same_as_inv before_payload seen path same in
              elim (Attempt-cases (same_as snapshot seen path)) [
                | inl (_, _) ↦ (seen, before, there, inl is, agree, ground arith)
                | inr raised ↦ absurd (ground arith)
              ]
          | inl (false, other) ↦ elim (Attempt-cases (same_as snapshot seen path)) [
            | inl (true, same) ↦
                let (before, is, agree) = same_as_inv snapshot seen path same in
                (seen, before, there, inr (c, backup, is), agree, ground arith)
            | inl (false, other') ↦ absurd (ground arith)
            | inr raised ↦ absurd (ground arith)
          ]
        ]
      ]

  usable_backup_inv :
      (given : Option Checkpoint) (path : String) (backup : Fields)
      → usable_backup given path ≡ answer (some backup)
      → (c : Checkpoint) × (given ≡ some c)
        × (c.payload ≡ backup)
        × (is_backup_payload c.payload path ≡ answer true)
  usable_backup_inv none path backup e = absurd (ground arith)
  usable_backup_inv (some c) path backup e =
      elim (Attempt-cases (is_backup_payload c.payload path)) [
        | inl (true, is) ↦ (c, refl, ground arith, is)
        | inl (false, is) ↦ absurd (ground arith)
        | inr raised ↦ absurd (ground arith)
      ]

  -- A case for manual intervention, and what is missing: a backup of the file, or, where there is
  -- one, the state to overwrite.
  abbrev pub Manual : List Checkpoint → String → String → Json → Proof → Type 0
  Manual checkpoints key path failure proof =
      (proof.kind ≡ manual)
      × (proof.action_id ≡ append "manual:" (append "restore-backup:self:" key))
      × (((usable_backup (latest_checkpoint "backup" key path checkpoints) path ≡ answer none)
            × (get "reason_code" proof.payload ≡ text "missing_backup_proof"))
          ⊎ ((c : Checkpoint) × (latest_checkpoint "backup" key path checkpoints ≡ some c)
              × (is_backup_payload c.payload path ≡ answer true)
              × (expected_current checkpoints key path failure ≡ answer none)
              × (get "backup" proof.payload ≡ object c.payload)
              × (get "reason_code" proof.payload ≡ text "missing_expected_current_proof")))

  -- What a proof for a file is about, and what it comes from.
  unfoldable pub Outcome : List Checkpoint → String → String → Json → Proof → Type 0
  Outcome checkpoints key path failure proof =
      (proof.resource_key ≡ key)
      × (get "path" proof.payload ≡ text path)
      × (Restores checkpoints key path failure proof
          ⊎ (Unchanged checkpoints key path failure proof
              ⊎ Manual checkpoints key path failure proof))

  Restores-Outcome :
      (checkpoints : List Checkpoint) (key path : String) (failure : Json) (proof : Proof)
      → Restores checkpoints key path failure proof
      → Outcome checkpoints key path failure proof
  unfolding Outcome get find text_discrete
  Restores-Outcome checkpoints key path failure proof (c, current, a, b, d, e, is) =
      rw is (refl, refl, inl (c, current, a, b, d, e, refl))

  Unchanged-Outcome :
      (checkpoints : List Checkpoint) (key path : String) (failure : Json) (proof : Proof)
      → Unchanged checkpoints key path failure proof
      → Outcome checkpoints key path failure proof
  unfolding Outcome get find text_discrete
  Unchanged-Outcome checkpoints key path failure proof (seen, before, a, b, d, is) =
      rw is (refl, refl, inr (inl (seen, before, a, b, d, refl)))

  missing_backup-Outcome :
      (checkpoints : List Checkpoint) (key path : String) (failure : Json) (proof : Proof)
      → usable_backup (latest_checkpoint "backup" key path checkpoints) path ≡ answer none
      → proof ≡ missing_backup key path failure
      → Outcome checkpoints key path failure proof
  unfolding Outcome get find text_discrete
  missing_backup-Outcome checkpoints key path failure proof unusable is =
      rw is (refl, refl, inr (inr (refl, refl, inl (unusable, refl))))

  missing_current-Outcome :
      (c : Checkpoint) (checkpoints : List Checkpoint) (key path : String) (failure : Json)
      (proof : Proof)
      → latest_checkpoint "backup" key path checkpoints ≡ some c
      → is_backup_payload c.payload path ≡ answer true
      → expected_current checkpoints key path failure ≡ answer none
      → proof ≡ missing_current key path c.payload failure
      → Outcome checkpoints key path failure proof
  unfolding Outcome get find text_discrete
  missing_current-Outcome c checkpoints key path failure proof there usable unknown is =
      rw is (refl, refl, inr (inr (refl, refl, inr (c, there, usable, unknown, refl, refl))))

  with_backup_inv :
      (c : Checkpoint) (checkpoints : List Checkpoint) (key path : String) (failure : Json)
      (proof : Proof)
      → latest_checkpoint "backup" key path checkpoints ≡ some c
      → is_backup_payload c.payload path ≡ answer true
      → with_backup (some c.payload) checkpoints key path failure ≡ answer proof
      → Outcome checkpoints key path failure proof
  with_backup_inv c checkpoints key path failure proof there is e =
      elim (Attempt-cases (expected_current checkpoints key path failure)) [
        | inr raised ↦ absurd (ground arith)
        | inl (some current, found) ↦
            let (snapshot, recorded) =
              expected_current_inv checkpoints key path failure current found in
            Restores-Outcome checkpoints key path failure proof
              (c, current, there, is, snapshot, recorded, ground arith)
        | inl (none, unknown) ↦
            elim (Attempt-cases
              (no_side_effect_noop_proof checkpoints key path c.payload failure)) [
                | inr raised ↦ absurd (ground arith)
                | inl (some found, left_alone) ↦
                    let same : found ≡ proof = ground arith in
                    Unchanged-Outcome checkpoints key path failure proof (
                      no_side_effect_noop_proof_inv checkpoints key path c failure proof there
                        (rw same at left_alone))
                | inl (none, no_proof) ↦
                    missing_current-Outcome c checkpoints key path failure proof there is unknown
                      (ground arith)
              ]
      ]

  pub proof_for_inv :
      (checkpoints : List Checkpoint) (key path : String) (failure : Json) (proof : Proof)
      → proof_for checkpoints key path failure ≡ answer proof
      → Outcome checkpoints key path failure proof
  unfolding proof_for
  proof_for_inv checkpoints key path failure proof e =
      let stored = latest_checkpoint "backup" key path checkpoints in
      elim (Attempt-cases (usable_backup stored path)) [
        | inr raised ↦ absurd (ground arith)
        | inl (some backup, found) ↦
            let (c, there, same, is) = usable_backup_inv stored path backup found in
            with_backup_inv c checkpoints key path failure proof there is (ground arith)
        | inl (none, missing) ↦
            elim (Attempt-cases (before_mutation_noop_proof checkpoints key path failure)) [
              | inr raised ↦ absurd (ground arith)
              | inl (some found, left_alone) ↦
                  let same : found ≡ proof = ground arith in
                  Unchanged-Outcome checkpoints key path failure proof (
                    before_mutation_noop_proof_inv checkpoints key path failure proof
                      (rw same at left_alone))
              | inl (none, no_proof) ↦
                  missing_backup-Outcome checkpoints key path failure proof missing (ground arith)
            ]
      ]
