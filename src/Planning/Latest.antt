-- ===== src/Planning/Latest.antt =====
-- `_latest_checkpoint_from_records` of file_recovery_planning.py, and what the decision depends on.
use safe_fs_ops.Prelude.{
  String, ◌≡◌, refl, Bool, Option, none, some, List, [], ◌∷◌, arith, inl, inr, Option-cases, ◌==◌,
  ◌&&◌, if◌then◌else◌,
}
use safe_fs_ops.Table.{select_all}
use safe_fs_ops.Json.{Json, Fields, Attempt-cases, get, Paths}
use safe_fs_ops.Planning.Files.{
  not_none, first_of, failure_snapshot_payload, with_backup, usable_backup, Checkpoint,
  is_checkpoint, latest_checkpoint, or_try, file_recovery_proof_from_records, proof_for,
  expected_current, before_mutation_noop_proof, no_side_effect_noop_proof,
}

-- The last of the items from `found` on that has a property.
unfoldable pub last_of : {A : Type 0} → (A → Bool) → Option A → List A → Option A
last_of p found [] = found
last_of p found (a ∷ rest) = last_of p (if p a then some a else found) rest

last_of-or_try :
    {A : Type 0} (p : A → Bool) (found : Option A) (rest : List A)
    → last_of p found rest ≡ or_try (last_of p none rest) found
unfolding last_of
last_of-or_try p found [] = refl
last_of-or_try p found (a ∷ rest) = ground (
  arith,
  last_of-or_try p (if p a then some a else found) rest,
  last_of-or_try p (if p a then some a else none) rest,
)

module _ ⦃p : Paths⦄ where
  -- The loop over the reversed checkpoints returns the last checkpoint, in the order of the
  -- journal, that has the type and the resource key and whose payload names the path, and None
  -- where no checkpoint has.
  pub latest_checkpoint-last_of :
      (checkpoint_type key path : String) (checkpoints : List Checkpoint)
      → latest_checkpoint checkpoint_type key path checkpoints
        ≡ last_of
            (λ c.
              c.checkpoint_type == checkpoint_type
              && (c.resource_key == key
                  && p.same_path (p.path_of (p.str_of (get "path" c.payload))) path))
            none
            checkpoints
  unfolding latest_checkpoint last_of
  latest_checkpoint-last_of checkpoint_type key path [] = refl
  latest_checkpoint-last_of checkpoint_type key path (c ∷ rest) = ground (
    arith,
    latest_checkpoint-last_of checkpoint_type key path rest,
    last_of-or_try (is_checkpoint checkpoint_type key path)
        (if is_checkpoint checkpoint_type key path c then some c else none) rest,
  )

  abbrev pub own : String → List Checkpoint → List Checkpoint
  own key checkpoints = select_all (λ c. c.resource_key == key) checkpoints

  latest_checkpoint-own :
      (checkpoint_type key path : String) (checkpoints : List Checkpoint)
      → latest_checkpoint checkpoint_type key path (own key checkpoints)
        ≡ latest_checkpoint checkpoint_type key path checkpoints
  unfolding latest_checkpoint select_all
  latest_checkpoint-own checkpoint_type key path [] = refl
  latest_checkpoint-own checkpoint_type key path (c ∷ rest) =
      ground (arith, latest_checkpoint-own checkpoint_type key path rest)

  expected_current-own :
      (checkpoints : List Checkpoint) (key path : String) (failure : Json)
      → expected_current (own key checkpoints) key path failure
        ≡ expected_current checkpoints key path failure
  unfolding expected_current first_of
  expected_current-own checkpoints key path failure = simp (
    latest_checkpoint-own "after" key path checkpoints,
    latest_checkpoint-own "expected_after" key path checkpoints,
    latest_checkpoint-own "failure" key path checkpoints,
  )

  before_mutation_noop_proof-own :
      (checkpoints : List Checkpoint) (key path : String) (failure : Json)
      → before_mutation_noop_proof (own key checkpoints) key path failure
        ≡ before_mutation_noop_proof checkpoints key path failure
  unfolding before_mutation_noop_proof
  before_mutation_noop_proof-own checkpoints key path failure =
      elim (Option-cases (failure_snapshot_payload failure)) [
        | inl missing ↦ ground arith
        | inr (snapshot, there) ↦
            ground (arith, latest_checkpoint-own "before" key path checkpoints)
      ]

  no_side_effect_noop_proof-own :
      (checkpoints : List Checkpoint) (key path : String) (backup : Fields) (failure : Json)
      → no_side_effect_noop_proof (own key checkpoints) key path backup failure
        ≡ no_side_effect_noop_proof checkpoints key path backup failure
  unfolding no_side_effect_noop_proof
  no_side_effect_noop_proof-own checkpoints key path backup failure =
      elim (Option-cases (failure_snapshot_payload failure)) [
        | inl missing ↦ ground arith
        | inr (snapshot, there) ↦ ground (
          arith,
          latest_checkpoint-own "before" key path checkpoints,
          latest_checkpoint-own "expected_after" key path checkpoints,
        )
      ]

  with_backup-own :
      (backup : Option Fields) (checkpoints : List Checkpoint) (key path : String) (failure : Json)
      → with_backup backup (own key checkpoints) key path failure
        ≡ with_backup backup checkpoints key path failure
  with_backup-own none checkpoints key path failure =
      simp (before_mutation_noop_proof-own checkpoints key path failure)
  with_backup-own (some backup) checkpoints key path failure =
      elim (Attempt-cases (expected_current checkpoints key path failure)) [
        | inl (some current, found) ↦
            ground (arith, expected_current-own checkpoints key path failure)
        | inl (none, found) ↦ ground (
          arith,
          expected_current-own checkpoints key path failure,
          no_side_effect_noop_proof-own checkpoints key path backup failure,
        )
        | inr raised ↦ ground (arith, expected_current-own checkpoints key path failure)
      ]

  proof_for-own :
      (checkpoints : List Checkpoint) (key path : String) (failure : Json)
      → proof_for (own key checkpoints) key path failure ≡ proof_for checkpoints key path failure
  unfolding proof_for
  proof_for-own checkpoints key path failure =
      elim (Attempt-cases (usable_backup (latest_checkpoint "backup" key path checkpoints) path)) [
        | inl (backup, found) ↦ ground (
          arith,
          latest_checkpoint-own "backup" key path checkpoints,
          with_backup-own backup checkpoints key path failure,
        )
        | inr raised ↦ ground (arith, latest_checkpoint-own "backup" key path checkpoints)
      ]

  -- What recovery may do with a file depends on the checkpoints of its own resource only: with
  -- those of the others left out, the outcome is the same.
  pub file_recovery_proof_from_records-own :
      (payload : Fields) (checkpoints : List Checkpoint) (key : String) (failure : Json)
      → file_recovery_proof_from_records payload (own key checkpoints) (some key) failure
        ≡ file_recovery_proof_from_records payload checkpoints (some key) failure
  unfolding file_recovery_proof_from_records
  file_recovery_proof_from_records-own payload checkpoints key failure =
      elim (Option-cases (not_none (get "path" payload))) [
        | inl missing ↦ ground arith
        | inr (path, there) ↦
            ground (arith, proof_for-own checkpoints key (p.path_of (p.str_of path)) failure)
      ]
