-- ===== src/Planning/Files/Snapshots.antt =====
-- What file_recovery_planning.py reads of checkpoints, snapshots and failures.
use safe_fs_ops.Prelude.{
  ℕ, String, Bool, true, false, ◌&&◌, Option, none, some, List, [], ◌∷◌, ◌==◌, if◌then◌else◌,
}
use safe_fs_ops.Json.{
  Json, null, text, Fields, get, get_or, as_mapping, is_bool, is_the, json_eq, Attempt, answer,
  ◌>>=◌, in_set, Paths,
}

-- A CheckpointRecord, of operation_journal/models.py.
pub record Checkpoint : Type 0 where
  pub checkpoint_id : String
  pub batch_id : String
  pub sequence : ℕ
  pub operation_id : Option String
  pub resource_key : String
  pub checkpoint_type : String
  pub payload : Fields

-- What the file reads of a JournaledFilesystemRecoveryContext: the payload, the status payload and
-- the resource key of its batch, the checkpoints, and the payloads of its recovery records.
pub record RecoveryContext : Type 0 where
  pub payload : Fields
  pub status_payload : Fields
  pub resource_key : Option String
  pub checkpoints : List Checkpoint
  pub recovery_payloads : List Json

-- `_failure_stage_is_before_mutation`
abbrev pub stage_of : Option Fields → Json
stage_of none = null
stage_of (some failure) = get "stage" failure

unfoldable pub failure_stage_is_before_mutation : Json → Bool
failure_stage_is_before_mutation failure =
    json_eq (stage_of (as_mapping failure)) (text "prepare_checkpoints")

abbrev snapshot_of : Option Fields → Option Fields
snapshot_of none = none
snapshot_of (some failure) = as_mapping (get "snapshot" failure)

-- `_failure_snapshot_payload`
unfoldable pub failure_snapshot_payload : Json → Option Fields
failure_snapshot_payload failure = snapshot_of (as_mapping failure)

abbrev pub or_try : {A : Type 0} → Option A → Option A → Option A
or_try none later = later
or_try (some a) later = some a

abbrev after_of : Option Fields → Option Fields
after_of none = none
after_of (some failure) = as_mapping (get "after" failure)

-- `_failure_observed_after_payload`
unfoldable pub failure_observed_after_payload : Json → Option Fields
unfolding failure_snapshot_payload
failure_observed_after_payload failure =
    or_try (after_of (as_mapping failure)) (failure_snapshot_payload failure)

abbrev pub not_none : Json → Option Json
not_none null = none
not_none v = some v

abbrev failure_in : Json → Option Json
failure_in payload = elim (as_mapping payload) [
  | none ↦ none
  | some fields ↦ not_none (get "failure" fields)
]

-- The first of the payloads, from the end, that has a failure.
unfoldable pub latest_recorded_failure : List Json → Option Json
latest_recorded_failure [] = none
latest_recorded_failure (payload ∷ later) =
    let rest = latest_recorded_failure later in or_try rest (failure_in payload)

abbrev value_or_null : Option Json → Json
value_or_null none = null
value_or_null (some v) = v

-- `_latest_failure_payload`
unfoldable pub latest_failure_payload : RecoveryContext → Json
unfolding latest_recorded_failure
latest_failure_payload context = value_or_null (
    or_try (not_none (get "failure" context.status_payload))
      (latest_recorded_failure context.recovery_payloads))

module _ ⦃p : Paths⦄ where
  -- `Path(str(payload.get("path"))) == path`
  abbrev pub has_path : Fields → String → Bool
  has_path payload path = p.same_path (p.path_of (p.str_of (get "path" payload))) path

  abbrev pub is_checkpoint : String → String → String → Checkpoint → Bool
  is_checkpoint checkpoint_type key path c =
      c.checkpoint_type == checkpoint_type && (c.resource_key == key && has_path c.payload path)

  -- `_latest_checkpoint_from_records`: the loop over `reversed(checkpoints)`, which meets a
  -- checkpoint after the ones that follow it.
  unfoldable pub latest_checkpoint : String → String → String → List Checkpoint → Option Checkpoint
  latest_checkpoint checkpoint_type key path [] = none
  latest_checkpoint checkpoint_type key path (c ∷ later) =
      let rest = latest_checkpoint checkpoint_type key path later in
      or_try rest (if is_checkpoint checkpoint_type key path c then some c else none)

  abbrev backup_matches : Fields → String → Option Fields → Bool
  backup_matches payload path none = false
  backup_matches payload path (some snapshot) =
      has_path snapshot path
      && (json_eq (get "file_type" snapshot) (get "file_type" payload)
          && json_eq (get "exists" snapshot) (get "existed" payload))

  -- `_is_backup_payload`
  unfoldable pub is_backup_payload : Fields → String → Attempt Bool
  is_backup_payload payload path =
      if has_path payload path
      then (do
        known ← in_set ("missing" ∷ "file" ∷ []) (get "file_type" payload)
        answer (
            known
            && (is_bool (get "existed" payload)
                && backup_matches payload path (as_mapping (get "snapshot" payload)))))
      else answer false

  -- `_is_snapshot_payload`
  unfoldable pub is_snapshot_payload : Fields → String → Attempt Bool
  is_snapshot_payload payload path =
      if has_path payload path && is_bool (get "exists" payload)
      then in_set ("missing" ∷ "file" ∷ "directory" ∷ "symlink" ∷ "other" ∷ [])
          (get "file_type" payload)
      else answer false

  abbrev same_values : List String → Fields → Fields → Bool
  same_values [] left right = true
  same_values (key ∷ keys) left right =
      json_eq (get key left) (get key right) && same_values keys left right

  abbrev pub snapshot_keys : List String
  snapshot_keys =
      "exists" ∷ "file_type" ∷ "content_hash" ∷ "size" ∷ "mtime_ns" ∷ "symlink_target" ∷ "device"
      ∷ "inode" ∷ []

  abbrev pub only_if : Bool → Attempt Bool → Attempt Bool
  only_if true m = m
  only_if false m = answer false

  -- `_same_snapshot_payload`
  unfoldable pub same_snapshot_payload : Fields → Fields → String → Attempt Bool
  unfolding is_snapshot_payload
  same_snapshot_payload left right path = do
    left_is ← is_snapshot_payload left path
    right_is ← only_if left_is (is_snapshot_payload right path)
    answer (right_is && same_values snapshot_keys left right)

  -- What is expected after the mutation, and whether the snapshot has it.
  abbrev pub as_expected : Fields → Fields → Bool
  as_expected snapshot expected =
      if is_the false (get "exists" expected)
      then is_the false (get "exists" snapshot)
        && json_eq (get "file_type" snapshot) (text "missing")
      else is_the true (get "exists" expected)
        && (json_eq (get "file_type" expected) (text "file")
            && (is_the true (get "exists" snapshot)
                && (json_eq (get "file_type" snapshot) (text "file")
                    && (json_eq (get "size" snapshot) (get "size" expected)
                        && json_eq (get "content_hash" snapshot)
                            (get_or "sha256" (get "content_hash" expected) expected)))))

  -- `_failure_snapshot_matches_expected_after`
  unfoldable pub matches_expected_after : Fields → Fields → String → Attempt Bool
  unfolding is_snapshot_payload
  matches_expected_after snapshot expected path = do
    is_one ← is_snapshot_payload snapshot path
    answer (is_one && (has_path expected path && as_expected snapshot expected))
