-- ===== src/Planning/Files/Proofs.antt =====
-- `_file_recovery_proof_from_records` of file_recovery_planning.py, part by part.
use safe_fs_ops.Prelude.{
  String, Bool, false, ◌||◌, Option, none, some, List, [], ◌∷◌, if◌then◌else◌, is_some,
}
use Prim.Native.String.{◌++◌ as append}
use safe_fs_ops.Json.{
  Json, null, text, boolean, object, Fields, no_fields, field, get, as_mapping, Attempt, answer,
  ◌>>=◌, in_set, Paths,
}
use safe_fs_ops.Planning.Files.Snapshots.{
  Checkpoint, RecoveryContext, stage_of, failure_stage_is_before_mutation, failure_snapshot_payload,
  failure_observed_after_payload, not_none, latest_failure_payload, latest_checkpoint,
  is_backup_payload, is_snapshot_payload, same_snapshot_payload, matches_expected_after,
}

pub data Kind : Type 0 where
  restore : Kind
  noop : Kind
  manual : Kind

-- The mapping that `_file_recovery_proof_from_records` returns.
pub record Proof : Type 0 where
  pub kind : Kind
  pub action_id : String
  pub resource_key : String
  pub payload : Fields

module _ ⦃p : Paths⦄ where
  -- The failure snapshot, the `expected_after` checkpoint, and whether they agree.
  abbrev pub agreeing : Option Fields → Option Checkpoint → String → Attempt (Option Fields)
  agreeing none _ path = answer none
  agreeing (some snapshot) none path = answer none
  agreeing (some snapshot) (some expected) path = do
    agree ← matches_expected_after snapshot expected.payload path
    answer (if agree then some snapshot else none)

  abbrev pub payload_of : Option Checkpoint → Option Fields
  payload_of none = none
  payload_of (some c) = some c.payload

  abbrev pub snapshot_if : Option Fields → String → Attempt (Option Fields)
  snapshot_if none path = answer none
  snapshot_if (some payload) path = do
    is_one ← is_snapshot_payload payload path
    answer (if is_one then some payload else none)

  abbrev otherwise : Option Fields → Attempt (Option Fields) → Attempt (Option Fields)
  otherwise none later = later
  otherwise (some payload) later = answer (some payload)

  -- A value that is looked for in one place, and where it is None, in the next.
  unfoldable pub first_of :
      Attempt (Option Fields) → Attempt (Option Fields) → Attempt (Option Fields)
  first_of here later = do found ← here; otherwise found later

  abbrev pub recorded_after : List Checkpoint → String → String → Attempt (Option Fields)
  recorded_after checkpoints key path =
      snapshot_if (payload_of (latest_checkpoint "after" key path checkpoints)) path

  abbrev pub seen_at_failure : List Checkpoint → String → String → Json → Attempt (Option Fields)
  seen_at_failure checkpoints key path failure =
      agreeing (failure_observed_after_payload failure)
        (latest_checkpoint "expected_after" key path checkpoints) path

  abbrev pub seen_by_checkpoint : List Checkpoint → String → String → Attempt (Option Fields)
  seen_by_checkpoint checkpoints key path =
      agreeing (payload_of (latest_checkpoint "failure" key path checkpoints))
        (latest_checkpoint "expected_after" key path checkpoints) path

  abbrev pub seen_before : String → Json → Attempt (Option Fields)
  seen_before path failure =
      if failure_stage_is_before_mutation failure
      then snapshot_if (failure_snapshot_payload failure) path
      else answer none

  -- The part of `_file_recovery_proof_from_records` that finds the state to expect before a
  -- restore.
  unfoldable pub expected_current :
      List Checkpoint → String → String → Json → Attempt (Option Fields)
  unfolding matches_expected_after is_snapshot_payload first_of
  expected_current checkpoints key path failure = first_of (recorded_after checkpoints key path) (
      first_of (seen_at_failure checkpoints key path failure)
        (first_of (seen_by_checkpoint checkpoints key path) (seen_before path failure)))

  -- `_failure_stage`, as the payload has it
  abbrev failure_stage : Json → Json
  failure_stage failure = elim (not_none (stage_of (as_mapping failure))) [
    | none ↦ null
    | some stage ↦ text (p.str_of stage)
  ]

  abbrev pub restore_id : String → String
  restore_id key = append "restore-backup:self:" key

  abbrev pub noop_proof : String → String → Json → Proof
  noop_proof key path failure = record {
    kind = noop;
    action_id = append "noop:" (restore_id key);
    resource_key = key;
    payload = field "path" (text path) (
        field "reason_code" (text "mutation_not_started")
          (field "failure_stage" (failure_stage failure) no_fields));
  }

  abbrev pub missing_backup : String → String → Json → Proof
  missing_backup key path failure = record {
    kind = manual;
    action_id = append "manual:" (restore_id key);
    resource_key = key;
    payload = field "path" (text path) (
        field "reason_code" (text "missing_backup_proof")
          (field "failure_stage" (failure_stage failure) no_fields));
  }

  abbrev pub restore_payload : String → Fields → Fields → Fields
  restore_payload path backup current = field "path" (text path) (
      field "backup" (object backup) (
        field "expected_current" (object current)
          (field "allow_overwrite" (boolean false) no_fields)))

  abbrev pub restore_proof : String → String → Fields → Fields → Proof
  restore_proof key path backup current = record {
    kind = restore;
    action_id = restore_id key;
    resource_key = key;
    payload = restore_payload path backup current;
  }

  abbrev pub missing_current : String → String → Fields → Json → Proof
  missing_current key path backup failure = record {
    kind = manual;
    action_id = append "manual:" (restore_id key);
    resource_key = key;
    payload = field "path" (text path) (
        field "backup" (object backup) (
          field "reason_code" (text "missing_expected_current_proof")
            (field "failure_stage" (failure_stage failure) no_fields)));
  }

  abbrev pub same_as : Option Fields → Fields → String → Attempt Bool
  same_as none snapshot path = answer false
  same_as (some payload) snapshot path = same_snapshot_payload payload snapshot path

  abbrev noop_if : Bool → Proof → Option Proof
  noop_if same proof = if same then some proof else none

  -- `_before_mutation_noop_proof`
  unfoldable pub before_mutation_noop_proof :
      List Checkpoint → String → String → Json → Attempt (Option Proof)
  unfolding same_snapshot_payload
  before_mutation_noop_proof checkpoints key path failure =
      if failure_stage_is_before_mutation failure
      then elim (failure_snapshot_payload failure) [
        | none ↦ answer none
        | some snapshot ↦ (do
          same ←
              same_as (payload_of (latest_checkpoint "before" key path checkpoints)) snapshot path
          answer (noop_if same (noop_proof key path failure)))
      ]
      else answer none

  -- `_no_side_effect_noop_proof`
  unfoldable pub no_side_effect_noop_proof :
      List Checkpoint → String → String → Fields → Json → Attempt (Option Proof)
  unfolding same_snapshot_payload
  no_side_effect_noop_proof checkpoints key path backup failure =
      elim (failure_snapshot_payload failure) [
        | none ↦ answer none
        | some snapshot ↦
            if is_some (latest_checkpoint "expected_after" key path checkpoints)
            then (do
              matches_before ←
                  same_as (payload_of (latest_checkpoint "before" key path checkpoints)) snapshot
                    path
              matches_backup ← same_as (as_mapping (get "snapshot" backup)) snapshot path
              answer (noop_if (matches_before || matches_backup) (noop_proof key path failure)))
            else answer none
      ]

  abbrev pub usable_backup : Option Checkpoint → String → Attempt (Option Fields)
  usable_backup none path = answer none
  usable_backup (some c) path = do
    is_one ← is_backup_payload c.payload path
    answer (if is_one then some c.payload else none)

  abbrev pub proof_or : Option Proof → Proof → Proof
  proof_or none proof = proof
  proof_or (some found) proof = found

  -- The rest of `_file_recovery_proof_from_records`, without and with a usable backup.
  abbrev without_backup : List Checkpoint → String → String → Json → Attempt Proof
  without_backup checkpoints key path failure = do
    found ← before_mutation_noop_proof checkpoints key path failure
    answer (proof_or found (missing_backup key path failure))

  abbrev pub unless_expected :
      Option Fields → List Checkpoint → String → String → Fields → Json → Attempt Proof
  unless_expected (some current) checkpoints key path backup failure =
      answer (restore_proof key path backup current)
  unless_expected none checkpoints key path backup failure = do
    found ← no_side_effect_noop_proof checkpoints key path backup failure
    answer (proof_or found (missing_current key path backup failure))

  abbrev pub with_backup : Option Fields → List Checkpoint → String → String → Json → Attempt Proof
  with_backup none checkpoints key path failure = without_backup checkpoints key path failure
  with_backup (some backup) checkpoints key path failure = do
    current ← expected_current checkpoints key path failure
    unless_expected current checkpoints key path backup failure

  unfoldable pub proof_for : List Checkpoint → String → String → Json → Attempt Proof
  unfolding is_backup_payload before_mutation_noop_proof no_side_effect_noop_proof expected_current
  proof_for checkpoints key path failure = do
    backup ← usable_backup (latest_checkpoint "backup" key path checkpoints) path
    with_backup backup checkpoints key path failure

  abbrev some_proof : Proof → Attempt (Option Proof)
  some_proof proof = answer (some proof)

  abbrev for_file : Option Json → Option String → List Checkpoint → Json → Attempt (Option Proof)
  for_file none key checkpoints failure = answer none
  for_file (some path) none checkpoints failure = answer none
  for_file (some path) (some key) checkpoints failure = do
    proof ← proof_for checkpoints key (p.path_of (p.str_of path)) failure
    some_proof proof

  -- `_file_recovery_proof_from_records`
  unfoldable pub file_recovery_proof_from_records :
      Fields → List Checkpoint → Option String → Json → Attempt (Option Proof)
  unfolding proof_for
  file_recovery_proof_from_records payload checkpoints key failure = do
    on_file ← in_set ("write_bytes" ∷ "write_text" ∷ "delete_file" ∷ []) (get "operation" payload)
    if on_file
        then for_file (not_none (get "path" payload)) key checkpoints failure
        else answer none

  -- `_file_recovery_proof`
  unfoldable pub file_recovery_proof : RecoveryContext → Attempt (Option Proof)
  unfolding file_recovery_proof_from_records
  file_recovery_proof context =
      file_recovery_proof_from_records context.payload context.checkpoints context.resource_key
        (latest_failure_payload context)
