-- ===== src/Examples/Plans.antt =====
-- The theorems on recovery planning at a batch that wrote the file /f, with a backup and the state
-- after.
use safe_fs_ops.Prelude.{
  String, true, none, some, List, [], ◌∷◌, ◌&&◌, ◌≡◌, refl, ◌==◌, text_discrete,
}
use Prim.Native.String.{◌++◌ as append}
use safe_fs_ops.Planning.Renames.{RenameContext}
use safe_fs_ops.Json.{
  Json, null, boolean, integer, pos, text, object, Fields, no_fields, field, answer, Paths, get,
  find, in_set, json_eq, hashable,
}
use safe_fs_ops.Planning.Files.{
  Checkpoint, RecoveryContext, ActionPlan, Proof, latest_checkpoint, not_none, restore_proof,
  latest_failure_payload, latest_recorded_failure, file_recovery_action_plans, file_recovery_proof,
  file_recovery_proof_from_records, proof_for, is_backup_payload, is_snapshot_payload,
  expected_current, first_of, automatic_file_rollback_supported,
  file_rollback_manual_intervention_payload,
}
use safe_fs_ops.Planning.Latest.{
  last_of, own, latest_checkpoint-last_of, file_recovery_proof_from_records-own,
}
use safe_fs_ops.Planning.Causes.{Restores}
use safe_fs_ops.Planning.Outcomes.{file_recovery_action_plans_justified}

abbrev pub text_of : Json → String
text_of (text s) = s
text_of _ = "None"

instance abbrev pub posix : Paths
posix = record { str_of = text_of; path_of = λ s. s; same_path = λ s t. s == t; int_of = λ s. none }

abbrev pub snapshot : Fields
snapshot =
    field "path" (text "/f")
      (field "exists" (boolean true) (field "file_type" (text "file") no_fields))

abbrev pub backup : Fields
backup = field "path" (text "/f") (
    field "file_type" (text "file") (
      field "existed" (boolean true) (
        field "content_path" (text "/backups/1") (
          field "content_hash" (text "h") (
            field "size" (integer (pos 3)) (
              field "permissions" (integer (pos 420))
                (field "snapshot" (object snapshot) no_fields)))))))

abbrev checkpoint : String → String → Fields → Checkpoint
checkpoint key checkpoint_type payload = record {
  checkpoint_id = "c1";
  batch_id = "b1";
  sequence = 1;
  operation_id = none;
  resource_key = key;
  checkpoint_type = checkpoint_type;
  payload = payload;
}

abbrev pub checkpoints : List Checkpoint
checkpoints =
    checkpoint "file" "backup" backup
    ∷ checkpoint "other" "after" snapshot
    ∷ checkpoint "file" "after" snapshot
    ∷ []

abbrev pub batch_payload : Fields
batch_payload = field "operation" (text "write_bytes") (field "path" (text "/f") no_fields)

abbrev pub context : RecoveryContext
context = record {
  payload = batch_payload;
  status_payload = no_fields;
  resource_key = some "file";
  checkpoints = checkpoints;
  recovery_payloads = [];
}

latest_checkpoint-last_of_example :
    latest_checkpoint "after" "file" "/f" checkpoints
    ≡ last_of
        (λ c.
          c.checkpoint_type == "after"
          && (c.resource_key == "file" && text_of (get "path" c.payload) == "/f"))
        none
        checkpoints
latest_checkpoint-last_of_example = latest_checkpoint-last_of "after" "file" "/f" checkpoints

file_recovery_proof_from_records-own_example :
    file_recovery_proof_from_records batch_payload (own "file" checkpoints) (some "file") null
    ≡ file_recovery_proof_from_records batch_payload checkpoints (some "file") null
file_recovery_proof_from_records-own_example =
    file_recovery_proof_from_records-own batch_payload checkpoints "file" null

abbrev pub restoring : ActionPlan
restoring = record {
  action_id = "restore-backup:self:file";
  action_type = "restore_backup";
  resource_key = "file";
  payload = (restore_proof "file" "/f" backup snapshot).payload;
}

pub plans : file_recovery_action_plans context ≡ answer (restoring ∷ [])
unfolding file_recovery_action_plans file_recovery_proof latest_failure_payload
    latest_recorded_failure file_recovery_proof_from_records proof_for expected_current first_of
    latest_checkpoint is_backup_payload is_snapshot_payload get find in_set json_eq hashable
    text_discrete
plans = refl

file_recovery_action_plans_justified_example :
    (◌≡◌ {A = List ActionPlan} [] [])
    × (automatic_file_rollback_supported context ≡ answer true)
    × (file_rollback_manual_intervention_payload context ≡ answer none)
    × ((k : String) × (value : Json) × (proof : Proof) × (some "file" ≡ some k)
        × (not_none (get "path" batch_payload) ≡ some value)
        × Restores checkpoints k (text_of value) (latest_failure_payload context) proof
        × (restoring ≡ record {
          action_id = proof.action_id;
          action_type = "restore_backup";
          resource_key = k;
          payload = proof.payload;
        }))
file_recovery_action_plans_justified_example =
    file_recovery_action_plans_justified context restoring [] plans

-- A rename with a record of what was renamed.
abbrev rename_record : Fields
rename_record = field "source_path" (text "/a") (
    field "destination_path" (text "/b")
      (field "file_type" (text "file") (field "device" null (field "inode" null no_fields))))

abbrev rename : RenameContext
rename = record {
  batch_id = "b1";
  resource_key = some "file";
  payload = field "operation" (text "rename_no_replace") no_fields;
  checkpoints = checkpoint "file" "rename_record" rename_record ∷ [];
  recovery_payloads = [];
}
