-- ===== src/Planning/Renames.antt =====
-- operation_journal/rename_recovery_planning.py: from the journal of an interrupted rename to the
-- one action that undoes it, or asks for manual intervention.
use safe_fs_ops.Prelude.{
  String, Bool, true, ◌&&◌, Option, none, some, List, [], ◌∷◌, ◌==◌, if◌then◌else◌, is_some,
}
use Prim.Native.String.{◌++◌ as append}
use safe_fs_ops.Json.{
  Json, null, text, Fields, no_fields, field, find, get, as_mapping, json_eq, Paths,
}
use safe_fs_ops.Planning.Files.{Checkpoint, or_try}

-- What the file reads of a JournaledFilesystemRecoveryContext: three columns of its batch, the
-- checkpoints, and the payloads of its recovery records.
pub record RenameContext : Type 0 where
  pub batch_id : String
  pub resource_key : Option String
  pub payload : Fields
  pub checkpoints : List Checkpoint
  pub recovery_payloads : List Fields

-- The mapping that `rename_recovery_action_plans` returns for the batch.
pub record RenamePlan : Type 0 where
  pub action_id : String
  pub action_type : String
  pub resource_key : Option String
  pub payload : Fields

-- `_looks_like_rename_payload`
abbrev all_in : List String → Fields → Bool
all_in [] payload = true
all_in (key ∷ keys) payload = is_some (find key payload) && all_in keys payload

unfoldable pub looks_like_rename_payload : Fields → Bool
looks_like_rename_payload payload =
    all_in ("source_path" ∷ "destination_path" ∷ "file_type" ∷ "device" ∷ "inode" ∷ []) payload

abbrev if_rename : Option Fields → Option Fields
if_rename none = none
if_rename (some payload) = if looks_like_rename_payload payload then some payload else none

abbrev pub rename_checkpoint : Checkpoint → Option Fields
rename_checkpoint c =
    if c.checkpoint_type == "rename_record" then if_rename (some c.payload) else none

-- The first value from the end of a list, as the loops over `reversed(...)` find it.
unfoldable pub last_value : {A B : Type 0} → (A → Option B) → List A → Option B
last_value f [] = none
last_value f (a ∷ rest) = let later = last_value f rest in or_try later (f a)

abbrev pub recorded_rename : Fields → Option Fields
recorded_rename payload = if_rename (as_mapping (get "rename_record" payload))

-- `_latest_rename_payload`
unfoldable pub latest_rename_payload : RenameContext → Option Fields
unfolding last_value looks_like_rename_payload
latest_rename_payload context =
    or_try (last_value rename_checkpoint context.checkpoints)
      (last_value recorded_rename context.recovery_payloads)

abbrev text_in : Json → Option String
text_in (text s) = some s
text_in _ = none

abbrev pub manual_type : String
manual_type = "manual_intervention_required"

-- One round of the loop of `_latest_manual_intervention_action`.
abbrev manual_of : Option String → Option Fields → Json → Option String → Option RenamePlan
manual_of key none action_type action_id = none
manual_of key (some payload) action_type none = none
manual_of key (some payload) action_type (some action_id) =
    if json_eq (get "operation" payload) (text "rename_no_replace")
      && json_eq action_type (text manual_type)
    then some (record {
      action_id = action_id;
      action_type = manual_type;
      resource_key = key;
      payload = payload;
    })
    else none

abbrev manual_in : Option String → Option Fields → Option RenamePlan
manual_in key none = none
manual_in key (some action) =
    manual_of key (as_mapping (get "payload" action)) (get "action_type" action)
      (text_in (get "action_id" action))

abbrev pub manual_action : Option String → Fields → Option RenamePlan
manual_action key payload = manual_in key (as_mapping (get "manual_intervention_action" payload))

unfoldable pub latest_manual_intervention_action : RenameContext → Option RenamePlan
unfolding last_value
latest_manual_intervention_action context =
    last_value (manual_action context.resource_key) context.recovery_payloads

-- `_is_rename_no_replace_batch`
unfoldable pub is_rename_no_replace_batch : RenameContext → Bool
is_rename_no_replace_batch context =
    json_eq (get "operation" context.payload) (text "rename_no_replace")

abbrev key_text : Option String → String
key_text none = "None"
key_text (some key) = key

abbrev key_json : Option String → Json
key_json none = null
key_json (some key) = text key

module _ ⦃p : Paths⦄ where
  -- `_missing_rename_rollback_proof_action`
  unfoldable pub missing_rename_rollback_proof_action : RenameContext → RenamePlan
  missing_rename_rollback_proof_action context = record {
    action_id =
        append "rename-no-replace-manual:"
          (append context.batch_id (append ":" (key_text context.resource_key)));
    action_type = manual_type;
    resource_key = context.resource_key;
    payload = field "operation" (text "rename_no_replace") (
        field "batch_id" (text context.batch_id) (
          field "resource_key" (key_json context.resource_key) (
            field "source_path" (text (p.str_of (get "source_path" context.payload))) (
              field "destination_path" (text (p.str_of (get "destination_path" context.payload))) (
                field "reason_code" (text "missing_rename_rollback_proof") (
                  field "detail" (text "rename_no_replace has no durable inverse rename proof")
                    no_fields))))));
  }

  abbrev pub restore_type : String
  restore_type = "restore_inverse_rename"

  -- The action that undoes the rename of a record.
  unfoldable pub inverse_rename : Option String → Fields → RenamePlan
  inverse_rename key payload = record {
    action_id = append "restore-inverse-rename:" (
        append (p.str_of (get "destination_path" payload))
          (append ":" (p.str_of (get "source_path" payload))));
    action_type = restore_type;
    resource_key = key;
    payload = payload;
  }

  abbrev without_record : RenameContext → Option RenamePlan → List RenamePlan
  without_record context none =
      if is_rename_no_replace_batch context
      then missing_rename_rollback_proof_action context ∷ []
      else []
  without_record context (some action) = action ∷ []

  abbrev with_record : RenameContext → Option Fields → List RenamePlan
  with_record context none = without_record context (latest_manual_intervention_action context)
  with_record context (some payload) = inverse_rename context.resource_key payload ∷ []

  unfoldable pub rename_recovery_action_plans : RenameContext → List RenamePlan
  unfolding latest_rename_payload latest_manual_intervention_action is_rename_no_replace_batch
      missing_rename_rollback_proof_action inverse_rename
  rename_recovery_action_plans context = with_record context (latest_rename_payload context)
