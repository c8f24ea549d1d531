-- ===== src/Examples/Restores.antt =====
-- The theorems on the recovery runner, at the restore that is planned for the file /f and at three
-- records of an action.
use safe_fs_ops.Prelude.{
  false, String, true, none, some, List, [], ◌∷◌, ◌&&◌, ◌≡◌, refl, ◌==◌, text_discrete,
}
use safe_fs_ops.Table.{select}
use safe_fs_ops.Table.Keys.{has, Unique}
use safe_fs_ops.Database.{RecoveryActionRow, ActionStatus}
use safe_fs_ops.Runner.{
  returns, ResourceSnapshot, RestoreRequest, restore_request, file_backup_from_payload, file_backup,
  post_init_backup, resource_snapshot_from_payload, snapshot_from_mapping,
  latest_current_attempt_recovery_actions,
}
use safe_fs_ops.Runner.Latest.{action_key, latest_current_attempt_recovery_actions-last_of}
use safe_fs_ops.Runner.Ensured.{Whole}
use safe_fs_ops.Planning.Safety.{Recorded}
use safe_fs_ops.Planning.Execution.{restore_request-file_recovery_action_plans}
use safe_fs_ops.Json.{Json, pos, object, Fields, no_fields, field, get, find}
use safe_fs_ops.Planning.Files.{Checkpoint, latest_checkpoint, not_none, latest_failure_payload}
use safe_fs_ops.Planning.Latest.{last_of}
use safe_fs_ops.Examples.Plans.{
  text_of, posix, checkpoints, batch_payload, context, restoring, plans,
}

abbrev seen : ResourceSnapshot
seen = record {
  path = "/f";
  exists = true;
  file_type = "file";
  content_hash = none;
  size = none;
  mtime_ns = none;
  symlink_target = none;
  device = none;
  inode = none;
  ctime_ns = none;
}

abbrev decoded : RestoreRequest
decoded = record {
  backup = record {
    path = "/f";
    existed = true;
    file_type = "file";
    content_path = some "/backups/1";
    content_hash = some "h";
    size = some (pos 3);
    permissions = some (pos 420);
    snapshot = seen;
  };
  expected_current = some seen;
  allow_overwrite = false;
}

decodes : restore_request restoring.payload ≡ returns decoded
unfolding restore_request file_backup_from_payload resource_snapshot_from_payload
    snapshot_from_mapping file_backup post_init_backup get find text_discrete
decodes = refl

restore_request-file_recovery_action_plans_example :
    (key : String) × (value : Json) × (some "file" ≡ some key)
    × (not_none (get "path" batch_payload) ≡ some value)
    × (false ≡ false)
    × ((c : Checkpoint) × (latest_checkpoint "backup" key (text_of value) checkpoints ≡ some c)
        × (file_backup_from_payload (field "backup" (object c.payload) no_fields)
            ≡ returns decoded.backup)
        × (("/f" == text_of value) ≡ true)
        × Whole decoded.backup)
    × ((state : Fields) × (current : ResourceSnapshot) × (decoded.expected_current ≡ some current)
        × Recorded checkpoints key (text_of value) (latest_failure_payload context) state
        × (snapshot_from_mapping state ≡ returns current)
        × ((current.path == text_of value) ≡ true))
restore_request-file_recovery_action_plans_example =
    restore_request-file_recovery_action_plans context restoring [] decoded plans decodes

-- Two records of one action of the attempt, and one of another attempt.
abbrev action : String → String → RecoveryActionRow
action record_id attempt = record {
  action_record_id = record_id;
  action_id = "restore";
  recovery_attempt_id = attempt;
  batch_id = "b1";
  sequence = 1;
  action_type = "restore_backup";
  status = ActionStatus.planned;
  resource_key = none;
  reason = none;
  payload = "{}";
  created_at = "";
}

abbrev actions : List RecoveryActionRow
actions = action "1" "a1" ∷ action "2" "a1" ∷ action "3" "a0" ∷ []

latest_current_attempt_recovery_actions-last_of_example :
    (found : List RecoveryActionRow) × (latest_current_attempt_recovery_actions (some "a1") actions
      ≡ some found)
    × Unique action_key found
    × ((key : String)
        → select (has action_key key) found
          ≡ last_of (λ r. r.recovery_attempt_id == "a1" && has action_key key r) none actions)
latest_current_attempt_recovery_actions-last_of_example =
    latest_current_attempt_recovery_actions-last_of "a1" actions
