-- ===== src/Journal/Actions.antt =====
-- JournalRecoveryActionMixin of operation_journal/journal_recovery_actions.py, with
-- `_prepare_recovery_action_write` of journal_guards.py: the actions of the active attempt.
use safe_fs_ops.Prelude.{
  String, Bool, true, false, not, ◌&&◌, Option, none, some, if◌then◌else◌, ◌==◌, ℕ, or_else, opt_eq,
  is_some,
}
use safe_fs_ops.Platform.{Platform}
use safe_fs_ops.Database.{
  Database, RecoveryActionRow, ActionStatus, LeaseRecord, value_error, runtime_error,
  attempt_mismatch, idempotency_mismatch, invalid_transition, Result, err, Tx, ◌>>=◌, ◌>>◌, pure,
  raise, raise_if, reads, branch, transaction,
}
use safe_fs_ops.Journal.Rows.{
  next_sequence, latest_recovery_action_for_attempt, recovery_action_row, insert_recovery_action,
}
use safe_fs_ops.Journal.Guards.{
  expect, require_batch_resource_key, require_active_recovery_attempt,
  require_batch_for_recovery_action_write,
}

-- _RECOVERY_ACTION_TRANSITIONS
unfoldable pub action_transition : ActionStatus → ActionStatus → Bool
action_transition ActionStatus.planned ActionStatus.attempting = true
action_transition ActionStatus.planned ActionStatus.skipped = true
action_transition ActionStatus.planned ActionStatus.manual_intervention_required = true
action_transition ActionStatus.attempting ActionStatus.succeeded = true
action_transition ActionStatus.attempting ActionStatus.failed = true
action_transition ActionStatus.attempting ActionStatus.skipped = true
action_transition ActionStatus.attempting ActionStatus.manual_intervention_required = true
action_transition _ _ = false

abbrev pub is_planned_action : ActionStatus → Bool
is_planned_action ActionStatus.planned = true
is_planned_action _ = false

-- `value is not None and value != stored`
abbrev pub asks_other : Option String → Option String → Bool
asks_other asked stored = is_some asked && not (opt_eq asked stored)

-- `action_id is not None` and the attempt has the action already.
unfoldable pub require_new_action : String → Option String → Tx (Unit {0})
require_new_action attempt none = pure tt
require_new_action attempt (some action) = do
  existing ← reads (latest_recovery_action_for_attempt attempt action)
  raise_if (is_some existing) invalid_transition

-- The stored action that a transition goes on from.
unfoldable pub require_existing_action :
    String
    → String
    → ActionStatus
    → Option String
    → Option String
    → Option String
    → Tx RecoveryActionRow
unfolding expect
require_existing_action id attempt status none action_type key = raise attempt_mismatch
require_existing_action id attempt status (some action) action_type key = do
  raise_if (action == "") attempt_mismatch
  found ← reads (latest_recovery_action_for_attempt attempt action)
  existing ← expect attempt_mismatch found
  raise_if (not (existing.batch_id == id)) attempt_mismatch
  raise_if (asks_other action_type (some existing.action_type)) idempotency_mismatch
  raise_if (asks_other key existing.resource_key) idempotency_mismatch
  raise_if (not (action_transition existing.status status)) invalid_transition
  pure existing

unfoldable pub prepare_recovery_action_write :
    String
    → String
    → ActionStatus
    → Option String
    → Option String
    → Option String
    → Tx (Option RecoveryActionRow)
unfolding require_new_action require_existing_action
prepare_recovery_action_write id attempt status action action_type key =
    branch (is_planned_action status)
      (do
        require_new_action attempt action
        raise_if (not (is_some action_type)) value_error
        pure none)
      (do
        existing ← require_existing_action id attempt status action action_type key
        pure (some existing))

abbrev or_text : Option String → String
or_text none = ""
or_text (some text) = text

-- The columns that a transition copies from the existing action, or that a plan sets. A plan has an
-- action type, which was checked.
abbrev pub action_identity :
    Option RecoveryActionRow
    → Option String
    → Option String
    → Option String
    → String
    → String × String × Option String
action_identity none action action_type key fresh = (or_else action fresh, or_text action_type, key)
action_identity (some e) action action_type key fresh = (e.action_id, e.action_type, e.resource_key)

module _ ⦃p : Platform⦄ where
  unfoldable pub new_action :
      String
      → String × String × Option String
      → String
      → String
      → ℕ
      → ActionStatus
      → Option String
      → String
      → ℕ
      → RecoveryActionRow
  new_action record_id (action, action_type, key) attempt id sequence status reason payload now =
      record {
        action_record_id = record_id;
        action_id = action;
        recovery_attempt_id = attempt;
        batch_id = id;
        sequence = sequence;
        action_type = action_type;
        status = status;
        resource_key = key;
        reason = reason;
        payload = payload;
        created_at = p.isoformat now;
      }

  -- `fresh` is the uuid of a planned action, `fresh'` that of a takeover record.
  unfoldable pub record_recovery_action_in :
      String
      → LeaseRecord
      → String
      → ActionStatus
      → Option String
      → Option String
      → Option String
      → String
      → Option String
      → String
      → String
      → String
      → ℕ
      → Tx RecoveryActionRow
  unfolding expect require_batch_resource_key
  record_recovery_action_in id lease attempt status action_type key reason payload action record_id
        fresh fresh' now =
      do
        row ← require_batch_for_recovery_action_write id lease fresh' now
        attempt_row ← require_active_recovery_attempt id (some attempt)
        existing ← prepare_recovery_action_write id attempt status action action_type key
        sequence ← reads (next_sequence id)
        require_batch_resource_key row (action_identity existing action action_type key fresh).2
        insert_recovery_action (
            new_action record_id (action_identity existing action action_type key fresh)
              attempt_row.recovery_id id sequence status reason payload now)
        found ← reads (recovery_action_row record_id)
        expect runtime_error found

  -- `fresh''` is the uuid of the action record.
  unfoldable pub record_recovery_action :
      String
      → LeaseRecord
      → String
      → ActionStatus
      → Option String
      → Option String
      → Option String
      → String
      → Option String
      → Option String
      → String
      → String
      → String
      → ℕ
      → Database
      → Result RecoveryActionRow × Database
  unfolding transaction
  record_recovery_action id lease attempt status action_type key reason payload action record_id
        fresh fresh' fresh'' now db =
      if id == ""
      then (err value_error, db)
      else if attempt == ""
      then (err attempt_mismatch, db)
      else transaction
          (record_recovery_action_in id lease attempt status action_type key reason payload action
            (or_else record_id fresh'') fresh fresh' now)
          db
