-- ===== src/Journal/Frame/Recovery.antt =====
-- The operations of Journal.Recovery, Journal.Actions and Journal.Cleanup write the journal's
-- tables only.
use safe_fs_ops.Prelude.{ℕ, String, Option, none, some}
use safe_fs_ops.Platform.{Platform}
use safe_fs_ops.Database.{
  BatchPhase, BatchRow, ActionStatus, CleanupStatus, CleanupTrigger, LeaseRecord,
  ArtifactCleanupRow,
}
use safe_fs_ops.Database.Keeps.{Keeps}
use safe_fs_ops.Journal.Frame.{
  others, statement_rules, Keeps-require_active_recovery_attempt, Keeps-require_current_lease,
  Keeps-require_batch_for_recovery_write, Keeps-require_batch_for_recovery_action_write,
}
use safe_fs_ops.Journal.Guards.{
  require_batch_resource_key, require_valid_transition, require_recovery_takeover,
  require_lease_lost_recovery_marker,
}
use safe_fs_ops.Journal.Recovery.{
  start_recovery_in, require_recovery_transition, require_outcome_attempt, record_recovery_phase_in,
  record_interrupted_recovery_desired_in, record_lease_lost_recovery_desired_in,
}
use safe_fs_ops.Journal.Actions.{
  require_new_action, require_existing_action, prepare_recovery_action_write,
  record_recovery_action_in,
}
use safe_fs_ops.Journal.Cleanup.{
  require_batch_phase_for_trigger, prepare_plan, prepare_step, prepare_artifact_cleanup_write,
  require_batch_for_artifact_cleanup_write, record_artifact_cleanup_in,
}

Keeps-require_new_action :
    (attempt : String) (action : Option String) → Keeps others (require_new_action attempt action)
unfolding require_new_action
Keeps-require_new_action attempt none = search statement_rules depth 30 fits 4000
Keeps-require_new_action attempt (some action) = search statement_rules depth 30 fits 4000

Keeps-require_existing_action :
    (id attempt : String) (status : ActionStatus) (action action_type key : Option String)
    → Keeps others (require_existing_action id attempt status action action_type key)
unfolding require_existing_action
Keeps-require_existing_action id attempt status none action_type key =
    search statement_rules depth 30 fits 4000
Keeps-require_existing_action id attempt status (some action) action_type key =
    search statement_rules depth 30 fits 4000

Keeps-prepare_recovery_action_write :
    (id attempt : String) (status : ActionStatus) (action action_type key : Option String)
    → Keeps others (prepare_recovery_action_write id attempt status action action_type key)
unfolding prepare_recovery_action_write
Keeps-prepare_recovery_action_write id attempt status action action_type key =
    search (statement_rules, Keeps-require_new_action, Keeps-require_existing_action) depth 30 fits
      4000

Keeps-require_batch_phase_for_trigger :
    (row : BatchRow) (trigger : CleanupTrigger) (status : CleanupStatus)
    → Keeps others (require_batch_phase_for_trigger row trigger status)
unfolding require_batch_phase_for_trigger
Keeps-require_batch_phase_for_trigger row CleanupTrigger.deferred_cleanup status =
    search statement_rules depth 30 fits 4000
Keeps-require_batch_phase_for_trigger row CleanupTrigger.commit_cleanup status =
    search statement_rules depth 30 fits 4000
Keeps-require_batch_phase_for_trigger row CleanupTrigger.recovery_cleanup status =
    search statement_rules depth 30 fits 4000
Keeps-require_batch_phase_for_trigger row (CleanupTrigger.unsupported _) status =
    search statement_rules depth 30 fits 4000

Keeps-prepare_plan :
    (trigger : CleanupTrigger) (key : Option String) (existing : Option ArtifactCleanupRow)
    → Keeps others (prepare_plan trigger key existing)
unfolding prepare_plan
Keeps-prepare_plan trigger key none = search statement_rules depth 30 fits 4000
Keeps-prepare_plan trigger key (some e) = search statement_rules depth 30 fits 4000

Keeps-prepare_artifact_cleanup_write :
    (id artifact : String) (status : CleanupStatus) (trigger : CleanupTrigger) (key : Option String)
    → Keeps others (prepare_artifact_cleanup_write id artifact status trigger key)
unfolding prepare_artifact_cleanup_write prepare_step
Keeps-prepare_artifact_cleanup_write id artifact status trigger key =
    search (statement_rules, Keeps-prepare_plan) depth 30 fits 4000

module _ ⦃p : Platform⦄ where
  pub Keeps-start_recovery_in :
      (id : String) (lease : LeaseRecord) (reason : Option String)
      (payload recovery_id fresh : String) (now : ℕ)
      → Keeps others (start_recovery_in id lease reason payload recovery_id fresh now)
  unfolding start_recovery_in require_valid_transition
  Keeps-start_recovery_in id lease reason payload recovery_id fresh now =
      search (statement_rules, Keeps-require_batch_for_recovery_write) depth 30 fits 4000

  pub Keeps-record_recovery_phase_in :
      (id : String) (lease : LeaseRecord) (phase : BatchPhase) (attempt reason : Option String)
      (payload recovery_id fresh : String) (now : ℕ)
      → Keeps others
          (record_recovery_phase_in id lease phase attempt reason payload recovery_id fresh now)
  unfolding record_recovery_phase_in require_recovery_transition require_valid_transition
      require_outcome_attempt
  Keeps-record_recovery_phase_in id lease phase attempt reason payload recovery_id fresh now =
      search
        (
          statement_rules, Keeps-require_batch_for_recovery_write,
          Keeps-require_active_recovery_attempt,
        )
        depth 30 fits 4000

  pub Keeps-record_interrupted_recovery_desired_in :
      (id : String) (lease : LeaseRecord) (key reason : Option String)
      (payload recovery_id : String) (now : ℕ)
      → Keeps others
          (record_interrupted_recovery_desired_in id lease key reason payload recovery_id now)
  unfolding record_interrupted_recovery_desired_in require_recovery_takeover
  Keeps-record_interrupted_recovery_desired_in id lease key reason payload recovery_id now =
      search (statement_rules, Keeps-require_current_lease) depth 30 fits 4000

  pub Keeps-record_lease_lost_recovery_desired_in :
      (id : String) (lease : LeaseRecord) (key reason : Option String)
      (payload recovery_id : String) (now : ℕ)
      → Keeps others
          (record_lease_lost_recovery_desired_in id lease key reason payload recovery_id now)
  unfolding record_lease_lost_recovery_desired_in require_lease_lost_recovery_marker
  Keeps-record_lease_lost_recovery_desired_in id lease key reason payload recovery_id now =
      search statement_rules depth 30 fits 4000

  pub Keeps-record_recovery_action_in :
      (id : String) (lease : LeaseRecord) (attempt : String) (status : ActionStatus)
      (action_type key reason : Option String) (payload : String) (action : Option String)
      (record_id fresh fresh' : String) (now : ℕ)
      → Keeps others (
          record_recovery_action_in id lease attempt status action_type key reason payload action
            record_id fresh fresh' now)
  unfolding record_recovery_action_in require_batch_resource_key
  Keeps-record_recovery_action_in id lease attempt status action_type key reason payload action
        record_id fresh fresh' now =
      search
        (
          statement_rules, Keeps-require_batch_for_recovery_action_write,
          Keeps-require_active_recovery_attempt, Keeps-prepare_recovery_action_write,
        )
        depth 30 fits 4000

  pub Keeps-record_artifact_cleanup_in :
      (id : String) (lease : LeaseRecord) (artifact : String) (status : CleanupStatus)
      (trigger : CleanupTrigger) (key reason : Option String) (payload record_id : String) (now : ℕ)
      → Keeps others (
          record_artifact_cleanup_in id lease artifact status trigger key reason payload record_id
            now)
  unfolding record_artifact_cleanup_in require_batch_for_artifact_cleanup_write
      require_batch_resource_key
  Keeps-record_artifact_cleanup_in id lease artifact status trigger key reason payload record_id
        now =
      search
        (
          statement_rules, Keeps-require_current_lease, Keeps-prepare_artifact_cleanup_write,
          Keeps-require_batch_phase_for_trigger,
        )
        depth 30 fits 4000
