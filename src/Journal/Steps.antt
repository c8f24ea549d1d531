-- ===== src/Journal/Steps.antt =====
-- Sequences of journal calls on one database, by any callers, under any leases, at any instants:
-- how a batch lives through them.
use safe_fs_ops.Prelude.{ℕ, String, Option}
use safe_fs_ops.Platform.{Platform}
use safe_fs_ops.Database.{
  Database, BatchPhase, ActionStatus, CleanupStatus, CleanupTrigger, LeaseRecord,
}
use safe_fs_ops.Journal.Guards.{BatchRequest}
use safe_fs_ops.Journal.Batch.{
  create_batch, append_operation, start_batch_operation, record_checkpoint, transition_batch,
}
use safe_fs_ops.Journal.Recovery.{
  start_recovery, record_recovery_phase, record_interrupted_recovery_desired,
  record_lease_lost_recovery_desired,
}
use safe_fs_ops.Journal.Actions.{record_recovery_action}
use safe_fs_ops.Journal.Cleanup.{record_artifact_cleanup}

module _ ⦃p : Platform⦄ where
  -- One call of the journal, with any arguments.
  pub data Step (db : Database) : Database → Type 0 where
    creates :
        (request : BatchRequest) (lease : LeaseRecord) (batch_id : Option String) (fresh : String)
        (now : ℕ)
        → Step db (create_batch request lease batch_id fresh now db).1
    appends :
        (id : String) (lease : LeaseRecord) (operation_type : String) (key : Option String)
        (payload : String) (operation_id : Option String) (fresh : String) (now : ℕ)
        → Step db (append_operation id lease operation_type key payload operation_id fresh now db).1
    starts :
        (id : String) (lease : LeaseRecord) (operation_type : String) (key : Option String)
        (payload : String) (operation_id : Option String) (fresh : String)
        (status_payload : Option String) (now : ℕ)
        → Step db
            (start_batch_operation id lease operation_type key payload operation_id fresh
              status_payload now db).1
    checkpoints :
        (id : String) (lease : LeaseRecord) (key checkpoint_type payload : String)
        (operation_id checkpoint_id attempt : Option String) (fresh fresh' : String) (now : ℕ)
        → Step db
            (record_checkpoint id lease key checkpoint_type payload operation_id checkpoint_id
              attempt fresh fresh' now db).1
    transitions :
        (id : String) (lease : LeaseRecord) (phase : BatchPhase) (message : Option String)
        (payload : String) (now : ℕ)
        → Step db (transition_batch id lease phase message payload now db).1
    recovers :
        (id : String) (lease : LeaseRecord) (reason : Option String) (payload : String)
        (recovery_id : Option String) (fresh fresh' : String) (now : ℕ)
        → Step db (start_recovery id lease reason payload recovery_id fresh fresh' now db).1
    records_phase :
        (id : String) (lease : LeaseRecord) (phase : BatchPhase) (attempt reason : Option String)
        (payload : String) (recovery_id : Option String) (fresh fresh' : String) (now : ℕ)
        → Step db
            (record_recovery_phase id lease phase attempt reason payload recovery_id fresh fresh'
              now db).1
    interrupts :
        (id : String) (lease : LeaseRecord) (key reason : Option String) (payload : String)
        (recovery_id : Option String) (fresh : String) (now : ℕ)
        → Step db
            (record_interrupted_recovery_desired id lease key reason payload recovery_id fresh now
              db).1
    loses_lease :
        (id : String) (lease : LeaseRecord) (key reason : Option String) (payload : String)
        (recovery_id : Option String) (fresh : String) (now : ℕ)
        → Step db
            (record_lease_lost_recovery_desired id lease key reason payload recovery_id fresh now
              db).1
    acts :
        (id : String) (lease : LeaseRecord) (attempt : String) (status : ActionStatus)
        (action_type key reason : Option String) (payload : String)
        (action record_id : Option String) (fresh fresh' fresh'' : String) (now : ℕ)
        → Step db
            (record_recovery_action id lease attempt status action_type key reason payload action
              record_id fresh fresh' fresh'' now db).1
    cleans :
        (id : String) (lease : LeaseRecord) (artifact : String) (status : CleanupStatus)
        (trigger : CleanupTrigger) (key reason : Option String) (payload : String)
        (record_id : Option String) (fresh : String) (now : ℕ)
        → Step db
            (record_artifact_cleanup id lease artifact status trigger key reason payload record_id
              fresh now db).1

  pub data Reach (db : Database) : Database → Type 0 where
    here : Reach db db
    next : {mid last : Database} → Reach db mid → Step mid last → Reach db last
