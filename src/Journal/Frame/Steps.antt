-- ===== src/Journal/Frame/Steps.antt =====
-- Every call of the journal, with any arguments, leaves the tables of leases and claims as they
-- are.
use safe_fs_ops.Prelude.{◌≡◌, refl, Bool, true, false, ◌==◌, ◌||◌, if◌then◌else◌, or_else}
use safe_fs_ops.Platform.{Platform}
use safe_fs_ops.Database.{Database, Error, Result, err, value_error, attempt_mismatch}
use safe_fs_ops.Journal.Batch.{
  create_batch, create_batch_in, append_operation, append_operation_in, start_batch_operation,
  start_batch_operation_in, record_checkpoint, record_checkpoint_in, transition_batch,
  transition_batch_in,
}
use safe_fs_ops.Journal.Recovery.{
  start_recovery, start_recovery_in, record_recovery_phase, record_recovery_phase_in,
  record_interrupted_recovery_desired, record_interrupted_recovery_desired_in,
  record_lease_lost_recovery_desired, record_lease_lost_recovery_desired_in,
}
use safe_fs_ops.Journal.Actions.{record_recovery_action, record_recovery_action_in}
use safe_fs_ops.Journal.Cleanup.{record_artifact_cleanup, record_artifact_cleanup_in}
use safe_fs_ops.Database.Keeps.{Keeps-call}
use safe_fs_ops.Journal.Frame.{others}
use safe_fs_ops.Journal.Frame.Batches.{
  Keeps-create_batch_in, Keeps-append_operation_in, Keeps-start_batch_operation_in,
  Keeps-record_checkpoint_in, Keeps-transition_batch_in,
}
use safe_fs_ops.Journal.Frame.Recovery.{
  Keeps-start_recovery_in, Keeps-record_recovery_phase_in,
  Keeps-record_interrupted_recovery_desired_in, Keeps-record_lease_lost_recovery_desired_in,
  Keeps-record_recovery_action_in, Keeps-record_artifact_cleanup_in,
}
use safe_fs_ops.Journal.Steps.{
  Step, creates, appends, starts, checkpoints, transitions, recovers, records_phase, interrupts,
  loses_lease, acts, cleans,
}

guarded_keeps :
    {A : Type 0} (refuse : Bool) (e : Error) (db : Database) (y : Result A × Database)
    → others y.1 ≡ others db
    → others (if refuse then (err e, db) else y).1 ≡ others db
guarded_keeps true e db y n = refl
guarded_keeps false e db y n = n

module _ ⦃p : Platform⦄ where
  pub Step-others : {db db' : Database} → Step db db' → others db' ≡ others db
  unfolding create_batch append_operation start_batch_operation record_checkpoint transition_batch
      start_recovery record_recovery_phase record_interrupted_recovery_desired
      record_lease_lost_recovery_desired record_recovery_action record_artifact_cleanup
  Step-others {db} (creates request lease batch_id fresh now) =
      Keeps-call value_error
        (request.idempotency_key == "" || (request.owner == "" || request.run_id == ""))
        (create_batch_in request lease (or_else batch_id fresh) now) db
        (Keeps-create_batch_in request lease (or_else batch_id fresh) now)
  Step-others {db} (appends id lease operation_type key payload operation_id fresh now) =
      Keeps-call value_error (id == "" || operation_type == "")
        (append_operation_in id lease operation_type key payload (or_else operation_id fresh) now)
        db
        (Keeps-append_operation_in id lease operation_type key payload (or_else operation_id fresh)
          now)
  Step-others {db}
        (starts id lease operation_type key payload operation_id fresh status_payload now) =
      Keeps-call value_error (id == "" || operation_type == "")
        (start_batch_operation_in id lease operation_type key payload (or_else operation_id fresh)
          status_payload now)
        db
        (Keeps-start_batch_operation_in id lease operation_type key payload
          (or_else operation_id fresh) status_payload now)
  Step-others {db}
        (checkpoints id lease key checkpoint_type payload operation_id checkpoint_id attempt fresh
          fresh' now) =
      Keeps-call value_error (id == "" || (key == "" || checkpoint_type == ""))
        (record_checkpoint_in id lease key checkpoint_type payload operation_id
          (or_else checkpoint_id fresh) attempt fresh' now)
        db
        (Keeps-record_checkpoint_in id lease key checkpoint_type payload operation_id
          (or_else checkpoint_id fresh) attempt fresh' now)
  Step-others {db} (transitions id lease phase message payload now) =
      Keeps-call value_error (id == "") (transition_batch_in id lease phase message payload now) db
        (Keeps-transition_batch_in id lease phase message payload now)
  Step-others {db} (recovers id lease reason payload recovery_id fresh fresh' now) =
      Keeps-call value_error (id == "")
        (start_recovery_in id lease reason payload (or_else recovery_id fresh) fresh' now) db
        (Keeps-start_recovery_in id lease reason payload (or_else recovery_id fresh) fresh' now)
  Step-others {db}
        (records_phase id lease phase attempt reason payload recovery_id fresh fresh' now) =
      Keeps-call value_error (id == "")
        (record_recovery_phase_in id lease phase attempt reason payload (or_else recovery_id fresh)
          fresh' now)
        db
        (Keeps-record_recovery_phase_in id lease phase attempt reason payload
          (or_else recovery_id fresh) fresh' now)
  Step-others {db} (interrupts id lease key reason payload recovery_id fresh now) =
      Keeps-call value_error (id == "")
        (record_interrupted_recovery_desired_in id lease key reason payload
          (or_else recovery_id fresh) now)
        db
        (Keeps-record_interrupted_recovery_desired_in id lease key reason payload
          (or_else recovery_id fresh) now)
  Step-others {db} (loses_lease id lease key reason payload recovery_id fresh now) =
      Keeps-call value_error (id == "")
        (record_lease_lost_recovery_desired_in id lease key reason payload
          (or_else recovery_id fresh) now)
        db
        (Keeps-record_lease_lost_recovery_desired_in id lease key reason payload
          (or_else recovery_id fresh) now)
  Step-others {db}
        (acts id lease attempt status action_type key reason payload action record_id fresh fresh'
          fresh'' now) =
      guarded_keeps (id == "") value_error db _ (
        Keeps-call attempt_mismatch (attempt == "")
          (record_recovery_action_in id lease attempt status action_type key reason payload action
            (or_else record_id fresh'') fresh fresh' now)
          db
          (Keeps-record_recovery_action_in id lease attempt status action_type key reason payload
            action (or_else record_id fresh'') fresh fresh' now))
  Step-others {db}
        (cleans id lease artifact status trigger key reason payload record_id fresh now) =
      Keeps-call value_error (id == "" || artifact == "")
        (record_artifact_cleanup_in id lease artifact status trigger key reason payload
          (or_else record_id fresh) now)
        db
        (Keeps-record_artifact_cleanup_in id lease artifact status trigger key reason payload
          (or_else record_id fresh) now)
