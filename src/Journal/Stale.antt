-- ===== src/Journal/Stale.antt =====
-- Journal writes under a lease record that is not current.
use safe_fs_ops.Prelude.{ℕ, String, ◌≡◌, ◌≢◌, false, Option, arith}
use safe_fs_ops.Platform.{Platform}
use safe_fs_ops.Database.{
  Database, BatchPhase, ActionStatus, CleanupStatus, CleanupTrigger, LeaseRecord, err, lease_lost,
  transaction,
}
use safe_fs_ops.Lease.{lease_is_current, require_current_lease}
use safe_fs_ops.Journal.Guards.{
  BatchRequest, require_batch_for_write, require_batch_for_recovery_write,
  require_batch_for_recovery_action_write,
}
use safe_fs_ops.Journal.Batch.{
  create_batch, create_batch_in, append_operation, append_operation_in, start_batch_operation,
  start_batch_operation_in, record_checkpoint, record_checkpoint_in, transition_batch,
  transition_batch_in, checkpoint_batch,
}
use safe_fs_ops.Journal.Recovery.{
  start_recovery, start_recovery_in, record_recovery_phase, record_recovery_phase_in,
  record_interrupted_recovery_desired, record_interrupted_recovery_desired_in,
}
use safe_fs_ops.Journal.Actions.{record_recovery_action, record_recovery_action_in}
use safe_fs_ops.Journal.Cleanup.{
  record_artifact_cleanup, record_artifact_cleanup_in, require_batch_for_artifact_cleanup_write,
}

module _ ⦃p : Platform⦄ where
  -- Under a lease record that is not current, a call of the journal whose required texts (the id of
  -- the batch, the type of the operation, the key, owner and run of the request) are not empty
  -- raises LeaseLostError and changes nothing: creating a batch, appending and starting an
  -- operation, moving the batch, and recovery that is started, recorded or asked for after an
  -- interruption.
  pub stale_writes :
      (id : String) (lease : LeaseRecord) (now : ℕ) (db : Database) (request : BatchRequest)
      (operation_type payload fresh fresh' : String)
      (batch_id operation_id recovery_id attempt key reason status_payload : Option String)
      (phase : BatchPhase)
      → id ≢ ""
      → operation_type ≢ ""
      → request.idempotency_key ≢ ""
      → request.owner ≢ ""
      → request.run_id ≢ ""
      → lease_is_current lease now db ≡ false
      → (create_batch request lease batch_id fresh now db ≡ (err lease_lost, db))
        × (append_operation id lease operation_type key payload operation_id fresh now db
            ≡ (err lease_lost, db))
        × (start_batch_operation id lease operation_type key payload operation_id fresh
              status_payload now db
            ≡ (err lease_lost, db))
        × (transition_batch id lease phase reason payload now db ≡ (err lease_lost, db))
        × (start_recovery id lease reason payload recovery_id fresh fresh' now db
            ≡ (err lease_lost, db))
        × (record_recovery_phase id lease phase attempt reason payload recovery_id fresh fresh' now
              db
            ≡ (err lease_lost, db))
        × (record_interrupted_recovery_desired id lease key reason payload recovery_id fresh now db
            ≡ (err lease_lost, db))
  unfolding create_batch create_batch_in append_operation append_operation_in start_batch_operation
      start_batch_operation_in transition_batch transition_batch_in start_recovery start_recovery_in
      record_recovery_phase record_recovery_phase_in record_interrupted_recovery_desired
      record_interrupted_recovery_desired_in require_batch_for_write
      require_batch_for_recovery_write require_current_lease transaction
  stale_writes id lease now db request operation_type payload fresh fresh' batch_id operation_id
        recovery_id attempt key reason status_payload phase named typed k1 k2 k3 lost =
      (
        ground arith,
        ground arith,
        ground arith,
        ground arith,
        ground arith,
        ground arith,
        ground arith,
      )

  -- Under a lease record that is not current, recording a checkpoint, a recovery action or an
  -- artifact cleanup whose required texts (the id of the batch, the resource key and the type of
  -- the checkpoint, the artifact, the recovery attempt) are not empty raises LeaseLostError and
  -- changes nothing.
  pub stale_records :
      (id : String) (lease : LeaseRecord) (now : ℕ) (db : Database)
      (key text artifact attempt payload fresh fresh' fresh'' : String)
      (operation_id checkpoint_id during action_type resource_key reason action_id
        record_id : Option String)
      (status : ActionStatus) (cleanup : CleanupStatus) (trigger : CleanupTrigger)
      → id ≢ ""
      → key ≢ ""
      → text ≢ ""
      → artifact ≢ ""
      → attempt ≢ ""
      → lease_is_current lease now db ≡ false
      → (record_checkpoint id lease key text payload operation_id checkpoint_id during fresh fresh'
            now db
          ≡ (err lease_lost, db))
        × (record_recovery_action id lease attempt status action_type resource_key reason payload
              action_id record_id fresh fresh' fresh'' now db
            ≡ (err lease_lost, db))
        × (record_artifact_cleanup id lease artifact cleanup trigger resource_key reason payload
              record_id fresh now db
            ≡ (err lease_lost, db))
  unfolding record_checkpoint record_checkpoint_in checkpoint_batch record_recovery_action
      record_recovery_action_in record_artifact_cleanup record_artifact_cleanup_in
      require_batch_for_write require_batch_for_recovery_action_write
      require_batch_for_artifact_cleanup_write require_current_lease transaction
  stale_records id lease now db key text artifact attempt payload fresh fresh' fresh'' operation_id
        checkpoint_id during action_type resource_key reason action_id record_id status cleanup
        trigger named keyed typed art att lost =
      (ground arith, ground arith, ground arith)
