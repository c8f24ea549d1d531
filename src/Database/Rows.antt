-- ===== src/Database/Rows.antt =====
-- The rows of the tables, column by column, and the records of workspace_state/models.py.
-- Columns with a fixed vocabulary are enumerations; instants are the texts of `isoformat()`.
use safe_fs_ops.Prelude.{ℕ, String, Option, Bool}

-- leases.py, _LEASE_SCHEMA
pub record LeaseRow : Type 0 where
  pub name : String
  pub owner : String
  pub token : String
  pub fencing_token : ℕ
  pub acquired_at : String
  pub heartbeat_at : String
  pub expires_at : String

pub record LeaseRecord : Type 0 where
  pub name : String
  pub owner : String
  pub token : String
  pub fencing_token : ℕ
  pub acquired_at : ℕ
  pub heartbeat_at : ℕ
  pub expires_at : ℕ
  pub acquired : Bool

-- claims.py, _CLAIM_SCHEMA
pub record ClaimRow : Type 0 where
  pub resource_key : String
  pub owner : String
  pub scope : Option String
  pub details : Option String
  pub created_at : String
  pub updated_at : String

pub record ClaimRecord : Type 0 where
  pub resource_key : String
  pub owner : String
  pub scope : Option String
  pub details : Option String
  pub created_at : ℕ
  pub updated_at : ℕ

pub data BatchPhase : Type 0 where
  planned attempting succeeded failed : BatchPhase
  recovery_desired recovering recovery_succeeded recovery_failed : BatchPhase

pub record BatchRow : Type 0 where
  pub batch_id : String
  pub idempotency_key : String
  pub lease_name : String
  pub lease_owner : Option String
  pub lease_fencing_token : ℕ
  pub lease_token_digest : Option String
  pub owner : String
  pub run_id : String
  pub operation_run_id : Option String
  pub operation_phase_id : Option String
  pub resource_key : Option String
  pub claim_owner : Option String
  pub claim_scope : Option String
  pub phase : BatchPhase
  pub payload : String
  pub status_message : Option String
  pub status_payload : String
  pub created_at : String
  pub updated_at : String

pub record OperationRunRow : Type 0 where
  pub operation_run_id : String
  pub run_id : String
  pub owner : String
  pub lease_name : String
  pub lease_fencing_token : ℕ
  pub status : String
  pub payload : String
  pub created_at : String
  pub updated_at : String

pub record OperationPhaseRow : Type 0 where
  pub operation_phase_id : String
  pub operation_run_id : String
  pub phase_name : String
  pub status : String
  pub phase_order : ℕ
  pub payload : String
  pub created_at : String
  pub updated_at : String

pub record OperationRow : Type 0 where
  pub operation_id : String
  pub batch_id : String
  pub sequence : ℕ
  pub operation_type : String
  pub resource_key : Option String
  pub payload : String
  pub created_at : String

pub record CheckpointRow : Type 0 where
  pub checkpoint_id : String
  pub batch_id : String
  pub sequence : ℕ
  pub operation_id : Option String
  pub resource_key : String
  pub checkpoint_type : String
  pub payload : String
  pub created_at : String

pub record RecoveryRow : Type 0 where
  pub recovery_id : String
  pub batch_id : String
  pub sequence : ℕ
  pub phase : BatchPhase
  pub reason : Option String
  pub payload : String
  pub created_at : String

-- models.py, RecoveryActionStatus
pub data ActionStatus : Type 0 where
  planned attempting succeeded failed skipped manual_intervention_required : ActionStatus

pub record RecoveryActionRow : Type 0 where
  pub action_record_id : String
  pub action_id : String
  pub recovery_attempt_id : String
  pub batch_id : String
  pub sequence : ℕ
  pub action_type : String
  pub status : ActionStatus
  pub resource_key : Option String
  pub reason : Option String
  pub payload : String
  pub created_at : String

-- models.py, ArtifactCleanupStatus
pub data CleanupStatus : Type 0 where
  planned attempting succeeded skipped failed manual_intervention_required : CleanupStatus

-- models.py, ArtifactCleanupTrigger; callers pass any text
pub data CleanupTrigger : Type 0 where
  deferred_cleanup commit_cleanup recovery_cleanup : CleanupTrigger
  unsupported : String → CleanupTrigger

pub record ArtifactCleanupRow : Type 0 where
  pub cleanup_record_id : String
  pub artifact_id : String
  pub batch_id : String
  pub sequence : ℕ
  pub trigger : CleanupTrigger
  pub status : CleanupStatus
  pub resource_key : Option String
  pub reason : Option String
  pub payload : String
  pub created_at : String
