-- ===== src/Journal/Frame/Batches.antt =====
-- The operations of Journal.Batch write the journal's tables only.
use safe_fs_ops.Prelude.{ℕ, String, Option, none, some}
use safe_fs_ops.Platform.{Platform}
use safe_fs_ops.Database.{BatchPhase, BatchRow, LeaseRecord}
use safe_fs_ops.Database.Keeps.{Keeps}
use safe_fs_ops.Journal.Frame.{
  others, statement_rules, Keeps-require_active_recovery_attempt, Keeps-require_current_lease,
  Keeps-require_batch_for_write, Keeps-require_batch_for_recovery_action_write,
}
use safe_fs_ops.Journal.Guards.{
  BatchRequest, require_batch_resource_key, require_valid_transition, require_appendable_phase,
  require_startable_batch, require_matching_idempotent_batch,
}
use safe_fs_ops.Journal.Batch.{
  require_phase_link, require_valid_batch_operation_links, replay_or_insert, create_batch_in,
  append_operation_in, rebind_planned, start_batch_operation_in, checkpoint_batch,
  require_checkpoint_operation, record_checkpoint_in, transition_batch_in,
}

Keeps-require_phase_link :
    (run : String) (phase : Option String) → Keeps others (require_phase_link run phase)
unfolding require_phase_link
Keeps-require_phase_link run none = search statement_rules depth 30 fits 4000
Keeps-require_phase_link run (some phase) = search statement_rules depth 30 fits 4000

Keeps-require_valid_batch_operation_links :
    (run_id owner : String) (run phase : Option String)
    → Keeps others (require_valid_batch_operation_links run_id owner run phase)
unfolding require_valid_batch_operation_links
Keeps-require_valid_batch_operation_links run_id owner none phase =
    search statement_rules depth 30 fits 4000
Keeps-require_valid_batch_operation_links run_id owner (some run) phase =
    search (statement_rules, Keeps-require_phase_link) depth 30 fits 4000

module _ ⦃p : Platform⦄ where
  Keeps-replay_or_insert :
      (request : BatchRequest) (lease : LeaseRecord) (id : String) (now : ℕ)
      (existing : Option BatchRow)
      → Keeps others (replay_or_insert request lease id now existing)
  unfolding replay_or_insert require_matching_idempotent_batch
  Keeps-replay_or_insert request lease id now none =
      search (statement_rules, Keeps-require_valid_batch_operation_links) depth 30 fits 4000
  Keeps-replay_or_insert request lease id now (some row) = search statement_rules depth 30 fits 4000

  pub Keeps-create_batch_in :
      (request : BatchRequest) (lease : LeaseRecord) (id : String) (now : ℕ)
      → Keeps others (create_batch_in request lease id now)
  unfolding create_batch_in
  Keeps-create_batch_in request lease id now =
      search (statement_rules, Keeps-require_current_lease, Keeps-replay_or_insert) depth 30 fits
        4000

  pub Keeps-append_operation_in :
      (id : String) (lease : LeaseRecord) (operation_type : String) (key : Option String)
      (payload operation_id : String) (now : ℕ)
      → Keeps others (append_operation_in id lease operation_type key payload operation_id now)
  unfolding append_operation_in require_batch_resource_key require_appendable_phase
  Keeps-append_operation_in id lease operation_type key payload operation_id now =
      search (statement_rules, Keeps-require_batch_for_write) depth 30 fits 4000

  pub Keeps-start_batch_operation_in :
      (id : String) (lease : LeaseRecord) (operation_type : String) (key : Option String)
      (payload operation_id : String) (status_payload : Option String) (now : ℕ)
      → Keeps others (
          start_batch_operation_in id lease operation_type key payload operation_id status_payload
            now)
  unfolding start_batch_operation_in require_startable_batch rebind_planned
  Keeps-start_batch_operation_in id lease operation_type key payload operation_id status_payload
        now =
      search (statement_rules, Keeps-require_current_lease) depth 30 fits 4000

  Keeps-checkpoint_batch :
      (id : String) (lease : LeaseRecord) (attempt : Option String) (fresh : String) (now : ℕ)
      → Keeps others (checkpoint_batch id lease attempt fresh now)
  unfolding checkpoint_batch require_appendable_phase
  Keeps-checkpoint_batch id lease none fresh now =
      search (statement_rules, Keeps-require_batch_for_write) depth 30 fits 4000
  Keeps-checkpoint_batch id lease (some attempt) fresh now =
      search
        (
          statement_rules, Keeps-require_batch_for_recovery_action_write,
          Keeps-require_active_recovery_attempt,
        )
        depth 30 fits 4000

  Keeps-require_checkpoint_operation :
      (id key : String) (operation : Option String)
      → Keeps others (require_checkpoint_operation id key operation)
  unfolding require_checkpoint_operation
  Keeps-require_checkpoint_operation id key none = search statement_rules depth 30 fits 4000
  Keeps-require_checkpoint_operation id key (some operation) =
      search statement_rules depth 30 fits 4000

  pub Keeps-record_checkpoint_in :
      (id : String) (lease : LeaseRecord) (key checkpoint_type payload : String)
      (operation_id : Option String) (checkpoint_id : String) (attempt : Option String)
      (fresh : String) (now : ℕ)
      → Keeps others (
          record_checkpoint_in id lease key checkpoint_type payload operation_id checkpoint_id
            attempt fresh now)
  unfolding record_checkpoint_in require_batch_resource_key
  Keeps-record_checkpoint_in id lease key checkpoint_type payload operation_id checkpoint_id attempt
        fresh now =
      search (statement_rules, Keeps-checkpoint_batch, Keeps-require_checkpoint_operation) depth 30
        fits 4000

  pub Keeps-transition_batch_in :
      (id : String) (lease : LeaseRecord) (phase : BatchPhase) (message : Option String)
      (status_payload : String) (now : ℕ)
      → Keeps others (transition_batch_in id lease phase message status_payload now)
  unfolding transition_batch_in require_valid_transition
  Keeps-transition_batch_in id lease phase message status_payload now =
      search (statement_rules, Keeps-require_batch_for_write) depth 30 fits 4000
