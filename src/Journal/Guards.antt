-- ===== src/Journal/Guards.antt =====
-- operation_journal/journal_guards.py: the checks that every journal write makes in its
-- transaction, and the handoff of a batch to a newer lease.
use safe_fs_ops.Prelude.{
  ℕ, String, Bool, true, false, not, ◌&&◌, ◌||◌, Option, none, some, ◌==◌, opt_eq, nat_eq, ltb,
  is_some,
}
use safe_fs_ops.Platform.{Platform, recovery_takeover}
use safe_fs_ops.Database.{
  BatchPhase, BatchRow, RecoveryRow, LeaseRecord, Error, batch_not_found, lease_mismatch,
  runtime_error, invalid_transition, attempt_mismatch, start_conflict, idempotency_mismatch, Tx,
  ◌>>=◌, ◌>>◌, pure, raise, raise_if, reads, branch,
}
use safe_fs_ops.Lease.{require_current_lease}
use safe_fs_ops.Journal.Phase.{
  valid_transition, is_planned, is_recovering, is_recovery_desired, is_recovery_work,
  is_requeueable, is_appendable, is_interruptible, is_markable,
}
use safe_fs_ops.Journal.Rows.{
  batch_row, next_sequence, batch_has_journal_records, recovery_row, latest_recovery_row,
  update_batch, insert_recovery,
}

-- The keyword arguments of `create_batch` that describe the batch.
pub record BatchRequest : Type 0 where
  pub idempotency_key : String
  pub owner : String
  pub run_id : String
  pub operation_run_id : Option String
  pub operation_phase_id : Option String
  pub resource_key : Option String
  pub claim_owner : Option String
  pub claim_scope : Option String
  pub payload : String

-- A row that must be there, and the exception if it is not.
unfoldable pub expect : {A : Type 0} → Error → Option A → Tx A
expect e none = raise e
expect e (some a) = pure a

-- `_require_batch_resource_key`: a batch that names a resource is written for that one only.
abbrev pub other_resource : BatchRow → Option String → Bool
other_resource row key = is_some row.resource_key && not (opt_eq key row.resource_key)

unfoldable pub require_batch_resource_key : BatchRow → Option String → Tx (Unit {0})
require_batch_resource_key row key = raise_if (other_resource row key) idempotency_mismatch

unfoldable pub require_valid_transition : BatchPhase → BatchPhase → Tx (Unit {0})
require_valid_transition now next = raise_if (not (valid_transition now next)) invalid_transition

unfoldable pub require_appendable_phase : BatchPhase → Tx (Unit {0})
require_appendable_phase phase = raise_if (not (is_appendable phase)) invalid_transition

unfoldable pub require_recovering_batch : BatchRow → Tx (Unit {0})
require_recovering_batch row = raise_if (not (is_recovering row.phase)) invalid_transition

-- `attempt` is `recovery_attempt_id`, where "" is as good as None.
unfoldable pub require_active_recovery_attempt : String → Option String → Tx RecoveryRow
unfolding expect
require_active_recovery_attempt id none = raise attempt_mismatch
require_active_recovery_attempt id (some attempt) = do
  raise_if (attempt == "") attempt_mismatch
  row ← reads (recovery_row attempt)
  attempt_row ← expect attempt_mismatch row
  raise_if (not (attempt_row.batch_id == id)) attempt_mismatch
  raise_if (not (is_recovering attempt_row.phase)) attempt_mismatch
  newest ← reads (latest_recovery_row id)
  latest_row ← expect attempt_mismatch newest
  raise_if (not (latest_row.recovery_id == attempt)) attempt_mismatch
  raise_if (not (is_recovering latest_row.phase)) attempt_mismatch
  pure attempt_row

module _ ⦃p : Platform⦄ where
  -- `lease_token_digest`
  abbrev pub token_digest : LeaseRecord → String
  token_digest lease = p.sha256 lease.token

  abbrev pub rebound : LeaseRecord → ℕ → BatchRow → BatchRow
  rebound lease now r = record r {
    lease_fencing_token = lease.fencing_token;
    lease_owner = some lease.owner;
    lease_token_digest = some (token_digest lease);
    updated_at = p.isoformat now;
  }

  unfoldable pub require_batch_for_write : String → LeaseRecord → ℕ → Tx BatchRow
  unfolding expect
  require_batch_for_write id lease now = do
    require_current_lease lease now
    found ← reads (batch_row id)
    row ← expect batch_not_found found
    raise_if
        (not (row.lease_name == lease.name && nat_eq row.lease_fencing_token lease.fencing_token))
        lease_mismatch
    pure row

  -- `fresh` is the uuid of the record that documents the takeover.
  unfoldable pub record_recovery_takeover_handoff :
      BatchRow → LeaseRecord → String → ℕ → Tx (Unit {0})
  record_recovery_takeover_handoff row lease fresh now = do
    sequence ← reads (next_sequence row.batch_id)
    update_batch row.batch_id (rebound lease now)
    insert_recovery (record {
      recovery_id = fresh;
      batch_id = row.batch_id;
      sequence = sequence;
      phase = BatchPhase.recovery_desired;
      reason = some "recovery takeover";
      payload = p.payload_json (
          recovery_takeover row.lease_name row.lease_fencing_token lease.name lease.fencing_token
            row.phase);
      created_at = p.isoformat now;
    })

  -- The handoff, and the row as it is then.
  unfoldable pub take_over_batch : String → BatchRow → LeaseRecord → String → ℕ → Tx BatchRow
  unfolding expect
  take_over_batch id row lease fresh now = do
    record_recovery_takeover_handoff row lease fresh now
    again ← reads (batch_row id)
    expect runtime_error again

  abbrev pub may_take_over : BatchPhase → BatchPhase → Bool
  may_take_over requested phase =
      is_recovery_work requested && is_recovery_desired phase
      || is_recovery_desired requested && is_requeueable phase

  -- The end of both recovery guards: the row to write to, and whether a takeover was recorded. A
  -- lease with a higher fencing token takes the batch over if `allowed`.
  unfoldable pub bind_or_take_over :
      Bool → String → BatchRow → LeaseRecord → String → ℕ → Tx (BatchRow × Bool)
  bind_or_take_over allowed id row lease fresh now =
      branch (nat_eq row.lease_fencing_token lease.fencing_token) (pure (row, false)) (do
        raise_if (not (ltb row.lease_fencing_token lease.fencing_token && allowed)) lease_mismatch
        updated ← take_over_batch id row lease fresh now
        pure (updated, true))

  unfoldable pub require_batch_for_recovery_write :
      String → LeaseRecord → BatchPhase → String → ℕ → Tx (BatchRow × Bool)
  unfolding expect
  require_batch_for_recovery_write id lease requested fresh now = do
    require_current_lease lease now
    found ← reads (batch_row id)
    row ← expect batch_not_found found
    raise_if (not (row.lease_name == lease.name)) lease_mismatch
    bind_or_take_over (may_take_over requested row.phase) id row lease fresh now

  unfoldable pub require_batch_for_recovery_action_write :
      String → LeaseRecord → String → ℕ → Tx BatchRow
  unfolding expect require_recovering_batch
  require_batch_for_recovery_action_write id lease fresh now = do
    require_current_lease lease now
    found ← reads (batch_row id)
    row ← expect batch_not_found found
    raise_if (not (row.lease_name == lease.name)) lease_mismatch
    require_recovering_batch row
    (written, _) ← bind_or_take_over true id row lease fresh now
    pure written

  unfoldable pub require_batch_for_recovery_attempt_check : String → LeaseRecord → ℕ → Tx BatchRow
  unfolding require_batch_for_write
  require_batch_for_recovery_attempt_check id lease now = do
    row ← require_batch_for_write id lease now
    raise_if (not (is_recovering row.phase)) attempt_mismatch
    pure row

  unfoldable pub require_startable_batch : BatchRow → LeaseRecord → Option String → Tx (Unit {0})
  require_startable_batch row lease key = do
    raise_if (not (is_planned row.phase)) start_conflict
    raise_if (not (row.lease_name == lease.name)) lease_mismatch
    raise_if (ltb lease.fencing_token row.lease_fencing_token) lease_mismatch
    raise_if (other_resource row key) idempotency_mismatch
    used ← reads (batch_has_journal_records row.batch_id)
    raise_if used start_conflict

  unfoldable pub require_recovery_takeover : BatchRow → LeaseRecord → Option String → Tx (Unit {0})
  require_recovery_takeover row lease key = do
    raise_if (not (is_interruptible row.phase)) invalid_transition
    raise_if (not (row.lease_name == lease.name)) lease_mismatch
    raise_if (not (ltb row.lease_fencing_token lease.fencing_token)) lease_mismatch
    raise_if (other_resource row key) idempotency_mismatch
    used ← reads (batch_has_journal_records row.batch_id)
    raise_if (is_planned row.phase && not used) invalid_transition

  unfoldable pub require_lease_lost_recovery_marker :
      BatchRow → LeaseRecord → Option String → Tx (Unit {0})
  require_lease_lost_recovery_marker row lease key = do
    raise_if
        (not (row.lease_name == lease.name && nat_eq row.lease_fencing_token lease.fencing_token))
        lease_mismatch
    raise_if (lease.token == "" || not (is_some row.lease_owner && is_some row.lease_token_digest))
        lease_mismatch
    raise_if
        (not (
          opt_eq row.lease_owner (some lease.owner)
          && opt_eq row.lease_token_digest (some (token_digest lease))))
        lease_mismatch
    raise_if (other_resource row key) idempotency_mismatch
    raise_if (not (is_markable row.phase)) invalid_transition

  unfoldable pub require_matching_idempotent_batch :
      BatchRow → LeaseRecord → BatchRequest → Tx (Unit {0})
  require_matching_idempotent_batch row lease requested = do
    raise_if (not (row.lease_name == lease.name)) idempotency_mismatch
    raise_if
        (not (
          row.owner == requested.owner
          && (row.run_id == requested.run_id
              && (opt_eq row.operation_run_id requested.operation_run_id
                  && (opt_eq row.operation_phase_id requested.operation_phase_id
                      && (opt_eq row.resource_key requested.resource_key
                          && (opt_eq row.claim_owner requested.claim_owner
                              && (opt_eq row.claim_scope requested.claim_scope
                                  && row.payload == requested.payload))))))))
        idempotency_mismatch
