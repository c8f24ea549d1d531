-- ===== src/Database/Errors.antt =====
-- The exception classes that the stores raise: workspace_state/leases.py and claims.py,
-- operation_journal/journal_errors.py, and Python's ValueError, RuntimeError and
-- sqlite3.IntegrityError.
use safe_fs_ops.Database.Rows.{ClaimRecord}

pub data Error : Type 0 where
  value_error runtime_error integrity_error : Error
  lease_lost : Error
  claim_conflict : ClaimRecord → Error
  batch_not_found invalid_transition lease_mismatch idempotency_mismatch : Error
  attempt_mismatch recovery_context start_conflict : Error

pub data Result {ℓ} (A : Type ℓ) : Type ℓ where
  ok : A → Result A
  err : Error → Result A
