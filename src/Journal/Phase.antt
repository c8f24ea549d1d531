-- ===== src/Journal/Phase.antt =====
-- BatchPhase and _VALID_TRANSITIONS of operation_journal/journal_schema.py.
use safe_fs_ops.Prelude.{Bool, true, false}
use safe_fs_ops.Database.{BatchPhase}

-- `next_phase in _VALID_TRANSITIONS[current_phase]`
unfoldable pub valid_transition : BatchPhase → BatchPhase → Bool
valid_transition BatchPhase.planned BatchPhase.attempting = true
valid_transition BatchPhase.attempting BatchPhase.succeeded = true
valid_transition BatchPhase.attempting BatchPhase.failed = true
valid_transition BatchPhase.failed BatchPhase.recovery_desired = true
valid_transition BatchPhase.recovery_desired BatchPhase.recovering = true
valid_transition BatchPhase.recovering BatchPhase.recovery_succeeded = true
valid_transition BatchPhase.recovering BatchPhase.recovery_failed = true
valid_transition BatchPhase.recovery_failed BatchPhase.recovery_desired = true
valid_transition _ _ = false

abbrev pub is_planned : BatchPhase → Bool
is_planned BatchPhase.planned = true
is_planned _ = false

abbrev pub is_succeeded : BatchPhase → Bool
is_succeeded BatchPhase.succeeded = true
is_succeeded _ = false

abbrev pub is_recovering : BatchPhase → Bool
is_recovering BatchPhase.recovering = true
is_recovering _ = false

abbrev pub is_recovery_desired : BatchPhase → Bool
is_recovery_desired BatchPhase.recovery_desired = true
is_recovery_desired _ = false

-- RECOVERING, RECOVERY_SUCCEEDED or RECOVERY_FAILED
abbrev pub is_recovery_work : BatchPhase → Bool
is_recovery_work BatchPhase.recovering = true
is_recovery_work BatchPhase.recovery_succeeded = true
is_recovery_work BatchPhase.recovery_failed = true
is_recovery_work _ = false

-- RECOVERY_SUCCEEDED or RECOVERY_FAILED
abbrev pub is_recovery_outcome : BatchPhase → Bool
is_recovery_outcome BatchPhase.recovery_succeeded = true
is_recovery_outcome BatchPhase.recovery_failed = true
is_recovery_outcome _ = false

-- FAILED, RECOVERING or RECOVERY_FAILED
abbrev pub is_requeueable : BatchPhase → Bool
is_requeueable BatchPhase.failed = true
is_requeueable BatchPhase.recovering = true
is_requeueable BatchPhase.recovery_failed = true
is_requeueable _ = false

-- PLANNED or ATTEMPTING
abbrev pub is_appendable : BatchPhase → Bool
is_appendable BatchPhase.planned = true
is_appendable BatchPhase.attempting = true
is_appendable _ = false

-- PLANNED, ATTEMPTING, FAILED or RECOVERY_FAILED
abbrev pub is_interruptible : BatchPhase → Bool
is_interruptible BatchPhase.planned = true
is_interruptible BatchPhase.attempting = true
is_interruptible BatchPhase.failed = true
is_interruptible BatchPhase.recovery_failed = true
is_interruptible _ = false

-- ATTEMPTING, FAILED or RECOVERY_FAILED
abbrev pub is_markable : BatchPhase → Bool
is_markable BatchPhase.attempting = true
is_markable BatchPhase.failed = true
is_markable BatchPhase.recovery_failed = true
is_markable _ = false

-- SUCCEEDED or RECOVERY_SUCCEEDED
abbrev pub is_complete : BatchPhase → Bool
is_complete BatchPhase.succeeded = true
is_complete BatchPhase.recovery_succeeded = true
is_complete _ = false
