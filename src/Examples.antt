-- ===== src/Examples.antt =====
-- A concrete platform and a concrete workspace, at which the theorems are applied.
mod Leases
mod Claims
mod Batches
mod Runs
mod Systems
mod Schemas
mod Plans
mod Restores
mod Heartbeats
use safe_fs_ops.Prelude.{
  ℕ, zero, suc, ◌<◌, ◌≤◌, String, Bool, true, false, Option, none, some, List, [], ◌∷◌, ◌≡◌, ◌≢◌,
  refl, arith, ltb, ◌==◌, text_discrete, ◌⊎◌, or_else,
}
use Prim.Native.String.{count, ◌∷◌ as text_cons}
use text.Mathlib.TextLemmas.{length-nil, length-cons}
use safe_fs_ops.Platform.{Platform, JournalPayload, absent, started_operation, recovery_takeover}
use safe_fs_ops.Database.{Database, LeaseRow, LeaseRecord, BatchPhase, BatchRow}
use safe_fs_ops.Lease.{lease_is_current, lease_row}
use safe_fs_ops.Lease.Rows.{IsValid}
use safe_fs_ops.Table.{select}
use safe_fs_ops.Journal.Guards.{BatchRequest}
use safe_fs_ops.Journal.Batch.{new_batch}

-- An instant as so many marks.
abbrev pub marks : ℕ → String
marks zero = ""
marks (suc t) = text_cons "i" (marks t)

pub count-marks : (t : ℕ) → count (marks t) ≡ t
count-marks zero = length-nil
count-marks (suc t) = rw (length-cons "i" (marks t)) (ground (arith, count-marks t))

abbrev payload_name : JournalPayload → String
payload_name absent = "{}"
payload_name (started_operation id) = id
payload_name (recovery_takeover _ _ _ _ _) = "takeover"

instance abbrev pub demo : Platform
demo = record {
  isoformat = marks;
  parse_datetime = λ text. some (count text);
  text_lt = λ s t. ltb (count s) (count t);
  sha256 = λ s. s;
  payload_json = payload_name;
  claim_details = λ text. none;
  parse-isoformat = λ t. rw (count-marks t) refl;
  isoformat_order = λ t u. rw (count-marks t) (rw (count-marks u) refl);
}

abbrev pub stored : LeaseRow
stored = record {
  name = "work";
  owner = "ann";
  token = "t1";
  fencing_token = 1;
  acquired_at = marks 0;
  heartbeat_at = marks 0;
  expires_at = marks 9;
}

abbrev pub held : LeaseRecord
held = record {
  name = "work";
  owner = "ann";
  token = "t1";
  fencing_token = 1;
  acquired_at = 0;
  heartbeat_at = 0;
  expires_at = 9;
  acquired = true;
}

abbrev pub request : BatchRequest
request = record {
  idempotency_key = "key";
  owner = "ann";
  run_id = "run";
  operation_run_id = none;
  operation_phase_id = none;
  resource_key = none;
  claim_owner = none;
  claim_scope = none;
  payload = "{}";
}

abbrev pub workspace : List BatchRow → Database
workspace rows = record {
  leases = stored ∷ [];
  claims = [];
  batches = rows;
  runs = [];
  phases = [];
  operations = [];
  checkpoints = [];
  recoveries = [];
  actions = [];
  cleanups = [];
}

abbrev pub batch : BatchPhase → BatchRow
batch phase = record {
  batch_id = "b1";
  idempotency_key = "key";
  lease_name = "work";
  lease_owner = some "ann";
  lease_fencing_token = 1;
  lease_token_digest = some "t1";
  owner = "ann";
  run_id = "run";
  operation_run_id = none;
  operation_phase_id = none;
  resource_key = none;
  claim_owner = none;
  claim_scope = none;
  phase = phase;
  payload = "{}";
  status_message = none;
  status_payload = "{}";
  created_at = marks 1;
  updated_at = marks 1;
}

pub leases-IsValid : IsValid (stored ∷ [])
unfolding text_discrete select
leases-IsValid = record { unique = (refl, tt); stamped = ((0, 0, 9, refl, refl, refl), tt) }

pub held_current : (rows : List BatchRow) → lease_is_current held 5 (workspace rows) ≡ true
unfolding lease_is_current text_discrete select
held_current rows = refl

pub held_expired : (rows : List BatchRow) → lease_is_current held 9 (workspace rows) ≡ false
unfolding lease_is_current text_discrete select
held_expired rows = refl
