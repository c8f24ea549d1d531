-- ===== src/Platform.antt =====
-- What safe_fs_ops relies on outside its own code: the datetime module's text form of a UTC
-- instant, SQLite's order of TEXT values, and hashlib's sha256. Instants are microseconds.
-- workspace_state/leases.py and claims.py write `isoformat()` texts and compare them in SQL.
use safe_fs_ops.Prelude.{ℕ, String, Bool, ◌≡◌, Option, ltb, some}
use safe_fs_ops.Database.{BatchPhase}

-- The mappings that the journal serialises itself, by `_payload_to_json` of
-- operation_journal/journal_payloads.py; the payloads of callers come in as texts.
pub data JournalPayload : Type 0 where
  -- `None`, which is written as an empty object
  absent : JournalPayload
  -- {"operation_id": ...}
  started_operation : String → JournalPayload
  -- lease name, previous and current fencing token, current lease name, previous phase
  recovery_takeover : String → ℕ → String → ℕ → BatchPhase → JournalPayload

-- What `_lease_bound_claim_details` and `_claim_matches_lease_authority` of claims.py read of a
-- JSON object: the values under five keys, where they are texts, or an int.
pub record ClaimDetails : Type 0 where
  pub claim_id : Option String
  pub lease_name : Option String
  pub lease_owner : Option String
  pub lease_token_digest : Option String
  pub lease_fencing_token : Option ℕ

pub record Platform : Type 0 where
  -- `value.isoformat()` of an instant in UTC
  pub isoformat : ℕ → String
  -- `_parse_datetime`; `none` is ValueError
  pub parse_datetime : String → Option ℕ
  -- `a < b` on TEXT in SQLite's default collation
  pub text_lt : String → String → Bool
  -- `hashlib.sha256(text.encode("utf-8")).hexdigest()`
  pub sha256 : String → String
  -- `json.dumps(..., sort_keys=True, separators=(",", ":"))` on those mappings
  pub payload_json : JournalPayload → String
  -- `json.loads(text)`, if it is an object
  pub claim_details : String → Option ClaimDetails
  pub parse-isoformat : (t : ℕ) → parse_datetime (isoformat t) ≡ some t
  pub isoformat_order : (t u : ℕ) → text_lt (isoformat t) (isoformat u) ≡ ltb t u
