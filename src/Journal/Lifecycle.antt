-- ===== src/Journal/Lifecycle.antt =====
-- The life of a batch under the operations of the journal: the phases it goes through, the columns
-- that never change, and its fencing token.
use safe_fs_ops.Prelude.{
  ◌≤◌, String, ◌≡◌, refl, Bool, true, false, ◌||◌, none, some, List, arith, ◌==◌, Bool-cases, ◌⊎◌,
  inl, inr, sym,
}
use safe_fs_ops.Table.{select, update}
use safe_fs_ops.Table.Keys.{has, select-update_key}
use safe_fs_ops.Database.{BatchPhase, BatchRow}
use safe_fs_ops.Journal.Phase.{
  valid_transition, is_recovering, is_succeeded, is_interruptible, is_markable,
}
use safe_fs_ops.Journal.Rows.{batch_key}

-- The edges of a batch's life: those of _VALID_TRANSITIONS, and those to RECOVERY_DESIRED for an
-- interrupted batch, a taken-over attempt and a success that is to be undone.
unfoldable pub may_move : BatchPhase → BatchPhase → Bool
may_move BatchPhase.planned BatchPhase.attempting = true
may_move BatchPhase.planned BatchPhase.recovery_desired = true
may_move BatchPhase.attempting BatchPhase.succeeded = true
may_move BatchPhase.attempting BatchPhase.failed = true
may_move BatchPhase.attempting BatchPhase.recovery_desired = true
may_move BatchPhase.succeeded BatchPhase.recovery_desired = true
may_move BatchPhase.failed BatchPhase.recovery_desired = true
may_move BatchPhase.recovery_desired BatchPhase.recovering = true
may_move BatchPhase.recovering BatchPhase.recovery_succeeded = true
may_move BatchPhase.recovering BatchPhase.recovery_failed = true
may_move BatchPhase.recovering BatchPhase.recovery_desired = true
may_move BatchPhase.recovery_failed BatchPhase.recovery_desired = true
may_move _ _ = false

pub valid_may_move : (a b : BatchPhase) → valid_transition a b ≡ true → may_move a b ≡ true
unfolding valid_transition may_move
valid_may_move BatchPhase.planned b e = ground arith
valid_may_move BatchPhase.attempting b e = ground arith
valid_may_move BatchPhase.succeeded b e = ground arith
valid_may_move BatchPhase.failed b e = ground arith
valid_may_move BatchPhase.recovery_desired b e = ground arith
valid_may_move BatchPhase.recovering b e = ground arith
valid_may_move BatchPhase.recovery_succeeded b e = ground arith
valid_may_move BatchPhase.recovery_failed b e = ground arith

pub desired_may_move :
    (a : BatchPhase)
    → (is_recovering a || (is_succeeded a || (is_interruptible a || is_markable a))) ≡ true
    → may_move a BatchPhase.recovery_desired ≡ true
unfolding may_move
desired_may_move a e = ground arith

-- The columns that no operation changes: the row with the others blanked.
abbrev pub identity : BatchRow → BatchRow
identity r = record r {
  lease_owner = none;
  lease_fencing_token = 0;
  lease_token_digest = none;
  phase = BatchPhase.planned;
  status_message = none;
  status_payload = "";
  updated_at = "";
}

-- One operation, as a batch sees it.
abbrev pub Moves : BatchRow → BatchRow → Type 0
Moves r r' =
    (identity r' ≡ identity r)
    × (r.lease_fencing_token ≤ r'.lease_fencing_token)
    × ((r'.phase ≡ r.phase) ⊎ (may_move r.phase r'.phase ≡ true))

-- The batch `k` is still there, and has moved from `r` by at most one edge.
abbrev pub Moved : String → BatchRow → List BatchRow → Type 0
Moved k r rows = (r' : BatchRow) × (select (has batch_key k) rows ≡ some r') × Moves r r'

pub still-Moved :
    (k : String) (r : BatchRow) (rows : List BatchRow)
    → select (has batch_key k) rows ≡ some r
    → Moved k r rows
still-Moved k r rows e = (r, e, (refl, omega arith, inl refl))

-- An UPDATE of the batch `id`.
pub update-Moved :
    (f : BatchRow → BatchRow) (id k : String) (stored r : BatchRow) (rows : List BatchRow)
    → ((x : BatchRow) → (f x).batch_id ≡ x.batch_id)
    → select (has batch_key id) rows ≡ some stored
    → Moves stored (f stored)
    → select (has batch_key k) rows ≡ some r
    → Moved k r (update (has batch_key id) f rows)
update-Moved f id k stored r rows keeps here moves there = elim (Bool-cases (id == k)) [
  | inl same ↦
      let is : stored ≡ r = ground arith in
      (f r, ground (arith, select-update_key batch_key f keeps id k rows), rw (sym is) moves)
  | inr other ↦ (
    r,
    ground (arith, select-update_key batch_key f keeps id k rows),
    (refl, omega arith, inl refl),
  )
]

-- After a statement that only rebinds the batch.
pub rebound-Moved :
    (f : BatchRow → BatchRow) (id k : String) (stored r : BatchRow) (rows : List BatchRow)
    → ((x : BatchRow) → (f x).batch_id ≡ x.batch_id)
    → ((x : BatchRow) → (identity (f x) ≡ identity x) × ((f x).phase ≡ x.phase))
    → select (has batch_key id) rows ≡ some stored
    → stored.lease_fencing_token ≤ (f stored).lease_fencing_token
    → (g : BatchRow → BatchRow) → ((x : BatchRow) → (g x).batch_id ≡ x.batch_id)
    → Moves (f stored) (g (f stored))
    → select (has batch_key k) rows ≡ some r
    → Moved k r (update (has batch_key id) g (update (has batch_key id) f rows))
rebound-Moved f id k stored r rows keeps same here grows g keeps' moves there =
    let now : select (has batch_key id) (update (has batch_key id) f rows) ≡ some (f stored) =
      ground (arith, select-update_key batch_key f keeps id id rows) in
    elim (Bool-cases (id == k)) [
      | inl eq ↦
          let is : stored ≡ r = ground arith in
          (
            g (f r),
            ground (
              arith,
              select-update_key batch_key f keeps id k rows,
              select-update_key batch_key g keeps' id k (update (has batch_key id) f rows),
            ),
            rw (sym is) (ground (arith, same stored)),
          )
      | inr other ↦ (
        r,
        ground (
          arith,
          select-update_key batch_key f keeps id k rows,
          select-update_key batch_key g keeps' id k (update (has batch_key id) f rows),
        ),
        (refl, omega arith, inl refl),
      )
    ]
