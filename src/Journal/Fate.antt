-- ===== src/Journal/Fate.antt =====
-- The fate of a batch over any sequence of journal calls.
use safe_fs_ops.Prelude.{ℕ, ◌<◌, ◌≤◌, String, ◌≡◌, refl, true, some, arith, ◌⊎◌, inl, ◌∙◌}
use safe_fs_ops.Platform.{Platform}
use safe_fs_ops.Database.{Database, BatchPhase, BatchRow}
use safe_fs_ops.Journal.Rows.{batch_row}
use safe_fs_ops.Journal.Lifecycle.{may_move, identity, Moves}
use safe_fs_ops.Journal.Steps.{Reach, here, next}
use safe_fs_ops.Journal.History.{batch_moves}

-- How far a batch has come. Recovery may go around; a batch that recovered is done.
unfoldable pub stage : BatchPhase → ℕ
stage BatchPhase.planned = 0
stage BatchPhase.attempting = 1
stage BatchPhase.succeeded = 2
stage BatchPhase.failed = 2
stage BatchPhase.recovery_desired = 3
stage BatchPhase.recovering = 3
stage BatchPhase.recovery_failed = 3
stage BatchPhase.recovery_succeeded = 4

-- Outside the cycle of recovery, a move goes strictly forward.
abbrev pub Forward : BatchPhase → BatchPhase → Type 0
Forward a b = (a ≡ b) ⊎ ((stage a < stage b) ⊎ ((stage a ≡ 3) × (stage b ≡ 3)))

may_move-Forward : (a b : BatchPhase) → may_move a b ≡ true → Forward a b
unfolding may_move stage
may_move-Forward BatchPhase.planned b e = ground arith
may_move-Forward BatchPhase.attempting b e = ground arith
may_move-Forward BatchPhase.succeeded b e = ground arith
may_move-Forward BatchPhase.failed b e = ground arith
may_move-Forward BatchPhase.recovery_desired b e = ground arith
may_move-Forward BatchPhase.recovering b e = ground arith
may_move-Forward BatchPhase.recovery_succeeded b e = ground arith
may_move-Forward BatchPhase.recovery_failed b e = ground arith

-- One move more.
pub Forward-Moves :
    (r r1 r2 : BatchRow) → Forward r.phase r1.phase → Moves r1 r2 → Forward r.phase r2.phase
unfolding stage
Forward-Moves r r1 r2 so_far (_, _, moves) = ground (arith, may_move-Forward r1.phase r2.phase)

module _ ⦃p : Platform⦄ where
  -- Over any sequence of journal calls a stored batch stays stored with the columns that identify
  -- it, its fencing token does not fall, and its phase is the same, a later stage's, or another
  -- one of the recovery cycle.
  pub batch_history :
      {db db' : Database} (k : String) (r : BatchRow)
      → Reach db db'
      → batch_row k db ≡ some r
      → (r' : BatchRow) × (batch_row k db' ≡ some r')
        × (identity r' ≡ identity r)
        × (r.lease_fencing_token ≤ r'.lease_fencing_token)
        × ((r.phase ≡ r'.phase)
            ⊎ ((stage r.phase < stage r'.phase) ⊎ ((stage r.phase ≡ 3) × (stage r'.phase ≡ 3))))
  batch_history k r here e = (r, e, refl, omega arith, inl refl)
  batch_history k r (next reach step) e =
      let (r1, e1, same, grows, so_far) = batch_history k r reach e in
      let (r2, e2, moved) = batch_moves k r1 step e1 in
      (r2, e2, moved.0 ∙ same, omega (arith, grows, moved.1), Forward-Moves r r1 r2 so_far moved)

  -- A batch whose recovery succeeded keeps that phase, whatever calls follow.
  pub recovery_succeeded_final :
      {db db' : Database} (k : String) (r : BatchRow)
      → Reach db db'
      → batch_row k db ≡ some r
      → r.phase ≡ BatchPhase.recovery_succeeded
      → (r' : BatchRow) × (batch_row k db' ≡ some r') × (r'.phase ≡ BatchPhase.recovery_succeeded)
  unfolding stage
  recovery_succeeded_final k r reach e done =
      let (r', e', _, _, fate) = batch_history k r reach e in (r', e', ground arith)
