-- ===== src/Journal/RunMoves.antt =====
-- What one call does to an operation run that is stored.
use safe_fs_ops.Prelude.{
  ℕ, String, ◌≡◌, refl, Bool, true, false, Option, some, [], ◌∷◌, ◌++◌, arith, ◌==◌, ◌&&◌, ◌||◌,
  or_else, text_discrete, if◌then◌else◌, ◌≢◌, differ, ◌⊎◌, inl, inr, Option-cases, Bool-cases,
}
use safe_fs_ops.Table.{update, insert}
use safe_fs_ops.Table.Keys.{has, select-update_key, select-append}
use safe_fs_ops.Platform.{Platform}
use safe_fs_ops.Database.{
  Database, OperationRunRow, LeaseRecord, value_error, ok, err, Tx, transaction, transaction_inv,
}
use safe_fs_ops.Database.Keeps.{Keeps, Keeps-call}
use safe_fs_ops.Journal.RunSteps.{
  Step, runs, phases, updates_run, updates_phase, diagnoses_run, diagnoses_phase,
}
use safe_fs_ops.Journal.Frame.Runs.{
  besides_phases, Keeps-create_operation_phase_in, Keeps-update_operation_phase_status_in,
  Keeps-phase_diagnostic_in,
}
use safe_fs_ops.Lease.{require_current_lease}
use safe_fs_ops.Journal.Guards.{expect}
use safe_fs_ops.Journal.Rows.{run_key, operation_run_row}
use safe_fs_ops.Journal.Runs.{
  create_operation_run, create_operation_phase, update_operation_run_status,
  update_operation_phase_status, record_operation_run_terminal_diagnostic,
  record_operation_phase_terminal_diagnostic, create_operation_phase_in,
  update_operation_phase_status_in, phase_diagnostic_in, given_run, require_matching_operation_run,
  RunRequest, require_operation_run_for_write, require_operation_run_for_terminal_diagnostic,
  insert_run, update_run, with_status, set_run_status, update_operation_run_status_in,
  run_diagnostic_in, replay_or_insert_run, create_operation_run_in, new_run, status_transition,
  diagnostic_transition,
}

-- The columns of a run that no call changes: the row with the other two blanked.
abbrev pub run_identity : OperationRunRow → OperationRunRow
run_identity r = record r { status = ""; updated_at = "" }

-- Whether a status can follow another one, by whatever calls.
unfoldable pub may_become : String → String → Bool
may_become a b =
    a == b
    || (a == "active" && (b == "succeeded" || (b == "failed" || b == "finalization_failed"))
        || a == "succeeded" && b == "finalization_failed")

may_become_same : (a : String) → may_become a a ≡ true
unfolding may_become
may_become_same a = ground arith

update_may_become : (a b : String) → status_transition a b ≡ true → may_become a b ≡ true
unfolding may_become status_transition
update_may_become a b e = ground arith

diagnostic_may_become : (a b : String) → diagnostic_transition a b ≡ true → may_become a b ≡ true
unfolding may_become diagnostic_transition
diagnostic_may_become a b e = ground arith

closed_statuses :
    (◌≢◌ {A = String} "succeeded" "active")
    × (◌≢◌ {A = String} "failed" "active")
    × (◌≢◌ {A = String} "finalization_failed" "active")
    × (◌≢◌ {A = String} "finalization_failed" "succeeded")
unfolding text_discrete
closed_statuses = (
  differ "succeeded" "active" refl,
  differ "failed" "active" refl,
  differ "finalization_failed" "active" refl,
  differ "finalization_failed" "succeeded" refl,
)

pub may_become_trans :
    (a b c : String) → may_become a b ≡ true → may_become b c ≡ true → may_become a c ≡ true
unfolding may_become
may_become_trans a b c e e' = ground (arith, closed_statuses)

-- The run `k` is still there, and has become another at most in its status.
abbrev pub RunMoved : String → OperationRunRow → Database → Type 0
RunMoved k r db =
    (r' : OperationRunRow) × (operation_run_row k db ≡ some r')
    × (run_identity r' ≡ run_identity r)
    × (may_become r.status r'.status ≡ true)

pub still-RunMoved :
    (k : String) (r : OperationRunRow) (db : Database)
    → operation_run_row k db ≡ some r
    → RunMoved k r db
still-RunMoved k r db e = (r, e, refl, may_become_same r.status)

call-RunMoved :
    {A : Type 0} (refuse : Bool) (body : Tx A) (k : String) (r : OperationRunRow) (db : Database)
    → operation_run_row k db ≡ some r
    → ((a : A) (db' : Database) → body db ≡ ok (a, db') → RunMoved k r db')
    → RunMoved k r (if refuse then (err value_error, db) else transaction body db).1
call-RunMoved true body k r db there moves = still-RunMoved k r db there
call-RunMoved false body k r db there moves = elim (transaction_inv body db) [
  | inl (a, db', done, is) ↦ rw is (moves a db' done)
  | inr (e, refused, is) ↦ rw is (still-RunMoved k r db there)
]

still_run :
    {A : Type 0} (refuse : Bool) (body : Tx A) (k : String) (r : OperationRunRow) (db : Database)
    → operation_run_row k db ≡ some r
    → Keeps besides_phases body
    → RunMoved k r (if refuse then (err value_error, db) else transaction body db).1
still_run refuse body k r db there keeps =
    let same = Keeps-call value_error refuse body db keeps in
    still-RunMoved k r (if refuse then (err value_error, db) else transaction body db).1
      (ground arith)

module _ ⦃p : Platform⦄ where
  set_run_status_inv :
      (allowed : Bool) (id status : String) (now : ℕ) (row : OperationRunRow) (db db' : Database)
      (a : OperationRunRow)
      → set_run_status allowed id status now row db ≡ ok (a, db')
      → (allowed ≡ true)
        × ((db' ≡ db)
            ⊎ (db' ≡ record db { runs = update (has run_key id) (with_status status now) db.runs }))
  unfolding set_run_status update_run expect
  set_run_status_inv allowed id status now row db db' a e =
      elim (Bool-cases (row.status == status)) [
        | inl t ↦ (ground arith, inl (ground arith))
        | inr f ↦ (
          ground arith,
          inr (
              ground (
                arith,
                Option-cases (
                    operation_run_row id (record db {
                      runs = update (has run_key id) (with_status status now) db.runs;
                    })),
              )),
        )
      ]

  update_operation_run_status_in_inv :
      (id : String) (lease : LeaseRecord) (status : String) (now : ℕ) (db db' : Database)
      (a : OperationRunRow)
      → update_operation_run_status_in id lease status now db ≡ ok (a, db')
      → (row : OperationRunRow) × (operation_run_row id db ≡ some row)
        × (set_run_status (status_transition row.status status) id status now row db ≡ ok (a, db'))
  unfolding update_operation_run_status_in require_operation_run_for_write require_current_lease
      expect
  update_operation_run_status_in_inv id lease status now db db' a e =
      elim (Option-cases (operation_run_row id db)) [
        | inl gone ↦ absurd (ground arith)
        | inr (row, there) ↦ (row, there, ground arith)
      ]

  run_diagnostic_in_inv :
      (id : String) (lease : LeaseRecord) (status : String) (now : ℕ) (db db' : Database)
      (a : OperationRunRow)
      → run_diagnostic_in id lease status now db ≡ ok (a, db')
      → (row : OperationRunRow) × (operation_run_row id db ≡ some row)
        × (set_run_status (diagnostic_transition row.status status) id status now row db
            ≡ ok (a, db'))
  unfolding run_diagnostic_in require_operation_run_for_terminal_diagnostic require_current_lease
      expect
  run_diagnostic_in_inv id lease status now db db' a e =
      elim (Option-cases (operation_run_row id db)) [
        | inl gone ↦ absurd (ground arith)
        | inr (row, there) ↦ (row, there, ground arith)
      ]

  -- The status of the run `k` follows one edge at most, and nothing else of it changes.
  set_run_status-Moved :
      (allowed : Bool) (id status : String) (now : ℕ) (row : OperationRunRow) (db db' : Database)
      (a : OperationRunRow) (k : String) (r : OperationRunRow)
      → operation_run_row id db ≡ some row
      → (allowed ≡ true → may_become row.status status ≡ true)
      → set_run_status allowed id status now row db ≡ ok (a, db')
      → operation_run_row k db ≡ some r
      → RunMoved k r db'
  set_run_status-Moved allowed id status now row db db' a k r here may e there =
      let (may_do, how) = set_run_status_inv allowed id status now row db db' a e in
      let stored = select-update_key run_key (with_status status now) (λ x. refl) id k db.runs in
      elim how [
        | inl same ↦ rw same (still-RunMoved k r db there)
        | inr is ↦ rw is (elim (Bool-cases (id == k)) [
          | inl eq ↦
              let one : row ≡ r = ground arith in
              (with_status status now r, ground (arith, stored), refl, ground (arith, may may_do))
          | inr ne ↦ (r, ground (arith, stored), refl, may_become_same r.status)
        ])
      ]

  create_operation_run_in_inv :
      (request : RunRequest) (lease : LeaseRecord) (given : Option String) (fresh : String)
      (now : ℕ) (db db' : Database) (a : OperationRunRow)
      → create_operation_run_in request lease given fresh now db ≡ ok (a, db')
      → (db' ≡ db)
        ⊎ (db'
            ≡ record db { runs = db.runs ++ new_run request lease (or_else given fresh) now ∷ [] })
  unfolding create_operation_run_in replay_or_insert_run require_current_lease insert_run insert
      expect require_matching_operation_run
  create_operation_run_in_inv request lease given fresh now db db' a e =
      elim (Option-cases (given_run given db)) [
        | inl new ↦ inr (ground arith)
        | inr (row, there) ↦ inl (ground arith)
      ]

  -- What one call on runs or phases does to a stored run.
  pub run_moves :
      {db db' : Database} (k : String) (r : OperationRunRow)
      → Step db db'
      → operation_run_row k db ≡ some r
      → RunMoved k r db'
  unfolding create_operation_run create_operation_phase update_operation_run_status
      update_operation_phase_status record_operation_run_terminal_diagnostic
      record_operation_phase_terminal_diagnostic
  run_moves {db} k r (runs request lease given fresh now) there =
      call-RunMoved _ (create_operation_run_in request lease given fresh now) k r db there
        (λ a db' e. elim (create_operation_run_in_inv request lease given fresh now db db' a e) [
          | inl same ↦ rw same (still-RunMoved k r db there)
          | inr is ↦ rw is (
            r,
            ground (
              arith,
              select-append run_key (new_run request lease (or_else given fresh) now) k db.runs,
            ),
            refl,
            may_become_same r.status,
          )
        ])
  run_moves {db} k r (phases run request lease given fresh now) there =
      still_run _ (create_operation_phase_in run request lease given fresh now) k r db there
        (Keeps-create_operation_phase_in run request lease given fresh now)
  run_moves {db} k r (updates_run id lease status now) there =
      call-RunMoved _ (update_operation_run_status_in id lease status now) k r db there (λ a db' e.
        let (row, here, set) = update_operation_run_status_in_inv id lease status now db db' a e in
        set_run_status-Moved (status_transition row.status status) id status now row db db' a k r
          here (update_may_become row.status status) set there)
  run_moves {db} k r (updates_phase id lease status now) there =
      still_run _ (update_operation_phase_status_in id lease status now) k r db there
        (Keeps-update_operation_phase_status_in id lease status now)
  run_moves {db} k r (diagnoses_run id lease status now) there =
      call-RunMoved _ (run_diagnostic_in id lease status now) k r db there (λ a db' e.
        let (row, here, set) = run_diagnostic_in_inv id lease status now db db' a e in
        set_run_status-Moved (diagnostic_transition row.status status) id status now row db db' a k
          r here (diagnostic_may_become row.status status) set there)
  run_moves {db} k r (diagnoses_phase id lease status now) there =
      still_run _ (phase_diagnostic_in id lease status now) k r db there
        (Keeps-phase_diagnostic_in id lease status now)
