-- ===== src/Examples/Batches.antt =====
-- The theorems on the journal at a workspace with one batch, under the lease of the example.
use safe_fs_ops.Prelude.{
  false, true, none, some, [], ◌∷◌, ◌++◌, ◌≡◌, refl, text_discrete, or_else, differ,
}
use safe_fs_ops.Table.{select, insert, latest}
use safe_fs_ops.Database.{
  Database, BatchPhase, BatchRow, RecoveryRow, ActionStatus, CleanupStatus, CleanupTrigger,
  transaction, ok, err, lease_lost, invalid_transition,
}
use safe_fs_ops.Lease.{lease_is_current, require_current_lease}
use safe_fs_ops.Journal.Phase.{valid_transition}
use safe_fs_ops.Journal.Rows.{batch_row, next_sequence, insert_batch, batch_row_by_idempotency_key}
use safe_fs_ops.Journal.Guards.{
  expect, bind_or_take_over, require_recovering_batch, require_batch_for_recovery_action_write,
  require_active_recovery_attempt,
}
use safe_fs_ops.Journal.Batch.{
  create_batch_in, replay_or_insert, new_batch, require_valid_batch_operation_links, create_batch,
  append_operation, start_batch_operation, record_checkpoint, transition_batch, new_operation,
}
use safe_fs_ops.Journal.Recovery.{
  start_recovery, record_recovery_phase, record_interrupted_recovery_desired,
}
use safe_fs_ops.Journal.Actions.{record_recovery_action}
use safe_fs_ops.Journal.Cleanup.{record_artifact_cleanup}
use safe_fs_ops.Journal.Steps.{here, next, transitions}
use safe_fs_ops.Journal.Fate.{recovery_succeeded_final}
use safe_fs_ops.Journal.Stale.{stale_writes, stale_records}
use safe_fs_ops.Journal.Attempt.{recovery_action_write_bound}
use safe_fs_ops.Journal.Promises.{transition_batch_lem, append_operation_lem}
use safe_fs_ops.Journal.Retry.{create_batch_idempotent}
use safe_fs_ops.Examples.{demo, held, workspace, marks, batch, request, held_current, held_expired}

abbrev with_batch : BatchPhase → Database
with_batch phase = workspace (batch phase ∷ [])

batch_stored : (phase : BatchPhase) → batch_row "b1" (with_batch phase) ≡ some (batch phase)
unfolding text_discrete select
batch_stored phase = refl

abbrev planned_db : Database
planned_db = with_batch BatchPhase.planned

abbrev recovered_db : Database
recovered_db = with_batch BatchPhase.recovery_succeeded

recovery_succeeded_final_example :
    (r' : BatchRow) × (batch_row "b1"
        (transition_batch "b1" held BatchPhase.planned none "{}" 5 recovered_db).1
      ≡ some r')
    × (r'.phase ≡ BatchPhase.recovery_succeeded)
recovery_succeeded_final_example =
    recovery_succeeded_final "b1" (batch BatchPhase.recovery_succeeded)
      (next here (transitions "b1" held BatchPhase.planned none "{}" 5))
      (batch_stored BatchPhase.recovery_succeeded) refl

stale_writes_example :
    (create_batch request held none "b2" 9 planned_db ≡ (err lease_lost, planned_db))
    × (append_operation "b1" held "write" (some "f1") "{}" (some "o1") "b2" 9 planned_db
        ≡ (err lease_lost, planned_db))
    × (start_batch_operation "b1" held "write" (some "f1") "{}" (some "o1") "b2" none 9 planned_db
        ≡ (err lease_lost, planned_db))
    × (transition_batch "b1" held BatchPhase.failed (some "why") "{}" 9 planned_db
        ≡ (err lease_lost, planned_db))
    × (start_recovery "b1" held (some "why") "{}" (some "r1") "b2" "b3" 9 planned_db
        ≡ (err lease_lost, planned_db))
    × (record_recovery_phase "b1" held BatchPhase.failed
          (some "a1")
          (some "why")
          "{}"
          (some "r1")
          "b2"
          "b3"
          9
          planned_db
        ≡ (err lease_lost, planned_db))
    × (record_interrupted_recovery_desired "b1" held
          (some "f1")
          (some "why")
          "{}"
          (some "r1")
          "b2"
          9
          planned_db
        ≡ (err lease_lost, planned_db))
unfolding text_discrete
stale_writes_example =
    stale_writes "b1" held 9 planned_db request "write" "{}" "b2" "b3" none (some "o1") (some "r1")
      (some "a1") (some "f1") (some "why") none BatchPhase.failed (differ "b1" "" refl)
      (differ "write" "" refl) (differ "key" "" refl) (differ "ann" "" refl) (differ "run" "" refl)
      (held_expired (batch BatchPhase.planned ∷ []))

stale_records_example :
    (record_checkpoint "b1" held "k" "made" "{}" none none none "b2" "b3" 9 planned_db
      ≡ (err lease_lost, planned_db))
    × (record_recovery_action "b1" held "a1" ActionStatus.planned
          (some "restore")
          (some "f1")
          none
          "{}"
          (some "n1")
          none
          "b2"
          "b3"
          "b4"
          9
          planned_db
        ≡ (err lease_lost, planned_db))
    × (record_artifact_cleanup "b1" held "f" CleanupStatus.planned CleanupTrigger.commit_cleanup
          (some "f1")
          none
          "{}"
          none
          "b2"
          9
          planned_db
        ≡ (err lease_lost, planned_db))
unfolding text_discrete
stale_records_example =
    stale_records "b1" held 9 planned_db "k" "made" "f" "a1" "{}" "b2" "b3" "b4" none none none
      (some "restore") (some "f1") none (some "n1") none ActionStatus.planned CleanupStatus.planned
      CleanupTrigger.commit_cleanup (differ "b1" "" refl) (differ "k" "" refl)
      (differ "made" "" refl) (differ "f" "" refl) (differ "a1" "" refl)
      (held_expired (batch BatchPhase.planned ∷ []))

abbrev attempting_db : Database
attempting_db = with_batch BatchPhase.attempting

transition_batch_lem_example :
    let (answer, db') =
      transition_batch "b1" held BatchPhase.succeeded (some "done") "{}" 5 attempting_db in
    (valid_transition BatchPhase.attempting BatchPhase.succeeded ≡ true
      → (after : BatchRow) × (after ≡ record (batch BatchPhase.attempting) {
        phase = BatchPhase.succeeded;
        status_message = some "done";
        status_payload = "{}";
        updated_at = marks 5;
      })
        × (answer ≡ ok after)
        × (batch_row "b1" db' ≡ some after)
        × (batch_row "b2" db' ≡ batch_row "b2" attempting_db)
        × (record db' { batches = [] } ≡ record attempting_db { batches = [] }))
    × (valid_transition BatchPhase.attempting BatchPhase.succeeded ≡ false
        → (answer ≡ err invalid_transition) × (db' ≡ attempting_db))
unfolding text_discrete
transition_batch_lem_example =
    transition_batch_lem "b1" held BatchPhase.succeeded (some "done") "{}" 5 attempting_db
      (batch BatchPhase.attempting) "b2" (differ "b1" "" refl) (differ "b2" "b1" refl)
      (held_current (batch BatchPhase.attempting ∷ [])) (batch_stored BatchPhase.attempting) refl
      refl

append_operation_lem_example :
    append_operation "b1" held "write" none "{}" none "o1" 5 planned_db ≡ (
      ok (
          new_operation
            (or_else none "o1")
            "b1"
            (next_sequence "b1" planned_db)
            "write"
            none
            "{}"
            5),
      record planned_db {
        operations =
            []
            ++ new_operation
                (or_else none "o1")
                "b1"
                (next_sequence "b1" planned_db)
                "write"
                none
                "{}"
                5
              ∷ [];
      },
    )
unfolding select text_discrete
append_operation_lem_example =
    append_operation_lem "b1" held "write" none "{}" none "o1" 5 planned_db
      (batch BatchPhase.planned) (differ "b1" "" refl) (differ "write" "" refl)
      (held_current (batch BatchPhase.planned ∷ [])) (batch_stored BatchPhase.planned) refl refl
      refl refl refl

created :
    create_batch request held (some "b1") "b2" 1 (workspace [])
    ≡ (ok (batch BatchPhase.planned), planned_db)
unfolding create_batch create_batch_in replay_or_insert new_batch
    require_valid_batch_operation_links require_current_lease lease_is_current insert_batch insert
    batch_row_by_idempotency_key expect transaction select text_discrete
created = refl

create_batch_idempotent_example :
    create_batch request held none "b3" 5 planned_db ≡ (ok (batch BatchPhase.planned), planned_db)
create_batch_idempotent_example =
    create_batch_idempotent request held (some "b1") none "b2" "b3" 1 5 (workspace []) planned_db
      (batch BatchPhase.planned) created (held_current (batch BatchPhase.planned ∷ []))

abbrev attempt : RecoveryRow
attempt = record {
  recovery_id = "a1";
  batch_id = "b1";
  sequence = 1;
  phase = BatchPhase.recovering;
  reason = none;
  payload = "{}";
  created_at = marks 2;
}

abbrev recovering_db : Database
recovering_db = record (with_batch BatchPhase.recovering) { recoveries = attempt ∷ [] }

bound_write :
    require_batch_for_recovery_action_write "b1" held "f1" 5 recovering_db
    ≡ ok (batch BatchPhase.recovering, recovering_db)
unfolding require_batch_for_recovery_action_write bind_or_take_over require_recovering_batch
    require_current_lease lease_is_current expect select text_discrete
bound_write = refl

attempt_active :
    require_active_recovery_attempt "b1" (some "a1") recovering_db ≡ ok (attempt, recovering_db)
unfolding require_active_recovery_attempt expect select latest text_discrete
attempt_active = refl

recovery_action_write_bound_example :
    (recovering_db ≡ recovering_db)
    × (recovering_db ≡ recovering_db)
    × (lease_is_current held 5 recovering_db ≡ true)
    × (batch_row "b1" recovering_db ≡ some (batch BatchPhase.recovering))
    × (1 ≡ held.fencing_token)
    × ("work" ≡ held.name)
    × (true ≡ true)
recovery_action_write_bound_example =
    recovery_action_write_bound "b1" "a1" held "f1" 5 recovering_db recovering_db recovering_db
      (batch BatchPhase.recovering) attempt bound_write attempt_active
