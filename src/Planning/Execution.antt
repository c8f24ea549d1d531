-- ===== src/Planning/Execution.antt =====
-- From the plan to the restore: what recovery_runner.py passes to `restore_backup` for an action
-- that file_recovery_planning.py planned.
use safe_fs_ops.Prelude.{
  String, ◌≡◌, refl, true, false, some, List, ◌∷◌, arith, text_discrete, sym, ◌∙◌,
}
use safe_fs_ops.Json.{Json, boolean, object, Fields, no_fields, field, answer, get, find, Paths}
use safe_fs_ops.Planning.Files.{
  Checkpoint, RecoveryContext, ActionPlan, latest_checkpoint, latest_failure_payload, has_path,
  is_backup_payload, is_snapshot_payload, restore_payload, not_none, file_recovery_action_plans,
}
use safe_fs_ops.Planning.Outcomes.{file_recovery_action_plans_justified}
use safe_fs_ops.Planning.Safety.{Recorded}
use safe_fs_ops.Runner.Ensured.{
  Ensures, Ensures-returns, Ensures-bind, PathOf, Whole, file_backup_from_payload_path,
  file_backup_from_payload-Whole, file_backup_from_payload_same, resource_snapshot_from_payload_inv,
}
use safe_fs_ops.Runner.{
  returns, RestoreRequest, ResourceSnapshot, restore_request, file_backup_from_payload,
  resource_snapshot_from_payload, snapshot_from_mapping,
}

module _ ⦃p : Paths⦄ where
  restore_payload-fields :
      (path : String) (backup current : Fields)
      → (get "backup" (restore_payload path backup current) ≡ object backup)
        × (get "expected_current" (restore_payload path backup current) ≡ object current)
        × (get "allow_overwrite" (restore_payload path backup current) ≡ boolean false)
  unfolding get find text_discrete
  restore_payload-fields path backup current = (refl, refl, refl)

  backup_field :
      (backup : Fields) → get "backup" (field "backup" (object backup) no_fields) ≡ object backup
  unfolding get find text_discrete
  backup_field backup = refl

  is_snapshot_payload-has_path :
      (payload : Fields) (path : String)
      → is_snapshot_payload payload path ≡ answer true
      → has_path payload path ≡ true
  unfolding is_snapshot_payload
  is_snapshot_payload-has_path payload path e = ground arith

  is_backup_payload-has_path :
      (payload : Fields) (path : String)
      → is_backup_payload payload path ≡ answer true
      → has_path payload path ≡ true
  unfolding is_backup_payload
  is_backup_payload-has_path payload path e = ground arith

  -- What a payload that was planned for a restore is decoded to.
  abbrev Requests : Fields → Fields → RestoreRequest → Type 0
  Requests backup current r =
      (r.allow_overwrite ≡ false)
      × (file_backup_from_payload (field "backup" (object backup) no_fields) ≡ returns r.backup)
      × PathOf backup r.backup.path
      × Whole r.backup
      × ((s : ResourceSnapshot) × (r.expected_current ≡ some s)
          × (snapshot_from_mapping current ≡ returns s)
          × PathOf current s.path)

  restore_request_lem :
      (path : String) (backup current : Fields)
      → Ensures
          (λ r. Requests backup current r)
          (restore_request (restore_payload path backup current))
  unfolding restore_request
  restore_request_lem path backup current =
      let payload = restore_payload path backup current in
      let (b, c, o) = restore_payload-fields path backup current in
      let same =
        file_backup_from_payload_same (field "backup" (object backup) no_fields) payload
          (backup_field backup ∙ sym b) in
      rw c (
        rw o (
          Ensures-bind (file_backup_from_payload payload) _ (λ x e.
            Ensures-bind (resource_snapshot_from_payload (object current)) _ (λ y e'.
              Ensures-returns _ (
                refl,
                same ∙ e,
                (file_backup_from_payload_path payload backup b).at x e,
                (file_backup_from_payload-Whole payload).at x e,
                (resource_snapshot_from_payload_inv current).at y e',
              )))))

  -- When the runner decodes the payload of an action that was planned for a file, it asks for a
  -- restore without overwriting. What it restores is decoded from the latest backup checkpoint of
  -- the resource and the file of the batch, with content, hash, size and permissions if and only if
  -- the file existed; what it expects is decoded from a state recorded for the file; and both are
  -- of the file that the payload of the batch names.
  pub restore_request-file_recovery_action_plans :
      (context : RecoveryContext) (plan : ActionPlan) (rest : List ActionPlan)
      (request : RestoreRequest)
      → file_recovery_action_plans context ≡ answer (plan ∷ rest)
      → restore_request plan.payload ≡ returns request
      → (key : String) × (value : Json) × (context.resource_key ≡ some key)
        × (not_none (get "path" context.payload) ≡ some value)
        × (request.allow_overwrite ≡ false)
        × ((c : Checkpoint) × (latest_checkpoint "backup" key
                (p.path_of (p.str_of value))
                context.checkpoints
              ≡ some c)
            × (file_backup_from_payload (field "backup" (object c.payload) no_fields)
                ≡ returns request.backup)
            × (p.same_path request.backup.path (p.path_of (p.str_of value)) ≡ true)
            × Whole request.backup)
        × ((state : Fields) × (current : ResourceSnapshot) × (request.expected_current
              ≡ some current)
            × Recorded context.checkpoints key
                (p.path_of (p.str_of value))
                (latest_failure_payload context)
                state
            × (snapshot_from_mapping state ≡ returns current)
            × (p.same_path current.path (p.path_of (p.str_of value)) ≡ true))
  restore_request-file_recovery_action_plans context plan rest request planned decoded =
      let (_, _, _, (k, value, proof, key, there, restores, is)) =
        file_recovery_action_plans_justified context plan rest planned in
      let (c, state, stored, backup, snapshot, recorded, made) = restores in
      let path = p.path_of (p.str_of value) in
      let payload : plan.payload ≡ restore_payload path c.payload state = ground arith in
      let (forced, from, backup_path, whole, (s, expected, read, current_path)) =
        (restore_request_lem path c.payload state).at request (rw payload at decoded) in
      let backup_there = is_backup_payload-has_path c.payload path backup in
      let current_there = is_snapshot_payload-has_path state path snapshot in
      (
        k,
        value,
        key,
        there,
        forced,
        (c, stored, from, rw backup_path backup_there, whole),
        (state, s, expected, recorded, read, rw current_path current_there),
      )
