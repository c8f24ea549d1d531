-- ===== src/Planning/Outcomes.antt =====
-- The outcomes of file_recovery_planning.py: a restore from a backup, a file that is left alone
-- since the mutation did not start, or a case for manual intervention.
use safe_fs_ops.Prelude.{
  String, ◌≡◌, refl, true, Option, none, some, List, [], ◌∷◌, arith, ◌⊎◌, inl, inr, Option-cases,
}
use safe_fs_ops.Json.{Json, text, Fields, Attempt-cases, answer, get, Paths}
use safe_fs_ops.Planning.Files.{
  Checkpoint, RecoveryContext, proof_for, restore, Proof, file_recovery_proof_from_records,
  file_recovery_proof, not_none, latest_failure_payload, file_recovery_action_plans,
  automatic_file_rollback_supported, file_rollback_manual_intervention_payload, ActionPlan,
}
use safe_fs_ops.Planning.Causes.{Restores, Unchanged, Manual, Outcome, proof_for_inv}

module _ ⦃p : Paths⦄ where
  pub file_recovery_proof_from_records_justified :
      (payload : Fields) (checkpoints : List Checkpoint) (key : Option String) (failure : Json)
      (proof : Proof)
      → file_recovery_proof_from_records payload checkpoints key failure ≡ answer (some proof)
      → (k : String) × (value : Json) × (key ≡ some k)
        × (not_none (get "path" payload) ≡ some value)
        × (proof.resource_key ≡ k)
        × (get "path" proof.payload ≡ text (p.path_of (p.str_of value)))
        × (Restores checkpoints k (p.path_of (p.str_of value)) failure proof
            ⊎ (Unchanged checkpoints k (p.path_of (p.str_of value)) failure proof
                ⊎ Manual checkpoints k (p.path_of (p.str_of value)) failure proof))
  unfolding file_recovery_proof_from_records Outcome
  file_recovery_proof_from_records_justified payload checkpoints none failure proof e =
      elim (Option-cases (not_none (get "path" payload))) [
        | inl missing ↦ absurd (ground arith)
        | inr (value, there) ↦ absurd (ground arith)
      ]
  file_recovery_proof_from_records_justified payload checkpoints (some k) failure proof e =
      elim (Option-cases (not_none (get "path" payload))) [
        | inl missing ↦ absurd (ground arith)
        | inr (value, there) ↦
            let made : proof_for checkpoints k (p.path_of (p.str_of value)) failure ≡ answer proof =
              ground arith in
            let (about, path, from) =
              proof_for_inv checkpoints k (p.path_of (p.str_of value)) failure proof made in
            (k, value, refl, there, about, path, from)
      ]

  -- Recovery plans an action for a file only to restore it: then there is one action, automatic
  -- rollback is supported and no manual intervention is asked for, and the action restores the
  -- latest backup of the file of the batch over a recorded snapshot of it.
  pub file_recovery_action_plans_justified :
      (context : RecoveryContext) (plan : ActionPlan) (rest : List ActionPlan)
      → file_recovery_action_plans context ≡ answer (plan ∷ rest)
      → (rest ≡ [])
        × (automatic_file_rollback_supported context ≡ answer true)
        × (file_rollback_manual_intervention_payload context ≡ answer none)
        × ((k : String) × (value : Json) × (proof : Proof) × (context.resource_key ≡ some k)
            × (not_none (get "path" context.payload) ≡ some value)
            × Restores context.checkpoints k
                (p.path_of (p.str_of value))
                (latest_failure_payload context)
                proof
            × (plan ≡ record {
              action_id = proof.action_id;
              action_type = "restore_backup";
              resource_key = k;
              payload = proof.payload;
            }))
  unfolding file_recovery_action_plans automatic_file_rollback_supported
      file_rollback_manual_intervention_payload file_recovery_proof
  file_recovery_action_plans_justified context plan rest e =
      let failure = latest_failure_payload context in
      elim (Attempt-cases (
        file_recovery_proof_from_records context.payload context.checkpoints context.resource_key
          failure)) [
            | inr raised ↦ absurd (ground arith)
            | inl (none, found) ↦ absurd (ground arith)
            | inl (some proof, found) ↦
                let (k, value, key, path, _, _, outcome) =
                  file_recovery_proof_from_records_justified context.payload context.checkpoints
                    context.resource_key failure proof found in
                let restores : proof.kind ≡ restore = ground arith in
                elim outcome [
                  | inr (inr (is_manual, _, _)) ↦ absurd (ground arith)
                  | inr (inl (_, _, _, _, _, is)) ↦ absurd (ground arith)
                  | inl (c, current, there, backup, snapshot, recorded, is) ↦ (
                    ground arith,
                    ground arith,
                    ground arith,
                    (
                      k,
                      value,
                      proof,
                      key,
                      path,
                      (c, current, there, backup, snapshot, recorded, is),
                      ground arith,
                    ),
                  )
                ]
          ]
