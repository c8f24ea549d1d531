-- ===== src/Planning/Files/Plans.antt =====
-- The public functions of file_recovery_planning.py.
use safe_fs_ops.Prelude.{String, Bool, true, false, Option, none, some, List, [], ◌∷◌}
use safe_fs_ops.Json.{Fields, Attempt, answer, ◌>>=◌, Paths}
use safe_fs_ops.Planning.Files.Snapshots.{RecoveryContext}
use safe_fs_ops.Planning.Files.Proofs.{restore, manual, Proof, file_recovery_proof}

-- The mapping that file_recovery_action_plans returns for a file.
pub record ActionPlan : Type 0 where
  pub action_id : String
  pub action_type : String
  pub resource_key : String
  pub payload : Fields

module _ ⦃p : Paths⦄ where
  abbrev plans : Option Proof → List ActionPlan
  plans none = []
  plans (some proof) = elim proof.kind [
    | restore ↦
        record {
          action_id = proof.action_id;
          action_type = "restore_backup";
          resource_key = proof.resource_key;
          payload = proof.payload;
        }
        ∷ []
    | _ ↦ []
  ]

  unfoldable pub file_recovery_action_plans : RecoveryContext → Attempt (List ActionPlan)
  unfolding file_recovery_proof
  file_recovery_action_plans context = do proof ← file_recovery_proof context; answer (plans proof)

  abbrev automatic : Option Proof → Bool
  automatic none = false
  automatic (some proof) = elim proof.kind [ manual ↦ false | _ ↦ true ]

  unfoldable pub automatic_file_rollback_supported : RecoveryContext → Attempt Bool
  unfolding file_recovery_proof
  automatic_file_rollback_supported context = do
    proof ← file_recovery_proof context
    answer (automatic proof)

  abbrev intervention : Option Proof → Option (String × String × Fields)
  intervention none = none
  intervention (some proof) = elim proof.kind [
    | manual ↦ some (proof.action_id, proof.resource_key, proof.payload)
    | _ ↦ none
  ]

  -- The action id, the resource key and the payload of the mapping that it returns.
  unfoldable pub file_rollback_manual_intervention_payload :
      RecoveryContext → Attempt (Option (String × String × Fields))
  unfolding file_recovery_proof
  file_rollback_manual_intervention_payload context = do
    proof ← file_recovery_proof context
    answer (intervention proof)
