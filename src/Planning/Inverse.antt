-- ===== src/Planning/Inverse.antt =====
-- What rename_recovery_planning.py plans: one action at most, an inverse rename only from a record
-- of the rename, and something for every batch that renames.
use safe_fs_ops.Prelude.{◌≡◌, true, is_some}
use Prim.Native.String.{◌++◌ as append}
use safe_fs_ops.Json.{Fields, Paths, text, get, find}

-- A record of a rename has the keys that undoing it needs.
abbrev pub Complete : Fields → Type 0
Complete payload =
    (is_some (find "source_path" payload) ≡ true)
    × (is_some (find "destination_path" payload) ≡ true)
    × (is_some (find "file_type" payload) ≡ true)
    × (is_some (find "device" payload) ≡ true)
    × (is_some (find "inode" payload) ≡ true)

module _ ⦃p : Paths⦄ where
  -- The payload of the manual action, from the payload of the batch.
  abbrev pub NamesProof : Fields → Fields → Type 0
  NamesProof batch payload =
      (get "source_path" payload ≡ text (p.str_of (get "source_path" batch)))
      × (get "destination_path" payload ≡ text (p.str_of (get "destination_path" batch)))
      × (get "reason_code" payload ≡ text "missing_rename_rollback_proof")
