-- ===== src/Runner/Ensured.antt =====
-- What the decoders of recovery_runner.py return, where they return.
use safe_fs_ops.Prelude.{
  String, ◌≡◌, refl, true, false, some, arith, subst, is_some, Bool-cases, inl, inr, ◌⊎◌, ◌==◌,
  differ, text_discrete,
}
use safe_fs_ops.Json.{Json, object, Fields, get, as_mapping, Paths}
use safe_fs_ops.Runner.{
  Decoded, returns, value_error, ◌>>=◌, ResourceSnapshot, FileBackup, file_backup, post_init_backup,
  file_backup_from_payload, resource_snapshot_from_payload, snapshot_from_mapping,
  path_from_payload_value, mapping_from,
}

-- What holds of the value that a decoder returns.
pub record Ensures {A : Type 0} (P : A → Type 0) (m : Decoded A) : Type 0 where
  pub at : (a : A) → m ≡ returns a → P a

pub Ensures-returns : {A : Type 0} {P : A → Type 0} (a : A) → P a → Ensures P (returns a)
Ensures-returns {P = P} a h = record {
  at = λ b e. let same : a ≡ b = ground arith in subst P same h;
}

pub Ensures-bind :
    {A B : Type 0} {P : B → Type 0} (m : Decoded A) (g : A → Decoded B)
    → ((a : A) → m ≡ returns a → Ensures P (g a))
    → Ensures P (m >>= g)
Ensures-bind (returns a) g h = h a refl
Ensures-bind value_error g h = record { at = λ b e. absurd (ground arith) }

Decoded-cases : {A : Type 0} (m : Decoded A) → ((a : A) × (m ≡ returns a)) ⊎ (m ≡ value_error)
Decoded-cases (returns a) = inl (a, refl)
Decoded-cases value_error = inr refl

missing-file : (s : String) → (s == "missing") ≡ true → (s == "file") ≡ false
unfolding text_discrete
missing-file s e = let apart = differ "missing" "file" refl in ground arith

module _ ⦃p : Paths⦄ where
  -- A backup has content, a hash, a size and permissions where the file existed, and none of them
  -- where it did not, and its snapshot agrees.
  abbrev pub Whole : FileBackup → Type 0
  Whole b =
      (p.same_path b.snapshot.path b.path ≡ true)
      × (b.snapshot.exists ≡ b.existed)
      × (is_some b.content_path ≡ b.existed)
      × (is_some b.content_hash ≡ b.existed)
      × (is_some b.size ≡ b.existed)
      × (is_some b.permissions ≡ b.existed)

  post_init_backup_inv : (b : FileBackup) → post_init_backup b ≡ returns tt → Whole b
  unfolding post_init_backup
  post_init_backup_inv b e = elim (Bool-cases (b.file_type == "missing")) [
    | inl missing ↦
        let other = missing-file b.file_type missing in
        (ground arith, ground arith, ground arith, ground arith, ground arith, ground arith)
    | inr present ↦
        (ground arith, ground arith, ground arith, ground arith, ground arith, ground arith)
  ]

  file_backup_inv :
      (b b' : FileBackup)
      → file_backup b ≡ returns b'
      → (b ≡ b') × (post_init_backup b ≡ returns tt)
  unfolding file_backup
  file_backup_inv b b' e = elim (Decoded-cases (post_init_backup b)) [
    | inl (tt, valid) ↦ (ground arith, valid)
    | inr raised ↦ absurd (ground arith)
  ]

  Ensures-file_backup : {P : FileBackup → Type 0} (b : FileBackup) → P b → Ensures P (file_backup b)
  Ensures-file_backup {P} b h = record {
    at = λ b' e. let (same, _) = file_backup_inv b b' e in subst P same h;
  }

  Ensures-file_backup-Whole : (b : FileBackup) → Ensures Whole (file_backup b)
  Ensures-file_backup-Whole b = record {
    at = λ b' e.
        let (same, valid) = file_backup_inv b b' e in
        subst Whole same (post_init_backup_inv b valid);
  }

  path_from_payload_value_inv :
      (v : Json) (path : String)
      → path_from_payload_value v ≡ returns path
      → path ≡ p.path_of (p.str_of v)
  path_from_payload_value_inv v path e = ground arith

  snapshot_from_mapping_path :
      (given : Fields)
      → Ensures
          (λ snapshot. snapshot.path ≡ p.path_of (p.str_of (get "path" given)))
          (snapshot_from_mapping given)
  unfolding snapshot_from_mapping
  snapshot_from_mapping_path given =
      search (Ensures-bind, Ensures-returns, path_from_payload_value_inv) depth 30 fits 4000

  -- Where the path of what a decoder returns comes from.
  abbrev pub PathOf : Fields → String → Type 0
  PathOf given path = path ≡ p.path_of (p.str_of (get "path" given))

  mapping_path_inv :
      (given found : Fields) (path : String)
      → mapping_from (as_mapping (object given)) ≡ returns found
      → path_from_payload_value (get "path" found) ≡ returns path
      → PathOf given path
  mapping_path_inv given found path e e' =
      let same : found ≡ given = ground arith in
      rw same at (path_from_payload_value_inv (get "path" found) path e')

  pub file_backup_from_payload_path :
      (payload backup : Fields)
      → get "backup" payload ≡ object backup
      → Ensures (λ b. PathOf backup b.path) (file_backup_from_payload payload)
  unfolding file_backup_from_payload
  file_backup_from_payload_path payload backup is =
      rw is (search (Ensures-bind, Ensures-file_backup, mapping_path_inv) depth 30 fits 4000)

  pub file_backup_from_payload-Whole :
      (payload : Fields) → Ensures Whole (file_backup_from_payload payload)
  unfolding file_backup_from_payload
  file_backup_from_payload-Whole payload =
      search (Ensures-bind, Ensures-file_backup-Whole) depth 30 fits 4000

  -- A backup is decoded from what the payload has under "backup", and from nothing else.
  pub file_backup_from_payload_same :
      (payload payload' : Fields)
      → get "backup" payload ≡ get "backup" payload'
      → file_backup_from_payload payload ≡ file_backup_from_payload payload'
  unfolding file_backup_from_payload
  file_backup_from_payload_same payload payload' same = rw same refl

  pub resource_snapshot_from_payload_inv :
      (current : Fields)
      → Ensures
          (λ o.
            (s : ResourceSnapshot) × (o ≡ some s)
            × (snapshot_from_mapping current ≡ returns s)
            × PathOf current s.path)
          (resource_snapshot_from_payload (object current))
  unfolding resource_snapshot_from_payload
  resource_snapshot_from_payload_inv current =
      Ensures-bind (snapshot_from_mapping current) _
        (λ s e. Ensures-returns (some s) (s, refl, e, (snapshot_from_mapping_path current).at s e))
