-- ===== src/Runner/Decoding.antt =====
-- The decoders of recovery_runner.py. What they raise is a ValueError.
use safe_fs_ops.Prelude.{
  String, Bool, true, false, not, is_some, Option, none, some, List, [], ◌∷◌, ◌==◌, ◌||◌,
  if◌then◌else◌,
}
use safe_fs_ops.Json.{
  Json, null, boolean, integer, text, Fields, get, as_mapping, ℤ, Paths, bool_eq,
}

pub data Decoded (A : Type 0) : Type 0 where
  returns : A → Decoded A
  value_error : Decoded A

infixl 5 ◌>>=◌ ◌>>◌
abbrev pub ◌>>=◌ : {A B : Type 0} → Decoded A → (A → Decoded B) → Decoded B
returns a >>= f = f a
value_error >>= f = value_error

-- ResourceSnapshot of filesystem_ops/models.py
pub record ResourceSnapshot : Type 0 where
  pub path : String
  pub exists : Bool
  pub file_type : String
  pub content_hash : Option String
  pub size : Option ℤ
  pub mtime_ns : Option ℤ
  pub symlink_target : Option String
  pub device : Option ℤ
  pub inode : Option ℤ
  pub ctime_ns : Option ℤ

-- FileBackup of filesystem_ops/models.py, whose content_bytes and content_address are None here.
pub record FileBackup : Type 0 where
  pub path : String
  pub existed : Bool
  pub file_type : String
  pub content_path : Option String
  pub content_hash : Option String
  pub size : Option ℤ
  pub permissions : Option ℤ
  pub snapshot : ResourceSnapshot

-- The arguments of `restore_backup`.
pub record RestoreRequest : Type 0 where
  pub backup : FileBackup
  pub expected_current : Option ResourceSnapshot
  pub allow_overwrite : Bool

abbrev with_default : Option Bool → Decoded Bool
with_default none = value_error
with_default (some b) = returns b

-- `_bool_from_payload_value`
abbrev pub bool_from_payload_value : Json → Option Bool → Decoded Bool
bool_from_payload_value null default = with_default default
bool_from_payload_value (boolean b) default = returns b
bool_from_payload_value _ default = value_error

abbrev one_of : List String → String → Bool
one_of [] s = false
one_of (name ∷ names) s = s == name || one_of names s

abbrev checked : List String → String → Decoded String
checked names s = if one_of names s then returns s else value_error

abbrev pub ◌>>◌ : {B : Type 0} → Decoded (Unit {0}) → Decoded B → Decoded B
m >> k = m >>= λ _. k

abbrev raise_if : Bool → Decoded (Unit {0})
raise_if true = value_error
raise_if false = returns tt

-- A mapping, or ValueError.
abbrev pub mapping_from : Option Fields → Decoded Fields
mapping_from none = value_error
mapping_from (some fields) = returns fields

module _ ⦃p : Paths⦄ where
  -- What `__post_init__` of FileBackup asks of a missing file: no content and no metadata.
  abbrev post_init_missing : FileBackup → Decoded (Unit {0})
  post_init_missing b = raise_if (
      is_some b.content_path
      || (is_some b.content_hash || (is_some b.size || is_some b.permissions)))

  -- What it asks of a file. The path is the one content source that there can be.
  abbrev post_init_file : FileBackup → Decoded (Unit {0})
  post_init_file b = do
    raise_if (not (is_some b.permissions))
    raise_if (not (is_some b.content_path))
    raise_if (not (is_some b.content_hash) || not (is_some b.size))

  -- `__post_init__` of FileBackup
  unfoldable pub post_init_backup : FileBackup → Decoded (Unit {0})
  post_init_backup b = do
    raise_if (not (one_of ("missing" ∷ "file" ∷ []) b.file_type))
    raise_if (not (bool_eq b.existed (b.file_type == "file")))
    raise_if (not (p.same_path b.snapshot.path b.path))
    raise_if (not (b.snapshot.file_type == b.file_type))
    raise_if (not (bool_eq b.snapshot.exists b.existed))
    if b.file_type == "missing" then post_init_missing b else post_init_file b

  -- The constructor call of FileBackup.
  unfoldable pub file_backup : FileBackup → Decoded FileBackup
  unfolding post_init_backup
  file_backup b = do post_init_backup b; returns b

  -- `_path_from_payload_value`
  abbrev pub path_from_payload_value : Json → Decoded String
  path_from_payload_value null = value_error
  path_from_payload_value v = returns (p.path_of (p.str_of v))

  -- `_path_from_optional_payload_value`
  abbrev pub path_from_optional_payload_value : Json → Option String
  path_from_optional_payload_value null = none
  path_from_optional_payload_value v = some (p.path_of (p.str_of v))

  -- `_optional_str_value`
  abbrev pub optional_str_value : Json → Option String
  optional_str_value null = none
  optional_str_value v = some (p.str_of v)

  abbrev parsed : Option ℤ → Decoded (Option ℤ)
  parsed none = value_error
  parsed (some n) = returns (some n)

  -- `_optional_int_value`
  abbrev pub optional_int_value : Json → Decoded (Option ℤ)
  optional_int_value null = returns none
  optional_int_value (integer n) = returns (some n)
  optional_int_value (text s) = parsed (p.int_of s)
  optional_int_value _ = value_error

  -- `_backup_file_type_from_payload_value`
  abbrev pub backup_file_type_from_payload_value : Json → Decoded String
  backup_file_type_from_payload_value v = checked ("missing" ∷ "file" ∷ []) (p.str_of v)

  -- `_file_type_from_payload_value`
  abbrev pub file_type_from_payload_value : Json → Decoded String
  file_type_from_payload_value v =
      checked ("missing" ∷ "file" ∷ "directory" ∷ "symlink" ∷ "other" ∷ []) (p.str_of v)

  unfoldable pub snapshot_from_mapping : Fields → Decoded ResourceSnapshot
  snapshot_from_mapping value = do
    path ← path_from_payload_value (get "path" value)
    exists ← bool_from_payload_value (get "exists" value) none
    file_type ← file_type_from_payload_value (get "file_type" value)
    size ← optional_int_value (get "size" value)
    mtime_ns ← optional_int_value (get "mtime_ns" value)
    device ← optional_int_value (get "device" value)
    inode ← optional_int_value (get "inode" value)
    ctime_ns ← optional_int_value (get "ctime_ns" value)
    returns (record {
      path = path;
      exists = exists;
      file_type = file_type;
      content_hash = optional_str_value (get "content_hash" value);
      size = size;
      mtime_ns = mtime_ns;
      symlink_target = optional_str_value (get "symlink_target" value);
      device = device;
      inode = inode;
      ctime_ns = ctime_ns;
    })

  abbrev as_some : ResourceSnapshot → Decoded (Option ResourceSnapshot)
  as_some snapshot = returns (some snapshot)

  -- `_resource_snapshot_from_payload`
  unfoldable pub resource_snapshot_from_payload : Json → Decoded (Option ResourceSnapshot)
  unfolding snapshot_from_mapping
  resource_snapshot_from_payload null = returns none
  resource_snapshot_from_payload value = do
    fields ← mapping_from (as_mapping value)
    snapshot ← snapshot_from_mapping fields
    as_some snapshot

  -- `_file_backup_from_payload`
  unfoldable pub file_backup_from_payload : Fields → Decoded FileBackup
  unfolding snapshot_from_mapping file_backup
  file_backup_from_payload payload = do
    backup ← mapping_from (as_mapping (get "backup" payload))
    fields ← mapping_from (as_mapping (get "snapshot" backup))
    snapshot ← snapshot_from_mapping fields
    path ← path_from_payload_value (get "path" backup)
    existed ← bool_from_payload_value (get "existed" backup) none
    file_type ← backup_file_type_from_payload_value (get "file_type" backup)
    size ← optional_int_value (get "size" backup)
    permissions ← optional_int_value (get "permissions" backup)
    file_backup (record {
      path = path;
      existed = existed;
      file_type = file_type;
      content_path = path_from_optional_payload_value (get "content_path" backup);
      content_hash = optional_str_value (get "content_hash" backup);
      size = size;
      permissions = permissions;
      snapshot = snapshot;
    })

  -- The first part of `_restore_backup_recovery_action`: what `restore_backup` is called with.
  unfoldable pub restore_request : Fields → Decoded RestoreRequest
  unfolding file_backup_from_payload resource_snapshot_from_payload
  restore_request payload = do
    backup ← file_backup_from_payload payload
    expected ← resource_snapshot_from_payload (get "expected_current" payload)
    allow_overwrite ← bool_from_payload_value (get "allow_overwrite" payload) (some false)
    returns
        (record { backup = backup; expected_current = expected; allow_overwrite = allow_overwrite })
