-- ===== src/Schema.antt =====
-- The schema versions of sqlite_store/store.py: SchemaMigration, SchemaDefinition, and
-- SqliteStore.adopt_existing_schema and initialize_schema. What a migration or a validation
-- callback does to the store, and what SQLite makes of a statement, are parameters. A version below
-- 1 is 0.
pub mod Runs
pub mod Versions
pub mod Upgrade
use safe_fs_ops.Prelude.{
  ℕ, zero, suc, ◌+◌, String, Bool, true, false, not, Option, none, some, List, [], ◌∷◌, ◌==◌,
  nat_eq, ltb, if◌then◌else◌,
}

-- What a call raises.
pub data SchemaError : Type 0 where
  value_error : SchemaError
  runtime_error : SchemaError
  integrity_error : SchemaError
  -- SchemaIdentityMismatchError, SchemaVersionError, SchemaValidationError and any other
  -- SchemaMigrationError
  identity_mismatch : SchemaError
  version_error : SchemaError
  validation_error : SchemaError
  migration_error : SchemaError
  -- any other Exception, and what is none, such as KeyboardInterrupt
  exception : String → SchemaError
  base_exception : String → SchemaError

pub data Outcome (A : Type 0) : Type 0 where
  ok : A → Outcome A
  err : SchemaError → Outcome A

pub record SchemaStatus : Type 0 where
  pub identity : String
  pub version : ℕ

-- A database: whether the table of the schema metadata is there, its one row, and the rest.
pub record Store (T : Type 0) : Type 0 where
  pub has_metadata : Bool
  pub status : Option SchemaStatus
  pub tables : T

-- The body of a transaction.
abbrev pub Work : Type 0 → Type 0 → Type 0
Work T A = Store T → Outcome (A × Store T)

module _ {T : Type 0} where
  infixl 5 ◌>>=◌ ◌>>◌
  abbrev continue : {A B : Type 0} → Outcome (A × Store T) → (A → Work T B) → Outcome (B × Store T)
  continue (ok (a, s)) f = f a s
  continue (err e) f = err e

  abbrev pub ◌>>=◌ : {A B : Type 0} → Work T A → (A → Work T B) → Work T B
  ◌>>=◌ m f s = continue (m s) f

  abbrev pub ◌>>◌ : {A B : Type 0} → Work T A → Work T B → Work T B
  m >> k = m >>= λ _. k

  abbrev pub pure : {A : Type 0} → A → Work T A
  pure a s = ok (a, s)

  abbrev pub raise : {A : Type 0} → SchemaError → Work T A
  raise e s = err e

  abbrev pub raise_if : Bool → SchemaError → Work T (Unit {0})
  raise_if true e s = err e
  raise_if false e s = ok (tt, s)

  -- `with self.transaction()`: commit, or roll back on a raise.
  unfoldable pub in_transaction : {A : Type 0} → Work T A → Store T → Outcome A × Store T
  in_transaction body s = elim (body s) [ ok (a, s') ↦ (ok a, s') | err e ↦ (err e, s) ]

pub record SchemaMigration (T : Type 0) : Type 0 where
  pub version : ℕ
  pub statements : List String
  pub apply : Option (Work T (Unit {0}))

pub record SchemaDefinition (T : Type 0) : Type 0 where
  pub identity : String
  pub migrations : List (SchemaMigration T)
  pub validate : Option (ℕ → Work T (Unit {0}))

-- The loop of `__post_init__`: each version is the expected one.
unfoldable pub increase : {T : Type 0} → ℕ → List (SchemaMigration T) → Bool
increase expected [] = true
increase expected (m ∷ rest) =
    let later = increase (suc expected) rest in if nat_eq m.version expected then later else false

abbrev is_empty : {A : Type 0} → List A → Bool
is_empty [] = true
is_empty (_ ∷ _) = false

-- `SchemaDefinition.__post_init__`
unfoldable pub post_init : {T : Type 0} → SchemaDefinition T → Outcome (Unit {0})
post_init d =
    if d.identity == ""
    then err value_error
    else if is_empty d.migrations
    then err value_error
    else if increase 1 d.migrations
    then ok tt
    else err value_error

-- `self.migrations[-1].version`, where there is a migration.
unfoldable pub last_version : {T : Type 0} → List (SchemaMigration T) → ℕ
last_version [] = 0
last_version (m ∷ []) = m.version
last_version (m ∷ n ∷ rest) = last_version (n ∷ rest)

abbrev pub current_version : {T : Type 0} → SchemaDefinition T → ℕ
current_version d = last_version d.migrations

-- `migrations[n:]`
unfoldable pub drop : {A : Type 0} → ℕ → List A → List A
drop zero xs = xs
drop (suc n) [] = []
drop (suc n) (x ∷ xs) = drop n xs

-- `execute` is `connection.execute` on one statement.
module _ {T : Type 0} (execute : String → Work T (Unit {0})) where
  unfoldable pub run_statements : List String → Work T (Unit {0})
  run_statements [] = pure tt
  run_statements (statement ∷ rest) = do execute statement; run_statements rest

  abbrev applied : Option (Work T (Unit {0})) → Work T (Unit {0})
  applied none = pure tt
  applied (some action) = action

  -- `SchemaMigration.run`
  unfoldable pub run : SchemaMigration T → Work T (Unit {0})
  run m = do run_statements m.statements; applied m.apply

  -- `for migration in migrations: migration.run(connection)`
  unfoldable pub run_all : List (SchemaMigration T) → Work T (Unit {0})
  run_all [] = pure tt
  run_all (m ∷ rest) = do run m; run_all rest

  -- `_ensure_schema_metadata_table`
  abbrev pub ensure_schema_metadata_table : Work T (Unit {0})
  ensure_schema_metadata_table s =
      ok (tt, if s.has_metadata then s else record s { has_metadata = true; status = none })

  -- `_schema_status`
  abbrev pub schema_status : Work T (Option SchemaStatus)
  schema_status s = ok (s.status, s)

  abbrev set_status : SchemaStatus → Store T → Store T
  set_status status s = record s { status = some status }

  -- `_insert_schema_status`: the table takes one row, of a version from 1 on.
  abbrev inserted : Option SchemaStatus → SchemaStatus → Work T (Unit {0})
  inserted none new s =
      if nat_eq new.version 0 then err integrity_error else ok (tt, set_status new s)
  inserted (some _) new s = err integrity_error

  abbrev pub insert_schema_status : SchemaStatus → Work T (Unit {0})
  insert_schema_status new s = inserted s.status new s

  -- `_update_schema_status`
  abbrev updated : Option SchemaStatus → ℕ → Work T (Unit {0})
  updated none version s = err runtime_error
  updated (some old) version s =
      if nat_eq version 0
      then err integrity_error
      else ok (tt, set_status (record old { version = version }) s)

  abbrev pub update_schema_status : ℕ → Work T (Unit {0})
  update_schema_status version s = updated s.status version s

  -- `_validate_schema_version`
  abbrev pub validate_schema_version : ℕ → ℕ → Work T (Unit {0})
  validate_schema_version version current = do
    raise_if (ltb version 1) version_error
    raise_if (ltb current version) version_error

  -- `except SchemaMigrationError: raise`, `except Exception: raise SchemaValidationError`
  abbrev pub validation_raises : SchemaError → SchemaError
  validation_raises identity_mismatch = identity_mismatch
  validation_raises version_error = version_error
  validation_raises validation_error = validation_error
  validation_raises migration_error = migration_error
  validation_raises (base_exception what) = base_exception what
  validation_raises _ = validation_error

  abbrev validated : Outcome (Unit {0} × Store T) → Outcome (Unit {0} × Store T)
  validated (ok r) = ok r
  validated (err e) = err (validation_raises e)

  -- `_validate_existing_schema_for_adoption`
  abbrev pub validate_existing_schema : Option (ℕ → Work T (Unit {0})) → ℕ → Work T (Unit {0})
  validate_existing_schema none version s = err validation_error
  validate_existing_schema (some validate) version s = validated (validate version s)

  abbrev adopt : SchemaDefinition T → ℕ → Option SchemaStatus → Work T SchemaStatus
  adopt d version (some status) = do
    raise_if (not (status.identity == d.identity)) identity_mismatch
    raise_if (not (nat_eq status.version version)) version_error
    pure status
  adopt d version none = do
    validate_schema_version version (current_version d)
    validate_existing_schema d.validate version
    insert_schema_status (record { identity = d.identity; version = version })
    pure (record { identity = d.identity; version = version })

  unfoldable pub adopt_existing_schema_in : SchemaDefinition T → ℕ → Work T SchemaStatus
  adopt_existing_schema_in d version = do
    ensure_schema_metadata_table
    status ← schema_status
    adopt d version status

  unfoldable pub adopt_existing_schema :
      SchemaDefinition T → ℕ → Store T → Outcome SchemaStatus × Store T
  unfolding in_transaction
  adopt_existing_schema d version = in_transaction (adopt_existing_schema_in d version)

  -- The migrations of `definition.migrations[status.version :]`, and the new version.
  unfoldable pub upgrade : SchemaDefinition T → ℕ → Work T SchemaStatus
  upgrade d from = do
    run_all (drop from d.migrations)
    update_schema_status (current_version d)
    pure (record { identity = d.identity; version = current_version d })

  unfoldable pub create : SchemaDefinition T → Work T SchemaStatus
  create d = do
    run_all d.migrations
    insert_schema_status (record { identity = d.identity; version = current_version d })
    pure (record { identity = d.identity; version = current_version d })

  abbrev current_or : Bool → SchemaStatus → Work T SchemaStatus → Work T SchemaStatus
  current_or true status later = pure status
  current_or false status later = later

  abbrev initialized : SchemaDefinition T → Option SchemaStatus → Work T SchemaStatus
  initialized d none = create d
  initialized d (some status) = do
    raise_if (not (status.identity == d.identity)) identity_mismatch
    raise_if (ltb (current_version d) status.version) version_error
    current_or (nat_eq status.version (current_version d)) status (upgrade d status.version)

  unfoldable pub initialize_schema_in : SchemaDefinition T → Work T SchemaStatus
  initialize_schema_in d = do
    ensure_schema_metadata_table
    status ← schema_status
    initialized d status

  unfoldable pub initialize_schema : SchemaDefinition T → Store T → Outcome SchemaStatus × Store T
  unfolding in_transaction
  initialize_schema d = in_transaction (initialize_schema_in d)
