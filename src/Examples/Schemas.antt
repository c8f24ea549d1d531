-- ===== src/Examples/Schemas.antt =====
-- The theorems on schemas at a definition with two migrations of one statement each, where the
-- tables are the number of the statements that have been executed.
use safe_fs_ops.Prelude.{
  ℕ, ◌+◌, ◌≤◌, ◌<◌, String, true, false, none, some, [], ◌∷◌, ◌≡◌, ◌≢◌, ◌⊎◌, refl, text_discrete,
}
use safe_fs_ops.Table.Keys.{All}
use safe_fs_ops.Schema.{
  SchemaError, identity_mismatch, version_error, ok, err, Store, Work, SchemaStatus,
  SchemaMigration, SchemaDefinition, current_version, last_version, increase, post_init, run,
  run_statements, run_all, drop, in_transaction, create, upgrade, initialize_schema,
  initialize_schema_in, adopt_existing_schema, adopt_existing_schema_in,
}
use safe_fs_ops.Schema.Runs.{OnTables}
use safe_fs_ops.Schema.Versions.{
  recorded, initialize_schema_refuses, initialize_schema-recorded, adopt_existing_schema-recorded,
}
use safe_fs_ops.Schema.Upgrade.{earlier, initialize_schema_upgrades}

abbrev execute : String → Work ℕ (Unit {0})
execute statement s = ok (tt, record s { tables = s.tables + 1 })

abbrev migration : ℕ → SchemaMigration ℕ
migration n = record { version = n; statements = "CREATE TABLE t" ∷ []; apply = none }

abbrev journal : SchemaDefinition ℕ
journal = record {
  identity = "journal";
  migrations = migration 1 ∷ migration 2 ∷ [];
  validate = some (λ version s. ok (tt, s));
}

migration-OnTables : (n : ℕ) → OnTables execute (migration n)
unfolding run run_statements
migration-OnTables n = record { effect = λ t. ok (t + 1); does = λ s. refl }

journal-OnTables : All (OnTables execute) journal.migrations
journal-OnTables = (migration-OnTables 1, (migration-OnTables 2, tt))

abbrev version_of : ℕ → SchemaStatus
version_of n = record { identity = "journal"; version = n }

abbrev empty : Store ℕ
empty = record { has_metadata = false; status = none; tables = 0 }

abbrev at_version : String → ℕ → ℕ → Store ℕ
at_version identity version tables = record {
  has_metadata = true;
  status = some (record { identity = identity; version = version });
  tables = tables;
}

initialize_schema_refuses_example :
    ("other" ≢ journal.identity
      → initialize_schema execute journal (at_version "other" 1 7)
        ≡ (err identity_mismatch, at_version "other" 1 7))
    × ("other" ≡ journal.identity
        → current_version journal < 1
        → initialize_schema execute journal (at_version "other" 1 7)
          ≡ (err version_error, at_version "other" 1 7))
initialize_schema_refuses_example =
    initialize_schema_refuses execute journal (at_version "other" 1 7)
      (record { identity = "other"; version = 1 }) refl refl

upgraded :
    initialize_schema execute journal (at_version "journal" 1 1)
    ≡ (ok (version_of 2), at_version "journal" 2 2)
unfolding initialize_schema initialize_schema_in in_transaction upgrade run_all run run_statements
    drop last_version text_discrete
upgraded = refl

initialize_schema-recorded_example :
    (version_of 2 ≡ version_of 2)
    × (recorded execute (at_version "journal" 2 2) ≡ some (version_of 2))
    × ((old : SchemaStatus)
        → recorded execute (at_version "journal" 1 1) ≡ some old
        → (old.identity ≡ "journal") × (old.version ≤ 2))
    × (initialize_schema execute journal (at_version "journal" 2 2)
        ≡ (ok (version_of 2), at_version "journal" 2 2))
unfolding last_version
initialize_schema-recorded_example =
    initialize_schema-recorded execute journal (at_version "journal" 1 1) (at_version "journal" 2 2)
      (version_of 2) journal-OnTables upgraded

adopted :
    adopt_existing_schema execute journal 1 empty ≡ (ok (version_of 1), at_version "journal" 1 0)
unfolding adopt_existing_schema adopt_existing_schema_in in_transaction last_version
adopted = refl

adopt_existing_schema-recorded_example :
    (version_of 1 ≡ version_of 1)
    × (((recorded execute empty ≡ some (version_of 1)) × (at_version "journal" 1 0 ≡ empty))
        ⊎ ((recorded execute empty ≡ none)
            × (1 ≤ 1)
            × (1 ≤ current_version journal)
            × ((validate : ℕ → Work ℕ (Unit {0})) × (mid : Store ℕ) × (journal.validate
                  ≡ some validate)
                × (validate 1 (record empty { has_metadata = true; status = none }) ≡ ok (tt, mid))
                × (at_version "journal" 1 0 ≡ record mid { status = some (version_of 1) }))))
adopt_existing_schema-recorded_example =
    adopt_existing_schema-recorded execute journal 1 empty (at_version "journal" 1 0) (version_of 1)
      adopted

journal_valid : post_init journal ≡ ok tt
unfolding post_init increase text_discrete
journal_valid = refl

created :
    initialize_schema execute (earlier execute journal (migration 1 ∷ [])) empty
    ≡ (ok (version_of 1), at_version "journal" 1 1)
unfolding initialize_schema initialize_schema_in in_transaction create run_all run run_statements
    last_version
created = refl

initialize_schema_upgrades_example :
    let (later, s2) = initialize_schema execute journal (at_version "journal" 1 1) in
    let (at_once, s2') = initialize_schema execute journal empty in
    (later ≡ at_once)
    × ((a' : SchemaStatus) → later ≡ ok a' → s2 ≡ s2')
    × ((e : SchemaError) → later ≡ err e → (s2 ≡ at_version "journal" 1 1) × (s2' ≡ empty))
initialize_schema_upgrades_example =
    initialize_schema_upgrades execute journal (migration 1) [] (migration 2 ∷ []) empty
      (at_version "journal" 1 1) (version_of 1) journal_valid refl journal-OnTables refl created
