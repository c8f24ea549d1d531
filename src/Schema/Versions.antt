-- ===== src/Schema/Versions.antt =====
-- What SqliteStore.initialize_schema records and refuses.
use safe_fs_ops.Prelude.{
  ℕ, ◌<◌, ◌≤◌, String, ◌≡◌, ◌≢◌, true, Option, none, some, arith, nat_eq, ◌⊎◌, inl, inr,
  Option-cases, Bool-cases, if◌then◌else◌,
}
use safe_fs_ops.Table.Keys.{All}
use safe_fs_ops.Schema.{
  identity_mismatch, version_error, ok, err, Store, Work, SchemaStatus, SchemaDefinition,
  current_version, adopt_existing_schema, adopt_existing_schema_in, initialize_schema,
  initialize_schema_in, in_transaction, create, upgrade, drop,
}
use safe_fs_ops.Schema.Runs.{OnTables, run_all-OnTables, Outcome-cases, drop-All}

module _ {T : Type 0} (execute : String → Work T (Unit {0})) where
  -- The schema that a store has a record of.
  abbrev pub recorded : Store T → Option SchemaStatus
  recorded s = if s.has_metadata then s.status else none

  -- A store of another schema, or of a newer version than the definition knows, is refused and left
  -- alone, whatever the migrations do.
  pub initialize_schema_refuses :
      (d : SchemaDefinition T) (s : Store T) (old : SchemaStatus)
      → s.has_metadata ≡ true
      → s.status ≡ some old
      → (old.identity ≢ d.identity → initialize_schema execute d s ≡ (err identity_mismatch, s))
        × (old.identity ≡ d.identity
            → current_version d < old.version
            → initialize_schema execute d s ≡ (err version_error, s))
  unfolding initialize_schema initialize_schema_in in_transaction
  initialize_schema_refuses d s old has is = (λ other. ground arith, λ same newer. ground arith)

  create_inv :
      (d : SchemaDefinition T) (s s' : Store T) (a : SchemaStatus)
      → All (OnTables execute) d.migrations
      → create execute d s ≡ ok (a, s')
      → (a ≡ record { identity = d.identity; version = current_version d })
        × (s'.status ≡ some a)
        × (s'.has_metadata ≡ s.has_metadata)
        × (s.status ≡ none)
  unfolding create
  create_inv d s s' a all e =
      let (g, runs) = run_all-OnTables execute d.migrations all in
      elim (Outcome-cases (g s.tables)) [
        | inl (t, done) ↦ ground (arith, runs s)
        | inr (x, raised) ↦ absurd (ground (arith, runs s))
      ]

  upgrade_inv :
      (d : SchemaDefinition T) (n : ℕ) (s s' : Store T) (a old : SchemaStatus)
      → All (OnTables execute) d.migrations
      → s.status ≡ some old
      → old.identity ≡ d.identity
      → upgrade execute d n s ≡ ok (a, s')
      → (a ≡ record { identity = d.identity; version = current_version d })
        × (s'.status ≡ some a)
        × (s'.has_metadata ≡ s.has_metadata)
  unfolding upgrade
  upgrade_inv d n s s' a old all there same e =
      let (g, runs) =
        run_all-OnTables execute (drop n d.migrations) (drop-All execute n d.migrations all) in
      elim (Outcome-cases (g s.tables)) [
        | inl (t, done) ↦ ground (arith, runs s)
        | inr (x, raised) ↦ absurd (ground (arith, runs s))
      ]

  initialize_schema_in_inv :
      (d : SchemaDefinition T) (s s' : Store T) (a : SchemaStatus)
      → All (OnTables execute) d.migrations
      → initialize_schema_in execute d s ≡ ok (a, s')
      → (a ≡ record { identity = d.identity; version = current_version d })
        × (s'.status ≡ some a)
        × (s'.has_metadata ≡ true)
        × ((old : SchemaStatus)
            → recorded s ≡ some old
            → (old.identity ≡ d.identity) × (old.version ≤ current_version d))
  unfolding initialize_schema_in
  initialize_schema_in_inv d s s' a all e =
      let s0 = if s.has_metadata then s else record s { has_metadata = true; status = none } in
      elim (Option-cases (recorded s)) [
        | inl new ↦
            let made : create execute d s0 ≡ ok (a, s') = ground arith in
            let (is, there, has, _) = create_inv d s0 s' a all made in
            (is, there, ground arith, λ old e'. absurd (ground arith))
        | inr (old, found) ↦
            let same : old.identity ≡ d.identity = ground arith in
            let known : old.version ≤ current_version d = ground arith in
            elim (Bool-cases (nat_eq old.version (current_version d))) [
              | inl current ↦ (
                ground arith,
                ground arith,
                ground arith,
                λ old' e'. (ground arith, ground arith),
              )
              | inr behind ↦
                  let made : upgrade execute d old.version s0 ≡ ok (a, s') = ground arith in
                  let (is, there, has) =
                    upgrade_inv d old.version s0 s' a old all (ground arith) same made in
                  (is, there, ground arith, λ old' e'. (ground arith, ground arith))
            ]
      ]

  initialize_current :
      (d : SchemaDefinition T) (s : Store T) (a : SchemaStatus)
      → a ≡ record { identity = d.identity; version = current_version d }
      → s.status ≡ some a
      → s.has_metadata ≡ true
      → initialize_schema_in execute d s ≡ ok (a, s)
  unfolding initialize_schema_in
  initialize_current d s a is there has = ground arith

  -- Where each migration of the definition reads and writes the tables of the application only, an
  -- `initialize_schema` that returns has recorded the identity and the current version of the
  -- definition; a schema recorded before had the same identity and no higher version; and a second
  -- call returns the same and changes nothing.
  pub initialize_schema-recorded :
      (d : SchemaDefinition T) (s s' : Store T) (a : SchemaStatus)
      → All (OnTables execute) d.migrations
      → initialize_schema execute d s ≡ (ok a, s')
      → (a ≡ record { identity = d.identity; version = current_version d })
        × (recorded s' ≡ some a)
        × ((old : SchemaStatus)
            → recorded s ≡ some old
            → (old.identity ≡ a.identity) × (old.version ≤ a.version))
        × (initialize_schema execute d s' ≡ (ok a, s'))
  unfolding initialize_schema in_transaction
  initialize_schema-recorded d s s' a all e =
      let (is, there, has, before) = initialize_schema_in_inv d s s' a all (ground arith) in
      (
        is,
        ground arith,
        λ old e'. let b = before old e' in (ground arith, ground arith),
        ground (arith, initialize_current d s' a is there has),
      )

  -- An `adopt_existing_schema` that returns answers with the identity of the definition and the
  -- version asked for. Either that is what the store had recorded, and nothing changes, or the
  -- store had no schema, the version is one of the definition's, and the validation that the
  -- definition has, called for the version on the store with an empty table of the metadata,
  -- returned: the store is as the validation left it, with the answer recorded.
  pub adopt_existing_schema-recorded :
      (d : SchemaDefinition T) (version : ℕ) (s s' : Store T) (a : SchemaStatus)
      → adopt_existing_schema execute d version s ≡ (ok a, s')
      → (a ≡ record { identity = d.identity; version = version })
        × (((recorded s ≡ some a) × (s' ≡ s))
            ⊎ ((recorded s ≡ none)
                × (1 ≤ version)
                × (version ≤ current_version d)
                × ((validate : ℕ → Work T (Unit {0})) × (mid : Store T) × (d.validate
                      ≡ some validate)
                    × (validate version (record s { has_metadata = true; status = none })
                        ≡ ok (tt, mid))
                    × (s' ≡ record mid { status = some a }))))
  unfolding adopt_existing_schema adopt_existing_schema_in in_transaction
  adopt_existing_schema-recorded d version s s' a e = elim (Option-cases (recorded s)) [
    | inr (old, found) ↦
        let has : s.has_metadata ≡ true = ground arith in
        let there : s.status ≡ some old = ground arith in
        (ground arith, inl (ground arith, ground arith))
    | inl new ↦ elim (Option-cases d.validate) [
      | inl missing ↦ absurd (ground arith)
      | inr (validate, given) ↦
          elim (Outcome-cases
            (validate version (record s { has_metadata = true; status = none }))) [
              | inr (x, raised) ↦ absurd (ground arith)
              | inl ((u, mid), done) ↦ (
                ground arith,
                inr (
                  new,
                  ground arith,
                  ground arith,
                  (validate, mid, given, ground arith, ground arith),
                ),
              )
            ]
    ]
  ]
