-- ===== src/Schema/Upgrade.antt =====
-- Upgrading a store and creating it anew come to the same.
use safe_fs_ops.Prelude.{
  ℕ, suc, ◌+◌, ◌<◌, String, ◌≡◌, ◌≢◌, true, none, some, List, [], ◌∷◌, ◌++◌, arith, inl, inr, ◌∙◌,
  sym,
}
use safe_fs_ops.Table.Keys.{All}
use safe_fs_ops.Schema.{
  SchemaError, Outcome, ok, err, Store, Work, SchemaStatus, SchemaMigration, SchemaDefinition,
  current_version, last_version, increase, initialize_schema, initialize_schema_in, in_transaction,
  create, upgrade, run_all, drop, post_init,
}
use safe_fs_ops.Schema.Runs.{
  then_effect, OnTables, run_all-OnTables, run_all-append, Outcome-cases, lifted, length,
  length-append, drop-append, last_version-increase, increase-append, append-All_left,
  append-All_right,
}
use safe_fs_ops.Schema.Versions.{recorded}

module _ {T : Type 0} (execute : String → Work T (Unit {0})) where
  -- The same schema as `d` at an earlier time, when it had the migrations `ms`.
  abbrev pub earlier : SchemaDefinition T → List (SchemaMigration T) → SchemaDefinition T
  earlier d ms = record d { migrations = ms }

  blank : Store T → Store T
  blank s = record s { has_metadata = true; status = none }

  -- A store with a recorded schema.
  abbrev marked : String → ℕ → T → Store T
  marked identity version t = record {
    has_metadata = true;
    status = some (record { identity = identity; version = version });
    tables = t;
  }

  create_lem :
      (d : SchemaDefinition T) (s : Store T) (g : T → Outcome T)
      → recorded execute s ≡ none
      → current_version d ≢ 0
      → ((s : Store T) → run_all execute d.migrations s ≡ lifted (g s.tables) s)
      → initialize_schema_in execute d s ≡ elim (g s.tables) [
        | ok t ↦ ok (
          record { identity = d.identity; version = current_version d },
          marked d.identity (current_version d) t,
        )
        | err e ↦ err e
      ]
  unfolding initialize_schema_in create
  create_lem d s g no_schema pos runs = elim (Outcome-cases (g s.tables)) [
    | inl (t, done) ↦ ground (arith, runs (record s { has_metadata = true; status = none }))
    | inr (x, raised) ↦ ground (arith, runs (record s { has_metadata = true; status = none }))
  ]

  behind_upgrade :
      (d : SchemaDefinition T) (n : ℕ) (t : T)
      → n < current_version d
      → initialize_schema_in execute d (marked d.identity n t)
        ≡ upgrade execute d n (marked d.identity n t)
  unfolding initialize_schema_in
  behind_upgrade d n t behind = ground arith

  upgrade_lem :
      (d : SchemaDefinition T) (n : ℕ) (t : T) (h : T → Outcome T)
      → current_version d ≢ 0
      → ((s : Store T) → run_all execute (drop n d.migrations) s ≡ lifted (h s.tables) s)
      → upgrade execute d n (marked d.identity n t) ≡ elim (h t) [
        | ok t' ↦ ok (
          record { identity = d.identity; version = current_version d },
          marked d.identity (current_version d) t',
        )
        | err e ↦ err e
      ]
  unfolding upgrade
  upgrade_lem d n t h pos runs = elim (Outcome-cases (h t)) [
    | inl (t', done) ↦ let ran = runs (marked d.identity n t) in ground arith
    | inr (x, raised) ↦ let ran = runs (marked d.identity n t) in ground arith
  ]

  run_all-both :
      (ms ns : List (SchemaMigration T)) (g h : T → Outcome T)
      → ((s : Store T) → run_all execute ms s ≡ lifted (g s.tables) s)
      → ((s : Store T) → run_all execute ns s ≡ lifted (h s.tables) s)
      → (s : Store T) → run_all execute (ms ++ ns) s ≡ lifted (then_effect (g s.tables) h) s
  run_all-both ms ns g h runs runs' s = elim (Outcome-cases (g s.tables)) [
    | inl (t, done) ↦ elim (Outcome-cases (h t)) [
      | inl (t', done') ↦
          ground (arith, run_all-append execute ms ns s, runs s, runs' (record s { tables = t }))
      | inr (x, raised) ↦
          ground (arith, run_all-append execute ms ns s, runs s, runs' (record s { tables = t }))
    ]
    | inr (x, raised) ↦ ground (arith, run_all-append execute ms ns s, runs s)
  ]

  -- A store that has the version `n` of the definition, whose later migrations come to `h`.
  later_lem :
      (d : SchemaDefinition T) (n : ℕ) (ns : List (SchemaMigration T)) (t : T) (h : T → Outcome T)
      → current_version d ≡ suc n + length ns
      → drop (suc n) d.migrations ≡ ns
      → ((s : Store T) → run_all execute ns s ≡ lifted (h s.tables) s)
      → initialize_schema_in execute d (marked d.identity (suc n) t) ≡ elim (h t) [
        | ok t' ↦ ok (
          record { identity = d.identity; version = current_version d },
          marked d.identity (current_version d) t',
        )
        | err e ↦ err e
      ]
  unfolding run_all initialize_schema_in
  later_lem d n [] t h is rest runs =
      let same : suc n ≡ current_version d = omega arith in
      let kept : h t ≡ ok t = let ran = runs (marked d.identity n t) in ground arith in
      rw kept (rw (sym same) (ground arith))
  later_lem d n (k ∷ ns) t h is rest runs =
      behind_upgrade d (suc n) t (omega arith)
      ∙ upgrade_lem d (suc n) t h (omega arith) (λ s. rw rest (runs s))

  initialize_schema_in_lem :
      (d : SchemaDefinition T) (m : SchemaMigration T) (ms ns : List (SchemaMigration T))
      (s s1 : Store T) (a : SchemaStatus)
      → post_init d ≡ ok tt
      → d.migrations ≡ m ∷ ms ++ ns
      → All (OnTables execute) d.migrations
      → recorded execute s ≡ none
      → initialize_schema execute (earlier d (m ∷ ms)) s ≡ (ok a, s1)
      → initialize_schema_in execute d s1 ≡ initialize_schema_in execute d s
  unfolding initialize_schema in_transaction post_init drop
  initialize_schema_in_lem d m ms ns s s1 a valid are all no_schema first =
      let older = m ∷ ms in
      let all' : All (OnTables execute) (older ++ ns) = rw are at all in
      let (g, runs) = run_all-OnTables execute older (append-All_left execute older ns all') in
      let (h, runs') = run_all-OnTables execute ns (append-All_right execute older ns all') in
      let increases : increase 1 d.migrations ≡ true = ground arith in
      let rises : increase 1 (older ++ ns) ≡ true = rw are at increases in
      let then_version : last_version older ≡ 1 + length ms =
        last_version-increase 1 m ms (increase-append 1 older ns rises) in
      let version : current_version d ≡ suc (length ms) + length ns =
        rw are (omega (arith, last_version-increase 1 m (ms ++ ns) rises, length-append ms ns)) in
      let fresh =
        create_lem d s (λ t. then_effect (g t) h) no_schema (omega arith)
          (rw are (run_all-both older ns g h runs runs')) in
      let made = create_lem (earlier d older) s g no_schema (omega arith) runs in
      elim (Outcome-cases (g s.tables)) [
        | inr (x, raised) ↦ absurd (ground arith)
        | inl (t, done) ↦
            let there : s1 ≡ marked d.identity (suc (length ms)) t = ground arith in
            let rest : drop (suc (length ms)) d.migrations ≡ ns = rw are (drop-append ms ns) in
            rw there (later_lem d (length ms) ns t h version rest runs' ∙ sym (rw done at fresh))
      ]

  -- Where each migration reads and writes the tables of the application only, and the earlier
  -- migrations of a valid definition have been run on a store without a schema, to initialise with
  -- all of the migrations now answers or raises as it would have on the first store. Where it
  -- returns, both ways end in the same store, and where it raises, each store is left as it was.
  pub initialize_schema_upgrades :
      (d : SchemaDefinition T) (m : SchemaMigration T) (ms ns : List (SchemaMigration T))
      (s s1 : Store T) (a : SchemaStatus)
      → post_init d ≡ ok tt
      → d.migrations ≡ m ∷ ms ++ ns
      → All (OnTables execute) d.migrations
      → recorded execute s ≡ none
      → initialize_schema execute (earlier d (m ∷ ms)) s ≡ (ok a, s1)
      → let (later, s2) = initialize_schema execute d s1 in
        let (at_once, s2') = initialize_schema execute d s in
        (later ≡ at_once)
        × ((a' : SchemaStatus) → later ≡ ok a' → s2 ≡ s2')
        × ((e : SchemaError) → later ≡ err e → (s2 ≡ s1) × (s2' ≡ s))
  unfolding initialize_schema in_transaction
  initialize_schema_upgrades d m ms ns s s1 a valid are all no_schema first =
      let same = initialize_schema_in_lem d m ms ns s s1 a valid are all no_schema first in
      elim (Outcome-cases (initialize_schema_in execute d s)) [
        | inl ((answer, t), done) ↦
            (ground arith, λ a' e. ground arith, λ x e. absurd (ground arith))
        | inr (x, raised) ↦
            (ground arith, λ a' e. absurd (ground arith), λ x' e. (ground arith, ground arith))
      ]
