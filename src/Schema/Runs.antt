-- ===== src/Schema/Runs.antt =====
-- Migrations in a row, and the numbers of their versions.
use safe_fs_ops.Prelude.{
  ℕ, zero, suc, ◌+◌, String, ◌≡◌, refl, true, List, [], ◌∷◌, ◌++◌, arith, ◌⊎◌, inl, inr,
}
use safe_fs_ops.Table.Keys.{All}
use safe_fs_ops.Schema.{
  SchemaError, Outcome, ok, err, Store, Work, SchemaMigration, ◌>>◌, increase, last_version, drop,
  run, run_all,
}

abbrev pub length : {A : Type 0} → List A → ℕ
length [] = 0
length (_ ∷ xs) = suc (length xs)

pub drop-append : {A : Type 0} (xs ys : List A) → drop (length xs) (xs ++ ys) ≡ ys
unfolding drop
drop-append [] ys = refl
drop-append (x ∷ xs) ys = drop-append xs ys

pub length-append : {A : Type 0} (xs ys : List A) → length (xs ++ ys) ≡ length xs + length ys
length-append [] ys = omega arith
length-append (x ∷ xs) ys = omega (arith, length-append xs ys)

module _ {T : Type 0} where
  -- The versions of migrations that increase by 1 from `n` on end `length` later.
  pub last_version-increase :
      (n : ℕ) (m : SchemaMigration T) (ms : List (SchemaMigration T))
      → increase n (m ∷ ms) ≡ true
      → last_version (m ∷ ms) ≡ n + length ms
  unfolding increase last_version
  last_version-increase n m [] e = ground arith
  last_version-increase n m (k ∷ ms) e = ground (arith, last_version-increase (suc n) k ms)

  pub increase-append :
      (n : ℕ) (ms ns : List (SchemaMigration T))
      → increase n (ms ++ ns) ≡ true
      → increase n ms ≡ true
  unfolding increase
  increase-append n [] ns e = refl
  increase-append n (m ∷ ms) ns e = ground (arith, increase-append (suc n) ms ns)

  -- What a change of the application's tables makes of a store.
  abbrev pub lifted : Outcome T → Store T → Outcome (Unit {0} × Store T)
  lifted (ok t) s = ok (tt, record s { tables = t })
  lifted (err e) s = err e

pub Outcome-cases :
    {A : Type 0} (r : Outcome A) → ((a : A) × (r ≡ ok a)) ⊎ ((e : SchemaError) × (r ≡ err e))
Outcome-cases (ok a) = inl (a, refl)
Outcome-cases (err e) = inr (e, refl)

abbrev pub then_effect : {T : Type 0} → Outcome T → (T → Outcome T) → Outcome T
then_effect (ok t) g = g t
then_effect (err e) g = err e

module _ {T : Type 0} (execute : String → Work T (Unit {0})) where
  -- A migration that reads and writes the application's tables only.
  pub record OnTables (m : SchemaMigration T) : Type 0 where
    pub effect : T → Outcome T
    pub does : (s : Store T) → run execute m s ≡ lifted (effect s.tables) s

  pub run_all-append :
      (ms ns : List (SchemaMigration T)) (s : Store T)
      → run_all execute (ms ++ ns) s ≡ (run_all execute ms >> run_all execute ns) s
  unfolding run_all
  run_all-append [] ns s = refl
  run_all-append (m ∷ ms) ns s = elim (Outcome-cases (run execute m s)) [
    | inl ((u, s'), done) ↦ ground (arith, run_all-append ms ns s')
    | inr (e, raised) ↦ ground arith
  ]

  pub run_all-OnTables :
      (ms : List (SchemaMigration T))
      → All OnTables ms
      → (g : T → Outcome T) × ((s : Store T) → run_all execute ms s ≡ lifted (g s.tables) s)
  unfolding run_all
  run_all-OnTables [] all = (λ t. ok t, λ s. refl)
  run_all-OnTables (m ∷ ms) (first, all) =
      let (g, later) = run_all-OnTables ms all in
      (
        λ t. then_effect (first.effect t) g,
        λ s. elim (Outcome-cases (first.effect s.tables)) [
          | inl (t, done) ↦ elim (Outcome-cases (g t)) [
            | inl (t', done') ↦ ground (arith, first.does s, later (record s { tables = t }))
            | inr (e, raised) ↦ ground (arith, first.does s, later (record s { tables = t }))
          ]
          | inr (e, raised) ↦ ground (arith, first.does s)
        ],
      )

  pub drop-All :
      (n : ℕ) (ms : List (SchemaMigration T)) → All OnTables ms → All OnTables (drop n ms)
  unfolding drop
  drop-All zero ms all = all
  drop-All (suc n) [] all = tt
  drop-All (suc n) (m ∷ ms) (first, all) = drop-All n ms all

  pub append-All_left :
      (ms ns : List (SchemaMigration T)) → All OnTables (ms ++ ns) → All OnTables ms
  append-All_left [] ns all = tt
  append-All_left (m ∷ ms) ns (first, all) = (first, append-All_left ms ns all)

  pub append-All_right :
      (ms ns : List (SchemaMigration T)) → All OnTables (ms ++ ns) → All OnTables ns
  append-All_right [] ns all = all
  append-All_right (m ∷ ms) ns (first, all) = append-All_right ms ns all
