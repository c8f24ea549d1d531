-- ===== src/Database.antt =====
-- The SQLite database of a workspace: one table for each CREATE TABLE of
-- workspace_state/{leases,claims}.py and operation_journal/journal_schema.py, the exceptions that
-- the stores raise, and SqliteStore.transaction of sqlite_store/store.py.
mod Rows
mod Errors
pub mod Keeps
pub use Rows.*
pub use Errors.*
use safe_fs_ops.Prelude.{
  String, List, Bool, if◌then◌else◌, true, false, ◌⊎◌, inl, inr, ◌≡◌, refl, arith,
}

pub record Database : Type 0 where
  pub leases : List LeaseRow
  pub claims : List ClaimRow
  pub batches : List BatchRow
  pub runs : List OperationRunRow
  pub phases : List OperationPhaseRow
  pub operations : List OperationRow
  pub checkpoints : List CheckpointRow
  pub recoveries : List RecoveryRow
  pub actions : List RecoveryActionRow
  pub cleanups : List ArtifactCleanupRow

-- The body of a transaction. What it wrote before a raise is rolled back, so a raise carries no
-- database.
abbrev pub Tx : Type 0 → Type 0
Tx A = Database → Result (A × Database)

abbrev continue : {A B : Type 0} → Result (A × Database) → (A → Tx B) → Result (B × Database)
continue (ok (a, db)) f = f a db
continue (err e) f = err e

infixl 5 ◌>>=◌ ◌>>◌
abbrev pub ◌>>=◌ : {A B : Type 0} → Tx A → (A → Tx B) → Tx B
◌>>=◌ m f db = continue (m db) f

abbrev pub ◌>>◌ : {A B : Type 0} → Tx A → Tx B → Tx B
m >> k = m >>= λ _. k

abbrev pub pure : {A : Type 0} → A → Tx A
pure a db = ok (a, db)

abbrev pub raise : {A : Type 0} → Error → Tx A
raise e db = err e

abbrev pub raise_if : Bool → Error → Tx (Unit {0})
raise_if true e db = err e
raise_if false e db = ok (tt, db)

-- `with self.sqlite_store.transaction()`: commit at the end of the body, roll back on a raise.
unfoldable pub transaction : {A : Type 0} → Tx A → Database → Result A × Database
transaction body db = elim (body db) [ ok (a, db') ↦ (ok a, db') | err e ↦ (err e, db) ]

-- `if` between statements.
abbrev pub branch : {A : Type 0} → Bool → Tx A → Tx A → Tx A
branch true m n db = m db
branch false m n db = n db

-- A read inside a transaction.
abbrev pub reads : {A : Type 0} → (Database → A) → Tx A
reads f db = ok (f db, db)

-- To split on the outcome of a call and keep the equation.
pub Result-cases :
    {A : Type 0} (r : Result A) → ((a : A) × (r ≡ ok a)) ⊎ ((e : Error) × (r ≡ err e))
Result-cases (ok a) = inl (a, refl)
Result-cases (err e) = inr (e, refl)

-- A transaction that returns did what its body did; one that raises left the database alone.
pub transaction_ok :
    {A : Type 0} (body : Tx A) (db db' : Database) (a : A)
    → transaction body db ≡ (ok a, db')
    → body db ≡ ok (a, db')
unfolding transaction
transaction_ok body db db' a e = ground arith

pub transaction_inv :
    {A : Type 0} (body : Tx A) (db : Database)
    → ((a : A) × (db' : Database) × (body db ≡ ok (a, db')) × (transaction body db ≡ (ok a, db')))
      ⊎ ((e : Error) × (body db ≡ err e) × (transaction body db ≡ (err e, db)))
unfolding transaction
transaction_inv body db = elim (Result-cases (body db)) [
  | inl ((a, db'), done) ↦ inl (a, db', done, ground arith)
  | inr (e, raised) ↦ inr (e, raised, ground arith)
]
