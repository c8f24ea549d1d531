-- ===== src/Database/Keeps.antt =====
-- Statements that leave a part of the database alone, one rule for each way to build a statement.
use safe_fs_ops.Prelude.{◌≡◌, refl, Bool, true, false, ◌∙◌, arith, inl, inr, if◌then◌else◌}
use safe_fs_ops.Database.{
  Database, Error, ok, err, Tx, ◌>>=◌, pure, raise, raise_if, reads, branch, transaction,
  transaction_inv, Result-cases,
}

-- Where `m` returns, `part` is as before.
pub record Keeps {B A : Type 0} (part : Database → B) (m : Tx A) : Type 0 where
  pub at : (db db' : Database) (a : A) → m db ≡ ok (a, db') → part db' ≡ part db

module _ {B : Type 0} {part : Database → B} where
  pub Keeps-pure : {A : Type 0} (a : A) → Keeps part (pure a)
  Keeps-pure a = record { at = λ db db' b e. ground arith }

  pub Keeps-raise : {A : Type 0} (e : Error) → Keeps part (raise {A = A} e)
  Keeps-raise e = record { at = λ db db' b e. cc }

  pub Keeps-raise_if : (c : Bool) (e : Error) → Keeps part (raise_if c e)
  Keeps-raise_if c e = record { at = λ db db' b e. ground arith }

  pub Keeps-reads : {A : Type 0} (g : Database → A) → Keeps part (reads g)
  Keeps-reads g = record { at = λ db db' b e. ground arith }

  pub Keeps-branch :
      {A : Type 0} (c : Bool) (m n : Tx A) → Keeps part m → Keeps part n → Keeps part (branch c m n)
  Keeps-branch true m n km kn = record { at = km.at }
  Keeps-branch false m n km kn = record { at = kn.at }

  pub Keeps-bind :
      {A C : Type 0} (m : Tx A) (g : A → Tx C)
      → Keeps part m
      → ((a : A) → Keeps part (g a))
      → Keeps part (m >>= g)
  Keeps-bind m g km kg = record {
    at = λ db db' b e. elim (Result-cases (m db)) [
      | inl ((a, mid), done) ↦
          let first = km.at db mid a done in
          let second = (kg a).at mid db' b (rw done at e) in second ∙ first
      | inr (x, refused) ↦ absurd (ground arith)
    ];
  }

  -- A transaction that raises leaves the whole database alone, and so does a refusal before it.
  pub Keeps-transaction :
      {A : Type 0} (body : Tx A) (db : Database)
      → Keeps part body
      → part (transaction body db).1 ≡ part db
  Keeps-transaction body db k = elim (transaction_inv body db) [
    | inl (a, db', done, is) ↦ rw is (k.at db db' a done)
    | inr (e, refused, is) ↦ rw is refl
  ]

  pub Keeps-call :
      {A : Type 0} (x : Error) (refuse : Bool) (body : Tx A) (db : Database)
      → Keeps part body
      → part (if refuse then (err x, db) else transaction body db).1 ≡ part db
  Keeps-call x true body db k = refl
  Keeps-call x false body db k = Keeps-transaction body db k

pub ruleset keeps_rules =
    (Keeps-pure, Keeps-raise, Keeps-raise_if, Keeps-reads, Keeps-branch, Keeps-bind)
