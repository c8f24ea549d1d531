-- ===== src/Table.antt =====
-- The SQL statements that the stores of safe_fs_ops execute, on a table that is the list of its
-- rows in insertion order: SELECT ... fetchone, UPDATE with its row count, INSERT with its
-- uniqueness constraint, DELETE. SQLite itself is not modelled further.
pub mod Keys
pub mod Order
use safe_fs_ops.Prelude.{
  ℕ, zero, suc, max, String, Bool, true, false, Option, none, some, List, [], ◌∷◌, ◌++◌,
  if◌then◌else◌, is_some,
}

module _ {R : Type 0} where
  -- SELECT ... WHERE p, then fetchone()
  unfoldable pub select : (R → Bool) → List R → Option R
  select p [] = none
  select p (r ∷ rows) = if p r then some r else select p rows

  -- SELECT ... WHERE p, then fetchall()
  unfoldable pub select_all : (R → Bool) → List R → List R
  select_all p [] = []
  select_all p (r ∷ rows) = let rest = select_all p rows in if p r then r ∷ rest else rest

  -- UPDATE ... SET f WHERE p
  unfoldable pub update : (R → Bool) → (R → R) → List R → List R
  update p f [] = []
  update p f (r ∷ rows) = (if p r then f r else r) ∷ update p f rows

  -- the row count of an UPDATE or a DELETE
  unfoldable pub count : (R → Bool) → List R → ℕ
  count p [] = 0
  count p (r ∷ rows) = let rest = count p rows in if p r then suc rest else rest

  -- DELETE ... WHERE p
  unfoldable pub delete : (R → Bool) → List R → List R
  delete p [] = []
  delete p (r ∷ rows) = let rest = delete p rows in if p r then rest else r ∷ rest

  -- INSERT of a row; `clash` says which stored rows violate a PRIMARY KEY or UNIQUE constraint,
  -- and `none` is sqlite3.IntegrityError.
  unfoldable pub insert : (R → Bool) → R → List R → Option (List R)
  unfolding select
  insert clash r rows = if is_some (select clash rows) then none else some (rows ++ r ∷ [])

  -- SELECT MAX(f) ... WHERE p, with 0 for NULL
  unfoldable pub max_of : (R → ℕ) → (R → Bool) → List R → ℕ
  max_of f p [] = 0
  max_of f p (r ∷ rows) = let rest = max_of f p rows in if p r then max (f r) rest else rest

  -- SELECT ... WHERE p ORDER BY f DESC LIMIT 1, then fetchone(). Of two rows with one value of
  -- `f` it takes the later; UNIQUE constraints keep such rows out.
  later : (R → ℕ) → R → Option R → R
  later f r none = r
  later f r (some s) = elim (Prim.Native.Nat.compare (f s) (f r)) [
    | Prim.Native.Nat.Ordering.lt ↦ r
    | _ ↦ s
  ]

  unfoldable pub latest : (R → ℕ) → (R → Bool) → List R → Option R
  unfolding later
  latest f p [] = none
  latest f p (r ∷ rows) = let rest = latest f p rows in if p r then some (later f r rest) else rest
