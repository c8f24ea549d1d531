-- ===== src/Table/Keys.antt =====
-- Tables with a text key: what each statement does to the row that a key selects, and that the
-- key stays unique.
use safe_fs_ops.Prelude.{
  String, ◌≡◌, refl, Bool, true, ◌&&◌, Option, none, some, List, [], ◌∷◌, ◌++◌, arith,
  if◌then◌else◌, ◌==◌, inl, inr, Bool-cases, subst,
}
use safe_fs_ops.Table.{select, update, count, delete}

module _ {R : Type 0} where
  -- A property of every row of a table.
  abbrev pub All : (R → Type 0) → List R → Type 0
  All P [] = Unit
  All P (r ∷ rows) = P r × All P rows

  -- What an UPDATE makes of one selected row.
  abbrev pub updated : (R → Bool) → (R → R) → Option R → Option R
  updated p f none = none
  updated p f (some r) = some (if p r then f r else r)

  abbrev pub mapped : (R → R) → Option R → Option R
  mapped f none = none
  mapped f (some r) = some (f r)

  -- What a DELETE makes of one selected row.
  abbrev pub remaining : (R → Bool) → Option R → Option R
  remaining p none = none
  remaining p (some r) = if p r then none else some r

  -- What an INSERT makes of the row selected before: the new row shows if it fits.
  abbrev pub joined : (R → Bool) → R → Option R → Option R
  joined p new none = if p new then some new else none
  joined p new (some r) = some r

  -- A selected row satisfies the condition, and what all rows satisfy.
  pub select_sound : (p : R → Bool) (rows : List R) (r : R) → select p rows ≡ some r → p r ≡ true
  unfolding select
  select_sound p [] r e = cc
  select_sound p (x ∷ rows) r e = ground (arith, select_sound p rows r)

  pub select-All :
      (P : R → Type 0) (p : R → Bool) (rows : List R) (r : R)
      → All P rows
      → select p rows ≡ some r
      → P r
  unfolding select
  select-All P p [] r h e = cc
  select-All P p (x ∷ rows) r (hx, h) e = elim (Bool-cases (p x)) [
    | inl t ↦ let same : x ≡ r = ground arith in subst P same hx
    | inr t ↦ select-All P p rows r h (rw t at e)
  ]

  pub update-All :
      (P : R → Type 0) (p : R → Bool) (f : R → R)
      → ((r : R) → P r → P (f r))
      → (rows : List R) → All P rows
      → All P (update p f rows)
  unfolding update
  update-All P p f k [] h = tt
  update-All P p f k (x ∷ rows) (hx, h) = elim (Bool-cases (p x)) [
    | inl t ↦ rw t (k x hx, update-All P p f k rows h)
    | inr t ↦ rw t (hx, update-All P p f k rows h)
  ]

  pub append-All :
      (P : R → Type 0) (new : R) (rows : List R) → P new → All P rows → All P (rows ++ new ∷ [])
  append-All P new [] n h = (n, tt)
  append-All P new (x ∷ rows) n (hx, h) = (hx, append-All P new rows n h)

  -- An UPDATE with row count 0 changes nothing.
  pub update_of_count_zero :
      (p : R → Bool) (f : R → R) (rows : List R) → count p rows ≡ 0 → update p f rows ≡ rows
  unfolding update count
  update_of_count_zero p f [] e = refl
  update_of_count_zero p f (x ∷ rows) e = ground (arith, update_of_count_zero p f rows)

module _ {R : Type 0} (key : R → String) where
  -- The condition of a WHERE on the key column.
  abbrev pub has : String → R → Bool
  has k r = key r == k

  -- No two rows share a key.
  abbrev pub Unique : List R → Type 0
  Unique [] = Unit
  Unique (r ∷ rows) = (select (has (key r)) rows ≡ none) × Unique rows

  pub select-update :
      (p : R → Bool) (f : R → R)
      → ((r : R) → key (f r) ≡ key r)
      → (k : String) (rows : List R)
      → select (has k) (update p f rows) ≡ updated p f (select (has k) rows)
  unfolding select update
  select-update p f keeps k [] = refl
  select-update p f keeps k (x ∷ rows) = ground (arith, keeps x, select-update p f keeps k rows)

  pub select-append :
      (new : R) (k : String) (rows : List R)
      → select (has k) (rows ++ new ∷ []) ≡ joined (has k) new (select (has k) rows)
  unfolding select
  select-append new k [] = refl
  select-append new k (x ∷ rows) = ground (arith, select-append new k rows)

  pub select-delete :
      (p : R → Bool) (k : String) (rows : List R)
      → Unique rows
      → select (has k) (delete p rows) ≡ remaining p (select (has k) rows)
  unfolding select delete
  select-delete p k [] u = refl
  select-delete p k (x ∷ rows) (fresh, u) = ground (arith, select-delete p k rows u)

  pub update-Unique :
      (p : R → Bool) (f : R → R)
      → ((r : R) → key (f r) ≡ key r)
      → (rows : List R) → Unique rows
      → Unique (update p f rows)
  unfolding update
  update-Unique p f keeps [] u = tt
  update-Unique p f keeps (x ∷ rows) (fresh, u) = (
    ground (arith, select-update p f keeps (key x) rows, keeps x),
    update-Unique p f keeps rows u,
  )

  pub append-Unique :
      (new : R) (rows : List R)
      → select (has (key new)) rows ≡ none
      → Unique rows
      → Unique (rows ++ new ∷ [])
  unfolding select
  append-Unique new [] e u = (refl, tt)
  append-Unique new (x ∷ rows) e (fresh, u) =
      (ground (arith, select-append new (key x) rows), append-Unique new rows (ground arith) u)

  pub delete-Unique : (p : R → Bool) (rows : List R) → Unique rows → Unique (delete p rows)
  unfolding delete
  delete-Unique p [] u = tt
  delete-Unique p (x ∷ rows) (fresh, u) = elim (Bool-cases (p x)) [
    | inl t ↦ rw t (delete-Unique p rows u)
    | inr t ↦ rw t (ground (arith, select-delete p (key x) rows u), delete-Unique p rows u)
  ]

  -- At a unique key the row count is at most 1.
  pub count-has :
      (q : R → Bool) (k : String) (rows : List R)
      → Unique rows
      → count (λ r. has k r && q r) rows
        ≡ elim (select (has k) rows) [ none ↦ 0 | some r ↦ if q r then 1 else 0 ]
  unfolding count select
  count-has q k [] u = refl
  count-has q k (x ∷ rows) (fresh, u) = ground (arith, count-has q k rows u)

  -- A further condition on a unique key: the row of the key, if it meets the condition.
  abbrev pub narrowed : (R → Bool) → Option R → Option R
  narrowed q none = none
  narrowed q (some r) = if q r then some r else none

  pub select-narrowed :
      (q : R → Bool) (k : String) (rows : List R)
      → Unique rows
      → select (λ r. has k r && q r) rows ≡ narrowed q (select (has k) rows)
  unfolding select
  select-narrowed q k [] u = refl
  select-narrowed q k (x ∷ rows) (fresh, u) = ground (arith, select-narrowed q k rows u)

  -- An UPDATE on one key changes the row of that key alone.
  pub select-update_at :
      (q : R → Bool) (f : R → R)
      → ((r : R) → key (f r) ≡ key r)
      → (j k : String) (rows : List R)
      → select (has k) (update (λ r. has j r && q r) f rows)
        ≡ (if j == k then updated q f (select (has k) rows) else select (has k) rows)
  unfolding select update
  select-update_at q f keeps j k [] = ground arith
  select-update_at q f keeps j k (x ∷ rows) =
      ground (arith, keeps x, select-update_at q f keeps j k rows)

  pub select-update_key :
      (f : R → R)
      → ((r : R) → key (f r) ≡ key r)
      → (j k : String) (rows : List R)
      → select (has k) (update (has j) f rows)
        ≡ (if j == k then mapped f (select (has k) rows) else select (has k) rows)
  unfolding select update
  select-update_key f keeps j k [] = ground arith
  select-update_key f keeps j k (x ∷ rows) =
      ground (arith, keeps x, select-update_key f keeps j k rows)
