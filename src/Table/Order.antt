-- ===== src/Table/Order.antt =====
-- Tables with a sequence number: MAX(f), and the newest row of a group, before and after an INSERT.
use safe_fs_ops.Prelude.{
  ℕ, ◌≤◌, ◌<◌, ◌≡◌, refl, Bool, true, false, ◌&&◌, none, some, List, [], ◌∷◌, ◌++◌, arith, nat_eq,
  Option-cases, inl, inr,
}
use safe_fs_ops.Table.{select, max_of, latest}

module _ {R : Type 0} (f : R → ℕ) (p : R → Bool) where
  -- The newest row is of the group and below the maximum.
  pub latest_bound :
      (rows : List R) (s : R) → latest f p rows ≡ some s → (p s ≡ true) × (f s ≤ max_of f p rows)
  unfolding latest max_of
  latest_bound [] s e = cc
  latest_bound (x ∷ rows) s e = elim (Option-cases (latest f p rows)) [
    | inl nothing ↦ ground arith
    | inr (r, some_row) ↦ ground (arith, latest_bound rows r some_row)
  ]

  pub latest-append :
      (new : R) (rows : List R)
      → p new ≡ true
      → max_of f p rows < f new
      → latest f p (rows ++ new ∷ []) ≡ some new
  unfolding latest max_of
  latest-append new [] h above = ground arith
  latest-append new (x ∷ rows) h above = ground (arith, latest-append new rows h)

  pub latest-append_other :
      (new : R) (rows : List R) → p new ≡ false → latest f p (rows ++ new ∷ []) ≡ latest f p rows
  unfolding latest
  latest-append_other new [] h = ground arith
  latest-append_other new (x ∷ rows) h = ground (arith, latest-append_other new rows h)

  -- Above the maximum no row of the group has the sequence number.
  pub select_above :
      (n : ℕ) (rows : List R)
      → max_of f p rows < n
      → select (λ r. p r && nat_eq (f r) n) rows ≡ none
  unfolding select max_of
  select_above n [] above = refl
  select_above n (x ∷ rows) above = ground (arith, select_above n rows)
