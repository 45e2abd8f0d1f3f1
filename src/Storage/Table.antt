-- ===== src/Storage/Table.antt =====
-- fieldpilot/storage/docstore.py: a table of typed records over SQLite. A table is its rows in the
-- order of their first insertion; a filter is a test on rows; rows that a query's order does not tell
-- apart come in the order of insertion.
use field_pilot_ai_submissio.Common.{
  ℕ, ◌≡◌, Option, none, some, Bool, List, [], ◌∷◌, String, text_equality, ◌==◌, if◌then◌else◌,
  length, take, filter_by, is_some, not,
}

-- What a TableSpec says of a table's records: the primary key, whether a row comes before another
-- one in the order of the `order_by` column, and how the immutable columns of an old row are carried over into a new one.
pub record Spec (R : Type 0) : Type 0 where
  pub key : R → String
  pub before : R → R → Bool
  pub restore : R → R → R
  pub key_restore : (old new : R) → key (restore old new) ≡ key new

-- `ORDER BY column` on rows that are already in order
unfoldable pub insert_by : {R : Type 0} → (R → R → Bool) → R → List R → List R
insert_by before r [] = r ∷ []
insert_by before r (x ∷ xs) = if before x r then x ∷ insert_by before r xs else r ∷ x ∷ xs

unfoldable pub sort_by : {R : Type 0} → (R → R → Bool) → List R → List R
unfolding insert_by
sort_by before [] = []
sort_by before (x ∷ xs) = insert_by before x (sort_by before xs)

module _ {R : Type 0} (spec : Spec R) where
  -- `INSERT … ON CONFLICT(key) DO UPDATE SET` the mutable columns
  unfoldable pub upsert : R → List R → List R
  upsert r [] = r ∷ []
  upsert r (x ∷ xs) = if spec.key x == spec.key r then spec.restore x r ∷ xs else x ∷ upsert r xs

  unfoldable pub get : String → List R → Option R
  get k [] = none
  get k (x ∷ xs) = if spec.key x == k then some x else get k xs

  unfoldable pub put : R → List R → List R × R
  unfolding upsert
  put r rows = (upsert r rows, r)

  -- The rows that are left, and whether one was deleted.
  unfoldable pub delete : String → List R → List R × Bool
  unfolding get
  delete k rows = (filter_by (λ x. not (spec.key x == k)) rows, is_some (get k rows))

  -- Read, change, write back.
  unfoldable pub patch : String → (R → R) → List R → List R × Option R
  unfolding get upsert
  patch k change rows = elim (get k rows) [
    | none ↦ (rows, none)
    | some r ↦ (upsert (change r) rows, some (change r))
  ]

  abbrev pub ascending : R → R → Bool
  ascending a b = spec.before a b

  abbrev pub descending : R → R → Bool
  descending a b = spec.before b a

  -- `SELECT * … WHERE … ORDER BY … LIMIT …`
  unfoldable pub select : (R → Bool) → ℕ → Bool → List R → List R
  unfolding sort_by
  select where' limit desc rows =
      take limit (sort_by (if desc then descending else ascending) (filter_by where' rows))

  unfoldable pub count : (R → Bool) → List R → ℕ
  count where' rows = length (filter_by where' rows)
