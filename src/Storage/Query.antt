-- ===== src/Storage/Query.antt =====
-- Which rows a query returns: the keys of the rows that its filter lets through.
use field_pilot_ai_submissio.Common.{
  ℕ, zero, suc, ◌≤◌, ◌≡◌, refl, ◌∙◌, Option, none, some, Bool, false, List, [], ◌∷◌, String,
  text_equality, ◌==◌, ==_iff, if◌then◌else◌, ◌||◌, arith, filter_by, length, take,
}
use field_pilot_ai_submissio.Storage.Table
use field_pilot_ai_submissio.Storage.Table.{Spec}

-- A list no longer than the limit is taken whole.
pub take_whole {ℓ} : {A : Type ℓ} (xs : List A) (limit : ℕ) → length xs ≤ limit → take limit xs ≡ xs
take_whole [] zero h = refl
take_whole [] (suc limit) h = refl
take_whole (x ∷ xs) zero h = absurd (omega arith)
take_whole (x ∷ xs) (suc limit) h = rw (take_whole xs limit (omega arith))

module _ {R : Type 0} (spec : Spec R) where
  -- Some row has the key.
  unfoldable pub has_key : String → List R → Bool
  has_key k [] = false
  has_key k (x ∷ xs) = spec.key x == k || has_key k xs

  -- Every key once, as a primary key has it.
  abbrev pub UniqueKeys : List R → Type 0
  UniqueKeys [] = Unit
  UniqueKeys (x ∷ xs) = (has_key (spec.key x) xs ≡ false) × UniqueKeys xs

  pub has_key-insert_by :
      (before : R → R → Bool) (r : R) (k : String) (xs : List R)
      → has_key k (Table.insert_by before r xs) ≡ (spec.key r == k || has_key k xs)
  unfolding Table.insert_by has_key
  has_key-insert_by before r k [] = refl
  has_key-insert_by before r k (x ∷ xs) = ground (arith, has_key-insert_by before r k xs)

  pub has_key-sort_by :
      (before : R → R → Bool) (k : String) (xs : List R)
      → has_key k (Table.sort_by before xs) ≡ has_key k xs
  unfolding Table.sort_by has_key
  has_key-sort_by before k [] = refl
  has_key-sort_by before k (x ∷ xs) =
      has_key-insert_by before x k (Table.sort_by before xs) ∙ rw (has_key-sort_by before k xs)

  length-insert_by :
      (before : R → R → Bool) (r : R) (xs : List R)
      → length (Table.insert_by before r xs) ≡ suc (length xs)
  unfolding Table.insert_by
  length-insert_by before r [] = refl
  length-insert_by before r (x ∷ xs) = ground (arith, length-insert_by before r xs)

  pub length-sort_by :
      (before : R → R → Bool) (xs : List R) → length (Table.sort_by before xs) ≡ length xs
  unfolding Table.sort_by
  length-sort_by before [] = refl
  length-sort_by before (x ∷ xs) =
      length-insert_by before x (Table.sort_by before xs) ∙ rw (length-sort_by before xs)

  pub get-has_key : (k : String) (xs : List R) → has_key k xs ≡ false → Table.get spec k xs ≡ none
  unfolding has_key Table.get
  get-has_key k [] h = refl
  get-has_key k (x ∷ xs) h = ground (arith, get-has_key k xs)

  abbrev pub passes : (R → Bool) → Option R → Bool
  passes test none = false
  passes test (some r) = test r

  pub has_key-filter_by :
      (test : R → Bool) (k : String) (xs : List R)
      → UniqueKeys xs
      → has_key k (filter_by test xs) ≡ passes test (Table.get spec k xs)
  unfolding has_key Table.get
  has_key-filter_by test k [] u = refl
  has_key-filter_by test k (x ∷ xs) (n, u) =
      ground (arith, has_key-filter_by test k xs u, get-has_key k xs, ==_iff (spec.key x) k)

  -- A query whose limit is not reached returns the rows that pass its filter, and no others.
  pub has_key-select :
      (test : R → Bool) (limit : ℕ) (desc : Bool) (rows : List R) (k : String)
      → UniqueKeys rows
      → Table.count spec test rows ≤ limit
      → has_key k (Table.select spec test limit desc rows) ≡ passes test (Table.get spec k rows)
  unfolding Table.select Table.count
  has_key-select test limit desc rows k u h =
      let before = if desc then Table.descending spec else Table.ascending spec in
      let sorted = Table.sort_by before (filter_by test rows) in
      let whole : take limit sorted ≡ sorted =
        take_whole sorted limit (omega (arith, length-sort_by before (filter_by test rows), h)) in
      rw whole (has_key-sort_by before k (filter_by test rows) ∙ has_key-filter_by test k rows u)
