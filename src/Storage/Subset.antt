-- ===== src/Storage/Subset.antt =====
-- Tests that a service makes itself on the rows of a query's result.
use field_pilot_ai_submissio.Common.{
  ℕ, suc, ◌≤◌, ◌≡◌, refl, ◌∙◌, Bool, true, List, [], ◌∷◌, String, text_equality, if◌then◌else◌,
  ◌&&◌, arith, filter_by, length,
}
use field_pilot_ai_submissio.Storage.Table
use field_pilot_ai_submissio.Storage.Table.{Spec}
use field_pilot_ai_submissio.Storage.Query.{
  has_key, UniqueKeys, passes, take_whole, length-sort_by, has_key-filter_by,
}
use field_pilot_ai_submissio.Storage.Rows.{has_key-filter-sort_by}

module _ {R : Type 0} where
  pub filter_by-filter_by :
      (p q : R → Bool) (xs : List R) → filter_by q (filter_by p xs) ≡ filter_by (λ x. p x && q x) xs
  filter_by-filter_by p q [] = refl
  filter_by-filter_by p q (x ∷ xs) = ground (arith, filter_by-filter_by p q xs)

  pub filter_by_all : (xs : List R) → filter_by (λ x. true) xs ≡ xs
  filter_by_all [] = refl
  filter_by_all (x ∷ xs) = rw (filter_by_all xs) refl

  length-filter-insert_by :
      (test : R → Bool) (before : R → R → Bool) (r : R) (xs : List R)
      → length (filter_by test (Table.insert_by before r xs))
        ≡ (if test r then suc (length (filter_by test xs)) else length (filter_by test xs))
  unfolding Table.insert_by
  length-filter-insert_by test before r [] = ground arith
  length-filter-insert_by test before r (x ∷ xs) =
      ground (arith, length-filter-insert_by test before r xs)

  pub length-filter-sort_by :
      (test : R → Bool) (before : R → R → Bool) (xs : List R)
      → length (filter_by test (Table.sort_by before xs)) ≡ length (filter_by test xs)
  unfolding Table.sort_by
  length-filter-sort_by test before [] = refl
  length-filter-sort_by test before (x ∷ xs) = ground (
    arith,
    length-filter-insert_by test before x (Table.sort_by before xs),
    length-filter-sort_by test before xs,
  )

module _ {R : Type 0} (spec : Spec R) (test again : R → Bool) (limit : ℕ) (desc : Bool)
    (table : List R) (within : Table.count spec test table ≤ limit) where
  -- A query whose limit is not reached is its filter, sorted.
  pub select_whole :
      Table.select spec test limit desc table
      ≡ Table.sort_by
          (if desc then Table.descending spec else Table.ascending spec)
          (filter_by test table)
  unfolding Table.select Table.count
  select_whole =
      let before = if desc then Table.descending spec else Table.ascending spec in
      take_whole (Table.sort_by before (filter_by test table)) limit
        (omega (arith, length-sort_by spec before (filter_by test table), within))

  pub has_key-filter-select :
      (k : String)
      → UniqueKeys spec table
      → has_key spec k (filter_by again (Table.select spec test limit desc table))
        ≡ passes spec (λ r. test r && again r) (Table.get spec k table)
  has_key-filter-select k u = rw select_whole (
      has_key-filter-sort_by spec again _ k (filter_by test table)
      ∙ rw (filter_by-filter_by test again table)
          (has_key-filter_by spec (λ r. test r && again r) k table u))

  pub length-filter-select :
      length (filter_by again (Table.select spec test limit desc table))
      ≡ Table.count spec (λ r. test r && again r) table
  unfolding Table.count
  length-filter-select = rw select_whole (
      length-filter-sort_by again _ (filter_by test table)
      ∙ rw (filter_by-filter_by test again table) refl)
