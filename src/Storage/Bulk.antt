-- ===== src/Storage/Bulk.antt =====
-- Loops that patch or delete every row of a query's result, one by one.
use field_pilot_ai_submissio.Common.{
  ℕ, ◌≤◌, ◌≡◌, refl, ◌∙◌, Option, none, some, Bool, List, [], ◌∷◌, String, text_equality, ◌==◌,
  ==_iff, if◌then◌else◌, ◌||◌, arith, Bool-cases, Option-cases, inl, inr,
}
use mathlib.Core.Option
use field_pilot_ai_submissio.Storage.Table
use field_pilot_ai_submissio.Storage.Table.{Spec}
use field_pilot_ai_submissio.Storage.Lookup.{get-patch, get-delete, changed}
use field_pilot_ai_submissio.Storage.Query.{has_key, UniqueKeys, passes, has_key-select}

module _ {R : Type 0} (spec : Spec R) where
  -- `for row in rows: await table.patch(row[key], …)`
  unfoldable pub patch_each : (R → R) → List R → List R → List R
  patch_each change [] table = table
  patch_each change (r ∷ rows) table =
      patch_each change rows (Table.patch spec (spec.key r) change table).0

  -- `for row in rows: await table.delete(row[key])`
  unfoldable pub delete_each : List R → List R → List R
  delete_each [] table = table
  delete_each (r ∷ rows) table = delete_each rows (Table.delete spec (spec.key r) table).0

  has_key-upsert :
      (r : R) (k : String) (rows : List R)
      → has_key spec k (Table.upsert spec r rows) ≡ (spec.key r == k || has_key spec k rows)
  unfolding has_key Table.upsert
  has_key-upsert r k [] = refl
  has_key-upsert r k (x ∷ xs) =
      ground (arith, has_key-upsert r k xs, spec.key_restore x r, ==_iff (spec.key x) (spec.key r))

  pub UniqueKeys-upsert :
      (r : R) (rows : List R) → UniqueKeys spec rows → UniqueKeys spec (Table.upsert spec r rows)
  unfolding Table.upsert has_key
  UniqueKeys-upsert r [] u = (refl, tt)
  UniqueKeys-upsert r (x ∷ xs) (n, u) = elim (Bool-cases (spec.key x == spec.key r)) [
    | inl same ↦ rw (same, spec.key_restore x r, ← (==_iff (spec.key x) (spec.key r)).0 same) (n, u)
    | inr other ↦ rw other (
      ground (
        arith,
        has_key-upsert r (spec.key x) xs,
        ==_iff (spec.key x) (spec.key r),
        ==_iff (spec.key r) (spec.key x),
      ),
      UniqueKeys-upsert r xs u,
    )
  ]

  pub UniqueKeys-patch :
      (k : String) (change : R → R) (rows : List R)
      → UniqueKeys spec rows
      → UniqueKeys spec (Table.patch spec k change rows).0
  unfolding Table.patch
  UniqueKeys-patch k change rows u = elim (Option-cases (Table.get spec k rows)) [
    | inl e ↦ rw (e, Table.patch) u
    | inr (r, e) ↦ rw (e, Table.patch) (UniqueKeys-upsert (change r) rows u)
  ]

  pub UniqueKeys-patch_each :
      (change : R → R) (rows table : List R)
      → UniqueKeys spec table
      → UniqueKeys spec (patch_each change rows table)
  unfolding patch_each
  UniqueKeys-patch_each change [] table u = u
  UniqueKeys-patch_each change (r ∷ rows) table u =
      UniqueKeys-patch_each change rows _ (UniqueKeys-patch (spec.key r) change table u)

  pub get-delete_each :
      (rows table : List R) (k : String)
      → Table.get spec k (delete_each rows table)
        ≡ (if has_key spec k rows then none else Table.get spec k table)
  unfolding delete_each has_key
  get-delete_each [] table k = refl
  get-delete_each (r ∷ rows) table k =
      get-delete_each rows (Table.delete spec (spec.key r) table).0 k
      ∙ ground (arith, get-delete spec (spec.key r) table k)

  module _ (change : R → R) (keeps : (r : R) → spec.key (change r) ≡ spec.key r) where
    abbrev pub rewritten : R → R
    rewritten = changed spec change keeps

    module _ (settles : (r : R) → rewritten (rewritten r) ≡ rewritten r) where
      map_settles :
          (o : Option R) → Option.map rewritten (Option.map rewritten o) ≡ Option.map rewritten o
      map_settles none = refl
      map_settles (some r) = rw (settles r)

      pub get-patch_each :
          (rows table : List R) (k : String)
          → Table.get spec k (patch_each change rows table) ≡ (
              if has_key spec k rows
              then Option.map rewritten (Table.get spec k table)
              else Table.get spec k table)
      unfolding patch_each has_key
      get-patch_each [] table k = refl
      get-patch_each (r ∷ rows) table k =
          get-patch_each rows (Table.patch spec (spec.key r) change table).0 k
          ∙ ground (
            arith,
            get-patch spec change keeps (spec.key r) table k,
            map_settles (Table.get spec k table),
          )

      -- Patching every row that a query finds changes, in the table, the rows that pass the query's
      -- filter, and no others, provided that the query's limit is not reached.
      pub get-patch_selected :
          (test : R → Bool) (limit : ℕ) (desc : Bool) (table : List R) (k : String)
          → UniqueKeys spec table
          → Table.count spec test table ≤ limit
          → Table.get spec k (patch_each change (Table.select spec test limit desc table) table) ≡ (
              if passes spec test (Table.get spec k table)
              then Option.map rewritten (Table.get spec k table)
              else Table.get spec k table)
      get-patch_selected test limit desc table k u h =
          get-patch_each (Table.select spec test limit desc table) table k
          ∙ rw (has_key-select spec test limit desc table k u h)
