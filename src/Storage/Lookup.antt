-- ===== src/Storage/Lookup.antt =====
-- What a read by key finds after each write to a table.
use field_pilot_ai_submissio.Common.{
  ◌≡◌, refl, Option, none, some, List, [], ◌∷◌, String, text_equality, ◌==◌, ==_iff, if◌then◌else◌,
  arith, Option-cases, inl, inr,
}
use mathlib.Core.Option
use field_pilot_ai_submissio.Storage.Table
use field_pilot_ai_submissio.Storage.Table.{Spec}

module _ {R : Type 0} (spec : Spec R) where
  -- The row that an upsert leaves under its key, given the row before.
  abbrev pub stored : Option R → R → R
  stored none r = r
  stored (some old) r = spec.restore old r

  pub get-upsert :
      (r : R) (rows : List R) (k : String)
      → Table.get spec k (Table.upsert spec r rows) ≡ (
          if spec.key r == k
          then some (stored (Table.get spec k rows) r)
          else Table.get spec k rows)
  unfolding Table.get Table.upsert
  get-upsert r [] k = refl
  get-upsert r (x ∷ xs) k = ground (
    arith,
    get-upsert r xs k,
    ==_iff (spec.key x) (spec.key r),
    ==_iff (spec.key x) k,
    ==_iff (spec.key r) k,
    spec.key_restore x r,
  )

  pub key-get :
      (k : String) (rows : List R) (r : R) → Table.get spec k rows ≡ some r → spec.key r ≡ k
  unfolding Table.get
  key-get k [] r h = cc
  key-get k (x ∷ xs) r h = ground (arith, key-get k xs r, ==_iff (spec.key x) k)

  pub get-delete :
      (j : String) (rows : List R) (k : String)
      → Table.get spec k (Table.delete spec j rows).0
        ≡ (if j == k then none else Table.get spec k rows)
  unfolding Table.delete Table.get
  get-delete j [] k = ground arith
  get-delete j (x ∷ xs) k =
      ground (arith, get-delete j xs k, ==_iff (spec.key x) j, ==_iff (spec.key x) k, ==_iff j k)

  -- A patch whose change keeps the key.
  module _ (change : R → R) (keeps : (r : R) → spec.key (change r) ≡ spec.key r) where
    abbrev pub changed : R → R
    changed r = spec.restore r (change r)

    pub get-patch :
        (j : String) (rows : List R) (k : String)
        → Table.get spec k (Table.patch spec j change rows).0
          ≡ (if j == k then Option.map changed (Table.get spec k rows) else Table.get spec k rows)
    unfolding Table.patch
    get-patch j rows k = elim (Option-cases (Table.get spec j rows)) [
      | inl e ↦ ground (arith, ==_iff j k)
      | inr (r, e) ↦
          ground (arith, ==_iff j k, get-upsert (change r) rows k, keeps r, key-get j rows r e)
    ]

    -- `patch` returns the changed row, or nothing if there is none.
    pub patch-get :
        (j : String) (rows : List R)
        → (Table.patch spec j change rows).1 ≡ Option.map change (Table.get spec j rows)
    unfolding Table.patch
    patch-get j rows = ground arith
