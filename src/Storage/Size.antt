-- ===== src/Storage/Size.antt =====
-- A loop that patches rows neither adds nor removes one.
use field_pilot_ai_submissio.Common.{
  ◌≤◌, ◌≡◌, refl, ◌∙◌, some, Bool, List, [], ◌∷◌, String, text_equality, ==_iff, arith, length,
  filter_by, Option-cases, inl, inr,
}
use field_pilot_ai_submissio.Storage.Table
use field_pilot_ai_submissio.Storage.Table.{Spec}
use field_pilot_ai_submissio.Storage.Bulk.{patch_each}
use field_pilot_ai_submissio.Storage.Lookup.{key-get}

pub length-filter_by {ℓ} :
    {A : Type ℓ} (p : A → Bool) (xs : List A) → length (filter_by p xs) ≤ length xs
length-filter_by p [] = omega arith
length-filter_by p (x ∷ xs) = ground (arith, length-filter_by p xs)

module _ {R : Type 0} (spec : Spec R) where
  length-upsert :
      (k : String) (r old : R) (rows : List R)
      → Table.get spec k rows ≡ some old
      → spec.key r ≡ k
      → length (Table.upsert spec r rows) ≡ length rows
  unfolding Table.get Table.upsert
  length-upsert k r old [] h e = cc
  length-upsert k r old (x ∷ rows) h e =
      ground
        (arith, length-upsert k r old rows, ==_iff (spec.key x) k, ==_iff (spec.key x) (spec.key r))

  module _ (change : R → R) (keeps : (r : R) → spec.key (change r) ≡ spec.key r) where
    length-patch :
        (k : String) (rows : List R) → length (Table.patch spec k change rows).0 ≡ length rows
    unfolding Table.patch
    length-patch k rows = elim (Option-cases (Table.get spec k rows)) [
      | inl e ↦ rw (e, Table.patch) refl
      | inr (r, e) ↦
          rw (e, Table.patch)
            (length-upsert k (change r) r rows e (keeps r ∙ key-get spec k rows r e))
    ]

    pub length-patch_each :
        (rows table : List R) → length (patch_each spec change rows table) ≡ length table
    unfolding patch_each
    length-patch_each [] table = refl
    length-patch_each (r ∷ rows) table =
        length-patch_each rows (Table.patch spec (spec.key r) change table).0
        ∙ length-patch (spec.key r) table
