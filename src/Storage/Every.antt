-- ===== src/Storage/Every.antt =====
-- What holds of every row of a table keeps holding when a row is written.
use field_pilot_ai_submissio.Common.{
  ◌≡◌, some, List, [], ◌∷◌, String, text_equality, ◌==◌, All, Bool-cases, Option-cases, inl, inr,
}
use mathlib.Core.Path.{subst}
use field_pilot_ai_submissio.Storage.Table
use field_pilot_ai_submissio.Storage.Table.{Spec}

module _ {κ} {R : Type 0} (spec : Spec R) (P : R → Type κ) where
  pub All-upsert :
      (r : R) (rows : List R)
      → P r
      → ((old : R) → P (spec.restore old r))
      → All P rows
      → All P (Table.upsert spec r rows)
  unfolding Table.upsert
  All-upsert r [] p keeps h = (p, tt)
  All-upsert r (x ∷ rows) p keeps (q, h) = elim (Bool-cases (spec.key x == spec.key r)) [
    | inl same ↦ rw same (keeps x, h)
    | inr other ↦ rw other (q, All-upsert r rows p keeps h)
  ]

  pub All-get :
      (k : String) (rows : List R) (r : R) → All P rows → Table.get spec k rows ≡ some r → P r
  unfolding Table.get
  All-get k [] r h q = cc
  All-get k (x ∷ rows) r (p, h) q = elim (Bool-cases (spec.key x == k)) [
    | inl same ↦ let e : x ≡ r = (let s : some x ≡ some r = rw same at q in cc) in subst P e p
    | inr other ↦ All-get k rows r h (rw other at q)
  ]

  pub All-patch :
      (k : String) (change : R → R) (rows : List R)
      → ((r : R) → P r → P (change r))
      → ((old r : R) → P r → P (spec.restore old r))
      → All P rows
      → All P (Table.patch spec k change rows).0
  unfolding Table.patch
  All-patch k change rows changes keeps h = elim (Option-cases (Table.get spec k rows)) [
    | inl e ↦ rw (e, Table.patch) h
    | inr (r, e) ↦
        let p = changes r (All-get k rows r h e) in
        rw (e, Table.patch) (All-upsert (change r) rows p (λ old. keeps old (change r) p) h)
  ]
