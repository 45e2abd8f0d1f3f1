-- ===== src/Storage/Rows.antt =====
-- What the rows of a query's result have to do with the table: they are its rows, each key once.
use field_pilot_ai_submissio.Common.{
  ℕ, zero, suc, take, ◌≡◌, refl, ◌∙◌, some, Bool, true, false, List, [], ◌∷◌, String, text_equality,
  ◌==◌, ==_iff, ==_refl, if◌then◌else◌, ◌||◌, ◌&&◌, not, arith, filter_by, All, Bool-cases, inl,
  inr,
}
use field_pilot_ai_submissio.Storage.Table
use field_pilot_ai_submissio.Storage.Table.{Spec}
use field_pilot_ai_submissio.Storage.Query.{has_key, UniqueKeys, has_key-sort_by, has_key-insert_by}

pub All-filter_by {ℓ κ} :
    {A : Type ℓ} (P : A → Type κ) (test : A → Bool) (xs : List A)
    → All P xs
    → All P (filter_by test xs)
All-filter_by P test [] h = tt
All-filter_by P test (x ∷ xs) (p, h) = elim (Bool-cases (test x)) [
  | inl hit ↦ rw hit (p, All-filter_by P test xs h)
  | inr miss ↦ rw miss (All-filter_by P test xs h)
]

-- What passes a filter passes its test.
pub All-passed {ℓ} :
    {A : Type ℓ} (test : A → Bool) (xs : List A) → All (λ x. test x ≡ true) (filter_by test xs)
All-passed test [] = tt
All-passed test (x ∷ xs) = elim (Bool-cases (test x)) [
  | inl hit ↦ rw hit (hit, All-passed test xs)
  | inr miss ↦ rw miss (All-passed test xs)
]

module _ {R : Type 0} where
  pub All-insert_by {κ} :
      (P : R → Type κ) (before : R → R → Bool) (r : R) (xs : List R)
      → P r
      → All P xs
      → All P (Table.insert_by before r xs)
  unfolding Table.insert_by
  All-insert_by P before r [] p h = (p, tt)
  All-insert_by P before r (x ∷ xs) p (q, h) = elim (Bool-cases (before x r)) [
    | inl hit ↦ rw hit (q, All-insert_by P before r xs p h)
    | inr miss ↦ rw miss (p, (q, h))
  ]

  pub All-sort_by {κ} :
      (P : R → Type κ) (before : R → R → Bool) (xs : List R)
      → All P xs
      → All P (Table.sort_by before xs)
  unfolding Table.sort_by
  All-sort_by P before [] h = tt
  All-sort_by P before (x ∷ xs) (p, h) =
      All-insert_by P before x (Table.sort_by before xs) p (All-sort_by P before xs h)

  pub All-take {κ} : (P : R → Type κ) (n : ℕ) (xs : List R) → All P xs → All P (take n xs)
  All-take P zero xs h = tt
  All-take P (suc n) [] h = tt
  All-take P (suc n) (x ∷ xs) (p, h) = (p, All-take P n xs h)

module _ {R : Type 0} (spec : Spec R) where
  UniqueKeys-insert_by :
      (before : R → R → Bool) (r : R) (xs : List R)
      → has_key spec (spec.key r) xs ≡ false
      → UniqueKeys spec xs
      → UniqueKeys spec (Table.insert_by before r xs)
  unfolding Table.insert_by has_key
  UniqueKeys-insert_by before r [] n u = (refl, tt)
  UniqueKeys-insert_by before r (x ∷ xs) n (m, u) = elim (Bool-cases (before x r)) [
    | inl hit ↦ rw hit (
      ground (
        arith,
        has_key-insert_by spec before r (spec.key x) xs,
        ==_iff (spec.key x) (spec.key r),
        ==_iff (spec.key r) (spec.key x),
      ),
      UniqueKeys-insert_by before r xs (ground (arith)) u,
    )
    | inr miss ↦ rw miss (n, (m, u))
  ]

  pub UniqueKeys-sort_by :
      (before : R → R → Bool) (xs : List R)
      → UniqueKeys spec xs
      → UniqueKeys spec (Table.sort_by before xs)
  unfolding Table.sort_by
  UniqueKeys-sort_by before [] u = tt
  UniqueKeys-sort_by before (x ∷ xs) (n, u) =
      UniqueKeys-insert_by before x (Table.sort_by before xs)
        (has_key-sort_by spec before (spec.key x) xs ∙ n) (UniqueKeys-sort_by before xs u)

  has_key-filtered :
      (test : R → Bool) (k : String) (xs : List R)
      → has_key spec k xs ≡ false
      → has_key spec k (filter_by test xs) ≡ false
  unfolding has_key
  has_key-filtered test k [] n = refl
  has_key-filtered test k (x ∷ xs) n = ground (arith, has_key-filtered test k xs)

  pub UniqueKeys-filter_by :
      (test : R → Bool) (xs : List R) → UniqueKeys spec xs → UniqueKeys spec (filter_by test xs)
  UniqueKeys-filter_by test [] u = tt
  UniqueKeys-filter_by test (x ∷ xs) (n, u) = elim (Bool-cases (test x)) [
    | inl hit ↦ rw hit (has_key-filtered test (spec.key x) xs n, UniqueKeys-filter_by test xs u)
    | inr miss ↦ rw miss (UniqueKeys-filter_by test xs u)
  ]

  -- The two halves that a test splits rows into have all their keys, and none in common.
  pub has_key-halves :
      (test : R → Bool) (k : String) (xs : List R)
      → (has_key spec k (filter_by test xs) || has_key spec k (filter_by (λ x. not (test x)) xs))
        ≡ has_key spec k xs
  unfolding has_key
  has_key-halves test k [] = refl
  has_key-halves test k (x ∷ xs) = ground (arith, has_key-halves test k xs)

  pub has_key-disjoint :
      (test : R → Bool) (k : String) (xs : List R)
      → UniqueKeys spec xs
      → has_key spec k (filter_by test xs) ≡ true
      → has_key spec k (filter_by (λ x. not (test x)) xs) ≡ false
  unfolding has_key
  has_key-disjoint test k [] u h = refl
  has_key-disjoint test k (x ∷ xs) (n, u) h = ground (
    arith,
    has_key-disjoint test k xs u,
    has_key-filtered test k xs,
    has_key-filtered (λ y. not (test y)) k xs,
    ==_iff (spec.key x) k,
  )

  abbrev pub Held : List R → R → Type 0
  Held table r = Table.get spec (spec.key r) table ≡ some r

  Held-cons :
      (x : R) (table xs : List R)
      → has_key spec (spec.key x) xs ≡ false
      → All (Held table) xs
      → All (Held (x ∷ table)) xs
  unfolding Table.get has_key
  Held-cons x table [] n h = tt
  Held-cons x table (r ∷ xs) n (p, h) = (
    ground (arith, ==_iff (spec.key x) (spec.key r), ==_iff (spec.key r) (spec.key x)),
    Held-cons x table xs (ground (arith)) h,
  )

  pub Held-self : (table : List R) → UniqueKeys spec table → All (Held table) table
  unfolding Table.get
  Held-self [] u = tt
  Held-self (x ∷ xs) (n, u) = (rw (==_refl (spec.key x)), Held-cons x xs xs n (Held-self xs u))

  has_key-filter-insert_by :
      (test : R → Bool) (before : R → R → Bool) (r : R) (k : String) (xs : List R)
      → has_key spec k (filter_by test (Table.insert_by before r xs))
        ≡ ((test r && (spec.key r == k)) || has_key spec k (filter_by test xs))
  unfolding Table.insert_by has_key
  has_key-filter-insert_by test before r k [] = ground arith
  has_key-filter-insert_by test before r k (x ∷ xs) =
      ground (arith, has_key-filter-insert_by test before r k xs)

  -- Sorting first does not change what a filter lets through.
  pub has_key-filter-sort_by :
      (test : R → Bool) (before : R → R → Bool) (k : String) (xs : List R)
      → has_key spec k (filter_by test (Table.sort_by before xs))
        ≡ has_key spec k (filter_by test xs)
  unfolding Table.sort_by has_key
  has_key-filter-sort_by test before k [] = refl
  has_key-filter-sort_by test before k (x ∷ xs) =
      has_key-filter-insert_by test before x k (Table.sort_by before xs)
      ∙ ground (arith, has_key-filter-sort_by test before k xs)

  get-insert_by :
      (before : R → R → Bool) (r : R) (k : String) (xs : List R)
      → has_key spec (spec.key r) xs ≡ false
      → Table.get spec k (Table.insert_by before r xs)
        ≡ (if spec.key r == k then some r else Table.get spec k xs)
  unfolding Table.insert_by Table.get has_key
  get-insert_by before r k [] n = refl
  get-insert_by before r k (x ∷ xs) n = ground (
    arith,
    get-insert_by before r k xs,
    ==_iff (spec.key x) (spec.key r),
    ==_iff (spec.key x) k,
    ==_iff (spec.key r) k,
  )

  -- Sorting does not change what a read by key finds.
  pub get-sort_by :
      (before : R → R → Bool) (k : String) (xs : List R)
      → UniqueKeys spec xs
      → Table.get spec k (Table.sort_by before xs) ≡ Table.get spec k xs
  unfolding Table.sort_by Table.get
  get-sort_by before k [] u = refl
  get-sort_by before k (x ∷ xs) (n, u) =
      get-insert_by before x k (Table.sort_by before xs)
        (has_key-sort_by spec before (spec.key x) xs ∙ n)
      ∙ rw (get-sort_by before k xs u) refl

  -- What holds of every row of a table holds of every row that a query returns.
  pub All-select {κ} :
      (P : R → Type κ) (test : R → Bool) (limit : ℕ) (desc : Bool) (table : List R)
      → All P table
      → All P (Table.select spec test limit desc table)
  unfolding Table.select
  All-select P test limit desc table h =
      All-take P limit _ (All-sort_by P _ (filter_by test table) (All-filter_by P test table h))
