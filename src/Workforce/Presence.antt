-- ===== src/Workforce/Presence.antt =====
-- A worker is in at most one zone: what check-ins and check-outs leave open.
use field_pilot_ai_submissio.Common.{
  ℕ, ◌≤◌, ◌≡◌, refl, sym, ◌∙◌, Option, some, Bool, true, false, List, [], ◌∷◌, String,
  text_equality, ◌==◌, if◌then◌else◌, ◌&&◌, not, arith, Bool-cases, Option-cases, inl, inr,
}
use mathlib.Core.Option
use field_pilot_ai_submissio.Common.Text.{strip, truthy}
use field_pilot_ai_submissio.Storage.Table
use field_pilot_ai_submissio.Storage.Lookup.{get-patch, changed}
use field_pilot_ai_submissio.Storage.Query.{
  has_key, UniqueKeys, passes, has_key-select, has_key-sort_by,
}
use field_pilot_ai_submissio.Workforce.Occupancy.{
  Row, spec, is_open, open_rows, closing, close, close_all, leave, check_out, later, returned,
  value_error, mismatch_error, mismatched,
}

-- The row under an identifier is an open one of the worker.
abbrev pub occupies : String → String → List Row → Bool
occupies worker k table = passes spec (is_open worker) (Table.get spec k table)

close-patch :
    (now : ℕ) (r : Row) (table : List Row)
    → (close now r table).0 ≡ (Table.patch spec r.occupancy_id (closing now r) table).0
unfolding close
close-patch now r table = ground arith

get-close :
    (now : ℕ) (r : Row) (table : List Row) (k : String)
    → Table.get spec k (close now r table).0 ≡ (
        if r.occupancy_id == k
        then Option.map (changed spec (closing now r) (λ c. refl)) (Table.get spec k table)
        else Table.get spec k table)
get-close now r table k =
    rw (close-patch now r table) (get-patch spec (closing now r) (λ c. refl) r.occupancy_id table k)

occupies-close :
    (worker : String) (now : ℕ) (r : Row) (table : List Row) (k : String)
    → occupies worker k (close now r table).0
      ≡ (not (r.occupancy_id == k) && occupies worker k table)
unfolding is_open
occupies-close worker now r table k =
    rw (get-close now r table k) (elim (Option-cases (Table.get spec k table)) [
      | inl e ↦ rw e (ground arith)
      | inr (old, e) ↦ rw e (ground (arith))
    ])

-- Closing rows closes them, and touches no others.
pub occupies-close_all :
    (worker : String) (now : ℕ) (rows table : List Row) (k : String)
    → occupies worker k (close_all now rows table).0
      ≡ (not (has_key spec k rows) && occupies worker k table)
unfolding close_all has_key
occupies-close_all worker now [] table k = refl
occupies-close_all worker now (r ∷ rows) table k =
    (occupies-close_all worker now rows (close now r table).0 k
      ∙ ground (arith, occupies-close worker now r table k))

pub get-close_all :
    (now : ℕ) (rows table : List Row) (k : String)
    → has_key spec k rows ≡ false
    → Table.get spec k (close_all now rows table).0 ≡ Table.get spec k table
unfolding close_all has_key
get-close_all now [] table k h = refl
get-close_all now (r ∷ rows) table k h =
    (get-close_all now rows (close now r table).0 k (ground arith)
      ∙ ground (arith, get-close now r table k))

-- The open rows are those that a read by identifier finds open.
pub has_key-open_rows :
    (worker : String) (table : List Row) (k : String)
    → UniqueKeys spec table
    → Table.count spec (is_open worker) table ≤ 100
    → has_key spec k (open_rows worker table) ≡ occupies worker k table
unfolding open_rows
has_key-open_rows worker table k u h = has_key-select spec (is_open worker) 100 true table k u h

check_out-occupies :
    (worker : String) (now : ℕ) (named : Option String) (rows table : List Row) (out : Option Row)
    (k : String)
    → (check_out now named rows table).1 ≡ returned out
    → has_key spec k rows ≡ occupies worker k table
    → (occupies worker k (check_out now named rows table).0 ≡ false)
      × (occupies worker k table ≡ false
          → Table.get spec k (check_out now named rows table).0 ≡ Table.get spec k table)
unfolding check_out has_key
check_out-occupies worker now named [] table out k r h = (sym h, λ e. refl)
check_out-occupies worker now named (current ∷ strays) table out k r h =
    elim (Bool-cases (mismatched named current)) [
      | inl e ↦ absurd (let q : mismatch_error ≡ returned out = rw e at r in cc)
      | inr e ↦ rw e (
        occupies-close_all worker now strays (close now current table).0 k
            ∙ ground (arith, occupies-close worker now current table k),
        λ q.
            get-close_all now strays (close now current table).0 k (ground arith)
            ∙ ground (arith, get-close now current table k),
      )
    ]

leave_lem :
    (now : ℕ) (worker : String) (zone : Option String) (table : List Row) (out : Option Row)
    (k : String)
    → UniqueKeys spec table
    → Table.count spec (is_open (strip worker)) table ≤ 100
    → (leave now worker zone table).1 ≡ returned out
    → (occupies (strip worker) k (leave now worker zone table).0 ≡ false)
      × (occupies (strip worker) k table ≡ false
          → Table.get spec k (leave now worker zone table).0 ≡ Table.get spec k table)
unfolding leave
leave_lem now worker zone table out k u h r = elim (Bool-cases (truthy (strip worker))) [
  | inr e ↦ absurd (let q : value_error ≡ returned out = rw e at r in cc)
  | inl e ↦ rw e (
      check_out-occupies (strip worker) now zone _ table out k (rw e at r) (
        has_key-sort_by spec later k (open_rows (strip worker) table)
        ∙ has_key-open_rows (strip worker) table k u h))
]

-- After a check-out that is not refused, no row is an open one of the worker's, provided that
-- every identifier stands once in the table and the worker had at most a hundred open rows.
pub leave-occupies :
    (now : ℕ) (worker : String) (zone : Option String) (table : List Row) (out : Option Row)
    (k : String)
    → UniqueKeys spec table
    → Table.count spec (is_open (strip worker)) table ≤ 100
    → (leave now worker zone table).1 ≡ returned out
    → occupies (strip worker) k (leave now worker zone table).0 ≡ false
leave-occupies now worker zone table out k u h r = (leave_lem now worker zone table out k u h r).0

-- A check-out that is not refused leaves every row as it was that was not an open one of the
-- worker's, provided that every identifier stands once in the table and the worker had at most a
-- hundred open rows.
pub leave-get :
    (now : ℕ) (worker : String) (zone : Option String) (table : List Row) (out : Option Row)
    (k : String)
    → UniqueKeys spec table
    → Table.count spec (is_open (strip worker)) table ≤ 100
    → (leave now worker zone table).1 ≡ returned out
    → occupies (strip worker) k table ≡ false
    → Table.get spec k (leave now worker zone table).0 ≡ Table.get spec k table
leave-get now worker zone table out k u h r = (leave_lem now worker zone table out k u h r).1

check_out-mismatch :
    (now : ℕ) (named : Option String) (rows table : List Row)
    → (check_out now named rows table).1 ≡ mismatch_error
    → (check_out now named rows table).0 ≡ table
unfolding check_out
check_out-mismatch now named [] table r = refl
check_out-mismatch now named (current ∷ strays) table r =
    elim (Bool-cases (mismatched named current)) [
      | inl e ↦ rw e refl
      | inr e ↦
          absurd
            (let q : returned (some (close now current table).1) ≡ mismatch_error = rw e at r in cc)
    ]

-- A check-out that names a zone where the worker is not is refused, and changes nothing.
pub leave-mismatch :
    (now : ℕ) (worker : String) (zone : Option String) (table : List Row)
    → (leave now worker zone table).1 ≡ mismatch_error
    → (leave now worker zone table).0 ≡ table
unfolding leave
leave-mismatch now worker zone table r = elim (Bool-cases (truthy (strip worker))) [
  | inr e ↦ rw e refl
  | inl e ↦ rw e (check_out-mismatch now zone _ table (rw e at r))
]
