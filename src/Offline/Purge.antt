-- ===== src/Offline/Purge.antt =====
-- What the purge removes, and how the flusher's waits grow.
use field_pilot_ai_submissio.Common.{
  ℕ, zero, suc, ◌*◌, ◌^◌, min, ◌≤◌, ◌≡◌, refl, ap, ◌∙◌, none, Bool, List, [], ◌∷◌, String,
  text_equality, if◌then◌else◌, ◌&&◌, arith, Bool-cases, inl, inr, filter_by,
}
use field_pilot_ai_submissio.Storage.Table
use field_pilot_ai_submissio.Storage.Lookup.{get-delete}
use field_pilot_ai_submissio.Storage.Query.{
  has_key, UniqueKeys, passes, take_whole, length-sort_by, has_key-filter_by,
}
use field_pilot_ai_submissio.Storage.Rows.{has_key-filter-sort_by}
use field_pilot_ai_submissio.Offline.Outbox.{Row, spec, was_sent, expired, purge_rows, purge_sent}
use field_pilot_ai_submissio.Offline.Forwarder.{next_backoff}

module _ (now older_than : ℕ) where
  get-purge_rows :
      (rows table : List Row) (k : String)
      → Table.get spec k (purge_rows now older_than rows table).0 ≡ (
          if has_key spec k (filter_by (expired now older_than) rows)
          then none
          else Table.get spec k table)
  unfolding purge_rows has_key
  get-purge_rows [] table k = refl
  get-purge_rows (r ∷ rows) table k = elim (Bool-cases (expired now older_than r)) [
    | inl hit ↦ rw hit (
        get-purge_rows rows (Table.delete spec r.event_id table).0 k
        ∙ ground (arith, get-delete spec r.event_id table k))
    | inr miss ↦ rw miss (get-purge_rows rows table k)
  ]

  -- A row that the purge removes.
  abbrev pub over : Row → Bool
  over r = was_sent r && expired now older_than r

  filter_twice :
      (rows : List Row)
      → filter_by (expired now older_than) (filter_by was_sent rows) ≡ filter_by over rows
  filter_twice [] = refl
  filter_twice (r ∷ rows) = ground (arith, filter_twice rows)

  -- The purge removes the events that were acknowledged and whose retention window is over, and no
  -- others, provided that every identifier stands once in the table and at most ten thousand
  -- events were acknowledged.
  pub get-purge_sent :
      (table : List Row) (k : String)
      → UniqueKeys spec table
      → Table.count spec was_sent table ≤ 10000
      → Table.get spec k (purge_sent now older_than table).0
        ≡ (if passes spec over (Table.get spec k table) then none else Table.get spec k table)
  unfolding purge_sent Table.select Table.count
  get-purge_sent table k u h =
      let found = filter_by was_sent table in
      let before = Table.descending spec in
      let whole =
        take_whole (Table.sort_by before found) 10000
          (omega (arith, length-sort_by spec before found, h)) in
      get-purge_rows _ table k
      ∙ rw
          (
            whole,
            has_key-filter-sort_by spec (expired now older_than) before k found,
            filter_twice table,
            has_key-filter_by spec over k table u,
          )
          refl

-- The wait after this many failed passes in a row.
abbrev pub backoff_after : ℕ → ℕ → ℕ
backoff_after interval zero = interval
backoff_after interval (suc n) = next_backoff interval 1 (backoff_after interval n)

double-min : (a : ℕ) → min (min a 60000 * 2) 60000 ≡ min (a * 2) 60000
double-min a = omega arith

doubled : (interval n : ℕ) → interval * 2 ^ n * 2 ≡ interval * 2 ^ suc n
doubled interval n = grind arith

-- While passes fail, the wait between them doubles from the flush interval up to a minute, if the
-- interval is no longer than that.
pub backoff_after-min :
    (interval n : ℕ) → interval ≤ 60000 → backoff_after interval n ≡ min (interval * 2 ^ n) 60000
backoff_after-min interval zero h = omega arith
backoff_after-min interval (suc n) h =
    rw (backoff_after-min interval n h)
      (double-min (interval * 2 ^ n) ∙ ap (λ x. min x 60000) (doubled interval n))
