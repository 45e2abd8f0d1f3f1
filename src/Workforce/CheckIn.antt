-- ===== src/Workforce/CheckIn.antt =====
-- What a check-in leaves open: one row of the worker's, in the zone that it names.
use field_pilot_ai_submissio.Common.{
  ℕ, ◌≤◌, ◌≡◌, refl, sym, ◌∙◌, none, some, Bool, true, false, List, [], ◌∷◌, String, text_equality,
  ◌==◌, ==_iff, ==_refl, ◌||◌, not, arith, filter_by, All,
}
use field_pilot_ai_submissio.Common.Text.{strip, truthy}
use field_pilot_ai_submissio.Storage.Table
use field_pilot_ai_submissio.Storage.Lookup.{get-upsert}
use field_pilot_ai_submissio.Storage.Query.{
  has_key, UniqueKeys, has_key-sort_by, take_whole, length-sort_by,
}
use field_pilot_ai_submissio.Storage.Rows.{
  All-filter_by, All-passed, All-sort_by, UniqueKeys-sort_by, UniqueKeys-filter_by, has_key-halves,
  has_key-disjoint, Held, Held-self,
}
use field_pilot_ai_submissio.Workforce.Occupancy.{
  Row, spec, is_open, open_rows, close_all, settle, enter, here, elsewhere, earlier, later,
  returned, Entered, arrival,
}
use field_pilot_ai_submissio.Workforce.Presence.{
  occupies, occupies-close_all, get-close_all, has_key-open_rows,
}

open_rows-sort_by :
    (worker : String) (table : List Row)
    → Table.count spec (is_open worker) table ≤ 100
    → open_rows worker table
      ≡ Table.sort_by (Table.descending spec) (filter_by (is_open worker) table)
unfolding open_rows Table.select Table.count
open_rows-sort_by worker table h =
    take_whole (Table.sort_by (Table.descending spec) (filter_by (is_open worker) table)) 100 (
      omega
        (arith, length-sort_by spec (Table.descending spec) (filter_by (is_open worker) table), h))

UniqueKeys-open_rows :
    (worker : String) (table : List Row)
    → UniqueKeys spec table
    → Table.count spec (is_open worker) table ≤ 100
    → UniqueKeys spec (open_rows worker table)
UniqueKeys-open_rows worker table u h = rw (open_rows-sort_by worker table h) (
    UniqueKeys-sort_by spec (Table.descending spec) _
      (UniqueKeys-filter_by spec (is_open worker) table u))

Held-open_rows :
    (worker : String) (table : List Row)
    → UniqueKeys spec table
    → Table.count spec (is_open worker) table ≤ 100
    → All (Held spec table) (open_rows worker table)
Held-open_rows worker table u h = rw (open_rows-sort_by worker table h) (
    All-sort_by (Held spec table) (Table.descending spec) _
      (All-filter_by (Held spec table) (is_open worker) table (Held-self spec table u)))

-- The rows here and elsewhere are the halves of the open rows.
module _ (zone : String) (rows : List Row) where
  UniqueKeys-here : UniqueKeys spec rows → UniqueKeys spec (here zone rows)
  unfolding here
  UniqueKeys-here u =
      UniqueKeys-sort_by spec earlier _ (UniqueKeys-filter_by spec (λ r. r.zone_id == zone) rows u)

  passed-here : All (λ r. (r.zone_id == zone) ≡ true) (here zone rows)
  unfolding here
  passed-here = All-sort_by _ earlier _ (All-passed (λ r. r.zone_id == zone) rows)

  halves :
      (j : String)
      → (has_key spec j (here zone rows) || has_key spec j (elsewhere zone rows))
        ≡ has_key spec j rows
  unfolding here elsewhere
  halves j =
      rw
        (
          has_key-sort_by spec earlier j (filter_by (λ r. r.zone_id == zone) rows),
          has_key-sort_by spec later j (filter_by (λ r. not (r.zone_id == zone)) rows),
        )
        (has_key-halves spec (λ r. r.zone_id == zone) j rows)

  disjoint :
      (j : String)
      → UniqueKeys spec rows
      → has_key spec j (here zone rows) ≡ true
      → has_key spec j (elsewhere zone rows) ≡ false
  unfolding here elsewhere
  disjoint j u h =
      has_key-sort_by spec later j (filter_by (λ r. not (r.zone_id == zone)) rows)
      ∙ has_key-disjoint spec (λ r. r.zone_id == zone) j rows u
          (sym (has_key-sort_by spec earlier j (filter_by (λ r. r.zone_id == zone) rows)) ∙ h)

All-here :
    (P : Row → Type 0) (zone : String) (rows : List Row) → All P rows → All P (here zone rows)
unfolding here
All-here P zone rows h = All-sort_by P earlier _ (All-filter_by P (λ r. r.zone_id == zone) rows h)

-- A check-in leaves the worker with the row `out.occupancy` open, and no other.
abbrev pub Settled : String → String → String → List Row × Entered → Type 0
Settled worker zone k (table, out) =
    (out.occupancy.zone_id ≡ zone)
    × ((Table.get spec out.occupancy.occupancy_id table ≡ some out.occupancy)
        × (occupies worker k table ≡ (out.occupancy.occupancy_id == k)))

module _ (fresh : String) (now : ℕ) (worker zone k : String) (table away : List Row)
    (absent : Table.get spec fresh table ≡ none) where
  arrival-Settled :
      ((j : String) → has_key spec j away ≡ occupies worker j table)
      → (zone ≡ zone)
        × ((Table.get spec fresh
                (Table.upsert spec (arrival fresh now worker zone) (close_all now away table).0)
              ≡ some (arrival fresh now worker zone))
            × (occupies worker k
                  (Table.upsert spec (arrival fresh now worker zone) (close_all now away table).0)
                ≡ (fresh == k)))
  unfolding is_open
  arrival-Settled parts =
      let gone : Table.get spec fresh (close_all now away table).0 ≡ none =
        get-close_all now away table fresh (parts fresh ∙ ground (arith, absent)) ∙ absent in
      (
        refl,
        (
          ground (
            arith,
            get-upsert spec (arrival fresh now worker zone) (close_all now away table).0 fresh,
            gone,
            ==_refl fresh,
          ),
          ground (
            arith,
            get-upsert spec (arrival fresh now worker zone) (close_all now away table).0 k,
            gone,
            ==_iff fresh k,
            occupies-close_all worker now away table k,
            parts k,
            ==_refl worker,
          ),
        ),
      )

  settle-Settled :
      (hs : List Row)
      → UniqueKeys spec hs
      → All (Held spec table) hs
      → All (λ r. (r.zone_id == zone) ≡ true) hs
      → ((j : String) → (has_key spec j hs || has_key spec j away) ≡ occupies worker j table)
      → ((j : String) → has_key spec j hs ≡ true → has_key spec j away ≡ false)
      → Settled worker zone k (settle fresh now worker zone hs (close_all now away table))
  unfolding settle Table.put has_key
  settle-Settled [] u held zoned parts apart = arrival-Settled parts
  settle-Settled (current ∷ duplicates) (n, u) (p, held) (q, zoned) parts apart =
      let id = current.occupancy_id in
      let mine : has_key spec id (current ∷ duplicates) ≡ true = rw (==_refl id) refl in
      let off : has_key spec id away ≡ false = apart id mine in
      (
        (==_iff current.zone_id zone).0 q,
        (
          get-close_all now duplicates (close_all now away table).0 id n
              ∙ get-close_all now away table id off
              ∙ p,
          occupies-close_all worker now duplicates (close_all now away table).0 k
              ∙ ground
                  (arith, occupies-close_all worker now away table k, parts k, ==_iff id k, n, off),
        ),
      )

-- A check-in with a worker and a zone that are not blank leaves the worker in exactly one zone,
-- the one that it names, in the row that it returns: a read by the row's identifier finds it, and
-- no other row is an open one of the worker's. Conditions: every identifier stands once in the
-- table, the new one is not in it, and the worker has at most a hundred open rows.
pub enter-Settled :
    (fresh : String) (now : ℕ) (worker zone k : String) (table : List Row)
    → UniqueKeys spec table
    → Table.count spec (is_open (strip worker)) table ≤ 100
    → Table.get spec fresh table ≡ none
    → truthy (strip worker) ≡ true
    → truthy (strip zone) ≡ true
    → (out : Entered) × (((enter fresh now worker zone table).1 ≡ returned out)
        × Settled (strip worker) (strip zone) k ((enter fresh now worker zone table).0, out))
unfolding enter
enter-Settled fresh now worker zone k table u h absent w z =
    let rows = open_rows (strip worker) table in
    let ur = UniqueKeys-open_rows (strip worker) table u h in
    let at_zone : Row → Bool = λ r. r.zone_id == strip zone in
    rw (w, z)
      (
        (settle fresh now (strip worker) (strip zone) (here (strip zone) rows)
            (close_all now (elsewhere (strip zone) rows) table)).1,
        (
          refl,
          settle-Settled fresh now (strip worker) (strip zone) k table (elsewhere (strip zone) rows)
              absent (here (strip zone) rows) (UniqueKeys-here (strip zone) rows ur)
              (All-here (Held spec table) (strip zone) rows
                (Held-open_rows (strip worker) table u h))
              (passed-here (strip zone) rows)
              (λ j. halves (strip zone) rows j ∙ has_key-open_rows (strip worker) table j u h)
              (λ j. disjoint (strip zone) rows j ur),
        ),
      )
