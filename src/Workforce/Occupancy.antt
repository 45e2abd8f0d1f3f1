-- ===== src/Workforce/Occupancy.antt =====
-- fieldpilot/workforce/occupancy.py: check-ins and check-outs. Times are in milliseconds, the clock
-- is read once per operation, and the identifier that uuid4 makes is an argument.
use field_pilot_ai_submissio.Common.{
  ℕ, ◌-◌, max, Option, none, some, Bool, true, false, List, [], ◌∷◌, String, text_equality, ◌==◌,
  ltb, if◌then◌else◌, filter_by, not, ◌&&◌, is_some, number_equality, refl,
}
use field_pilot_ai_submissio.Common.Text.{strip, truthy}
use field_pilot_ai_submissio.Storage.Table
use field_pilot_ai_submissio.Storage.Table.{Spec}

pub record Row : Type 0 where
  pub occupancy_id : String
  pub worker_id : String
  pub zone_id : String
  pub entered_at : ℕ
  pub left_at : Option ℕ
  pub duration : Option ℕ
  pub created_at : ℕ

-- The table's key, its standard order and its immutable column are those of every TableSpec that
-- states none: `created_at`.
abbrev pub spec : Spec Row
spec = record {
  key = λ r. r.occupancy_id;
  before = λ r s. ltb r.created_at s.created_at;
  restore = λ old r. record r { created_at = old.created_at };
  key_restore = λ old r. refl;
}

-- What a call ends in: a value, or one of the exceptions that the service raises.
pub data Result (A : Type 0) : Type 0 where
  returned : A → Result A
  value_error : Result A
  mismatch_error : Result A

-- The row that a write asks for: the worker is in the zone until the row has a time of leaving.
unfoldable pub is_open : String → Row → Bool
is_open worker r = r.worker_id == worker && not (is_some r.left_at)

-- `_open_rows`
unfoldable pub open_rows : String → List Row → List Row
unfolding Table.select is_open
open_rows worker table = Table.select spec (is_open worker) 100 true table

-- The keys of `sorted(…, key=_entered)`, in both directions
abbrev pub earlier : Row → Row → Bool
earlier r s = ltb r.entered_at s.entered_at

abbrev pub later : Row → Row → Bool
later r s = ltb s.entered_at r.entered_at

-- `_entered(row) or now`
abbrev pub entered : ℕ → Row → ℕ
entered now r = if r.entered_at == 0 then now else r.entered_at

-- The changes that `_close` makes, computed from the row that it was given.
abbrev pub closing : ℕ → Row → Row → Row
closing now r current = record current {
  left_at = some (max now (entered now r));
  duration = some (max now (entered now r) - entered now r);
}

-- `_close`: the table and the row that is returned.
unfoldable pub close : ℕ → Row → List Row → List Row × Row
unfolding Table.patch
close now r table =
    let patched = Table.patch spec r.occupancy_id (closing now r) table in
    elim patched.1 [ none ↦ (patched.0, r) | some updated ↦ (patched.0, updated) ]

-- `[await self._close(row, now) for row in rows]`
unfoldable pub close_all : ℕ → List Row → List Row → List Row × List Row
close_all now [] table = (table, [])
close_all now (r ∷ rows) table =
    let closed = close now r table in
    let rest = close_all now rows closed.0 in (rest.0, closed.1 ∷ rest.1)

pub record Entered : Type 0 where
  pub worker_id : String
  pub zone_id : String
  pub occupancy : Row
  pub closed : Option Row
  pub created : Bool

abbrev pub first : List Row → Option Row
first [] = none
first (r ∷ rows) = some r

unfoldable pub here : String → List Row → List Row
here zone rows = Table.sort_by earlier (filter_by (λ r. r.zone_id == zone) rows)

unfoldable pub elsewhere : String → List Row → List Row
elsewhere zone rows = Table.sort_by later (filter_by (λ r. not (r.zone_id == zone)) rows)

-- The row of a new check-in.
abbrev pub arrival : String → ℕ → String → String → Row
arrival fresh now worker zone = record {
  occupancy_id = fresh;
  worker_id = worker;
  zone_id = zone;
  entered_at = now;
  left_at = none;
  duration = none;
  created_at = now;
}

-- The end of `enter`, after the rows elsewhere are closed.
unfoldable pub settle :
    String → ℕ → String → String → List Row → List Row × List Row → List Row × Entered
settle fresh now worker zone [] (table, closed) = (
  (Table.put spec (arrival fresh now worker zone) table).0,
  record {
    worker_id = worker;
    zone_id = zone;
    occupancy = arrival fresh now worker zone;
    closed = first closed;
    created = true;
  },
)
settle fresh now worker zone (current ∷ duplicates) (table, closed) = (
  (close_all now duplicates table).0,
  record {
    worker_id = worker;
    zone_id = zone;
    occupancy = current;
    closed = first closed;
    created = false;
  },
)

unfoldable pub enter : String → ℕ → String → String → List Row → List Row × Result Entered
enter fresh now worker zone table =
    let w = strip worker in
    let z = strip zone in
    let rows = open_rows w table in
    let settled = settle fresh now w z (here z rows) (close_all now (elsewhere z rows) table) in
    if not (truthy w)
    then (table, value_error)
    else (if not (truthy z) then (table, value_error) else (settled.0, returned settled.1))

-- `zone_id and str(zone_id).strip() != current.get("zone_id")`
abbrev pub mismatched : Option String → Row → Bool
mismatched none current = false
mismatched (some zone) current = truthy zone && not (strip zone == current.zone_id)

-- The end of `leave`, given the open rows, the latest arrival first.
unfoldable pub check_out : ℕ → Option String → List Row → List Row → List Row × Result (Option Row)
check_out now named [] table = (table, returned none)
check_out now named (current ∷ strays) table =
    let closed = close now current table in
    if mismatched named current
    then (table, mismatch_error)
    else ((close_all now strays closed.0).0, returned (some closed.1))

unfoldable pub leave : ℕ → String → Option String → List Row → List Row × Result (Option Row)
leave now worker zone table =
    let w = strip worker in
    if not (truthy w)
    then (table, value_error)
    else check_out now zone (Table.sort_by later (open_rows w table)) table

-- Reads

unfoldable pub current_zone : String → List Row → Option Row
unfolding open_rows Table.sort_by
current_zone worker table = first (Table.sort_by later (open_rows worker table))

-- A filter of a query: no test where the argument is missing or empty.
abbrev pub wanted : Option String → String → Bool
wanted none x = true
wanted (some y) x = if truthy y then x == y else true

unfoldable pub present_workers : Option String → List Row → List Row
unfolding Table.select Table.sort_by
present_workers zone table =
    Table.sort_by earlier
      (Table.select spec (λ r. not (is_some r.left_at) && wanted zone r.zone_id) 1000 true table)

unfoldable pub history : Option String → Option String → ℕ → List Row → List Row
unfolding Table.select
history worker zone limit table =
    Table.select spec (λ r. wanted worker r.worker_id && wanted zone r.zone_id) limit true table
