-- ===== src/Offline/Outbox.antt =====
-- fieldpilot/offline/outbox.py: the durable queue. Times are in milliseconds; the clock is read once
-- per operation and is an argument.
use field_pilot_ai_submissio.Common.{
  ℕ, ◌+◌, refl, Option, none, some, Bool, true, false, List, [], ◌∷◌, String, text_equality, ltb,
  if◌then◌else◌,
}
use field_pilot_ai_submissio.Common.Text.{truthy, take_text}
use field_pilot_ai_submissio.Events.Value.{Value}
use field_pilot_ai_submissio.Storage.Table
use field_pilot_ai_submissio.Storage.Table.{Spec}

-- A timestamp as an event carries it.
pub data Stamp : Type 0 where
  seconds : ℕ → Stamp
  written : String → Stamp
  moment : ℕ → Stamp
  other : Stamp

pub record Event : Type 0 where
  pub event_id : Option String
  pub event_type : Option String
  pub timestamp : Stamp
  pub rest : List (String × Value)

pub data Status : Type 0 where
  pending : Status
  sent : Status

abbrev pub is_sent : Status → Bool
is_sent pending = false
is_sent sent = true

pub record Row : Type 0 where
  pub event_id : String
  pub event_type : Option String
  pub status : Status
  pub attempts : ℕ
  pub last_error : Option String
  pub timestamp : ℕ
  pub enqueued_at : ℕ
  pub flushed_at : Option ℕ
  pub created_at : ℕ
  pub event : Event

-- OUTBOX_TABLE
abbrev pub spec : Spec Row
spec = record {
  key = λ r. r.event_id;
  before = λ r s. ltb r.enqueued_at s.enqueued_at;
  restore = λ old r. record r { created_at = old.created_at };
  key_restore = λ old r. refl;
}

-- How the standard library reads a text as a number and as an ISO-8601 time.
module _ (read_float read_iso : String → Option ℕ) where
  unfoldable pub as_epoch : Stamp → ℕ → ℕ
  as_epoch (seconds t) default = t
  as_epoch (written s) default =
      if truthy s
      then (elim (read_float s) [
        | some t ↦ t
        | none ↦ elim (read_iso s) [ some t ↦ t | none ↦ default ]
      ])
      else default
  as_epoch (moment t) default = t
  as_epoch other default = default

  -- What `enqueue` writes for an event, given the row that is there.
  unfoldable pub queued : ℕ → String → Event → Option Row → Row
  unfolding as_epoch
  queued now id event existing = record {
    event_id = id;
    event_type = event.event_type;
    status = pending;
    attempts = elim existing [ none ↦ 0 | some r ↦ r.attempts ];
    last_error = none;
    timestamp = as_epoch event.timestamp now;
    enqueued_at = elim existing [ none ↦ now | some r ↦ r.enqueued_at ];
    flushed_at = none;
    created_at = now;
    event = event;
  }

  -- The table, and the row that is returned; nothing where a ValueError is raised.
  unfoldable pub enqueue_id : ℕ → String → Event → Option Row → List Row → List Row × Option Row
  enqueue_id now id event none table =
      ((Table.put spec (queued now id event none) table).0, some (queued now id event none))
  enqueue_id now id event (some r) table = if is_sent r.status then (table, some r) else (
    (Table.put spec (queued now id event (some r)) table).0,
    some (queued now id event (some r)),
  )

  unfoldable pub enqueue : ℕ → Event → List Row → List Row × Option Row
  unfolding enqueue_id
  enqueue now event table = elim event.event_id [
    | none ↦ (table, none)
    | some id ↦
        if truthy id then enqueue_id now id event (Table.get spec id table) table else (table, none)
  ]

abbrev pub is_pending : Row → Bool
is_pending r = if is_sent r.status then false else true

abbrev pub was_sent : Row → Bool
was_sent r = is_sent r.status

unfoldable pub list_pending : ℕ → List Row → List Row
list_pending limit table = Table.select spec is_pending limit false table

-- The changes of `mark_sent` and `mark_failed`.
abbrev pub as_sent : ℕ → Row → Row
as_sent now r = record r { status = sent; flushed_at = some now }

abbrev pub as_failed : String → ℕ → Row → Row
as_failed error attempts r = record r {
  attempts = attempts;
  last_error = some (take_text 500 error);
}

unfoldable pub mark_sent : ℕ → String → List Row → List Row
mark_sent now id table = (Table.patch spec id (as_sent now) table).0

unfoldable pub mark_failed : String → String → ℕ → List Row → List Row
mark_failed id error attempts table = (Table.patch spec id (as_failed error attempts) table).0

-- The numbers of rows that are pending and that are sent.
unfoldable pub counts : List Row → ℕ × ℕ
unfolding Table.count
counts table = (Table.count spec is_pending table, Table.count spec was_sent table)

-- A row whose retention window is over: `float(row.get("flushed_at") or 0) < cutoff`, the cutoff
-- `now - older_than` moved to the other side.
abbrev pub expired : ℕ → ℕ → Row → Bool
expired now older_than r = ltb ((elim r.flushed_at [ none ↦ 0 | some t ↦ t ]) + older_than) now

-- The loop of `purge_sent` over the rows of its query.
unfoldable pub purge_rows : ℕ → ℕ → List Row → List Row → List Row × ℕ
purge_rows now older_than [] table = (table, 0)
purge_rows now older_than (r ∷ rows) table =
    let purged = purge_rows now older_than rows (Table.delete spec r.event_id table).0 in
    let kept = purge_rows now older_than rows table in
    if expired now older_than r then (purged.0, 1 + purged.1) else kept

unfoldable pub purge_sent : ℕ → ℕ → List Row → List Row × ℕ
unfolding purge_rows
purge_sent now older_than table =
    purge_rows now older_than (Table.select spec was_sent 10000 true table) table
