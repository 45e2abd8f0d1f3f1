-- ===== src/Offline/Forwarder.antt =====
-- fieldpilot/offline/forwarder.py: the pass that drains the queue, and the waits between passes. The
-- central server, reached by the httpx library, is a parameter that answers each request.
use field_pilot_ai_submissio.Common.{
  ℕ, ◌+◌, ◌-◌, ◌*◌, min, Option, none, some, Bool, true, false, List, [], ◌∷◌, String, ltb, leb,
  if◌then◌else◌, ◌&&◌,
}
use field_pilot_ai_submissio.Common.Text.{truthy, take_text}
use Prim.Native.String.{◌++◌ as join}
use field_pilot_ai_submissio.Offline.Outbox.{Event, Row, list_pending, mark_sent, mark_failed}

-- What is posted: the event with the times of its delivery. No clock goes back by more than the
-- queue holds an event, so `max(0.0, delay)` is the truncated difference.
pub record Body : Type 0 where
  pub event : Event
  pub enqueued_at : ℕ
  pub forwarded_at : ℕ
  pub offline_delay : ℕ
  pub replayed : Bool

-- An HTTP response with its status and text, an exception with its type and text, or no client
-- library at all.
pub data Reply : Type 0 where
  response : ℕ → String → Reply
  exception : String → String → Reply
  no_client : Reply

pub record Config : Type 0 where
  -- as the constructor leaves it, without slashes at its end
  pub central_api : Option String
  pub batch_size : ℕ
  pub flush_interval : ℕ

pub record Forwarder : Type 0 where
  pub online : Option Bool
  pub flushed_total : ℕ
  pub warned_no_httpx : Bool

pub record Pass : Type 0 where
  pub sent : ℕ
  pub failed : ℕ
  pub configured : Bool

-- `error or "unknown"`
abbrev pub error_text : String → String
error_text e = if truthy e then e else "unknown"

abbrev pub is_zero : ℕ → Bool
is_zero n = leb n 0

abbrev pub has_api : Option String → Bool
has_api none = false
has_api (some api) = truthy api

abbrev pub warns : Reply → Bool → Bool
warns no_client warned = true
warns _ warned = warned

-- How Python prints a number, and the server.
module _ (show : ℕ → String) (answer : Body → Reply) where
  unfoldable pub body_of : ℕ → Row → Body
  body_of now r = record {
    event = r.event;
    enqueued_at = r.enqueued_at;
    forwarded_at = now;
    offline_delay = now - r.enqueued_at;
    replayed = ltb 1000 (now - r.enqueued_at);
  }

  -- `_post`: no error where the server acknowledged the event.
  abbrev pub error_of : Reply → Option String
  error_of (response code body) =
      if leb 200 code && ltb code 300
      then none
      else some (join "HTTP " (join (show code) (join ": " (take_text 200 body))))
  error_of (exception name message) = some (join name (join ": " message))
  error_of no_client = some "httpx not installed (edge install is missing the `server` extra)"

  unfoldable pub post : ℕ → Row → Option String
  unfolding body_of
  post now r = error_of (answer (body_of now r))

  -- The loop of `flush_once`: the table, and the numbers of events sent and failed.
  unfoldable pub flush_rows : ℕ → List Row → List Row → List Row × (ℕ × ℕ)
  flush_rows now [] table = (table, (0, 0))
  flush_rows now (r ∷ rows) table =
      let rest = flush_rows now rows (mark_sent now r.event_id table) in
      elim (post now r) [
        | none ↦ (rest.0, (1 + rest.1.0, rest.1.1))
        | some e ↦ (mark_failed r.event_id (error_text e) (1 + r.attempts) table, (0, 1))
      ]

  -- Whether the loop meets the lack of the client library.
  unfoldable pub warned_after : ℕ → List Row → Bool → Bool
  warned_after now [] warned = warned
  warned_after now (r ∷ rows) warned =
      let next = warned_after now rows warned in
      elim (post now r) [ none ↦ next | some e ↦ warns (answer (body_of now r)) warned ]

  -- `flush_once` on a queue with these rows.
  unfoldable pub drain : ℕ → List Row → Forwarder → List Row → List Row × (Forwarder × Pass)
  drain now [] state table = (
    table,
    (record state { online = some true }, record { sent = 0; failed = 0; configured = true }),
  )
  drain now (r ∷ rows) state table =
      let done = flush_rows now (r ∷ rows) table in
      (
        done.0,
        (
          record {
            online = some (is_zero done.1.1);
            flushed_total = state.flushed_total + done.1.0;
            warned_no_httpx = warned_after now (r ∷ rows) state.warned_no_httpx;
          },
          record { sent = done.1.0; failed = done.1.1; configured = true },
        ),
      )

  unfoldable pub flush_once : Config → ℕ → Forwarder → List Row → List Row × (Forwarder × Pass)
  flush_once config now state table =
      let pass = drain now (list_pending config.batch_size table) state table in
      if has_api config.central_api
      then pass
      else (table, (state, record { sent = 0; failed = 0; configured = false }))

-- `_flush_loop`: the wait after a pass with this many failures.
abbrev pub next_backoff : ℕ → ℕ → ℕ → ℕ
next_backoff interval failed backoff = if leb failed 0 then interval else min (backoff * 2) 60000
