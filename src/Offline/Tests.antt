-- ===== src/Offline/Tests.antt =====
-- A queue of two events and a server that is reached, or not.
use field_pilot_ai_submissio.Common.{
  ℕ, ◌≡◌, refl, Option, none, some, true, false, List, [], ◌∷◌, String, text_equality,
  number_equality, ◌==◌, if◌then◌else◌,
}
use field_pilot_ai_submissio.Storage.Table
use field_pilot_ai_submissio.Offline.Outbox.{
  Event, Row, spec, seconds, written, sent, enqueue, purge_sent, list_pending, mark_sent,
  mark_failed, queued,
}
use field_pilot_ai_submissio.Offline.Forwarder.{
  Body, Reply, Config, Forwarder, response, exception, flush_rows, flush_once, post, warned_after,
  drain,
}
use field_pilot_ai_submissio.Offline.Delivery.{drained, get-flush_once}
use field_pilot_ai_submissio.Offline.Queue.{
  held, delivered, Steps, stays, enqueues, flushes, Steps-delivered, Steps-held,
}

abbrev no_reading : String → Option ℕ
no_reading s = none

abbrev fall : Event
fall = record {
  event_id = some "e1";
  event_type = some "worker_fall";
  timestamp = seconds 90;
  rest = [];
}

abbrev fire : Event
fire = record {
  event_id = some "e2";
  event_type = some "fire";
  timestamp = written "soon";
  rest = [];
}

abbrev queue : List Row
queue = (enqueue no_reading no_reading 200 fire (enqueue no_reading no_reading 100 fall []).0).0

abbrev config : Config
config = record { central_api = some "http://site"; batch_size = 100; flush_interval = 5000 }

abbrev fresh : Forwarder
fresh = record { online = none; flushed_total = 0; warned_no_httpx = false }

abbrev show : ℕ → String
show n = "503"

abbrev up : Body → Reply
up body = response 201 ""

-- The second event's request fails.
abbrev goes_down : Body → Reply
goes_down body =
    if body.enqueued_at == 100 then response 200 "" else exception "ConnectError" "refused"

-- The first event is sent, the second is tried once and stays.
flush_run : (flush_once show goes_down config 1000 fresh queue).1 ≡ (
  record { online = some false; flushed_total = 1; warned_no_httpx = false },
  record { sent = 1; failed = 1; configured = true },
)
unfolding flush_once drain flush_rows warned_after list_pending Table.select enqueue queued post
    mark_sent mark_failed Table.patch Table.put
flush_run = refl

get-flush_once_example :
    Table.get spec "e2" (flush_once show goes_down config 1000 fresh queue).0
    ≡ drained show goes_down 1000 (list_pending 100 queue) queue "e2"
get-flush_once_example = get-flush_once show goes_down 1000 config fresh queue "e2" refl

abbrev sent_fall : List Row
sent_fall = (flush_once show up config 1000 fresh (enqueue no_reading no_reading 100 fall []).0).0

abbrev retried : List Row
retried =
    (flush_once show goes_down config 3000 fresh
      (enqueue no_reading no_reading 2000 fall sent_fall).0).0

retry : Steps no_reading no_reading sent_fall retried
retry = enqueues 2000 fall (flushes show goes_down config 3000 fresh (stays retried))

Steps-delivered_example : delivered "e1" retried ≡ true
unfolding flush_once drain flush_rows list_pending Table.select enqueue queued post mark_sent
    Table.patch Table.put
Steps-delivered_example = Steps-delivered no_reading no_reading "e1" sent_fall retried retry refl

Steps-held_example : held "e1" retried ≡ true
unfolding flush_once drain flush_rows list_pending Table.select enqueue queued post mark_sent
    Table.patch Table.put
Steps-held_example = Steps-held no_reading no_reading "e1" sent_fall retried retry refl

abbrev sent_row : Row
sent_row = record {
  event_id = "e1";
  event_type = none;
  status = sent;
  attempts = 0;
  last_error = none;
  timestamp = 90;
  enqueued_at = 100;
  flushed_at = some 1000;
  created_at = 100;
  event = fall;
}

purge_run : purge_sent 9000 5000 (sent_row ∷ []) ≡ ([], 1)
unfolding purge_sent Table.select Table.delete
purge_run = refl
