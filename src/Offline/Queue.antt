-- ===== src/Offline/Queue.antt =====
-- No event is lost and none is sent twice after it was acknowledged: the queue over any run.
use field_pilot_ai_submissio.Common.{
  ℕ, ◌≡◌, refl, ◌∙◌, Option, none, some, Bool, true, false, List, String, text_equality, ◌==◌,
  ==_iff, ◌||◌, ◌&&◌, arith, Bool-cases, Option-cases, inl, inr, is_some,
}
use field_pilot_ai_submissio.Common.Text.{truthy}
use field_pilot_ai_submissio.Storage.Table
use field_pilot_ai_submissio.Storage.Lookup.{get-upsert}
use field_pilot_ai_submissio.Storage.Query.{has_key, passes}
use field_pilot_ai_submissio.Offline.Outbox.{
  Event, Row, spec, queued, enqueue, enqueue_id, list_pending, was_sent, is_sent,
}
use field_pilot_ai_submissio.Offline.Forwarder.{Body, Reply, Config, Forwarder, flush_once, has_api}
use field_pilot_ai_submissio.Offline.Delivery.{get-flush_once, accepted, refused, after_refusal}

-- The event is in the queue; it was acknowledged.
abbrev pub held : String → List Row → Bool
held k table = is_some (Table.get spec k table)

abbrev pub delivered : String → List Row → Bool
delivered k table = passes spec was_sent (Table.get spec k table)

module _ (read_float read_iso : String → Option ℕ) where
  enqueue_id-tracks :
      (now : ℕ) (id : String) (event : Event) (o : Option Row) (table : List Row) (k : String)
      → Table.get spec id table ≡ o
      → (delivered k (enqueue_id read_float read_iso now id event o table).0 ≡ delivered k table)
        × (held k (enqueue_id read_float read_iso now id event o table).0
            ≡ (id == k || held k table))
  unfolding enqueue_id queued Table.put
  enqueue_id-tracks now id event none table k e =
      let g = get-upsert spec (queued read_float read_iso now id event none) table k in
      (ground (arith, g, ==_iff id k), ground (arith, g, ==_iff id k))
  enqueue_id-tracks now id event (some r) table k e = elim (Bool-cases (is_sent r.status)) [
    | inl hit ↦ rw hit (refl, ground (arith, e, ==_iff id k))
    | inr miss ↦
        let g = get-upsert spec (queued read_float read_iso now id event (some r)) table k in
        rw miss (ground (arith, g, e, ==_iff id k), ground (arith, g, ==_iff id k))
  ]

  abbrev names : Option String → String → Bool
  names none k = false
  names (some id) k = truthy id && (id == k)

  -- Queueing an event, however often, puts it into the queue, and neither takes back nor feigns the
  -- delivery of any.
  pub enqueue-tracks :
      (now : ℕ) (event : Event) (table : List Row) (k : String)
      → (delivered k (enqueue read_float read_iso now event table).0 ≡ delivered k table)
        × (held k (enqueue read_float read_iso now event table).0
            ≡ (names event.event_id k || held k table))
  unfolding enqueue
  enqueue-tracks now event table k = elim (Option-cases event.event_id) [
    | inl e ↦ rw e (refl, refl)
    | inr (id, e) ↦ elim (Bool-cases (truthy id)) [
      | inl hit ↦
          rw (e, hit)
            (enqueue_id-tracks now id (record event { event_id = some id })
              (Table.get spec id table) table k refl)
      | inr miss ↦ rw (e, miss) (refl, refl)
    ]
  ]

module _ (show : ℕ → String) (answer : Body → Reply) (now : ℕ) where
  after_refusal-tracks :
      (o : Option (Row × String)) (k : String) (row : Option Row)
      → (passes spec was_sent (after_refusal show answer now o k row) ≡ passes spec was_sent row)
        × (is_some (after_refusal show answer now o k row) ≡ is_some row)
  after_refusal-tracks none k row = (refl, refl)
  after_refusal-tracks (some (r, e)) k none = (ground arith, ground arith)
  after_refusal-tracks (some (r, e)) k (some row) = (ground arith, ground arith)

  -- With a server configured, a pass delivers the queued events that the server acknowledges in
  -- it, takes back no delivery, and drops no event.
  pub flush_once-tracks :
      (config : Config) (state : Forwarder) (table : List Row) (k : String)
      → has_api config.central_api ≡ true
      → (delivered k (flush_once show answer config now state table).0 ≡ (
          delivered k table
          || (held k table
              && has_key spec k (accepted show answer now (list_pending config.batch_size table)))))
        × (held k (flush_once show answer config now state table).0 ≡ held k table)
  flush_once-tracks config state table k h =
      let rows = list_pending config.batch_size table in
      rw (get-flush_once show answer now config state table k h) (
        (after_refusal-tracks (refused show answer now rows) k _).0 ∙ ground arith,
        (after_refusal-tracks (refused show answer now rows) k _).1 ∙ ground arith,
      )

-- The life of a queue between two purges: events come in, and the flusher makes its passes, the
-- server answering as it likes in each.
pub data Steps (read_float read_iso : String → Option ℕ) : List Row → List Row → Type 0 where
  stays : (table : List Row) → Steps read_float read_iso table table
  enqueues :
      (now : ℕ) (event : Event) {table after : List Row}
      → Steps read_float read_iso (enqueue read_float read_iso now event table).0 after
      → Steps read_float read_iso table after
  flushes :
      (show : ℕ → String) (answer : Body → Reply) (config : Config) (now : ℕ) (state : Forwarder)
      {table after : List Row}
      → Steps read_float read_iso (flush_once show answer config now state table).0 after
      → Steps read_float read_iso table after

flush_once-kept :
    (show : ℕ → String) (answer : Body → Reply) (config : Config) (now : ℕ) (state : Forwarder)
    (table : List Row) (k : String)
    → (delivered k table ≡ true
        → delivered k (flush_once show answer config now state table).0 ≡ true)
      × (held k (flush_once show answer config now state table).0 ≡ held k table)
unfolding flush_once
flush_once-kept show answer config now state table k =
    elim (Bool-cases (has_api config.central_api)) [
      | inl hit ↦
          let both = flush_once-tracks show answer now config state table k hit in
          (λ d. both.0 ∙ ground (arith, d), both.1)
      | inr miss ↦ rw miss (λ d. d, refl)
    ]

-- An event that was acknowledged stays so: no later queueing of it, and no pass, makes it pending
-- again.
pub Steps-delivered :
    (read_float read_iso : String → Option ℕ) (k : String) (table after : List Row)
    → Steps read_float read_iso table after
    → delivered k table ≡ true
    → delivered k after ≡ true
Steps-delivered read_float read_iso k table after (stays _) d = d
Steps-delivered read_float read_iso k table after (enqueues now event steps) d =
    Steps-delivered read_float read_iso k _ after steps
      ((enqueue-tracks read_float read_iso now event table k).0 ∙ d)
Steps-delivered read_float read_iso k table after (flushes show answer config now state steps) d =
    Steps-delivered read_float read_iso k _ after steps
      ((flush_once-kept show answer config now state table k).0 d)

-- An event that is in the queue stays in it, whatever is queued and however the server answers in
-- the passes.
pub Steps-held :
    (read_float read_iso : String → Option ℕ) (k : String) (table after : List Row)
    → Steps read_float read_iso table after
    → held k table ≡ true
    → held k after ≡ true
Steps-held read_float read_iso k table after (stays _) h = h
Steps-held read_float read_iso k table after (enqueues now event steps) h =
    Steps-held read_float read_iso k _ after steps
      ((enqueue-tracks read_float read_iso now event table k).1 ∙ ground (arith, h))
Steps-held read_float read_iso k table after (flushes show answer config now state steps) h =
    Steps-held read_float read_iso k _ after steps
      ((flush_once-kept show answer config now state table k).1 ∙ h)
