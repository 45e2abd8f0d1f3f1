-- ===== src/Offline/Delivery.antt =====
-- What a pass of the flusher does to the queue.
use field_pilot_ai_submissio.Common.{
  ℕ, ◌+◌, ◌≡◌, refl, ◌∙◌, Option, none, some, true, List, [], ◌∷◌, String, text_equality, ◌==◌,
  if◌then◌else◌, not, arith, length, Bool-cases, Option-cases, inl, inr, is_some,
}
use mathlib.Core.Option
use field_pilot_ai_submissio.Storage.Table
use field_pilot_ai_submissio.Storage.Lookup.{get-patch}
use field_pilot_ai_submissio.Storage.Query.{has_key}
use field_pilot_ai_submissio.Offline.Outbox.{
  Row, spec, as_sent, as_failed, mark_sent, mark_failed, list_pending,
}
use field_pilot_ai_submissio.Offline.Forwarder.{
  Body, Reply, Config, Forwarder, Pass, post, error_text, flush_rows, drain, flush_once, has_api,
}

module _ (show : ℕ → String) (answer : Body → Reply) (now : ℕ) where
  -- The rows up to the first that the server does not acknowledge.
  abbrev pub accepted : List Row → List Row
  accepted [] = []
  accepted (r ∷ rows) = elim (post show answer now r) [ none ↦ r ∷ accepted rows | some e ↦ [] ]

  -- That row, if there is one, with its error.
  abbrev pub refused : List Row → Option (Row × String)
  refused [] = none
  refused (r ∷ rows) = elim (post show answer now r) [ none ↦ refused rows | some e ↦ some (r, e) ]

  -- A row after it was refused, and any other row as it is.
  abbrev pub after_refusal : Option (Row × String) → String → Option Row → Option Row
  after_refusal none k o = o
  after_refusal (some (r, e)) k o =
      if r.event_id == k then Option.map (as_failed (error_text e) (1 + r.attempts)) o else o

  -- What a pass over the rows leaves under an identifier.
  abbrev pub drained : List Row → List Row → String → Option Row
  drained rows table k = after_refusal (refused rows) k (
      if has_key spec k (accepted rows)
      then Option.map (as_sent now) (Table.get spec k table)
      else Table.get spec k table)

  get-mark_sent :
      (id : String) (table : List Row) (k : String)
      → Table.get spec k (mark_sent now id table) ≡ (
          if id == k
          then Option.map (as_sent now) (Table.get spec k table)
          else Table.get spec k table)
  unfolding mark_sent
  get-mark_sent id table k = get-patch spec (as_sent now) (λ r. refl) id table k

  settles :
      (o : Option Row)
      → Option.map (as_sent now) (Option.map (as_sent now) o) ≡ Option.map (as_sent now) o
  settles none = refl
  settles (some r) = refl

  get-mark_failed :
      (id e : String) (n : ℕ) (table : List Row) (k : String)
      → Table.get spec k (mark_failed id e n table) ≡ (
          if id == k
          then Option.map (as_failed e n) (Table.get spec k table)
          else Table.get spec k table)
  unfolding mark_failed
  get-mark_failed id e n table k = get-patch spec (as_failed e n) (λ r. refl) id table k

  get-flush_rows :
      (rows table : List Row) (k : String)
      → Table.get spec k (flush_rows show answer now rows table).0 ≡ drained rows table k
  unfolding flush_rows has_key
  get-flush_rows [] table k = refl
  get-flush_rows (r ∷ rows) table k = elim (Option-cases (post show answer now r)) [
    | inl e ↦
        rw (flush_rows, accepted, refused, e)
          (get-flush_rows rows (mark_sent now r.event_id table) k
            ∙ rw (get-mark_sent r.event_id table k) (elim (Bool-cases (r.event_id == k)) [
              | inl same ↦ rw (same, settles (Table.get spec k table)) (ground arith)
              | inr other ↦ rw other refl
            ]))
    | inr (m, e) ↦
        rw (flush_rows, accepted, refused, e)
          (get-mark_failed r.event_id (error_text m) (1 + r.attempts) table k)
  ]

  flush_rows-counts :
      (rows table : List Row)
      → (flush_rows show answer now rows table).1
        ≡ (length (accepted rows), if is_some (refused rows) then 1 else 0)
  unfolding flush_rows
  flush_rows-counts [] table = refl
  flush_rows-counts (r ∷ rows) table =
      ground (arith, flush_rows-counts rows (mark_sent now r.event_id table))

  get-drain :
      (rows : List Row) (state : Forwarder) (table : List Row) (k : String)
      → Table.get spec k (drain show answer now rows state table).0 ≡ drained rows table k
  unfolding drain has_key
  get-drain [] state table k = refl
  get-drain (r ∷ rows) state table k = get-flush_rows (r ∷ rows) table k

  -- With a server configured, a pass marks as sent the oldest pending events up to the first one
  -- that the server does not acknowledge, notes the error and one more attempt at that one, and
  -- touches no other row.
  pub get-flush_once :
      (config : Config) (state : Forwarder) (table : List Row) (k : String)
      → has_api config.central_api ≡ true
      → Table.get spec k (flush_once show answer config now state table).0
        ≡ drained (list_pending config.batch_size table) table k
  unfolding flush_once
  get-flush_once config state table k h =
      rw h (get-drain (list_pending config.batch_size table) state table k)

  -- What a pass reports: how many events were acknowledged, whether one was refused, and whether the
  -- server counts as reachable, which it does exactly if none was.
  abbrev pub Reports : List Row → Forwarder → Forwarder × Pass → Type 0
  Reports rows before (state, pass) =
      (pass.sent ≡ length (accepted rows))
      × ((pass.failed ≡ (if is_some (refused rows) then 1 else 0))
          × ((state.flushed_total ≡ before.flushed_total + length (accepted rows))
              × (state.online ≡ some (not (is_some (refused rows))))))

  drain-Reports :
      (rows : List Row) (state : Forwarder) (table : List Row)
      → Reports rows state (drain show answer now rows state table).1
  unfolding drain
  drain-Reports [] state table = (refl, (refl, (omega arith, refl)))
  drain-Reports (r ∷ rows) state table =
      rw (flush_rows-counts (r ∷ rows) table) (refl, (refl, (refl, ground arith)))

  -- With a server configured, a pass reports how many events were acknowledged and whether one was
  -- refused, adds the former to the total, and counts the server as reachable exactly if none was
  -- refused.
  pub flush_once-Reports :
      (config : Config) (state : Forwarder) (table : List Row)
      → has_api config.central_api ≡ true
      → Reports
          (list_pending config.batch_size table)
          state
          (flush_once show answer config now state table).1
  unfolding flush_once
  flush_once-Reports config state table h =
      rw h (drain-Reports (list_pending config.batch_size table) state table)
