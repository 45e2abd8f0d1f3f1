-- ===== src/Triggers/Detection.antt =====
-- What one detection does to the tracked alerts and to the bus (TriggerEngine.process).
use field_pilot_ai_submissio.Common.{
  ℕ, ◌+◌, ◌≤◌, ◌≡◌, refl, false, none, some, String, text_equality, if◌then◌else◌, ◌==◌, List, [],
  ◌∷◌, ◌++◌, arith, ltb, inl, inr, Option-cases, Bool-cases, sym, ◌∙◌,
}
use mathlib.Core.List.{append-nil}
use field_pilot_ai_submissio.Events.Value.{Value}
use field_pilot_ai_submissio.Events.Schema.{Event, dedup_key}
use field_pilot_ai_submissio.Triggers.Alert.{Alert, AlertState, merge}
use field_pilot_ai_submissio.Triggers.World.{
  Topic, alert_new, alert_updated, Config, World, Clock, cache_key, save, emit, fetch,
}
use field_pilot_ai_submissio.Triggers.Engine.{
  ProcessResult, created, merged, reactivated, suppressed_duplicate, Outcome, on_suppressed,
  on_resolved, on_tracked, on_cached, on_missing, process, confirm,
}
use field_pilot_ai_submissio.Triggers.Tracked.{
  tracked, kept, tracked-save, tracked-emit, tracked-fetch, fetch-tracked, published-fetch,
  published-save, published-emit,
}

-- The messages that a result puts on the bus.
abbrev pub announced : ProcessResult → List (Topic × Alert)
announced r = elim r.outcome [
  | created ↦ (alert_new, r.alert) ∷ []
  | reactivated ↦ (alert_new, r.alert) ∷ []
  | merged ↦ (alert_updated, r.alert) ∷ []
  | suppressed_duplicate ↦ []
  | Outcome.suppressed ↦ []
]

-- What holds of a pair of the surroundings and a result, whatever branch was taken.
abbrev pub Handled : Config → Clock → String → World → World × ProcessResult → Type 0
Handled cfg t key w r =
    ((u : ℕ) (j : String)
      → t.cache_now ≤ u
      → tracked u r.0 j ≡ (if key == j then kept cfg t u r.1.alert else tracked u w j))
    × (r.0.published ≡ (if cfg.has_bus then w.published ++ announced r.1 else w.published))

module _ (cfg : Config) (t : Clock) where
  quiet :
      (key : String) (w : World) (r : ProcessResult)
      → announced r ≡ []
      → Handled cfg t key w (save cfg t (cache_key key) r.alert w, r)
  quiet key w r silent = (
    λ u j h. tracked-save cfg t key r.alert w u j,
    rw (published-save, silent, append-nil) (ground arith),
  )

  loud :
      (key : String) (w : World) (topic : Topic) (r : ProcessResult)
      → announced r ≡ (topic, r.alert) ∷ []
      → Handled cfg t key w (emit cfg t topic r.alert (save cfg t (cache_key key) r.alert w), r)
  loud key w topic r heard = (
    λ u j h. tracked-emit cfg t topic r.alert _ u j ∙ tracked-save cfg t key r.alert w u j,
    rw (published-emit, published-save, heard),
  )

  on_missing-Handled :
      (repr : Value → String) (fresh key : String) (event : Event) (w : World)
      → Handled cfg t key w (on_missing cfg t repr fresh (cache_key key) event w)
  unfolding on_missing
  on_missing-Handled repr fresh key event w =
      loud key w alert_new (on_missing cfg t repr fresh (cache_key key) event w).1 refl

  on_tracked-Handled :
      (key : String) (event : Event) (alert : Alert) (w : World)
      → Handled cfg t key w (on_tracked cfg t (cache_key key) event alert w)
  unfolding on_tracked
  on_tracked-Handled key event alert w =
      let a = merge alert event t.now in
      elim (Bool-cases (ltb t.now (alert.last_seen + cfg.dedup_window))) [
        | inl soon ↦ rw soon (
            quiet key w (record { outcome = suppressed_duplicate; alert = a; notified = false })
              refl)
        | inr late ↦ rw late (
            loud key w alert_updated
              (record {
                outcome = merged;
                alert = record a { state = confirm a.state };
                notified = false;
              })
              refl)
      ]

  on_cached-Handled :
      (s : AlertState) (key : String) (event : Event) (alert : Alert) (w : World)
      → Handled cfg t key w (on_cached cfg t s (cache_key key) event alert w)
  unfolding on_cached on_suppressed on_resolved
  on_cached-Handled AlertState.suppressed key event alert w =
      quiet key w (on_suppressed cfg t (cache_key key) event alert w).1 refl
  on_cached-Handled AlertState.resolved key event alert w =
      loud key w alert_new (on_resolved cfg t (cache_key key) event alert w).1 refl
  on_cached-Handled AlertState.new key event alert w = on_tracked-Handled key event alert w
  on_cached-Handled AlertState.active key event alert w = on_tracked-Handled key event alert w

  fetched-Handled :
      (key : String) (w : World) (r : World × ProcessResult)
      → Handled cfg t key (fetch cfg t (cache_key key) w).1 r
      → Handled cfg t key w r
  fetched-Handled key w r h = (
    λ u j p. h.0 u j p ∙ rw (tracked-fetch cfg t (cache_key key) w u j p),
    h.1 ∙ rw (published-fetch cfg t (cache_key key) w),
  )

  -- The issue's alert is what the cache held for its key, and every branch handles it.
  pub process_cases {ℓ} :
      (P : World × ProcessResult → Type ℓ) (repr : Value → String) (fresh : String) (event : Event)
      (w : World)
      → let key = dedup_key repr event in
        let w' = (fetch cfg t (cache_key key) w).1 in
        (tracked t.cache_now w key ≡ none
          → P (on_missing cfg t repr fresh (cache_key key) event w'))
        → ((alert : Alert)
            → tracked t.cache_now w key ≡ some alert
            → P (on_cached cfg t alert.state (cache_key key) event alert w'))
        → P (process cfg t repr fresh event w)
  unfolding process
  process_cases P repr fresh event w missing hit =
      let key = dedup_key repr event in
      let same = fetch-tracked cfg t key w in
      elim (Option-cases (fetch cfg t (cache_key key) w).0) [
        | inl e ↦ rw (e, process) (missing (sym same ∙ e))
        | inr (alert, e) ↦ rw (e, process) (hit alert (sym same ∙ e))
      ]

  pub process-Handled :
      (repr : Value → String) (fresh : String) (event : Event) (w : World)
      → Handled cfg t (dedup_key repr event) w (process cfg t repr fresh event w)
  process-Handled repr fresh event w =
      let key = dedup_key repr event in
      fetched-Handled key w (process cfg t repr fresh event w) (
        process_cases (λ r. Handled cfg t key (fetch cfg t (cache_key key) w).1 r) repr fresh event
          w (λ _. on_missing-Handled repr fresh key event _)
          (λ alert _. on_cached-Handled alert.state key event alert _))

  -- A detection changes the tracked alert of its own issue and of no other: until the cache drops
  -- it, a read finds the alert that `process` returned.
  pub process-tracked :
      (repr : Value → String) (fresh : String) (event : Event) (w : World) (u : ℕ) (j : String)
      → t.cache_now ≤ u
      → tracked u (process cfg t repr fresh event w).0 j ≡ (
          if dedup_key repr event == j
          then kept cfg t u (process cfg t repr fresh event w).1.alert
          else tracked u w j)
  process-tracked repr fresh event w u j h = (process-Handled repr fresh event w).0 u j h
