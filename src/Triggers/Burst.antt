-- ===== src/Triggers/Burst.antt =====
-- Runs of detections of one issue: what reaches the bus.
use field_pilot_ai_submissio.Common.{
  ℕ, ◌+◌, ◌≤◌, ◌<◌, ◌≡◌, refl, ap, true, none, some, String, text_equality, ==_refl, List, [], ◌∷◌,
  ◌++◌, arith, lt→ltb, ◌∙◌, length,
}
use mathlib.Core.List.{append-nil}
use field_pilot_ai_submissio.Events.Value.{Value}
use field_pilot_ai_submissio.Events.Schema.{Event, dedup_key}
use field_pilot_ai_submissio.Triggers.Alert.{Alert, AlertState, merge, open_alert}
use field_pilot_ai_submissio.Triggers.World.{alert_new, Config, World, Clock}
use field_pilot_ai_submissio.Triggers.Engine.{
  ProcessResult, created, on_suppressed, on_tracked, on_cached, on_missing, process,
}
use field_pilot_ai_submissio.Triggers.Tracked.{tracked, kept-some}
use field_pilot_ai_submissio.Triggers.Detection.{process_cases, process-Handled, announced}
use field_pilot_ai_submissio.Triggers.Merging.{process-Merged}

-- A detection as the engine meets it: its clocks, the id kept ready for a new alert, the event.
pub record Detection : Type 0 where
  pub clock : Clock
  pub fresh : String
  pub event : Event

module _ (cfg : Config) (repr : Value → String) where
  unfoldable pub detect_all : List Detection → World → World
  detect_all [] w = w
  detect_all (d ∷ ds) w = detect_all ds (process cfg d.clock repr d.fresh d.event w).0

  -- A detection at `now` says nothing new of an alert in state `s` that was last seen at `last`.
  abbrev pub Mute : AlertState → ℕ → ℕ → Type 0
  Mute AlertState.suppressed last now = Unit
  Mute AlertState.resolved last now = ⊥
  Mute _ last now = now < last + cfg.dedup_window

  -- Detections of one issue, each of them mute, none so late that the cache has dropped the alert.
  abbrev pub Burst : AlertState → String → ℕ → ℕ → List Detection → Type 0
  Burst s key last cached [] = Unit
  Burst s key last cached (d ∷ ds) =
      (dedup_key repr d.event ≡ key)
      × Mute s last d.clock.now
      × (cached ≤ d.clock.cache_now)
      × (d.clock.cache_now ≤ cached + cfg.cache_ttl)
      × Burst s key d.clock.now d.clock.cache_now ds

  -- The cache keeps the alert for the issue from `cached` on, until it drops it.
  abbrev pub Holds : String → Alert → ℕ → World → Type 0
  Holds key alert cached w =
      (u : ℕ) → cached ≤ u → u ≤ cached + cfg.cache_ttl → tracked u w key ≡ some alert

  on_tracked-Mute :
      (t : Clock) (key : String) (event : Event) (alert : Alert) (w : World)
      → t.now < alert.last_seen + cfg.dedup_window
      → let r = (on_tracked cfg t key event alert w).1 in
        (announced r ≡ []) × (r.alert.state ≡ alert.state)
  unfolding on_tracked merge
  on_tracked-Mute t key event alert w h =
      let soon = lt→ltb t.now (alert.last_seen + cfg.dedup_window) h in (rw soon, rw soon)

  on_cached-Mute :
      (t : Clock) (s : AlertState) (key : String) (event : Event) (alert : Alert) (w : World)
      → alert.state ≡ s
      → Mute s alert.last_seen t.now
      → let r = (on_cached cfg t s key event alert w).1 in (announced r ≡ []) × (r.alert.state ≡ s)
  unfolding on_cached on_suppressed merge
  on_cached-Mute t AlertState.suppressed key event alert w e m = (refl, e)
  on_cached-Mute t AlertState.resolved key event alert w e m = absurd m
  on_cached-Mute t AlertState.new key event alert w e m =
      let (silent, kept) = on_tracked-Mute t key event alert w m in (silent, kept ∙ e)
  on_cached-Mute t AlertState.active key event alert w e m =
      let (silent, kept) = on_tracked-Mute t key event alert w m in (silent, kept ∙ e)

  process-Mute :
      (t : Clock) (fresh : String) (event : Event) (w : World) (alert : Alert)
      → tracked t.cache_now w (dedup_key repr event) ≡ some alert
      → Mute alert.state alert.last_seen t.now
      → let r = process cfg t repr fresh event w in
        (announced r.1 ≡ []) × (r.1.alert.state ≡ alert.state)
  process-Mute t fresh event w alert e m =
      process_cases cfg t (λ r. (announced r.1 ≡ []) × (r.1.alert.state ≡ alert.state)) repr fresh
        event w (λ missing. absurd (cc))
        (λ found hit.
          let same : found ≡ alert = cc in
          rw same (on_cached-Mute t alert.state _ event alert _ refl m))

  Holds-process :
      (t : Clock) (fresh : String) (event : Event) (w : World)
      → let r = process cfg t repr fresh event w in
        Holds (dedup_key repr event) r.1.alert t.cache_now r.0
  Holds-process t fresh event w u h k =
      (process-Handled cfg t repr fresh event w).0 u (dedup_key repr event) h
      ∙ rw (==_refl (dedup_key repr event), kept-some cfg t u _ k)

  -- The cache time of the last detection.
  abbrev pub last_cached : ℕ → List Detection → ℕ
  last_cached cached [] = cached
  last_cached cached (d ∷ ds) = last_cached d.clock.cache_now ds

  -- What a silent run leaves: nothing on the bus, and the same alert with every detection counted.
  record Quieted (key : String) (alert : Alert) (n cached : ℕ) (before after : World) : Type 0 where
    last : Alert
    silent : after.published ≡ before.published
    holds : Holds key last cached after
    same_id : last.alert_id ≡ alert.alert_id
    same_state : last.state ≡ alert.state
    hits : last.hit_count ≡ alert.hit_count + n

  detect_all-Quieted :
      (ds : List Detection) (key : String) (alert : Alert) (cached : ℕ) (w : World)
      → Holds key alert cached w
      → Burst alert.state key alert.last_seen cached ds
      → Quieted key alert (length ds) (last_cached cached ds) w (detect_all ds w)
  unfolding detect_all
  detect_all-Quieted [] key alert cached w h b = record {
    last = alert;
    silent = refl;
    holds = h;
    same_id = refl;
    same_state = refl;
    hits = omega arith;
  }
  detect_all-Quieted (d ∷ ds) key alert cached w h (same, mute, after, before, rest) =
      let t = d.clock in
      let r = process cfg t repr d.fresh d.event w in
      let found : tracked t.cache_now w (dedup_key repr d.event) ≡ some alert =
        rw same (h t.cache_now after before) in
      let (silent, kept) = process-Mute t d.fresh d.event w alert found mute in
      let m = process-Merged cfg t repr d.fresh d.event w alert found in
      let holds : Holds key r.1.alert t.cache_now r.0 =
        rw same at (Holds-process t d.fresh d.event w) in
      let q =
        detect_all-Quieted ds key r.1.alert t.cache_now r.0 holds (rw (kept, m.last_moved) rest) in
      record {
        last = q.last;
        silent =
            q.silent
            ∙ (process-Handled cfg t repr d.fresh d.event w).1
            ∙ rw (silent, append-nil) (ground arith);
        holds = q.holds;
        same_id = q.same_id ∙ m.same_id;
        same_state = q.same_state ∙ kept;
        hits = omega (arith, m.counted, q.hits);
      }

  -- While the cache keeps an issue's alert, a run of mute detections of the issue (each within the
  -- window of the one before, or any at all while the alert is suppressed) puts nothing on the
  -- bus; at the time of the last one the cache holds the same alert in the same state, with as
  -- many more hits as there were detections.
  pub detect_all_silent :
      (ds : List Detection) (key : String) (alert : Alert) (cached : ℕ) (w : World)
      → Holds key alert cached w
      → Burst alert.state key alert.last_seen cached ds
      → ((detect_all ds w).published ≡ w.published)
        × ((a : Alert) × (tracked (last_cached cached ds) (detect_all ds w) key ≡ some a)
            × (a.alert_id ≡ alert.alert_id)
            × (a.state ≡ alert.state)
            × (a.hit_count ≡ alert.hit_count + length ds))
  detect_all_silent ds key alert cached w h b =
      let q = detect_all-Quieted ds key alert cached w h b in
      (
        q.silent,
        (
          q.last,
          q.holds (last_cached cached ds) (omega arith) (omega arith),
          q.same_id,
          q.same_state,
          q.hits,
        ),
      )

  process-opened :
      (t : Clock) (fresh : String) (event : Event) (w : World)
      → tracked t.cache_now w (dedup_key repr event) ≡ none
      → (process cfg t repr fresh event w).1
        ≡ record { outcome = created; alert = open_alert repr fresh t.now event; notified = true }
  unfolding on_missing
  process-opened t fresh event w e =
      process_cases cfg t
        (λ r. r.1 ≡ record {
          outcome = created;
          alert = open_alert repr fresh t.now event;
          notified = true;
        })
        repr fresh event w (λ missing. refl) (λ found hit. absurd (cc))

  -- A burst of detections of an issue that nothing tracks, each within the window of the one
  -- before, puts exactly one message on the bus: the alert that the first one opens.
  pub detect_all_once :
      (d : Detection) (ds : List Detection) (w : World)
      → cfg.has_bus ≡ true
      → tracked d.clock.cache_now w (dedup_key repr d.event) ≡ none
      → Burst AlertState.new (dedup_key repr d.event) d.clock.now d.clock.cache_now ds
      → (detect_all (d ∷ ds) w).published
        ≡ w.published ++ (alert_new, open_alert repr d.fresh d.clock.now d.event) ∷ []
  unfolding detect_all open_alert
  detect_all_once d ds w bus untracked b =
      let t = d.clock in
      let key = dedup_key repr d.event in
      let a = open_alert repr d.fresh t.now d.event in
      let r = process cfg t repr d.fresh d.event w in
      let opened = process-opened t d.fresh d.event w untracked in
      let holds : Holds key a t.cache_now r.0 =
        rw (ap (λ (p : ProcessResult). p.alert) opened) at (Holds-process t d.fresh d.event w) in
      (detect_all-Quieted ds key a t.cache_now r.0 holds b).silent
      ∙ (process-Handled cfg t repr d.fresh d.event w).1
      ∙ rw (opened, bus)
