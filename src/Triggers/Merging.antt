-- ===== src/Triggers/Merging.antt =====
-- What a detection leaves of the alert that it merges into, and when it is announced.
use field_pilot_ai_submissio.Common.{
  ℕ, ◌+◌, ◌≡◌, ◌↔◌, refl, max, Option, true, false, none, some, String, text_equality, arith, ltb,
  ◌⊎◌, inl, inr, Bool-cases,
}
use field_pilot_ai_submissio.Events.Value.{Value}
use field_pilot_ai_submissio.Events.Schema.{Event, dedup_key, rank}
use field_pilot_ai_submissio.Triggers.Alert.{Alert, AlertState, merge}
use field_pilot_ai_submissio.Triggers.World.{Config, World, Clock}
use field_pilot_ai_submissio.Triggers.Engine.{
  ProcessResult, on_suppressed, on_resolved, on_tracked, on_cached, on_missing, process,
}
use field_pilot_ai_submissio.Triggers.Tracked.{tracked}
use field_pilot_ai_submissio.Triggers.Detection.{process_cases}

-- `after` is `before` with one more detection of the event counted in.
pub record Merged (before after : Alert) (event : Event) (now : ℕ) : Type 0 where
  pub same_id : after.alert_id ≡ before.alert_id
  pub same_key : after.dedup_key ≡ before.dedup_key
  pub counted : after.hit_count ≡ before.hit_count + 1
  pub first_kept : after.first_seen ≡ before.first_seen
  pub last_moved : after.last_seen ≡ now
  pub most_severe : rank after.severity ≡ max (rank before.severity) (rank event.severity)
  pub most_confident : after.confidence ≡ max before.confidence event.confidence

merge-Merged :
    (alert : Alert) (event : Event) (now : ℕ) → Merged alert (merge alert event now) event now
unfolding merge
merge-Merged alert event now = record {
  same_id = refl;
  same_key = refl;
  counted = refl;
  first_kept = refl;
  last_moved = refl;
  most_severe = ground arith;
  most_confident = refl;
}

-- The state takes no part in it.
restated-Merged :
    {before after : Alert} {event : Event} {now : ℕ} (s : AlertState)
    → Merged before after event now
    → Merged before (record after { state = s }) event now
restated-Merged s m = record {
  same_id = m.same_id;
  same_key = m.same_key;
  counted = m.counted;
  first_kept = m.first_kept;
  last_moved = m.last_moved;
  most_severe = m.most_severe;
  most_confident = m.most_confident;
}

reopened-Merged :
    (before : Alert) {after : Alert} {event : Event} {now : ℕ}
    → Merged (record before { state = AlertState.active; resolved_at = none }) after event now
    → Merged before after event now
reopened-Merged before m = record {
  same_id = m.same_id;
  same_key = m.same_key;
  counted = m.counted;
  first_kept = m.first_kept;
  last_moved = m.last_moved;
  most_severe = m.most_severe;
  most_confident = m.most_confident;
}

module _ (cfg : Config) (t : Clock) where
  on_cached-Merged :
      (s : AlertState) (key : String) (event : Event) (alert : Alert) (w : World)
      → Merged alert (on_cached cfg t s key event alert w).1.alert event t.now
  unfolding on_cached on_suppressed on_resolved on_tracked merge
  on_cached-Merged AlertState.suppressed key event alert w = merge-Merged alert event t.now
  on_cached-Merged AlertState.resolved key event alert w =
      reopened-Merged alert
        (merge-Merged (record alert { state = AlertState.active; resolved_at = none }) event t.now)
  on_cached-Merged _ key event alert w =
      elim (Bool-cases (ltb t.now (alert.last_seen + cfg.dedup_window))) [
        | inl soon ↦ rw soon (merge-Merged alert event t.now)
        | inr late ↦ rw late (restated-Merged _ (merge-Merged alert event t.now))
      ]

  -- A detection of a tracked issue is counted into its alert, on every branch: one more hit, the
  -- first sighting kept, and neither the severity nor the confidence lowered.
  pub process-Merged :
      (repr : Value → String) (fresh : String) (event : Event) (w : World) (alert : Alert)
      → tracked t.cache_now w (dedup_key repr event) ≡ some alert
      → Merged alert (process cfg t repr fresh event w).1.alert event t.now
  process-Merged repr fresh event w alert e =
      process_cases cfg t (λ r. Merged alert r.1.alert event t.now) repr fresh event w
        (λ missing. cc)
        (λ found hit.
          let same : alert ≡ found = cc in rw same (on_cached-Merged found.state _ event found _))

  abbrev pub News : Option Alert → ProcessResult → Type 0
  News before r = (r.notified ≡ true) ↔ (
      (before ≡ none)
      ⊎ ((alert : Alert) × (before ≡ some alert) × (alert.state ≡ AlertState.resolved)))

  on_tracked-News :
      (key : String) (event : Event) (alert : Alert) (w : World)
      → (on_tracked cfg t key event alert w).1.notified ≡ false
  unfolding on_tracked
  on_tracked-News key event alert w = ground arith

  on_cached-News :
      (s : AlertState) (key : String) (event : Event) (alert : Alert) (w : World)
      → alert.state ≡ s
      → News (some alert) (on_cached cfg t s key event alert w).1
  unfolding on_cached on_suppressed on_resolved
  on_cached-News AlertState.suppressed key event alert w e =
      (λ p. cc, elim [ inl p ↦ cc | inr (a, p, q) ↦ cc ])
  on_cached-News AlertState.resolved key event alert w e = (λ p. inr (alert, refl, e), λ q. refl)
  on_cached-News AlertState.new key event alert w e =
      let silent = on_tracked-News key event alert w in
      (λ p. cc, elim [ inl p ↦ cc | inr (a, p, q) ↦ cc ])
  on_cached-News AlertState.active key event alert w e =
      let silent = on_tracked-News key event alert w in
      (λ p. cc, elim [ inl p ↦ cc | inr (a, p, q) ↦ cc ])

  -- A detection is news exactly when its issue is not tracked, or was resolved.
  pub process-News :
      (repr : Value → String) (fresh : String) (event : Event) (w : World)
      → News (tracked t.cache_now w (dedup_key repr event)) (process cfg t repr fresh event w).1
  unfolding on_missing
  process-News repr fresh event w =
      process_cases cfg t (λ r. News (tracked t.cache_now w (dedup_key repr event)) r.1) repr fresh
        event w (λ missing. (λ p. inl missing, λ q. refl))
        (λ found hit. rw hit (on_cached-News found.state _ event found _ refl))
