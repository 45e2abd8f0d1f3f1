-- ===== src/Triggers/Engine.antt =====
-- fieldpilot/triggers/engine.py: TriggerEngine.process, what one detection does.
use field_pilot_ai_submissio.Common.{
  ◌+◌, none, some, Bool, true, false, text_equality, String, ltb, if◌then◌else◌,
}
use field_pilot_ai_submissio.Events.Value.{Value}
use field_pilot_ai_submissio.Events.Schema.{Event, dedup_key}
use field_pilot_ai_submissio.Triggers.Alert.{Alert, AlertState, merge, open_alert}
use field_pilot_ai_submissio.Triggers.World.{
  alert_new, alert_updated, Config, World, Clock, cache_key, save, emit, fetch,
}

pub data Outcome : Type 0 where
  created merged reactivated suppressed_duplicate suppressed : Outcome

pub record ProcessResult : Type 0 where
  pub outcome : Outcome
  pub alert : Alert
  pub notified : Bool

abbrev pub confirm : AlertState → AlertState
confirm AlertState.new = AlertState.active
confirm s = s

module _ (cfg : Config) (t : Clock) where
  -- A suppressed alert takes the detection in silence.
  unfoldable pub on_suppressed : String → Event → Alert → World → World × ProcessResult
  unfolding save
  on_suppressed key event alert w =
      let a = merge alert event t.now in
      (save cfg t key a w, record { outcome = Outcome.suppressed; alert = a; notified = false })

  -- A resolved issue that comes back is active again, and is announced.
  unfoldable pub on_resolved : String → Event → Alert → World → World × ProcessResult
  unfolding save emit
  on_resolved key event alert w =
      let a = merge (record alert { state = AlertState.active; resolved_at = none }) event t.now in
      (
        emit cfg t alert_new a (save cfg t key a w),
        record { outcome = reactivated; alert = a; notified = true },
      )

  -- A tracked issue: within the window a duplicate, after it a confirmation.
  unfoldable pub on_tracked : String → Event → Alert → World → World × ProcessResult
  unfolding save emit
  on_tracked key event alert w =
      let a = merge alert event t.now in
      let b = record a { state = confirm a.state } in
      if ltb t.now (alert.last_seen + cfg.dedup_window)
      then (
        save cfg t key a w,
        record { outcome = suppressed_duplicate; alert = a; notified = false },
      )
      else (
        emit cfg t alert_updated b (save cfg t key b w),
        record { outcome = merged; alert = b; notified = false },
      )

  unfoldable pub on_cached : AlertState → String → Event → Alert → World → World × ProcessResult
  unfolding on_suppressed on_resolved on_tracked
  on_cached AlertState.suppressed = on_suppressed
  on_cached AlertState.resolved = on_resolved
  on_cached AlertState.new = on_tracked
  on_cached AlertState.active = on_tracked

  unfoldable pub on_missing :
      (Value → String) → String → String → Event → World → World × ProcessResult
  unfolding save emit
  on_missing repr fresh key event w =
      let a = open_alert repr fresh t.now event in
      (
        emit cfg t alert_new a (save cfg t key a w),
        record { outcome = created; alert = a; notified = true },
      )

  unfoldable pub process : (Value → String) → String → Event → World → World × ProcessResult
  unfolding fetch on_missing on_cached
  process repr fresh event w =
      let key = cache_key (dedup_key repr event) in
      let (found, w') = fetch cfg t key w in
      elim found [
        | none ↦ on_missing repr fresh key event w'
        | some alert ↦ on_cached alert.state key event alert w'
      ]
