-- ===== src/Triggers/Operator.antt =====
-- fieldpilot/triggers/engine.py: the actions of an operator on one tracked alert.
use field_pilot_ai_submissio.Common.{
  Option, none, some, Bool, true, false, text_equality, String, if◌then◌else◌,
}
use field_pilot_ai_submissio.Common.Dict
use field_pilot_ai_submissio.Events.Value.{Value}
use field_pilot_ai_submissio.Triggers.Alert.{Alert, AlertState}
use field_pilot_ai_submissio.Triggers.World.{
  alert_updated, alert_resolved, Config, World, Clock, cache_key, save, emit, fetch,
}

abbrev pub is_resolved : AlertState → Bool
is_resolved AlertState.resolved = true
is_resolved _ = false

abbrev pub is_suppressed : AlertState → Bool
is_suppressed AlertState.suppressed = true
is_suppressed _ = false

module _ (cfg : Config) (t : Clock) where
  unfoldable pub resolve : String → World → World × Option Alert
  unfolding fetch save emit
  resolve key w =
      let (found, w') = fetch cfg t (cache_key key) w in
      elim found [
        | none ↦ (w', none)
        | some alert ↦
            let a = record alert { state = AlertState.resolved; resolved_at = some t.now } in
            if is_resolved alert.state
            then (w', some alert)
            else (emit cfg t alert_resolved a (save cfg t (cache_key key) a w'), some a)
      ]

  unfoldable pub suppress : String → World → World × Option Alert
  unfolding fetch save emit
  suppress key w =
      let (found, w') = fetch cfg t (cache_key key) w in
      elim found [
        | none ↦ (w', none)
        | some alert ↦
            let a = record alert { state = AlertState.suppressed; suppressed_at = some t.now } in
            (emit cfg t alert_updated a (save cfg t (cache_key key) a w'), some a)
      ]

  unfoldable pub unsuppress : String → World → World × Option Alert
  unfolding fetch save emit
  unsuppress key w =
      let (found, w') = fetch cfg t (cache_key key) w in
      elim found [
        | none ↦ (w', none)
        | some alert ↦
            let a = record alert { state = AlertState.active; suppressed_at = none } in
            if is_suppressed alert.state
            then (emit cfg t alert_updated a (save cfg t (cache_key key) a w'), some a)
            else (w', some alert)
      ]

  -- `TriggerEngine.get`
  unfoldable pub find : String → World → World × Option Alert
  unfolding fetch
  find key w = let (found, w') = fetch cfg t (cache_key key) w in (w', found)

  unfoldable pub set_verdict : String → Value → World → World × Option Alert
  unfolding fetch save emit
  set_verdict key verdict w =
      let (found, w') = fetch cfg t (cache_key key) w in
      elim found [
        | none ↦ (w', none)
        | some alert ↦
            let a = record alert { payload = Dict.set "llm_verdict" verdict alert.payload } in
            (emit cfg t alert_updated a (save cfg t (cache_key key) a w'), some a)
      ]
