-- ===== src/Alerts/Tests.antt =====
-- Three falls within nine seconds, where the cooldown is five.
use field_pilot_ai_submissio.Common.{ℕ, ◌≡◌, refl, none, false, List, [], ◌∷◌, text_equality}
use field_pilot_ai_submissio.Common.Dict
use field_pilot_ai_submissio.Events.Bridge.{HazardType, Severity, HazardEvent}
use field_pilot_ai_submissio.Alerts.Dispatcher.{AlertDispatcher, dispatch, cooldown_ok}
use field_pilot_ai_submissio.Alerts.Spacing.{run, all_due, Spaced, run-Spaced}

abbrev fall : HazardEvent
fall = record {
  hazard_type = HazardType.fall;
  severity = Severity.high;
  message = "fall";
  frame_index = 1;
  ts_monotonic = 900;
  track_id = none;
  bbox = none;
  meta = [];
  id = "h1";
  ts_wall = 900;
}

abbrev dispatcher : AlertDispatcher
dispatcher = record { cooldowns = ("fall", 5000) ∷ []; last = []; dry_run = false; rendered = [] }

abbrev falls : List (ℕ × HazardEvent)
falls = (1000, fall) ∷ (4000, fall) ∷ (9000, fall) ∷ []

admitted_run : (run falls (dispatcher, [])).1 ≡ ("fall", 9000) ∷ ("fall", 1000) ∷ []
unfolding dispatch cooldown_ok Dict.get Dict.set
admitted_run = refl

run-Spaced_example :
    ((run falls (dispatcher, [])).1 ≡ all_due dispatcher.cooldowns falls [])
    × Spaced dispatcher.cooldowns (run falls (dispatcher, [])).1
run-Spaced_example = run-Spaced falls dispatcher refl
