-- ===== src/Events/HazardTests.antt =====
-- A missing helmet, seen twice by two cameras.
use field_pilot_ai_submissio.Common.{
  ℕ, ◌≡◌, refl, Option, none, some, [], ◌∷◌, String, text_equality,
}
use field_pilot_ai_submissio.Common.Dict
use field_pilot_ai_submissio.Common.Dict.{Dict}
use field_pilot_ai_submissio.Common.Int.{pos}
use field_pilot_ai_submissio.Events.Value.{Value}
use field_pilot_ai_submissio.Events.Schema.{Event, EventType, dedup_key}
use field_pilot_ai_submissio.Events.Schema
use field_pilot_ai_submissio.Events.Bridge.{
  HazardType, Severity, HazardEvent, hazard_to_event, payload_of,
}
use field_pilot_ai_submissio.Events.Collapsing.{hazard_to_event-dedup_key}

abbrev repr : Value → String
repr v = "?"

abbrev show : ℕ → String
show n = "7"

abbrev float : Value → Option ℕ
float v = some 900

abbrev helmet : HazardEvent
helmet = record {
  hazard_type = HazardType.ppe_missing;
  severity = Severity.high;
  message = "no helmet";
  frame_index = 4;
  ts_monotonic = 10;
  track_id = some 7;
  bbox = none;
  meta = ("ppe", Value.text "helmet") ∷ ("source_zone", Value.text "z1") ∷ [];
  id = "h1";
  ts_wall = 1000;
}

abbrev again : HazardEvent
again = record helmet {
  severity = Severity.low;
  message = "still no helmet";
  frame_index = 5;
  bbox = some (pos 1, (pos 2, (pos 3, pos 4)));
  ts_wall = 2000;
}

abbrev event_of : String → String → HazardEvent → Event
event_of fresh camera hazard = record {
  event_id = fresh;
  worker_id = some "w-7";
  camera_id = camera;
  zone = some "z1";
  timestamp = hazard.ts_wall;
  event_type = EventType.ppe;
  confidence = 1000;
  severity = elim hazard.severity [
    | Severity.low ↦ Schema.Severity.low
    | Severity.medium ↦ Schema.Severity.medium
    | Severity.high ↦ Schema.Severity.high
  ];
  payload = payload_of repr show hazard;
  image_url = none;
  video_url = none;
}

seen_run : hazard_to_event repr show float "e1" "c1" none helmet ≡ some (event_of "e1" "c1" helmet)
unfolding hazard_to_event Dict.get Dict.set
seen_run = refl

again_run : hazard_to_event repr show float "e2" "c2" none again ≡ some (event_of "e2" "c2" again)
unfolding hazard_to_event Dict.get Dict.set
again_run = refl

key_run : dedup_key repr (event_of "e1" "c1" helmet) ≡ "ppe:w-7:z1:helmet"
unfolding dedup_key Dict.get Dict.set
key_run = refl

hazard_to_event-dedup_key_example :
    dedup_key repr (event_of "e1" "c1" helmet) ≡ dedup_key repr (event_of "e2" "c2" again)
hazard_to_event-dedup_key_example =
    hazard_to_event-dedup_key repr show float "e1" "e2" "c1" "c2" none helmet again
      (event_of "e1" "c1" helmet) (event_of "e2" "c2" again) refl refl refl seen_run again_run
