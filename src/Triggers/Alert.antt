-- ===== src/Triggers/Alert.antt =====
-- The alerts that fieldpilot/triggers/engine.py tracks, and how a detection merges into one.
use field_pilot_ai_submissio.Common.{
  ℕ, ◌+◌, max, Option, none, some, [], ◌∷◌, String, text_equality, ltb, if◌then◌else◌,
}
use field_pilot_ai_submissio.Common.Dict.{Dict, get, update}
use field_pilot_ai_submissio.Common.Text.{truthy}
use field_pilot_ai_submissio.Events.Value.{Value, is_truthy}
use field_pilot_ai_submissio.Events.Schema.{
  Event, EventType, Severity, event_type_value, rank, dedup_key, str,
}
use Prim.Native.String.{◌++◌}

pub data AlertState : Type 0 where
  new active resolved suppressed : AlertState

pub record Alert : Type 0 where
  pub alert_id : String
  pub dedup_key : String
  pub event_type : EventType
  pub worker_id : Option String
  pub camera_id : String
  pub zone : Option String
  pub severity : Severity
  pub state : AlertState
  pub hit_count : ℕ
  pub confidence : ℕ
  pub first_seen : ℕ
  pub last_seen : ℕ
  pub resolved_at : Option ℕ
  pub suppressed_at : Option ℕ
  pub message : String
  pub payload : Dict String Value
  pub image_url : Option String
  pub video_url : Option String

-- `{k: v for k, v in payload.items() if v is not None}`
abbrev pub without_nulls : Dict String Value → Dict String Value
without_nulls [] = []
without_nulls ((k, Value.null) ∷ d) = without_nulls d
without_nulls ((k, v) ∷ d) = (k, v) ∷ without_nulls d

-- The new link if there is one, else the old.
abbrev pub prefer : Option String → Option String → Option String
prefer none old = old
prefer (some url) old = if truthy url then some url else old

unfoldable pub merge : Alert → Event → ℕ → Alert
merge alert event now = record alert {
  hit_count = alert.hit_count + 1;
  last_seen = now;
  confidence = max alert.confidence event.confidence;
  severity =
      if ltb (rank alert.severity) (rank event.severity) then event.severity else alert.severity;
  image_url = prefer event.image_url alert.image_url;
  video_url = prefer event.video_url alert.video_url;
  payload = update (without_nulls event.payload) alert.payload;
}

module _ (repr : Value → String) where
  abbrev default_message : Event → String
  default_message event = event_type_value event.event_type ++ " detected"

  unfoldable pub message_of : Event → String
  message_of event = elim (get "message" event.payload) [
    | none ↦ default_message event
    | some v ↦ if is_truthy v then str repr v else default_message event
  ]

  -- The alert that a first detection opens, under a fresh id.
  unfoldable pub open_alert : String → ℕ → Event → Alert
  open_alert fresh now event = record {
    alert_id = fresh;
    dedup_key = dedup_key repr event;
    event_type = event.event_type;
    worker_id = event.worker_id;
    camera_id = event.camera_id;
    zone = event.zone;
    severity = event.severity;
    state = AlertState.new;
    hit_count = 1;
    confidence = event.confidence;
    first_seen = now;
    last_seen = now;
    resolved_at = none;
    suppressed_at = none;
    message = message_of event;
    payload = event.payload;
    image_url = event.image_url;
    video_url = event.video_url;
  }
