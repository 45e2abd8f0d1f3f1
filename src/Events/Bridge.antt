-- ===== src/Events/Bridge.antt =====
-- fieldpilot/events/bridge.py: from the hazard of an edge detector to an event on the bus. Coordinates
-- are in thousandths; `str` of values, `float`, the fresh identifier are parameters, and nothing is an
-- exception.
use field_pilot_ai_submissio.Common.{
  ℕ, ◌*◌, Option, none, some, if◌then◌else◌, String, text_equality, ◌>>=◌,
}
use field_pilot_ai_submissio.Common.Dict
use field_pilot_ai_submissio.Common.Dict.{Dict}
use field_pilot_ai_submissio.Common.Int.{ℤ, pos}
use field_pilot_ai_submissio.Events.Value.{Value, Items, is_truthy}
use field_pilot_ai_submissio.Events.Schema.{Event, EventType, event_type_value, str}
use field_pilot_ai_submissio.Events.Schema
use field_pilot_ai_submissio.Events.Bus.{Bus, publish, event_topic}
use Prim.Native.String.{◌++◌}

pub data HazardType : Type 0 where
  fall ppe_missing unnoticed_hazard proximity crack : HazardType

abbrev pub hazard_type_value : HazardType → String
hazard_type_value HazardType.fall = "fall"
hazard_type_value HazardType.ppe_missing = "ppe_missing"
hazard_type_value HazardType.unnoticed_hazard = "unnoticed_hazard"
hazard_type_value HazardType.proximity = "proximity"
hazard_type_value HazardType.crack = "crack"

-- The severities of the edge.
pub data Severity : Type 0 where
  low medium high : Severity

-- A rectangle: x1, y1, x2, y2
abbrev pub Box : Type 0
Box = ℤ × (ℤ × (ℤ × ℤ))

pub record HazardEvent : Type 0 where
  pub hazard_type : HazardType
  pub severity : Severity
  pub message : String
  pub frame_index : ℕ
  pub ts_monotonic : ℕ
  pub track_id : Option ℕ
  pub bbox : Option Box
  pub meta : Dict String Value
  pub id : String
  pub ts_wall : ℕ

-- `_HAZARD_TO_EVENT`
abbrev pub event_type_of : HazardType → EventType
event_type_of HazardType.fall = EventType.fall
event_type_of HazardType.ppe_missing = EventType.ppe
event_type_of HazardType.proximity = EventType.proximity
event_type_of HazardType.unnoticed_hazard = EventType.ppe
event_type_of HazardType.crack = EventType.crack

-- `_SEVERITY_MAP`
abbrev pub severity_of : Severity → Schema.Severity
severity_of Severity.low = Schema.Severity.low
severity_of Severity.medium = Schema.Severity.medium
severity_of Severity.high = Schema.Severity.high

-- TOPIC_ALL
abbrev topic_all : String
topic_all = "events.all"

abbrev pub items_of : Box → Items
items_of (a, (b, (c, d))) =
    Items.item (Value.num a)
      (Items.item (Value.num b) (Items.item (Value.num c) (Items.item (Value.num d) Items.stop)))

-- `d.setdefault(k, v)`
abbrev pub set_missing : Option Value → String → Value → Dict String Value → Dict String Value
set_missing none k v d = Dict.set k v d
set_missing (some w) k v d = d

abbrev pub set_default : String → Value → Dict String Value → Dict String Value
set_default k v d = set_missing (Dict.get k d) k v d

abbrev pub with_box : Option Box → Dict String Value → Dict String Value
with_box none payload = payload
with_box (some box) payload = Dict.set "bbox" (Value.list (items_of box)) payload

-- A field of type `str | None`.
abbrev pub optional_text : Option Value → Option (Option String)
optional_text none = some none
optional_text (some Value.null) = some none
optional_text (some (Value.text s)) = some (some s)
optional_text (some _) = none

module _ (repr : Value → String) (show : ℕ → String) where
  -- `str(meta.get("ppe") or hazard_type.value)`
  abbrev pub subject_of : Option Value → HazardType → String
  subject_of none kind = hazard_type_value kind
  subject_of (some v) kind = if is_truthy v then str repr v else hazard_type_value kind

  abbrev pub payload_of : HazardEvent → Dict String Value
  payload_of hazard = with_box hazard.bbox (
      set_default "dedup_key"
        (Value.text (subject_of (Dict.get "ppe" hazard.meta) hazard.hazard_type))
        (Dict.set "frame_index" (Value.num (pos (1000 * hazard.frame_index)))
          (Dict.set "message" (Value.text hazard.message) hazard.meta)))

  -- `str(v) if v else default`
  abbrev pub text_or {ℓ} : {A : Type ℓ} → (String → A) → Option Value → A → A
  text_or wrap none d = d
  text_or wrap (some v) d = if is_truthy v then wrap (str repr v) else d

  abbrev pub worker_of : Option ℕ → Option String
  worker_of none = none
  worker_of (some n) = some ("w-" ++ show n)

  module _ (float : Value → Option ℕ) where
    abbrev pub confidence_of : Option Value → Option ℕ
    confidence_of none = some 1000
    confidence_of (some v) = float v

    unfoldable pub hazard_to_event : String → String → Option String → HazardEvent → Option Event
    hazard_to_event fresh camera place hazard =
        confidence_of (Dict.get "confidence" hazard.meta) >>= λ confidence.
        optional_text (Dict.get "image_url" hazard.meta) >>= λ image_url. some (record {
          event_id = fresh;
          worker_id = worker_of hazard.track_id;
          camera_id = text_or (λ s. s) (Dict.get "source_camera_id" hazard.meta) camera;
          zone = text_or some (Dict.get "source_zone" hazard.meta) place;
          timestamp = hazard.ts_wall;
          event_type = event_type_of hazard.hazard_type;
          confidence = confidence;
          severity = severity_of hazard.severity;
          payload = payload_of hazard;
          image_url = image_url;
          video_url = none;
        })

    -- `publish_event`, for messages that `dump` makes of events
    module _ {M H : Type 0} (dump : Event → M) where
      abbrev pub publish_event : Event → Bus M H → Bus M H
      publish_event event bus =
          publish topic_all (dump event)
            (publish (event_topic (event_type_value event.event_type)) (dump event) bus)

      unfoldable pub emit :
          String → String → Option String → HazardEvent → Bus M H → Bus M H × Option Event
      unfolding hazard_to_event
      emit fresh camera place hazard bus = elim (hazard_to_event fresh camera place hazard) [
        | none ↦ (bus, none)
        | some event ↦ (publish_event event bus, some event)
      ]
