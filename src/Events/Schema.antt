-- ===== src/Events/Schema.antt =====
-- fieldpilot/events/schema.py: the event that every model emits, and its deduplication key.
-- Times are counted in milliseconds, confidences in thousandths; the texts of values that are no
-- texts (`str` of a number, a list, a dict) are a parameter.
use field_pilot_ai_submissio.Common.{
  ℕ, String, Option, none, some, if◌then◌else◌, List, [], ◌∷◌, text_equality,
}
use field_pilot_ai_submissio.Common.Dict.{Dict, get}
use field_pilot_ai_submissio.Common.Text.{truthy}
use field_pilot_ai_submissio.Events.Value.{Value, is_truthy}
use Prim.Native.String.{◌++◌}

pub data EventType : Type 0 where
  ppe fall crack inspection measurement fire gas rfi proximity : EventType

abbrev pub event_type_value : EventType → String
event_type_value EventType.ppe = "ppe"
event_type_value EventType.fall = "fall"
event_type_value EventType.crack = "crack"
event_type_value EventType.inspection = "inspection"
event_type_value EventType.measurement = "measurement"
event_type_value EventType.fire = "fire"
event_type_value EventType.gas = "gas"
event_type_value EventType.rfi = "rfi"
event_type_value EventType.proximity = "proximity"

pub data Severity : Type 0 where
  low medium high critical : Severity

abbrev pub severity_value : Severity → String
severity_value Severity.low = "low"
severity_value Severity.medium = "medium"
severity_value Severity.high = "high"
severity_value Severity.critical = "critical"

-- `Severity.rank`
abbrev pub rank : Severity → ℕ
rank Severity.low = 1
rank Severity.medium = 2
rank Severity.high = 3
rank Severity.critical = 4

pub record Event : Type 0 where
  pub event_id : String
  pub worker_id : Option String
  pub camera_id : String
  pub zone : Option String
  pub timestamp : ℕ
  pub event_type : EventType
  pub confidence : ℕ
  pub severity : Severity
  pub payload : Dict String Value
  pub image_url : Option String
  pub video_url : Option String

-- `x or default` on an optional text
abbrev pub or_text : Option String → String → String
or_text none d = d
or_text (some s) d = if truthy s then s else d

module _ (repr : Value → String) where
  -- `str(v)`
  abbrev pub str : Value → String
  str (Value.text s) = s
  str v = repr v

  -- `payload.get(k1) or payload.get(k2) or … or ""`, as a text
  unfoldable pub first_truthy : List String → Dict String Value → String
  first_truthy [] payload = ""
  first_truthy (k ∷ ks) payload = elim (get k payload) [
    | none ↦ first_truthy ks payload
    | some v ↦ if is_truthy v then str v else first_truthy ks payload
  ]

  abbrev pub discriminator_keys : List String
  discriminator_keys = "dedup_key" ∷ "subject" ∷ "element" ∷ "ppe_item" ∷ "defect" ∷ []

  unfoldable pub discriminator : Dict String Value → String
  unfolding first_truthy
  discriminator payload = first_truthy discriminator_keys payload

  -- `":".join([event_type, worker or "-", zone or "-", discriminator])`
  unfoldable pub dedup_key : Event → String
  unfolding discriminator
  dedup_key event =
      event_type_value event.event_type
      ++ ":"
      ++ or_text event.worker_id "-"
      ++ ":"
      ++ or_text event.zone "-"
      ++ ":"
      ++ discriminator event.payload
