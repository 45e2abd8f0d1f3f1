-- ===== src/Platform/Setup.antt =====
-- fieldpilot/backend/service.py: the state and the setting of the Orchestrator. What the verifier
-- says, what drafts an RFI, what senders do and how texts are made are parameters.
use field_pilot_ai_submissio.Common.{ℕ, Option, none, some, Bool, List, String, text_equality}
use field_pilot_ai_submissio.Common.Int.{pos}
use field_pilot_ai_submissio.Events.Value.{Value, Fields}
use field_pilot_ai_submissio.Events.Schema.{Event}
use field_pilot_ai_submissio.Triggers.Alert.{Alert}
use field_pilot_ai_submissio.Triggers.World
use field_pilot_ai_submissio.Triggers.World.{World, Clock}
use field_pilot_ai_submissio.Rules.Engine.{RuleEngine}
use field_pilot_ai_submissio.Zones.Service.{Zones}
use field_pilot_ai_submissio.Notifications.Service as Notify
use field_pilot_ai_submissio.Notifications.Service.{Notifier, Notice}
use field_pilot_ai_submissio.Broadcast.Hub.{Message}
use field_pilot_ai_submissio.Platform.Records.{Rfi, Inspection}

-- What the verifier says of an alert.
pub record Verdict : Type 0 where
  pub confirmed : Bool
  pub confidence : ℕ
  pub reasoning : String
  pub severity : Option String
  pub llm_used : Bool
  pub model : Option String

abbrev optional_text : Option String → Value
optional_text none = Value.null
optional_text (some s) = Value.text s

-- `verdict.to_dict()` with `disputed`
abbrev pub verdict_value : Verdict → Bool → Value
verdict_value v disputed = Value.dict (
    Fields.entry "confirmed" (Value.bool v.confirmed) (
      Fields.entry "confidence" (Value.num (pos v.confidence)) (
        Fields.entry "reasoning" (Value.text v.reasoning) (
          Fields.entry "severity" (optional_text v.severity) (
            Fields.entry "llm_used" (Value.bool v.llm_used) (
              Fields.entry "model" (optional_text v.model)
                (Fields.entry "disputed" (Value.bool disputed) Fields.blank)))))))

-- What goes with a notification as its `meta`.
pub data Meta : Type 0 where
  about_alert : Alert → Meta
  about_verdict : Alert → Verdict → Meta
  about_rule : String → Option Event → Meta

-- The verifier that is set up: its verdicts, and whether it sees images once it has given one.
pub record Verifier : Type 0 where
  pub vision : Bool
  pub verify : Alert → Verdict

-- The components and the settings of the orchestrator.
pub record Setup : Type 0 where
  pub triggers : World.Config
  pub notifications : Notify.Settings
  pub verifier : Option Verifier
  pub has_hub : Bool
  pub suppress_max_severity : String
  pub registered : String → Bool
  pub send : Notify.Note → Meta → ℕ → Bool
  pub draft : Option (Event → String → String → Option Rfi)

-- How texts are made, and the identifiers of uuid4 by what they are for.
pub record Texts : Type 0 where
  pub repr : Value → String
  pub vformat : String → Value → Option String
  pub model_dump : Event → Fields
  pub lower : String → String
  pub upper : String → String
  pub spoken_phrase : Alert → String → String
  pub replace_underscores : String → String
  pub fresh : String → String

pub record Platform : Type 0 where
  pub events : List Event
  pub world : World
  pub engine : RuleEngine
  pub notifier : Notifier Meta
  pub zones : Option Zones
  pub rfis : List Rfi
  pub inspections : List Inspection
  pub broadcasts : List Message
