-- ===== src/Broadcast/Hub/Publishing.antt =====
-- fieldpilot/broadcast/hub.py: `alert_worker` and `advise_zone`. What `alerts/speech.py` says of an
-- alert to an audience is a parameter.
use field_pilot_ai_submissio.Common.{
  ℕ, Option, none, some, String, text_equality, if◌then◌else◌, number_equality,
}
use field_pilot_ai_submissio.Common.Text.{truthy}
use field_pilot_ai_submissio.Events.Schema.{event_type_value, severity_value}
use field_pilot_ai_submissio.Platform.Records.{Rfi, Inspection}
use field_pilot_ai_submissio.Triggers.Alert.{Alert}
use Prim.Native.String
use field_pilot_ai_submissio.Broadcast.Hub.Clients.{Routing}

-- The advisory that goes out to the others in the zone.
pub record Advisory : Type 0 where
  pub alert_id : String
  pub event_type : String
  pub origin_worker_id : Option String
  pub zone : String
  pub severity : String
  pub original_severity : String
  pub message : String
  pub speech : String

-- What a message carries.
pub data Data : Type 0 where
  alert_data : Alert → String → Data
  advisory_data : Advisory → Data
  rfi_data : Rfi → Data
  inspection_data : Inspection → Data

-- A message on the bus, under `broadcast.` and its topic.
pub record Message : Type 0 where
  pub topic : String
  pub routing : Routing
  pub ts : ℕ
  pub data' : Data

abbrev pub bus_topic : Message → String
bus_topic m = Prim.Native.String.◌++◌ "broadcast." m.topic

-- `s.replace("_", " ")`, and the texts of `_advisory_text`
module _ (spoken_phrase : Alert → String → String) (replace_underscores : String → String)
    (now : ℕ) where
  abbrev pub who : Option String → String
  who none = "a worker"
  who (some w) = if truthy w then Prim.Native.String.◌++◌ "worker " w else "a worker"

  abbrev advisory_text : Alert → String
  advisory_text alert = Prim.Native.String.◌++◌ "Advisory: " (
      Prim.Native.String.◌++◌ (replace_underscores (event_type_value alert.event_type)) (
        Prim.Native.String.◌++◌ " involving "
          (Prim.Native.String.◌++◌ (who alert.worker_id) " in your zone. Stay alert.")))

  abbrev pub alert_message : Alert → String → Message
  alert_message alert worker = record {
    topic = "alert";
    routing = record {
      zone = none;
      audience = "device";
      exclude = none;
      worker_id = some worker;
      exclude_worker = none;
    };
    ts = now;
    data' = alert_data alert (spoken_phrase alert "worker");
  }

  abbrev pub message_to : Alert → Option String → Option Message
  message_to alert none = none
  message_to alert (some w) = if truthy w then some (alert_message alert w) else none

  -- The message that `alert_worker` publishes, if it publishes one; it returns whether it did.
  unfoldable pub alert_worker : Alert → Option Message
  alert_worker alert = message_to alert alert.worker_id

  abbrev pub advisory : Alert → String → Advisory
  advisory alert zone = record {
    alert_id = alert.alert_id;
    event_type = event_type_value alert.event_type;
    origin_worker_id = alert.worker_id;
    zone = zone;
    severity = "low";
    original_severity = severity_value alert.severity;
    message = advisory_text alert;
    speech = spoken_phrase alert "peer";
  }

  abbrev pub advisory_message : Alert → String → Option String → Option String → Message
  advisory_message alert zone exclude_client exclude_worker = record {
    topic = "advisory";
    routing = record {
      zone = some zone;
      audience = "device";
      exclude = exclude_client;
      worker_id = none;
      exclude_worker = exclude_worker;
    };
    ts = now;
    data' = advisory_data (advisory alert zone);
  }

  abbrev pub message_in : Alert → Option String → Option String → Option String → Option Message
  message_in alert none exclude_client exclude_worker = none
  message_in alert (some z) exclude_client exclude_worker =
      if truthy z then some (advisory_message alert z exclude_client exclude_worker) else none

  -- The message that `advise_zone` publishes, if it publishes one.
  unfoldable pub advise_zone : Alert → Option String → Option String → Option Message
  advise_zone alert exclude_client exclude_worker =
      message_in alert alert.zone exclude_client exclude_worker
