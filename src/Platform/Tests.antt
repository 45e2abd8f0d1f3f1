-- ===== src/Platform/Tests.antt =====
-- A missing helmet, from the bus to the worker's device.
use field_pilot_ai_submissio.Common.{refl, inr, none, some, true, false, [], ◌∷◌}
use field_pilot_ai_submissio.Common.Dict
use field_pilot_ai_submissio.Events.Value.{Value, Fields}
use field_pilot_ai_submissio.Events.Schema.{Event, EventType, Severity}
use field_pilot_ai_submissio.Triggers.Cache
use field_pilot_ai_submissio.Triggers.Alert.{Alert, open_alert}
use field_pilot_ai_submissio.Triggers.World.{Clock}
use field_pilot_ai_submissio.Triggers.Engine.{process}
use field_pilot_ai_submissio.Platform.Setup.{Verifier, Setup, Texts, Platform}
use field_pilot_ai_submissio.Platform.Handling.{handle_event}
use field_pilot_ai_submissio.Platform.Escalation.{
  Told, Quiet, handle_event-Told, handle_event-Quiet,
}
use field_pilot_ai_submissio.Platform.Telling.{Recorded}
use field_pilot_ai_submissio.Platform.Warning.{Warned, handle_event-Warned}

abbrev no_helmet : Event
no_helmet = record {
  event_id = "e1";
  worker_id = some "w-1";
  camera_id = "cam-1";
  zone = some "zone-a";
  timestamp = 1000;
  event_type = EventType.ppe;
  confidence = 900;
  severity = Severity.high;
  payload = ("ppe_item", Value.text "helmet") ∷ [];
  image_url = none;
  video_url = none;
}

-- A verifier that sees images and confirms nothing.
abbrev doubter : Verifier
doubter = record {
  vision = true;
  verify = λ alert. record {
    confirmed = false;
    confidence = 900;
    reasoning = "no clear evidence";
    severity = none;
    llm_used = true;
    model = none;
  };
}

abbrev setup : Setup
setup = record {
  triggers = record {
    dedup_window = 45000;
    resolve_after = 90000;
    cache_ttl = 21600000;
    has_bus = true;
    has_sink = true;
  };
  notifications = record {
    dedup_window = 300000;
    max_attempts = 3;
    base_backoff = 2000;
    has_bus = true;
  };
  verifier = some doubter;
  has_hub = true;
  suppress_max_severity = "medium";
  registered = λ channel. false;
  send = λ note meta attempt. false;
  draft = none;
}

abbrev texts : Texts
texts = record {
  repr = λ v. "?";
  vformat = λ s scope. some s;
  model_dump = λ event. Fields.blank;
  lower = λ s. s;
  upper = λ s. s;
  spoken_phrase = λ alert audience. "Stop work.";
  replace_underscores = λ s. s;
  fresh = λ what. what;
}

abbrev clock : Clock
clock = record { now = 1000; cache_now = 1000 }

abbrev idle : Platform
idle = record {
  events = [];
  world = record { cache = []; published = []; sunk = [] };
  engine = record { rules = []; last_fired = [] };
  notifier = record { cache = []; saved = []; published = []; waited = 0 };
  zones = none;
  rfis = [];
  inspections = [];
  broadcasts = [];
}

abbrev first_alert : Alert
first_alert =
    (process setup.triggers clock texts.repr (texts.fresh "alert") no_helmet idle.world).1.alert

-- The alert is severe, so the doubt does not hold it back.
handle_event-Warned_example :
    Warned setup clock texts "w-1" first_alert idle (handle_event setup clock texts no_helmet idle)
unfolding process open_alert Cache.get Dict.get
handle_event-Warned_example =
    handle_event-Warned setup clock texts no_helmet idle "w-1" refl refl (inr (inr refl)) refl refl

handle_event-Told_example :
    Told setup clock texts no_helmet first_alert idle
      (handle_event setup clock texts no_helmet idle)
unfolding process open_alert Cache.get Dict.get
handle_event-Told_example =
    handle_event-Told setup clock texts no_helmet idle refl refl (inr (inr refl))

abbrev mild : Event
mild = record no_helmet { severity = Severity.low }

handle_event-Quiet_example :
    Recorded mild idle.events (handle_event setup clock texts mild idle).events
    × Quiet idle (handle_event setup clock texts mild idle)
unfolding process open_alert Cache.get Dict.get
handle_event-Quiet_example =
    handle_event-Quiet setup clock texts mild idle doubter refl refl refl refl refl
