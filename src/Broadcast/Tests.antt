-- ===== src/Broadcast/Tests.antt =====
-- An alert about one worker, with devices and a dashboard connected.
use field_pilot_ai_submissio.Common.{
  ◌≡◌, refl, none, some, Bool, [], ◌∷◌, String, text_equality, ◌==◌, ◌&&◌, not,
}
use field_pilot_ai_submissio.Common.Dict
use field_pilot_ai_submissio.Events.Schema.{EventType, Severity}
use field_pilot_ai_submissio.Triggers.Alert.{Alert, AlertState}
use field_pilot_ai_submissio.Broadcast.Hub.{
  Client, Hub, Message, Frame, is_kind, is_text, alert_message, advisory_message, excluded_worker,
  advise_zone, deliver,
}
use field_pilot_ai_submissio.Broadcast.Routing.{
  Registered, Delivered, deliver-Delivered, Reaches, advise_zone-Reaches,
}

abbrev ravi : Client
ravi = record {
  client_id = "c1";
  kind = "device";
  zone = some "zone-a";
  worker_id = some "ravi";
  connected_at = 0;
}

abbrev anita : Client
anita = record ravi { client_id = "c2"; worker_id = some "anita" }

abbrev office : Client
office = record ravi { client_id = "c3"; kind = "dashboard"; zone = none; worker_id = none }

abbrev hub : Hub
hub = record {
  clients = ("c1", ravi) ∷ ("c2", anita) ∷ ("c3", office) ∷ [];
  delivered = 0;
  dropped = 0;
}

hub-Registered : Registered hub.clients
unfolding Dict.get
hub-Registered = ((refl, (refl, (refl, tt))), (refl, (refl, (refl, tt))))

abbrev alert : Alert
alert = record {
  alert_id = "a1";
  dedup_key = "k";
  event_type = EventType.proximity;
  worker_id = some "ravi";
  camera_id = "cam";
  zone = some "zone-a";
  severity = Severity.high;
  state = AlertState.new;
  hit_count = 1;
  confidence = 900;
  first_seen = 0;
  last_seen = 0;
  resolved_at = none;
  suppressed_at = none;
  message = "too close";
  payload = [];
  image_url = none;
  video_url = none;
}

abbrev say : Alert → String → String
say a audience = "Step back."

abbrev replace : String → String
replace s = s

-- The socket of the dashboard is gone.
abbrev succeeds : Client → Frame → Bool
succeeds c frame = not (c.client_id == "c3")

abbrev warning : Message
warning = alert_message say replace 1000 alert "ravi"

deliver-Delivered_example : Delivered succeeds warning hub "c1" (deliver succeeds warning hub)
deliver-Delivered_example = deliver-Delivered succeeds warning hub "c1" hub-Registered

advise_zone-Reaches_example :
    (advise_zone say replace 1000 alert none (some "ravi")
      ≡ some (advisory_message say replace 1000 alert "zone-a" none (some "ravi")))
    × Reaches succeeds hub "c2"
        (λ c.
          is_kind "device" c
          && is_text c.zone "zone-a"
          && not (excluded_worker (some "ravi") c.worker_id))
        (advisory_message say replace 1000 alert "zone-a" none (some "ravi"))
advise_zone-Reaches_example =
    advise_zone-Reaches succeeds say replace 1000 alert hub "c2" hub-Registered "zone-a"
      (some "ravi") refl refl
