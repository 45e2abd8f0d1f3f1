-- ===== src/Platform/Telling.antt =====
-- What people are told of an alert, and that the event is recorded: the messages by who receives them
-- and what they carry, the event log by its rows.
use field_pilot_ai_submissio.Common.{
  if◌then◌else◌, ◌≡◌, refl, ◌⊎◌, inl, inr, Option, none, some, Bool, true, false, List, [], ◌∷◌,
  ◌++◌, String, text_equality, ◌==◌, ==_iff, ◌&&◌, ◌||◌, not, All, Bool-cases,
}
use field_pilot_ai_submissio.Common.Text.{truthy}
use field_pilot_ai_submissio.Events.Schema.{Event, event_type_value, severity_value}
use field_pilot_ai_submissio.Triggers.Alert.{Alert}
use field_pilot_ai_submissio.Triggers.World.{Clock}
use field_pilot_ai_submissio.Broadcast.Hub.{
  Client, Hub, Message, Frame, Advisory, alert_data, advisory_data, is_kind, is_text, spans_zones,
}
use field_pilot_ai_submissio.Broadcast.Routing.{Registered, Reaches}
use field_pilot_ai_submissio.Platform.Setup.{Texts}
use field_pilot_ai_submissio.Platform.Actions.{◌⊕◌}
use field_pilot_ai_submissio.Platform.Handling.{has_event, save_event}

-- An event with this identifier is among the rows.
abbrev pub Stored : String → List Event → Type 0
Stored id [] = ⊥
Stored id (e ∷ events) = (e.event_id ≡ id) ⊎ Stored id events

-- The event is the last row, and its identifier was new; or a row had its identifier, and nothing
-- changed.
abbrev pub Recorded : Event → List Event → List Event → Type 0
Recorded event old new =
    ((new ≡ old ++ (event ∷ [])) × All (λ e. (e.event_id == event.event_id) ≡ false) old)
    ⊎ ((new ≡ old) × Stored event.event_id old)

has_event-Stored :
    (id : String) (events : List Event) → has_event id events ≡ true → Stored id events
has_event-Stored id [] h = absurd (cc)
has_event-Stored id (e ∷ events) h = elim (Bool-cases (e.event_id == id)) [
  | inl here ↦ inl ((==_iff e.event_id id).0 here)
  | inr other ↦ inr (has_event-Stored id events (rw other at h))
]

has_event-none :
    (id : String) (events : List Event)
    → has_event id events ≡ false
    → All (λ e. (e.event_id == id) ≡ false) events
has_event-none id [] h = tt
has_event-none id (e ∷ events) h = elim (Bool-cases (e.event_id == id)) [
  | inl here ↦ absurd (let q : true ≡ false = rw here at h in cc)
  | inr other ↦ (other, has_event-none id events (rw other at h))
]

pub save_event-Recorded :
    (event : Event) (events : List Event) → Recorded event events (save_event event events)
unfolding save_event
save_event-Recorded event events = elim (Bool-cases (has_event event.event_id events)) [
  | inl there ↦ rw there (inr (refl, has_event-Stored event.event_id events there))
  | inr new ↦ rw new (inl (refl, has_event-none event.event_id events new))
]

-- Whatever hub delivers the message: exactly the clients that pass the test are sent it, if their
-- socket takes it.
abbrev pub Reaching : (Client → Bool) → Message → Type 0
Reaching test m =
    (succeeds : Client → Frame → Bool) (hub : Hub) (id : String)
    → Registered hub.clients
    → Reaches succeeds hub id test m

-- A dashboard for all zones, or for this one; any dashboard, where there is no zone.
abbrev pub shows : Option String → Client → Bool
shows none c = is_kind "dashboard" c
shows (some z) c = is_kind "dashboard" c && (spans_zones c.zone || is_text c.zone z)

abbrev pub is_worker : Option String → Client → Bool
is_worker none c = false
is_worker (some w) c = truthy w && is_text c.worker_id w

-- The device of someone in the zone who is not the alert's worker.
abbrev pub is_peer : Alert → String → Client → Bool
is_peer alert zone c =
    is_kind "device" c && is_text c.zone zone && not (is_worker alert.worker_id c)

-- How the advisory names the worker.
abbrev pub worker_words : Option String → String
worker_words none = "a worker"
worker_words (some w) = if truthy w then "worker " ⊕ w else "a worker"

module _ (texts : Texts) (t : Clock) where
  abbrev pub ToDashboards : Alert → Message → Type 0
  ToDashboards alert m =
      (m.topic ≡ "alert")
      × ((m.ts ≡ t.now)
          × ((m.data' ≡ alert_data alert (texts.spoken_phrase alert "dashboard"))
              × Reaching (shows alert.zone) m))

  abbrev pub ToWorker : Alert → String → Message → Type 0
  ToWorker alert worker m =
      (m.topic ≡ "alert")
      × ((m.ts ≡ t.now)
          × ((m.data' ≡ alert_data alert (texts.spoken_phrase alert "worker"))
              × Reaching (λ c. is_kind "device" c && is_text c.worker_id worker) m))

  -- The downgraded advisory on the alert.
  abbrev pub Advises : Alert → String → Advisory → Type 0
  Advises alert zone a =
      (a.alert_id ≡ alert.alert_id)
      × ((a.event_type ≡ event_type_value alert.event_type)
          × ((a.origin_worker_id ≡ alert.worker_id)
              × ((a.zone ≡ zone)
                  × ((a.severity ≡ "low")
                      × ((a.original_severity ≡ severity_value alert.severity)
                          × ((a.speech ≡ texts.spoken_phrase alert "peer")
                              × (a.message
                                  ≡ "Advisory: "
                                    ⊕ texts.replace_underscores (event_type_value alert.event_type)
                                    ⊕ " involving "
                                    ⊕ worker_words alert.worker_id
                                    ⊕ " in your zone. Stay alert.")))))))

  abbrev pub ToPeers : Alert → String → Message → Type 0
  ToPeers alert zone m =
      (m.topic ≡ "advisory")
      × ((m.ts ≡ t.now)
          × (((a : Advisory) × ((m.data' ≡ advisory_data a) × Advises alert zone a))
              × Reaching (is_peer alert zone) m))

  -- One message if there is someone to be told, and else none.
  abbrev pub OneIf : Option String → (String → Message → Type 0) → List Message → Type 0
  OneIf none To ms = ms ≡ []
  OneIf (some s) To ms =
      ((truthy s ≡ false) × (ms ≡ []))
      ⊎ ((truthy s ≡ true) × ((m : Message) × ((ms ≡ m ∷ []) × To s m)))

  -- The dashboards first, then the worker, then the others in the zone.
  abbrev pub ToldOf : Alert → List Message → Type 0
  ToldOf alert ms =
      (d : Message) × ((ws : List Message) × ((zs : List Message) × ((ms ≡ d ∷ ws ++ zs)
            × (ToDashboards alert d
                × (OneIf alert.worker_id (ToWorker alert) ws
                    × OneIf alert.zone (ToPeers alert) zs)))))
