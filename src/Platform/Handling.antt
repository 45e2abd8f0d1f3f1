-- ===== src/Platform/Handling.antt =====
-- fieldpilot/backend/service.py: `_on_event_raw` and `handle_event`, one function per stage. One time
-- is read for each event.
use field_pilot_ai_submissio.Common.{
  ℕ, Option, none, some, Bool, true, false, List, [], ◌∷◌, ◌++◌, String, text_equality, ◌==◌, leb,
  if◌then◌else◌, ◌&&◌, ◌||◌, not, is_some,
}
use field_pilot_ai_submissio.Common.Dict
use field_pilot_ai_submissio.Common.Dict.{Dict}
use field_pilot_ai_submissio.Common.Text.{take_text}
use field_pilot_ai_submissio.Events.Value.{Value}
use field_pilot_ai_submissio.Events.Schema.{Event, Severity, event_type_value, severity_value}
use field_pilot_ai_submissio.Triggers.Alert.{Alert}
use field_pilot_ai_submissio.Triggers.World.{Clock}
use field_pilot_ai_submissio.Triggers.Engine.{process, Outcome}
use field_pilot_ai_submissio.Triggers.Operator.{suppress, set_verdict}
use field_pilot_ai_submissio.Rules.Engine.{evaluate}
use field_pilot_ai_submissio.Notifications.Service.{Notice}
use field_pilot_ai_submissio.Broadcast.Hub.{Message, alert_data, alert_worker, advise_zone}
use field_pilot_ai_submissio.Platform.Setup.{
  Verdict, verdict_value, Meta, about_alert, about_verdict, Verifier, Setup, Texts, Platform,
}
use field_pilot_ai_submissio.Platform.Actions.{◌⊕◌, build_context, notify, execute_each}

-- `_SEVERITY_RANK`
abbrev pub severity_rank : Dict String ℕ
severity_rank = ("low", 0) ∷ ("medium", 1) ∷ ("high", 2) ∷ ("critical", 3) ∷ []

abbrev pub rank_of : String → ℕ
rank_of severity = elim (Dict.get severity severity_rank) [ none ↦ 1 | some r ↦ r ]

abbrev pub sees : Option Verifier → Bool
sees none = true
sees (some v) = v.vision

-- fieldpilot/events/store.py: `save_event`, an INSERT OR IGNORE
abbrev pub has_event : String → List Event → Bool
has_event id [] = false
has_event id (e ∷ events) = e.event_id == id || has_event id events

unfoldable pub save_event : Event → List Event → List Event
save_event event events = if has_event event.event_id events then events else events ++ (event ∷ [])

abbrev pub is_new : Outcome → Bool
is_new Outcome.created = true
is_new Outcome.reactivated = true
is_new _ = false

-- `alert.payload[key] = value`
abbrev pub with_field : String → Value → Alert → Alert
with_field key value alert = record alert { payload = Dict.set key value alert.payload }

-- The messages that are there.
abbrev pub and_then : Option Message → List Message → List Message
and_then none messages = messages
and_then (some m) messages = m ∷ messages

module _ (setup : Setup) (t : Clock) (texts : Texts) where
  unfoldable pub may_suppress : Severity → Bool
  may_suppress severity =
      sees setup.verifier
      && leb (rank_of (texts.lower (severity_value severity))) (rank_of setup.suppress_max_severity)

  -- `_notify_new`
  abbrev pub new_notice : Alert → Notice Meta
  new_notice alert = record {
    dedup_key = "alert:" ⊕ alert.alert_id;
    subject =
        "["
        ⊕ texts.upper (severity_value alert.severity)
        ⊕ "] "
        ⊕ event_type_value alert.event_type
        ⊕ ": "
        ⊕ alert.message;
    body = alert.message;
    severity = severity_value alert.severity;
    channels = some ("dashboard" ∷ []);
    alert_id = some alert.alert_id;
    meta = about_alert alert;
  }

  -- `_notify_rejected`
  abbrev pub rejected_notice : Alert → Verdict → Notice Meta
  rejected_notice alert verdict = record {
    dedup_key = "rejected:" ⊕ alert.alert_id;
    subject = "[REJECTED by LLM] " ⊕ event_type_value alert.event_type ⊕ ": " ⊕ alert.message;
    body = take_text 280 verdict.reasoning;
    severity = "low";
    channels = some ("dashboard" ∷ []);
    alert_id = some alert.alert_id;
    meta = about_verdict alert verdict;
  }

  -- The verdict is kept with the alert, in the cache and in hand.
  abbrev pub keep_verdict : Verdict → Bool → Alert → Platform → Platform × Alert
  keep_verdict verdict disputed alert p =
      let value = verdict_value verdict disputed in
      (
        record p { world = (set_verdict setup.triggers t alert.dedup_key value p.world).0 },
        with_field "llm_verdict" value alert,
      )

  abbrev pub reject : Verdict → Platform × Alert → Platform
  reject verdict (p, alert) =
      notify setup t texts (rejected_notice alert verdict)
        (record p { world = (suppress setup.triggers t alert.dedup_key p.world).0 })

  -- What follows on a verdict: the platform, and the alert if it goes on to people.
  unfoldable pub judge : Verdict → Alert → Platform → Platform × Option Alert
  unfolding may_suppress
  judge verdict alert p =
      let disputed = not verdict.confirmed && not (may_suppress alert.severity) in
      let kept = keep_verdict verdict disputed alert p in
      if verdict.confirmed
      then (kept.0, some kept.1)
      else if disputed
      then (kept.0, some (with_field "llm_disputed" (Value.bool true) kept.1))
      else (reject verdict kept, none)

  -- The verifier gate.
  unfoldable pub gate_of : Option Verifier → Alert → Platform → Platform × Option Alert
  unfolding judge
  gate_of none alert p = (p, some alert)
  gate_of (some v) alert p = judge (v.verify alert) alert p

  unfoldable pub gate : Alert → Platform → Platform × Option Alert
  unfolding gate_of
  gate alert p = gate_of setup.verifier alert p

  abbrev pub dashboard_message : Alert → Message
  dashboard_message alert = record {
    topic = "alert";
    routing = record {
      zone = alert.zone;
      audience = "dashboard";
      exclude = none;
      worker_id = none;
      exclude_worker = none;
    };
    ts = t.now;
    data' = alert_data alert (texts.spoken_phrase alert "dashboard");
  }

  -- The message to the worker at risk, and the advisory to the others in the zone.
  abbrev pub to_worker : Alert → Option Message
  to_worker alert = alert_worker texts.spoken_phrase texts.replace_underscores t.now alert

  abbrev pub to_zone : Alert → Option Message
  to_zone alert =
      advise_zone texts.spoken_phrase texts.replace_underscores t.now alert none
        (if is_some (to_worker alert) then alert.worker_id else none)

  unfoldable pub tell_people : Alert → Platform → Platform
  tell_people alert p =
      if setup.has_hub
      then record p {
        broadcasts =
            p.broadcasts
            ++ (dashboard_message alert ∷ and_then (to_worker alert) (and_then (to_zone alert) []));
      }
      else p

  -- The rules and their actions, and the notification of the alert.
  unfoldable pub run_rules : Event → Alert → Platform → Platform
  unfolding build_context execute_each
  run_rules event alert p =
      let (p', context) = build_context setup t texts event p in
      let (engine, actions) =
        evaluate texts.vformat texts.repr texts.model_dump t.now event context p'.engine in
      let (done, ended) =
        execute_each setup t texts actions event alert (record p' { engine = engine }) in
      if ended then notify setup t texts (new_notice alert) done else done

  unfoldable pub go_on : Event → Platform × Option Alert → Platform
  unfolding tell_people run_rules
  go_on event (p, none) = p
  go_on event (p, some alert) = run_rules event alert (tell_people alert p)

  unfoldable pub handle_event : Event → Platform → Platform
  unfolding gate go_on
  handle_event event p =
      let (world, result) =
        process setup.triggers t texts.repr (texts.fresh "alert") event p.world in
      let saved = record p { events = save_event event p.events; world = world } in
      if is_new result.outcome then go_on event (gate result.alert saved) else saved

  -- `_on_event_raw`: the copy on the topic of all events is left aside.
  unfoldable pub on_event : String → Event → Platform → Platform
  unfolding handle_event
  on_event topic event p = if topic == "events.all" then p else handle_event event p
