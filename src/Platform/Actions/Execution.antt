-- ===== src/Platform/Actions/Execution.antt =====
-- fieldpilot/backend/service.py: the drafting of an RFI, and what an action does (`_execute`).
-- Nothing is an exception that ends the handling.
use field_pilot_ai_submissio.Common.{
  Option, none, some, Bool, true, false, List, [], ◌∷◌, ◌++◌, String, text_equality, ◌==◌,
  if◌then◌else◌, nat_beq, ◌>>=◌,
}
use field_pilot_ai_submissio.Common.Dict
use field_pilot_ai_submissio.Common.Text.{truthy, strip, take_text}
use field_pilot_ai_submissio.Events.Value.{Value, Fields, Items, is_truthy}
use field_pilot_ai_submissio.Events.Schema.{Event, severity_value, or_text, str}
use field_pilot_ai_submissio.Triggers.Alert.{Alert}
use field_pilot_ai_submissio.Triggers.World.{Clock}
use field_pilot_ai_submissio.Rules.Engine.{RuleAction}
use field_pilot_ai_submissio.Notifications.Service as Notify
use field_pilot_ai_submissio.Notifications.Service.{Notice}
use field_pilot_ai_submissio.Broadcast.Hub.{Message, Data, rfi_data, inspection_data}
use field_pilot_ai_submissio.Platform.Records.{Rfi, Inspection}
use field_pilot_ai_submissio.Platform.Setup.{Meta, about_rule, Setup, Texts, Platform}
use Prim.Native.Char.{Char, code}
use Prim.Native.String

-- `a ++ b`
infixr 55 ◌⊕◌
abbrev pub ◌⊕◌ : String → String → String
s ⊕ t = Prim.Native.String.◌++◌ s t

-- The names between the commas of a text, trimmed, without empty ones; 44 is the comma.
abbrev add_name : String → List String → List String
add_name s names = if truthy (strip s) then strip s ∷ names else names

abbrev before_comma : Char → List String → List String
before_comma c [] = String.◌∷◌ c String.[] ∷ []
before_comma c (s ∷ parts) = String.◌∷◌ c s ∷ parts

unfoldable pub split_commas : String → List String
split_commas String.[] = String.[] ∷ []
split_commas (String.◌∷◌ c s) =
    let rest = split_commas s in
    if nat_beq (code c) 44 then String.[] ∷ rest else before_comma c rest

abbrev pub names_in : List String → List String
names_in [] = []
names_in (s ∷ parts) = add_name s (names_in parts)

-- The loop goes on, unless the action raised an exception.
abbrev pub go_on_with : Platform → Option Platform → (Platform → Platform × Bool) → Platform × Bool
go_on_with p none rest = (p, false)
go_on_with p (some q) rest = rest q

module _ (setup : Setup) (t : Clock) (texts : Texts) where
  -- `p.get(key)`
  abbrev pub param : String → RuleAction → Value
  param key action = elim (Dict.get key action.params) [ none ↦ Value.null | some v ↦ v ]

  -- `str(p.get(key, default))`
  abbrev param_text : String → String → RuleAction → String
  param_text key d action = elim (Dict.get key action.params) [
    | none ↦ d
    | some v ↦ str texts.repr v
  ]

  -- `str(v or d)`
  abbrev or_str : Value → String → String
  or_str v d = if is_truthy v then str texts.repr v else d

  abbrev plain_rfi : RuleAction → Event → String → String → Rfi
  plain_rfi action event message priority = record {
    rfi_id = texts.fresh "rfi";
    event_id = event.event_id;
    title = take_text 200 (if truthy message then message else "RFI from rule " ⊕ action.rule_name);
    summary = message;
    body = message;
    priority = priority;
    zone = event.zone;
    status = "pending_review";
    created_at = t.now;
    rule = action.rule_name;
    image_url = event.image_url;
    grounded = false;
  }

  -- `to_record(extra=…)`
  abbrev with_extra : RuleAction → Event → Rfi → Rfi
  with_extra action event rfi = record rfi { rule = action.rule_name; image_url = event.image_url }

  -- A draft that fails leaves a plain RFI.
  unfoldable pub draft_rfi : RuleAction → Event → Rfi
  draft_rfi action event =
      let message = or_str (param "message" action) "" in
      let priority = param_text "priority" "normal" action in
      elim (setup.draft >>= λ draft. draft event message priority) [
        | none ↦ plain_rfi action event message priority
        | some rfi ↦ with_extra action event rfi
      ]

  abbrev pub publish : Message → Platform → Platform
  publish m p = if setup.has_hub then record p { broadcasts = p.broadcasts ++ (m ∷ []) } else p

  -- A message for everyone in the zone.
  abbrev zone_message : String → Data → Option String → Message
  zone_message topic data' zone = record {
    topic = topic;
    routing = record {
      zone = zone;
      audience = "all";
      exclude = none;
      worker_id = none;
      exclude_worker = none;
    };
    ts = t.now;
    data' = data';
  }

  abbrev pub notify : Notice Meta → Platform → Platform
  notify notice p = record p {
    notifier =
        (Notify.notify setup.notifications setup.registered setup.send t.now texts.fresh notice
          p.notifier).0;
  }

  abbrev rule_key : RuleAction → Event → String
  rule_key action event = "rule:" ⊕ action.rule_id ⊕ ":" ⊕ or_text event.worker_id event.camera_id

  abbrev rule_notice :
      RuleAction → Event → Alert → String → Option (List String) → Option Event → Notice Meta
  rule_notice action event alert severity channels about = record {
    dedup_key = rule_key action event;
    subject = or_str (param "message" action) ("Rule " ⊕ action.rule_name ⊕ " fired");
    body = or_str (param "message" action) "";
    severity = severity;
    channels = channels;
    alert_id = some alert.alert_id;
    meta = about_rule action.rule_name about;
  }

  abbrev list_names : Items → List String
  list_names Items.stop = []
  list_names (Items.item v vs) = str texts.repr v ∷ list_names vs

  abbrev field_names : Fields → List String
  field_names Fields.blank = []
  field_names (Fields.entry k v fs) = k ∷ field_names fs

  -- What `notify` loops over as `channels`; nothing for a value that is true and no collection.
  abbrev pub channels_of : Value → Option (Option (List String))
  channels_of (Value.text s) = some (some (names_in (split_commas s)))
  channels_of (Value.list vs) = some (some (list_names vs))
  channels_of (Value.dict fs) = some (some (field_names fs))
  channels_of v = if is_truthy v then none else some none

  abbrev new_inspection : RuleAction → Event → Inspection
  new_inspection action event = record {
    inspection_id = texts.fresh "inspection";
    event_id = event.event_id;
    priority = param_text "priority" "normal" action;
    zone = event.zone;
    message = or_str (param "message" action) ("Inspection requested by " ⊕ action.rule_name);
    status = "requested";
    created_at = t.now;
  }

  -- The action `notify`, unless its channels are no collection.
  abbrev pub notify_on :
      Option (Option (List String)) → RuleAction → Event → Alert → Platform → Option Platform
  notify_on none action event alert p = none
  notify_on (some channels) action event alert p = some (
      notify (rule_notice action event alert (param_text "severity" "medium" action) channels none)
        p)

  abbrev pub notify_as : RuleAction → Event → Alert → Platform → Option Platform
  notify_as action event alert p =
      notify_on (channels_of (param "channels" action)) action event alert p

  unfoldable pub execute : RuleAction → Event → Alert → Platform → Option Platform
  unfolding draft_rfi
  execute action event alert p =
      let rfi = draft_rfi action event in
      let inspection = new_inspection action event in
      if action.action_type == "create_alert"
      then some (
          notify
            (rule_notice action event alert
              (or_str (param "severity" action) (severity_value alert.severity)) none (some event))
            p)
      else if action.action_type == "generate_rfi"
      then some (
          publish (zone_message "rfi" (rfi_data rfi) event.zone)
            (record p { rfis = p.rfis ++ (rfi ∷ []) }))
      else if action.action_type == "request_inspection"
      then some (
          publish (zone_message "inspection" (inspection_data inspection) event.zone)
            (record p { inspections = p.inspections ++ (inspection ∷ []) }))
      else if action.action_type == "notify"
      then notify_as action event alert p
      else some p

  -- The loop over the actions: the platform, and whether it came to its end.
  unfoldable pub execute_each : List RuleAction → Event → Alert → Platform → Platform × Bool
  unfolding execute
  execute_each [] event alert p = (p, true)
  execute_each (action ∷ actions) event alert p =
      go_on_with p (execute action event alert p) (execute_each actions event alert)
