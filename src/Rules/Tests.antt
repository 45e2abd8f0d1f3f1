-- ===== src/Rules/Tests.antt =====
-- Two rules on a fall.
use field_pilot_ai_submissio.Common.{
  ◌≡◌, refl, arith, Option, none, some, true, false, [], ◌∷◌, String, map, text_equality,
  text_pair_equality, ◌==◌, ◌&&◌, if◌then◌else◌,
}
use field_pilot_ai_submissio.Common.Dict
use field_pilot_ai_submissio.Common.Dict.{Dict}
use field_pilot_ai_submissio.Common.Int.{pos}
use field_pilot_ai_submissio.Events.Value.{Value, Fields, blank, entry, text}
use field_pilot_ai_submissio.Events.Schema.{Event, EventType, Severity}
use field_pilot_ai_submissio.Rules.Engine.{
  Rule, RuleEngine, default_rules, replace_rules, evaluate_rules, params_of, in_cooldown,
  mark_fired, check_all, check, resolve, split_dots, add_rule, list_rules, evaluate, fire, fires,
  get_rule,
}
use field_pilot_ai_submissio.Rules.Firing.{Indexed, evaluate-last_fired, rule_fires, subject}
use field_pilot_ai_submissio.Storage.Table
use field_pilot_ai_submissio.Rules.Cooldown.{Arrival, run_arrivals, rule_fires-run_arrivals}

split_run : split_dots "event.payload.a" ≡ "event" ∷ "payload" ∷ "a" ∷ []
unfolding split_dots
split_run = refl

abbrev fall : Event
fall = record {
  event_id = "e1";
  worker_id = some "w-1";
  camera_id = "c";
  zone = none;
  timestamp = 0;
  event_type = EventType.fall;
  confidence = 900;
  severity = Severity.high;
  payload = [];
  image_url = none;
  video_url = none;
}

abbrev rule : Rule
rule = record {
  rule_id = "r1";
  name = "fall";
  enabled = true;
  priority = pos 100;
  event_types = "fall" ∷ [];
  conditions = record { field = "event.worker_id"; op = "eq"; value = text "w-1" } ∷ [];
  action = ("type", text "notify") ∷ ("message", text "help") ∷ [];
  cooldown = 300000;
  created_at = 0;
}

abbrev urgent : Rule
urgent = record rule { rule_id = "r2"; priority = pos 200; conditions = []; cooldown = 0 }

abbrev vformat : String → Value → Option String
vformat s scope = some s

abbrev repr : Value → String
repr v = ""

abbrev model_dump : Event → Fields
model_dump event = entry "worker_id" (text "w-1") blank

abbrev engine : RuleEngine
engine = add_rule urgent (add_rule rule (record { rules = []; last_fired = [] }))

engine-Indexed : Indexed engine.rules
unfolding Dict.get Dict.set
engine-Indexed = ((refl, (refl, tt)), (refl, (refl, tt)))

abbrev after : RuleEngine
after = (evaluate vformat repr model_dump 1000 fall blank engine).0

evaluate-last_fired_example :
    Dict.get ("r1", "w-1") (evaluate vformat repr model_dump 1000 fall blank engine).0.last_fired
    ≡ (if (subject fall == "w-1") && rule_fires vformat repr model_dump 1000 fall blank "r1" engine
        then some 1000
        else Dict.get ("r1", "w-1") engine.last_fired)
evaluate-last_fired_example =
    evaluate-last_fired vformat repr model_dump 1000 fall blank "r1" "w-1" engine engine-Indexed

abbrev fired_once : RuleEngine
fired_once = record engine { last_fired = (("r1", "w-1"), 1000) ∷ [] }

abbrev again : Arrival
again = record { now = 2000; event = fall; context = blank }

abbrev later : Arrival
later = record { now = 300999; event = fall; context = blank }

rule_fires-run_arrivals_example :
    rule_fires vformat repr model_dump 300999 fall blank "r1"
      (run_arrivals vformat repr model_dump (again ∷ []) fired_once)
    ≡ false
unfolding get_rule Dict.get Dict.set
rule_fires-run_arrivals_example =
    rule_fires-run_arrivals vformat repr model_dump (again ∷ []) later rule 1000 fired_once
      engine-Indexed refl refl ((omega arith, omega arith), tt) (omega arith, omega arith)

-- The first default rule on a worker without a helmet, in a danger zone and out of one.
abbrev no_helmet : Event
no_helmet = record fall { event_type = EventType.ppe }

abbrev dump_helmet : Event → Fields
dump_helmet event = entry "payload" (Value.dict (entry "ppe_item" (text "helmet") blank)) blank

abbrev seeded : RuleEngine
seeded = replace_rules (default_rules "r1" "r2" "r3" 0) engine

danger_run :
    map
      (λ a. a.rule_name)
      (evaluate vformat repr dump_helmet 1000 no_helmet
        (entry "in_danger_zone" (Value.bool true) blank)
        seeded).1
    ≡ "no-helmet-in-danger-zone" ∷ []
unfolding evaluate evaluate_rules replace_rules default_rules list_rules Table.sort_by fires fire
    params_of in_cooldown mark_fired check_all check resolve Dict.get Dict.set
danger_run = refl

no_danger_run : (evaluate vformat repr dump_helmet 1000 no_helmet blank seeded).1 ≡ []
unfolding evaluate evaluate_rules replace_rules default_rules list_rules Table.sort_by fires fire
    params_of in_cooldown mark_fired check_all check resolve Dict.get Dict.set
no_danger_run = refl
