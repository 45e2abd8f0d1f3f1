-- ===== src/Rules/Engine/Evaluation.antt =====
-- fieldpilot/rules/engine.py: the evaluation of the rules on an event.
use field_pilot_ai_submissio.Common.{
  ℕ, ◌+◌, Option, none, some, Bool, true, false, List, [], ◌∷◌, String, text_equality,
  number_equality, text_pair_equality, ◌==◌, ltb, leb, if◌then◌else◌, ◌&&◌, ◌||◌, not,
}
use field_pilot_ai_submissio.Common.Dict
use field_pilot_ai_submissio.Common.Dict.{Dict}
use field_pilot_ai_submissio.Events.Value.{Value, Fields, blank, entry, get_field, text, dict}
use field_pilot_ai_submissio.Events.Schema.{Event, event_type_value, or_text}
use field_pilot_ai_submissio.Rules.Operators.{Op, op_table, apply}
use Prim.Native.Char.{Char, code}
use field_pilot_ai_submissio.Rules.Engine.Registry.{
  Condition, Rule, RuleAction, RuleEngine, list_rules,
}

-- `path.split(".")`
abbrev before_dot : Char → List String → List String
before_dot c [] = String.◌∷◌ c String.[] ∷ []
before_dot c (s ∷ parts) = String.◌∷◌ c s ∷ parts

unfoldable pub split_dots : String → List String
split_dots String.[] = String.[] ∷ []
split_dots (String.◌∷◌ c s) =
    let rest = split_dots s in if code c == 46 then String.[] ∷ rest else before_dot c rest

-- `_resolve`: nothing for _MISSING.
unfoldable pub resolve_parts : List String → Value → Option Value
unfolding get_field
resolve_parts [] node = some node
resolve_parts (part ∷ parts) (dict fs) = elim (get_field part fs) [
  | none ↦ none
  | some v ↦ resolve_parts parts v
]
resolve_parts (part ∷ parts) node = none

unfoldable pub resolve : String → Value → Option Value
unfolding split_dots resolve_parts
resolve path scope = resolve_parts (split_dots path) scope

-- `bool(op(actual, expected))`, where a TypeError counts as false.
abbrev pub holds : Option Bool → Bool
holds none = false
holds (some b) = b

abbrev pub check_op : Option Op → Option Value → Value → Bool
check_op none actual expected = false
check_op (some op) none expected = false
check_op (some op) (some actual) expected = holds (apply op actual expected)

unfoldable pub check : Condition → Value → Bool
unfolding apply resolve Dict.get
check cond scope = check_op (Dict.get cond.op op_table) (resolve cond.field scope) cond.value

unfoldable pub check_all : List Condition → Value → Bool
check_all [] scope = true
check_all (c ∷ conditions) scope = check c scope && check_all conditions scope

-- `worker_id or camera_id`
abbrev pub cooldown_key : Rule → Event → String × String
cooldown_key rule event = (rule.rule_id, or_text event.worker_id event.camera_id)

abbrev pub within : ℕ → ℕ → Option ℕ → Bool
within now cooldown none = false
within now cooldown (some last) = ltb now (last + cooldown)

unfoldable pub in_cooldown : ℕ → Rule → Event → Dict (String × String) ℕ → Bool
in_cooldown now rule event fired =
    not (leb rule.cooldown 0) && within now rule.cooldown (Dict.get (cooldown_key rule event) fired)

unfoldable pub mark_fired : ℕ → Rule → Event → Dict (String × String) ℕ → Dict (String × String) ℕ
mark_fired now rule event fired = Dict.set (cooldown_key rule event) now fired

abbrev pub in_list : String → List String → Bool
in_list s [] = false
in_list s (t ∷ ts) = t == s || in_list s ts

-- `rule.event_types and event.event_type.value not in rule.event_types`, denied
abbrev pub takes_type : Event → List String → Bool
takes_type event [] = true
takes_type event (t ∷ ts) = in_list (event_type_value event.event_type) (t ∷ ts)

-- How `_FORMATTER.vformat` renders a text over the scope, and nothing where it raises; how Python
-- writes a value as a text; how an event is dumped as JSON.
module _ (vformat : String → Value → Option String) (repr : Value → String)
    (model_dump : Event → Fields) where
  abbrev pub render : Value → Value → Value
  render (text s) scope = elim (vformat s scope) [ none ↦ text s | some t ↦ text t ]
  render v scope = v

  abbrev pub action_type_of : Option Value → String
  action_type_of none = "create_alert"
  action_type_of (some (text s)) = s
  action_type_of (some v) = repr v

  unfoldable pub params_of : Dict String Value → Value → Dict String Value
  params_of [] scope = []
  params_of ((k, v) ∷ action) scope =
      if k == "type" then params_of action scope else (k, render v scope) ∷ params_of action scope

  abbrev pub scope_of : Event → Fields → Value
  scope_of event context =
      dict (entry "event" (dict (model_dump event)) (entry "context" (dict context) blank))

  unfoldable pub fire : Rule → Event → Value → RuleAction
  fire rule event scope = record {
    action_type = action_type_of (Dict.get "type" rule.action);
    rule_id = rule.rule_id;
    rule_name = rule.name;
    params = params_of rule.action scope;
    event_id = event.event_id;
  }

  -- Whether the loop of `evaluate` reaches its end for a rule.
  unfoldable pub fires : ℕ → Event → Value → Rule → Dict (String × String) ℕ → Bool
  fires now event scope rule fired =
      rule.enabled
      && takes_type event rule.event_types
      && not (in_cooldown now rule event fired)
      && check_all rule.conditions scope

  unfoldable pub evaluate_rules :
      ℕ
      → Event
      → Value
      → List Rule
      → Dict (String × String) ℕ
      → Dict (String × String) ℕ × List RuleAction
  evaluate_rules now event scope [] fired = (fired, [])
  evaluate_rules now event scope (rule ∷ rules) fired =
      let done = evaluate_rules now event scope rules (mark_fired now rule event fired) in
      let skipped = evaluate_rules now event scope rules fired in
      if fires now event scope rule fired then (done.0, fire rule event scope ∷ done.1) else skipped

  unfoldable pub evaluate : ℕ → Event → Fields → RuleEngine → RuleEngine × List RuleAction
  evaluate now event context engine =
      let done =
        evaluate_rules now event (scope_of event context) (list_rules engine) engine.last_fired in
      (record engine { last_fired = done.0 }, done.1)
