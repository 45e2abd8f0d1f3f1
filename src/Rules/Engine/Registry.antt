-- ===== src/Rules/Engine/Registry.antt =====
-- fieldpilot/rules/engine.py: the rules and their management.
use field_pilot_ai_submissio.Common.{
  ℕ, Option, Bool, true, false, List, [], ◌∷◌, String, text_equality, number_equality,
  text_pair_equality, is_some,
}
use field_pilot_ai_submissio.Common.Dict
use field_pilot_ai_submissio.Common.Dict.{Dict}
use field_pilot_ai_submissio.Common.Int.{ℤ, pos, compare_ℤ}
use field_pilot_ai_submissio.Events.Value.{Value, null, num, text}
use field_pilot_ai_submissio.Storage.Table
use Prim.Native.Nat.{Ordering}

-- A condition after `str(cond.get(…))`, with the defaults of a missing key filled in.
pub record Condition : Type 0 where
  pub field : String
  pub op : String
  pub value : Value

pub record Rule : Type 0 where
  pub rule_id : String
  pub name : String
  pub enabled : Bool
  pub priority : ℤ
  pub event_types : List String
  pub conditions : List Condition
  pub action : Dict String Value
  pub cooldown : ℕ
  pub created_at : ℕ

pub record RuleAction : Type 0 where
  pub action_type : String
  pub rule_id : String
  pub rule_name : String
  pub params : Dict String Value
  pub event_id : String

pub record RuleEngine : Type 0 where
  pub rules : Dict String Rule
  pub last_fired : Dict (String × String) ℕ

abbrev pub add_rule : Rule → RuleEngine → RuleEngine
add_rule rule engine = record engine { rules = Dict.set rule.rule_id rule engine.rules }

unfoldable pub remove_rule : String → RuleEngine → RuleEngine × Bool
remove_rule id engine =
    (record engine { rules = Dict.pop id engine.rules }, is_some (Dict.get id engine.rules))

unfoldable pub get_rule : String → RuleEngine → Option Rule
get_rule id engine = Dict.get id engine.rules

abbrev pub values : {V : Type 0} → Dict String V → List V
values [] = []
values ((k, v) ∷ d) = v ∷ values d

-- `sorted(…, key=lambda r: -r.priority)`
abbrev pub more_urgent : Rule → Rule → Bool
more_urgent r s = elim (compare_ℤ r.priority s.priority) [ Ordering.gt ↦ true | _ ↦ false ]

unfoldable pub list_rules : RuleEngine → List Rule
unfolding Table.sort_by
list_rules engine = Table.sort_by more_urgent (values engine.rules)

-- `{r.rule_id: r for r in rules}`
abbrev pub index_rules : List Rule → Dict String Rule → Dict String Rule
index_rules [] d = d
index_rules (r ∷ rules) d = index_rules rules (Dict.set r.rule_id r d)

unfoldable pub replace_rules : List Rule → RuleEngine → RuleEngine
replace_rules rules engine = record engine { rules = index_rules rules [] }

-- `default_rules`: the three rules of the first start, with the identifiers that uuid4 makes for them
-- and the time. Numbers are in thousandths.
unfoldable pub default_rules : String → String → String → ℕ → List Rule
default_rules first second third now =
    record {
      rule_id = first;
      name = "no-helmet-in-danger-zone";
      enabled = true;
      priority = pos 100;
      event_types = "ppe" ∷ [];
      conditions =
          record { field = "event.payload.ppe_item"; op = "eq"; value = text "helmet" }
          ∷ record { field = "context.in_danger_zone"; op = "truthy"; value = null }
          ∷ [];
      action =
          ("type", text "create_alert")
          ∷ ("severity", text "critical")
          ∷ (
            "message",
            text "CRITICAL: worker {event.worker_id} without helmet in danger zone {event.zone}",
          )
          ∷ [];
      cooldown = 300000;
      created_at = now;
    }
    ∷ record {
      rule_id = second;
      name = "severe-crack-immediate-inspection";
      enabled = true;
      priority = pos 90;
      event_types = "crack" ∷ [];
      conditions =
          record { field = "event.payload.severity_score"; op = "gt"; value = num (pos 850) } ∷ [];
      action =
          ("type", text "request_inspection")
          ∷ ("priority", text "immediate")
          ∷ (
            "message",
            text
                "Crack severity {event.payload.severity_score} in zone {event.zone} — immediate inspection",
          )
          ∷ [];
      cooldown = 600000;
      created_at = now;
    }
    ∷ record {
      rule_id = third;
      name = "rebar-deviation-rfi";
      enabled = true;
      priority = pos 80;
      event_types = "measurement" ∷ [];
      conditions =
          record { field = "event.payload.element"; op = "eq"; value = text "rebar_spacing" }
          ∷ record { field = "event.payload.deviation_mm"; op = "gt"; value = num (pos 20000) }
          ∷ [];
      action =
          ("type", text "generate_rfi")
          ∷ ("priority", text "high")
          ∷ (
            "message",
            text
                "Rebar spacing deviation {event.payload.deviation_mm}mm exceeds 20mm tolerance in {event.zone}",
          )
          ∷ [];
      cooldown = 1800000;
      created_at = now;
    }
    ∷ []
