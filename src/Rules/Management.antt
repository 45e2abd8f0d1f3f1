-- ===== src/Rules/Management.antt =====
-- Adding, removing and replacing rules keeps each under its own identifier.
use field_pilot_ai_submissio.Common.{◌≡◌, refl, List, [], ◌∷◌, String, text_equality}
use field_pilot_ai_submissio.Common.Dict
use field_pilot_ai_submissio.Common.Dict.{
  Dict, Unique, Unique-set, Unique-pop, All-set, All-pop, get-set, get-pop,
}
use field_pilot_ai_submissio.Rules.Engine.{
  Rule, RuleEngine, add_rule, remove_rule, replace_rules, index_rules,
}
use field_pilot_ai_submissio.Rules.Firing.{Indexed}

pub add_rule-Indexed :
    (rule : Rule) (engine : RuleEngine)
    → Indexed engine.rules
    → Indexed (add_rule rule engine).rules
add_rule-Indexed rule engine (u, h) = (
  Unique-set rule.rule_id rule engine.rules u,
  All-set (λ e. e.1.rule_id ≡ e.0) rule.rule_id rule engine.rules refl h,
)

pub remove_rule-Indexed :
    (id : String) (engine : RuleEngine)
    → Indexed engine.rules
    → Indexed (remove_rule id engine).0.rules
unfolding remove_rule
remove_rule-Indexed id engine (u, h) =
    (Unique-pop id engine.rules u, All-pop (λ e. e.1.rule_id ≡ e.0) id engine.rules h)

index_rules-Indexed :
    (rules : List Rule) (d : Dict String Rule) → Indexed d → Indexed (index_rules rules d)
index_rules-Indexed [] d h = h
index_rules-Indexed (r ∷ rules) d (u, h) =
    index_rules-Indexed rules (Dict.set r.rule_id r d)
      (Unique-set r.rule_id r d u, All-set (λ e. e.1.rule_id ≡ e.0) r.rule_id r d refl h)

pub replace_rules-Indexed :
    (rules : List Rule) (engine : RuleEngine) → Indexed (replace_rules rules engine).rules
unfolding replace_rules
replace_rules-Indexed rules engine = index_rules-Indexed rules [] (tt, tt)

-- A change of the rules, as the service layer makes it.
pub data Change : Type 0 where
  added : Rule → Change
  removed : String → Change
  replaced : List Rule → Change

abbrev pub change : Change → RuleEngine → RuleEngine
change (added rule) engine = add_rule rule engine
change (removed id) engine = (remove_rule id engine).0
change (replaced rules) engine = replace_rules rules engine

-- Adding, removing and replacing rules keeps every rule under its own identifier, and each
-- identifier once.
pub change-Indexed :
    (c : Change) (engine : RuleEngine) → Indexed engine.rules → Indexed (change c engine).rules
change-Indexed (added rule) engine h = add_rule-Indexed rule engine h
change-Indexed (removed id) engine h = remove_rule-Indexed id engine h
change-Indexed (replaced rules) engine h = replace_rules-Indexed rules engine
