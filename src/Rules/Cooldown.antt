-- ===== src/Rules/Cooldown.antt =====
-- A rule keeps its cooldown over any run of events.
use field_pilot_ai_submissio.Common.{
  ℕ, ◌+◌, ◌≤◌, ◌<◌, ◌≡◌, refl, ◌∙◌, Option, some, false, List, [], ◌∷◌, String, text_equality,
  text_pair_equality, ◌==◌, ==_iff, All, Bool-cases, inl, inr,
}
use field_pilot_ai_submissio.Common.Dict
use field_pilot_ai_submissio.Events.Value.{Value, Fields}
use field_pilot_ai_submissio.Events.Schema.{Event}
use field_pilot_ai_submissio.Rules.Engine.{Rule, RuleEngine, get_rule, evaluate}
use field_pilot_ai_submissio.Rules.Firing.{
  Indexed, subject, rule_fires, rule_fires-cooldown, evaluate-last_fired,
}

-- An event that comes in: its time, and its context.
pub record Arrival : Type 0 where
  pub now : ℕ
  pub event : Event
  pub context : Fields

-- The arrival is within so long after a time.
abbrev pub Within : ℕ → ℕ → Arrival → Type 0
Within last cooldown a = (last ≤ a.now) × (a.now < last + cooldown)

module _ (vformat : String → Value → Option String) (repr : Value → String)
    (model_dump : Event → Fields) where
  abbrev pub run_arrivals : List Arrival → RuleEngine → RuleEngine
  run_arrivals [] engine = engine
  run_arrivals (a ∷ arrivals) engine =
      run_arrivals arrivals (evaluate vformat repr model_dump a.now a.event a.context engine).0

  get_rule-evaluate :
      (a : Arrival) (id : String) (engine : RuleEngine)
      → get_rule id (evaluate vformat repr model_dump a.now a.event a.context engine).0
        ≡ get_rule id engine
  unfolding evaluate get_rule
  get_rule-evaluate a id engine = refl

  Indexed-evaluate :
      (a : Arrival) (engine : RuleEngine)
      → Indexed engine.rules
      → Indexed (evaluate vformat repr model_dump a.now a.event a.context engine).0.rules
  unfolding evaluate
  Indexed-evaluate a engine h = h

  -- An arrival within the cooldown leaves the record of the firing as it is.
  last_fired-evaluate :
      (a : Arrival) (rule : Rule) (who : String) (last : ℕ) (engine : RuleEngine)
      → Indexed engine.rules
      → get_rule rule.rule_id engine ≡ some rule
      → Dict.get (rule.rule_id, who) engine.last_fired ≡ some last
      → Within last rule.cooldown a
      → Dict.get
          (rule.rule_id, who)
          (evaluate vformat repr model_dump a.now a.event a.context engine).0.last_fired
        ≡ some last
  last_fired-evaluate a rule who last engine h g d (o, l) =
      evaluate-last_fired vformat repr model_dump a.now a.event a.context rule.rule_id who engine h
      ∙ elim (Bool-cases (subject a.event == who)) [
        | inr n ↦ rw n d
        | inl e ↦
            rw
              (
                e,
                rule_fires-cooldown vformat repr model_dump last a.now a.event a.context
                    rule.rule_id rule engine g (rw ((==_iff (subject a.event) who).0 e) d) l o,
              )
              d
      ]

  -- A rule that last fired for a subject at some time does not fire for it again before its
  -- cooldown is over, whatever events come in meanwhile, for whatever subjects and in whatever
  -- order, provided that every rule stands under its own identifier and that no event is older
  -- than the firing.
  pub rule_fires-run_arrivals :
      (arrivals : List Arrival) (a : Arrival) (rule : Rule) (last : ℕ) (engine : RuleEngine)
      → Indexed engine.rules
      → get_rule rule.rule_id engine ≡ some rule
      → Dict.get (rule.rule_id, subject a.event) engine.last_fired ≡ some last
      → All (Within last rule.cooldown) arrivals
      → Within last rule.cooldown a
      → rule_fires vformat repr model_dump a.now a.event a.context rule.rule_id
          (run_arrivals arrivals engine)
        ≡ false
  rule_fires-run_arrivals [] a rule last engine h g d w (o, l) =
      rule_fires-cooldown vformat repr model_dump last a.now a.event a.context rule.rule_id rule
        engine g d l o
  rule_fires-run_arrivals (b ∷ arrivals) a rule last engine h g d (v, w) within =
      rule_fires-run_arrivals arrivals a rule last _ (Indexed-evaluate b engine h)
        (get_rule-evaluate b rule.rule_id engine ∙ g)
        (last_fired-evaluate b rule (subject a.event) last engine h g d v) w within
