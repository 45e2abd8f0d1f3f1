-- ===== src/Rules/Firing.antt =====
-- Which rules fire on an event, and how often a rule may fire for one subject.
use field_pilot_ai_submissio.Common.{
  ℕ, ◌+◌, ◌≤◌, ◌<◌, ◌≡◌, refl, ◌∙◌, Option, none, some, Bool, false, List, [], ◌∷◌, map, String,
  text_equality, text_pair_equality, ◌==◌, ==_iff, if◌then◌else◌, ◌&&◌, arith, filter_by, All,
  Bool-cases, inl, inr,
}
use field_pilot_ai_submissio.Common.Dict
use field_pilot_ai_submissio.Common.Dict.{Dict, Unique, get-set}
use field_pilot_ai_submissio.Events.Value.{Value, Fields}
use field_pilot_ai_submissio.Events.Schema.{Event, or_text}
use field_pilot_ai_submissio.Storage.Table
use field_pilot_ai_submissio.Storage.Table.{Spec}
use field_pilot_ai_submissio.Storage.Query.{has_key, UniqueKeys, passes, has_key-filter_by}
use field_pilot_ai_submissio.Storage.Rows.{UniqueKeys-sort_by, get-sort_by}
use field_pilot_ai_submissio.Rules.Engine.{
  Rule, RuleEngine, get_rule, values, more_urgent, list_rules, cooldown_key, in_cooldown,
  mark_fired, fires, fire, evaluate_rules, evaluate, scope_of,
}

-- Rules as rows under their identifiers.
abbrev pub rule_spec : Spec Rule
rule_spec = record {
  key = λ r. r.rule_id;
  before = more_urgent;
  restore = λ old r. r;
  key_restore = λ old r. refl;
}

-- Every rule stands under its own identifier, and each identifier once.
abbrev pub Indexed : Dict String Rule → Type 0
Indexed rules = Unique rules × All (λ e. e.1.rule_id ≡ e.0) rules

has_key-values :
    (k : String) (rules : Dict String Rule)
    → All (λ e. e.1.rule_id ≡ e.0) rules
    → Dict.get k rules ≡ none
    → has_key rule_spec k (values rules) ≡ false
unfolding has_key Dict.get
has_key-values k [] h n = refl
has_key-values k ((j, r) ∷ rules) (e, h) n = rw e (ground (arith, has_key-values k rules h))

UniqueKeys-values : (rules : Dict String Rule) → Indexed rules → UniqueKeys rule_spec (values rules)
UniqueKeys-values [] h = tt
UniqueKeys-values ((j, r) ∷ rules) ((n, u), (e, h)) =
    (rw e (has_key-values j rules h n), UniqueKeys-values rules (u, h))

pub UniqueKeys-list_rules :
    (engine : RuleEngine) → Indexed engine.rules → UniqueKeys rule_spec (list_rules engine)
unfolding list_rules
UniqueKeys-list_rules engine h =
    UniqueKeys-sort_by rule_spec more_urgent (values engine.rules)
      (UniqueKeys-values engine.rules h)

-- Another rule's firing does not touch a rule's cooldown.
in_cooldown-mark_fired :
    (now : ℕ) (r s : Rule) (event : Event) (fired : Dict (String × String) ℕ)
    → (r.rule_id == s.rule_id) ≡ false
    → in_cooldown now s event (mark_fired now r event fired) ≡ in_cooldown now s event fired
unfolding in_cooldown mark_fired
in_cooldown-mark_fired now r s event fired h =
    rw (get-set (cooldown_key r event) (cooldown_key s event) now fired, h) refl

module _ (vformat : String → Value → Option String) (repr : Value → String)
    (model_dump : Event → Fields) (now : ℕ) (event : Event) (scope : Value) where
  filter-mark_fired :
      (r : Rule) (rules : List Rule) (fired : Dict (String × String) ℕ)
      → has_key rule_spec r.rule_id rules ≡ false
      → filter_by
          (λ s. fires vformat repr model_dump now event scope s (mark_fired now r event fired))
          rules
        ≡ filter_by (λ s. fires vformat repr model_dump now event scope s fired) rules
  unfolding has_key fires
  filter-mark_fired r [] fired h = refl
  filter-mark_fired r (s ∷ rules) fired h = ground (
    arith,
    filter-mark_fired r rules fired,
    in_cooldown-mark_fired now r s event fired,
    ==_iff r.rule_id s.rule_id,
    ==_iff s.rule_id r.rule_id,
  )

  evaluate_rules-filter :
      (rules : List Rule) (fired : Dict (String × String) ℕ)
      → UniqueKeys rule_spec rules
      → (evaluate_rules vformat repr model_dump now event scope rules fired).1
        ≡ map
            (λ r. fire vformat repr model_dump r event scope)
            (filter_by (λ r. fires vformat repr model_dump now event scope r fired) rules)
  unfolding evaluate_rules
  evaluate_rules-filter [] fired u = refl
  evaluate_rules-filter (r ∷ rules) fired (n, u) =
      elim (Bool-cases (fires vformat repr model_dump now event scope r fired)) [
        | inl hit ↦
            rw
              (
                hit,
                evaluate_rules-filter rules (mark_fired now r event fired) u,
                filter-mark_fired r rules fired n,
              )
              refl
        | inr miss ↦ rw miss (evaluate_rules-filter rules fired u)
      ]

get-values :
    (k : String) (rules : Dict String Rule)
    → All (λ e. e.1.rule_id ≡ e.0) rules
    → Table.get rule_spec k (values rules) ≡ Dict.get k rules
unfolding Table.get Dict.get
get-values k [] h = refl
get-values k ((j, r) ∷ rules) (e, h) = rw (e, get-values k rules h) refl

pub get-list_rules :
    (k : String) (engine : RuleEngine)
    → Indexed engine.rules
    → Table.get rule_spec k (list_rules engine) ≡ get_rule k engine
unfolding list_rules get_rule
get-list_rules k engine h =
    get-sort_by rule_spec more_urgent k (values engine.rules) (UniqueKeys-values engine.rules h)
    ∙ get-values k engine.rules h.1

get-mark_fired :
    (now : ℕ) (r : Rule) (event : Event) (id who : String) (fired : Dict (String × String) ℕ)
    → Dict.get (id, who) (mark_fired now r event fired)
      ≡ (if cooldown_key r event == (id, who) then some now else Dict.get (id, who) fired)
unfolding mark_fired
get-mark_fired now r event id who fired = get-set (cooldown_key r event) (id, who) now fired

-- An event's subject: the worker, or else the camera.
abbrev pub subject : Event → String
subject event = or_text event.worker_id event.camera_id

module _ (vformat : String → Value → Option String) (repr : Value → String)
    (model_dump : Event → Fields) where
  -- The rules that fire are those that pass the tests of the loop when the event comes in.
  pub evaluate-filter :
      (now : ℕ) (event : Event) (context : Fields) (engine : RuleEngine)
      → Indexed engine.rules
      → (evaluate vformat repr model_dump now event context engine).1
        ≡ map
            (λ r.
              fire vformat repr model_dump r event (scope_of vformat repr model_dump event context))
            (filter_by
              (λ r.
                fires vformat repr model_dump now event
                  (scope_of vformat repr model_dump event context)
                  r
                  engine.last_fired)
              (list_rules engine))
  unfolding evaluate
  evaluate-filter now event context engine h =
      evaluate_rules-filter vformat repr model_dump now event _ (list_rules engine)
        engine.last_fired (UniqueKeys-list_rules engine h)

  -- A rule of the engine fires on an event.
  abbrev pub rule_fires : ℕ → Event → Fields → String → RuleEngine → Bool
  rule_fires now event context id engine =
      passes rule_spec
        (λ r.
          fires vformat repr model_dump now event (scope_of vformat repr model_dump event context) r
            engine.last_fired)
        (get_rule id engine)

  last_fired_lem :
      (now : ℕ) (event : Event) (scope : Value) (id who : String) (rules : List Rule)
      (fired : Dict (String × String) ℕ)
      → UniqueKeys rule_spec rules
      → Dict.get (id, who) (evaluate_rules vformat repr model_dump now event scope rules fired).0
        ≡ (if (subject event == who)
              && has_key rule_spec id
                  (filter_by (λ r. fires vformat repr model_dump now event scope r fired) rules)
            then some now
            else Dict.get (id, who) fired)
  unfolding evaluate_rules has_key
  last_fired_lem now event scope id who [] fired u = ground arith
  last_fired_lem now event scope id who (r ∷ rules) fired (n, u) =
      elim (Bool-cases (fires vformat repr model_dump now event scope r fired)) [
        | inl hit ↦ rw hit (
            last_fired_lem now event scope id who rules (mark_fired now r event fired) u
            ∙ rw
                (
                  filter-mark_fired vformat repr model_dump now event scope r rules fired n,
                  get-mark_fired now r event id who fired,
                )
                (ground arith))
        | inr miss ↦ rw miss (last_fired_lem now event scope id who rules fired u)
      ]

  -- If every rule stands under its own identifier: an evaluation leaves in the record of last
  -- firings, for the event's subject, its time for the rules that fired, and all else as it was.
  pub evaluate-last_fired :
      (now : ℕ) (event : Event) (context : Fields) (id who : String) (engine : RuleEngine)
      → Indexed engine.rules
      → Dict.get (id, who) (evaluate vformat repr model_dump now event context engine).0.last_fired
        ≡ (if (subject event == who) && rule_fires now event context id engine
            then some now
            else Dict.get (id, who) engine.last_fired)
  unfolding evaluate
  evaluate-last_fired now event context id who engine h =
      let u = UniqueKeys-list_rules engine h in
      last_fired_lem now event _ id who (list_rules engine) engine.last_fired u
      ∙ rw
          (
            has_key-filter_by rule_spec
                (λ r.
                  fires vformat repr model_dump now event
                    (scope_of vformat repr model_dump event context) r engine.last_fired)
                id (list_rules engine) u,
            get-list_rules id engine h,
          )
          refl

  -- A rule whose last firing for a subject was less than its cooldown ago does not fire for it,
  -- whatever the event and its context.
  pub rule_fires-cooldown :
      (last now : ℕ) (event : Event) (context : Fields) (id : String) (rule : Rule)
      (engine : RuleEngine)
      → get_rule id engine ≡ some rule
      → Dict.get (rule.rule_id, subject event) engine.last_fired ≡ some last
      → now < last + rule.cooldown
      → last ≤ now
      → rule_fires now event context id engine ≡ false
  unfolding fires in_cooldown
  rule_fires-cooldown last now event context id rule engine g d h o = rw (g, d) (ground arith)
