-- ===== src/Rules/Choice.antt =====
-- Which rules fire on an event, in which order, and what they ask for.
use field_pilot_ai_submissio.Common.{
  ℕ, ◌≡◌, ◌↔◌, ◌⊎◌, sym, ap, ◌∙◌, inl, inr, Option, none, some, Bool, true, false, List, [], ◌∷◌,
  String, text_equality, ◌==◌, if◌then◌else◌, filter_by, Bool-cases,
}
use field_pilot_ai_submissio.Common.Dict
use field_pilot_ai_submissio.Common.Dict.{Dict}
use field_pilot_ai_submissio.Events.Value.{Value, Fields, text, dict, entry, blank}
use field_pilot_ai_submissio.Events.Schema.{Event}
use mathlib.Core.Path.{subst}
use field_pilot_ai_submissio.Storage.Table
use field_pilot_ai_submissio.Storage.Query.{UniqueKeys, passes}
use field_pilot_ai_submissio.Rules.Engine.{
  Rule, RuleAction, RuleEngine, get_rule, list_rules, render, fires,
}
use field_pilot_ai_submissio.Rules.Due.{Due, fires-Due, Due-fires}
use field_pilot_ai_submissio.Rules.Order.{Prioritised, get-filter_by}
use field_pilot_ai_submissio.Rules.Firing.{
  Indexed, rule_spec, UniqueKeys-list_rules, get-list_rules,
}

-- Lists of one length whose elements stand in a relation one by one.
abbrev pub Pairs : {A B : Type 0} → (A → B → Type 0) → List A → List B → Type 0
Pairs P [] [] = Unit
Pairs P (x ∷ xs) (y ∷ ys) = P x y × Pairs P xs ys
Pairs P [] (y ∷ ys) = ⊥
Pairs P (x ∷ xs) [] = ⊥

module _ (vformat : String → Value → Option String) (repr : Value → String)
    (model_dump : Event → Fields) where
  -- The type of an action: that of its rule, or the default.
  abbrev pub Typed : Option Value → String → Type 0
  Typed none type = type ≡ "create_alert"
  Typed (some (text s)) type = type ≡ s
  Typed (some v) type = type ≡ repr v

  -- A text is formatted over the scope, and stays as it is where that fails; other values stay.
  abbrev pub Rendered : Value → Option Value → Option Value → Type 0
  Rendered scope none out = out ≡ none
  Rendered scope (some (text s)) out =
      ((vformat s scope ≡ none) × (out ≡ some (text s)))
      ⊎ ((t : String) × ((vformat s scope ≡ some t) × (out ≡ some (text t))))
  Rendered scope (some v) out = out ≡ some v

  -- The action of a rule on an event.
  abbrev pub Asks : Event → Value → Rule → RuleAction → Type 0
  Asks event scope r a =
      (a.rule_id ≡ r.rule_id)
      × ((a.rule_name ≡ r.name)
          × ((a.event_id ≡ event.event_id)
              × (Typed (Dict.get "type" r.action) a.action_type
                  × ((k : String)
                      → (k == "type") ≡ false
                      → Rendered scope (Dict.get k r.action) (Dict.get k a.params)))))

  -- What becomes of the value of a parameter.
  abbrev rendered : Value → Option Value → Option Value
  rendered scope none = none
  rendered scope (some v) = some (render vformat repr model_dump v scope)

  -- A formatted text, or the text itself.
  abbrev from : String → Option String → Value
  from s none = text s
  from s (some t) = text t

  -- The event and the context, as rules see them.
  abbrev pub seen_by_rules : Event → Fields → Value
  seen_by_rules event context =
      dict (entry "event" (dict (model_dump event)) (entry "context" (dict context) blank))

  -- The rules that are due, the more urgent ones first, each once, and no others; each with its
  -- action.
  abbrev pub Chosen : ℕ → Event → Fields → RuleEngine → List RuleAction → Type 0
  Chosen now event context engine actions =
      (rules : List Rule) × (Pairs (Asks event (seen_by_rules event context)) rules actions
        × (Prioritised rules
            × (UniqueKeys rule_spec rules
                × ((id : String) (r : Rule)
                    → (Table.get rule_spec id rules ≡ some r) ↔ (
                        (Dict.get id engine.rules ≡ some r)
                        × Due now event (seen_by_rules event context) engine.last_fired r)))))

  passed :
      (test : Rule → Bool) (o : Option Rule) (r : Rule)
      → ((if passes rule_spec test o then o else none) ≡ some r) ↔ ((o ≡ some r) × (test r ≡ true))
  passed test none r = (λ h. absurd (cc), λ h. absurd (let q = h.0 in cc))
  passed test (some s) r = (
    λ h. elim (Bool-cases (test s)) [
      | inl hit ↦
          let q : some s ≡ some r = rw hit at h in
          (q, subst (λ x. test x ≡ true) (ap (λ o. elim o [ none ↦ s | some x ↦ x ]) q) hit)
      | inr miss ↦ absurd (let q : none ≡ some r = rw miss at h in cc)
    ],
    λ (q, t).
        let hit : test s ≡ true =
          subst (λ x. test x ≡ true) (sym (ap (λ o. elim o [ none ↦ s | some x ↦ x ]) q)) t in
        rw hit q,
  )

  member :
      (now : ℕ) (event : Event) (context : Fields) (engine : RuleEngine)
      → Indexed engine.rules
      → (id : String) (r : Rule)
      → let scope = seen_by_rules event context in
        (Table.get rule_spec id (
            filter_by
              (λ r. fires vformat repr model_dump now event scope r engine.last_fired)
              (list_rules engine))
          ≡ some r)
        ↔ ((Dict.get id engine.rules ≡ some r) × Due now event scope engine.last_fired r)
  unfolding get_rule
  member now event context engine h id r =
      let scope = seen_by_rules event context in
      let test : Rule → Bool =
        λ r. fires vformat repr model_dump now event scope r engine.last_fired in
      let p =
        get-filter_by rule_spec test id (list_rules engine) (UniqueKeys-list_rules engine h)
        ∙ ap (λ o. if passes rule_spec test o then o else none) (get-list_rules id engine h) in
      (
        λ q.
            let (a, b) = (passed test (Dict.get id engine.rules) r).0 (sym p ∙ q) in
            (a, fires-Due vformat repr model_dump now event scope engine.last_fired r b),
        λ (a, d).
            p
            ∙ (passed test (Dict.get id engine.rules) r).1
                (a, Due-fires vformat repr model_dump now event scope engine.last_fired r d),
      )
