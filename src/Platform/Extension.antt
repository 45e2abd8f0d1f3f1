-- ===== src/Platform/Extension.antt =====
-- The rules and their actions add to the messages on the bus, and take none away.
use field_pilot_ai_submissio.Common.{
  ◌≡◌, refl, sym, ap, ◌∙◌, inl, inr, Option, none, some, Bool, true, false, List, [], ◌∷◌, ◌++◌,
  String, text_equality, ◌==◌, if◌then◌else◌, Bool-cases,
}
use field_pilot_ai_submissio.Events.Value.{Fields}
use field_pilot_ai_submissio.Events.Schema.{Event}
use field_pilot_ai_submissio.Triggers.Alert.{Alert}
use field_pilot_ai_submissio.Triggers.World.{Clock}
use field_pilot_ai_submissio.Rules.Engine.{RuleAction, evaluate}
use field_pilot_ai_submissio.Broadcast.Hub.{Message}
use field_pilot_ai_submissio.Platform.Setup.{Setup, Texts, Platform}
use field_pilot_ai_submissio.Platform.Actions.{
  build_context, execute, execute_each, publish, notify_on, notify_as, channels_of, param,
  go_on_with,
}
use field_pilot_ai_submissio.Platform.Handling.{run_rules}
use mathlib.Core.List.{append-nil, append_assoc}

-- Messages are only added, and the events stay.
abbrev pub Extends : Platform → Platform → Type 0
Extends p q =
    (q.events ≡ p.events) × ((rest : List Message) × (q.broadcasts ≡ p.broadcasts ++ rest))

abbrev pub ExtendsIfAny : Platform → Option Platform → Type 0
ExtendsIfAny p none = Unit
ExtendsIfAny p (some q) = Extends p q

Extends-refl : (p : Platform) → Extends p p
Extends-refl p = (refl, ([], sym (append-nil p.broadcasts)))

Extends-trans : (p q r : Platform) → Extends p q → Extends q r → Extends p r
Extends-trans p q r (e, (xs, h)) (f, (ys, g)) =
    (f ∙ e, (xs ++ ys, g ∙ ap (λ b. b ++ ys) h ∙ append_assoc p.broadcasts xs ys))

Extends-then :
    (p : Platform) (o : Option Platform) (f : Platform → Platform × Bool)
    → ((q : Platform) → Extends q (f q).0)
    → ExtendsIfAny p o
    → Extends p (go_on_with p o f).0
Extends-then p none f grows h = Extends-refl p
Extends-then p (some q) f grows h = Extends-trans p q (f q).0 h (grows q)

Extends-if :
    {A : Type 0} (p : Platform) (f : A → Platform) (b : Bool) (x y : A)
    → Extends p (f x)
    → Extends p (f y)
    → Extends p (f (if b then x else y))
Extends-if p f true x y h g = h
Extends-if p f false x y h g = g

module _ (setup : Setup) (t : Clock) (texts : Texts) where
  publish-Extends : (m : Message) (p : Platform) → Extends p (publish setup t texts m p)
  publish-Extends m p = elim (Bool-cases setup.has_hub) [
    | inl on ↦ rw on (refl, (m ∷ [], refl))
    | inr off ↦ rw off (Extends-refl p)
  ]

  notify_on-Extends :
      (o : Option (Option (List String))) (action : RuleAction) (event : Event) (alert : Alert)
      (p : Platform)
      → ExtendsIfAny p (notify_on setup t texts o action event alert p)
  notify_on-Extends none action event alert p = tt
  notify_on-Extends (some channels) action event alert p = Extends-refl p

  notified-Extends :
      (action : RuleAction) (event : Event) (alert : Alert) (p : Platform)
      → ExtendsIfAny p (notify_as setup t texts action event alert p)
  notified-Extends action event alert p =
      notify_on-Extends (channels_of setup t texts (param setup t texts "channels" action)) action
        event alert p

  execute-Extends :
      (action : RuleAction) (event : Event) (alert : Alert) (p : Platform)
      → ExtendsIfAny p (execute setup t texts action event alert p)
  unfolding execute
  execute-Extends action event alert p = elim (Bool-cases (action.action_type == "create_alert")) [
    | inl hit ↦ rw hit (Extends-refl p)
    | inr a ↦ elim (Bool-cases (action.action_type == "generate_rfi")) [
      | inl hit ↦ rw (a, hit) (publish-Extends _ _)
      | inr b ↦ elim (Bool-cases (action.action_type == "request_inspection")) [
        | inl hit ↦ rw (a, b, hit) (publish-Extends _ _)
        | inr c ↦ elim (Bool-cases (action.action_type == "notify")) [
          | inl hit ↦ rw (a, b, c, hit) (notified-Extends action event alert p)
          | inr d ↦ rw (a, b, c, d) (Extends-refl p)
        ]
      ]
    ]
  ]

  execute_each-Extends :
      (actions : List RuleAction) (event : Event) (alert : Alert) (p : Platform)
      → Extends p (execute_each setup t texts actions event alert p).0
  unfolding execute_each
  execute_each-Extends [] event alert p = Extends-refl p
  execute_each-Extends (action ∷ actions) event alert p =
      Extends-then p (execute setup t texts action event alert p)
        (λ q. execute_each setup t texts actions event alert q)
        (λ q. execute_each-Extends actions event alert q) (execute-Extends action event alert p)

  build_context-Extends :
      (event : Event) (p : Platform) → Extends p (build_context setup t texts event p).0
  unfolding build_context
  build_context-Extends event p =
      Extends-if {A = Platform × Fields} p (λ r. r.0) _ _ _ (Extends-refl p) (Extends-refl p)

  pub run_rules-Extends :
      (event : Event) (alert : Alert) (p : Platform)
      → Extends p (run_rules setup t texts event alert p)
  unfolding run_rules
  run_rules-Extends event alert p =
      let ctx = build_context setup t texts event p in
      let ran = evaluate texts.vformat texts.repr texts.model_dump t.now event ctx.1 ctx.0.engine in
      let before = record ctx.0 { engine = ran.0 } in
      let done = execute_each setup t texts ran.1 event alert before in
      let kept =
        Extends-trans p before done.0 (build_context-Extends event p)
          (execute_each-Extends ran.1 event alert before) in
      Extends-if p (λ q. q) done.1 _ _ kept kept
