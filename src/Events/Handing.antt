-- ===== src/Events/Handing.antt =====
-- Every message that the bus accepts is handed, once and in order, to each subscription that matches.
use field_pilot_ai_submissio.Common.{
  ℕ, zero, suc, ◌-◌, ◌≤◌, ◌≡◌, refl, sym, ap, ◌∙◌, true, List, [], ◌∷◌, ◌++◌, String, if◌then◌else◌,
  map, filter_by, arith, length, length-append, Bool-cases, inl, inr,
}
use field_pilot_ai_submissio.Events.Bus.{
  Bus, max_queue, empty_bus, accepts, publish, matches, tasks_for, take_turn, dispatch,
}
use mathlib.Core.Path.{subst}
use mathlib.Core.List.{append-nil, append_assoc}

-- What happens to a running bus: a message is published, or the loop takes a turn.
pub data Action (M : Type 0) : Type 0 where
  publishes : String → M → Action M
  turns : Action M

-- The subscriptions whose pattern matches a topic.
abbrev pub subscribers : {H : Type 0} → String → List (String × H) → List (String × H)
subscribers topic subs = filter_by (λ s. matches s.0 topic) subs

module _ {M H : Type 0} where
  abbrev pub step : Action M → Bus M H → Bus M H
  step (publishes topic message) bus = publish topic message bus
  step turns bus = dispatch bus

  abbrev pub run : List (Action M) → Bus M H → Bus M H
  run [] bus = bus
  run (a ∷ actions) bus = run actions (step a bus)

  -- What an action adds to the queue.
  abbrev pub added : Action M → Bus M H → List (String × M)
  added (publishes topic message) bus = if accepts bus then (topic, message) ∷ [] else []
  added turns bus = []

  -- The messages that the bus accepts in a run, in order.
  abbrev pub accepted : List (Action M) → Bus M H → List (String × M)
  accepted [] bus = []
  accepted (a ∷ actions) bus = added a bus ++ accepted actions (step a bus)

  -- A task for each subscriber of each message: its handler, with the topic and the message.
  abbrev pub handed : List (String × M) → List (String × H) → List (H × (String × M))
  handed [] subs = []
  handed ((topic, message) ∷ items) subs =
      map (λ s. (s.1, (topic, message))) (subscribers topic subs) ++ handed items subs

  tasks_for-subscribers :
      (item : String × M) (subs : List (String × H))
      → tasks_for item subs ≡ map (λ s. (s.1, item)) (subscribers item.0 subs)
  unfolding tasks_for
  tasks_for-subscribers item [] = refl
  tasks_for-subscribers item ((pattern, handler) ∷ subs) =
      elim (Bool-cases (matches pattern item.0)) [
        | inl hit ↦ rw (hit, tasks_for-subscribers item subs) refl
        | inr miss ↦ rw (miss, tasks_for-subscribers item subs) refl
      ]

  abbrev pub turns_on : ℕ → Bus M H → Bus M H
  turns_on zero bus = bus
  turns_on (suc n) bus = turns_on n (dispatch bus)

  handed-append :
      (xs ys : List (String × M)) (subs : List (String × H))
      → handed (xs ++ ys) subs ≡ handed xs subs ++ handed ys subs
  handed-append [] ys subs = refl
  handed-append (x ∷ xs) ys subs =
      ap (λ r. map (λ s. (s.1, x)) (subscribers x.0 subs) ++ r) (handed-append xs ys subs)
      ∙ sym (
          append_assoc (map (λ s. (s.1, x)) (subscribers x.0 subs)) (handed xs subs)
            (handed ys subs))

  -- The tasks made so far, and those that the queue is going to make.
  abbrev ledger : Bus M H → List (H × (String × M))
  ledger bus = bus.tasks ++ handed bus.queue bus.subs

  -- A bus that runs, with a queue within its bound.
  abbrev Live : List (String × H) → Bus M H → Type 0
  Live subs bus = (bus.running ≡ true) × ((bus.subs ≡ subs) × (length bus.queue ≤ max_queue))

  dispatch-turn : (bus : Bus M H) → bus.running ≡ true → dispatch bus ≡ take_turn bus.queue bus
  unfolding dispatch
  dispatch-turn bus r = rw r refl

  ledger-turn :
      (subs : List (String × H)) (items : List (String × M)) (bus : Bus M H)
      → bus.queue ≡ items
      → Live subs bus
      → Live subs (take_turn items bus) × (ledger (take_turn items bus) ≡ ledger bus)
  unfolding take_turn
  ledger-turn subs [] bus e live = (live, refl)
  ledger-turn subs (item ∷ items) bus e (r, (s, q)) = (
    (r, (s, omega (arith, ap length e))),
    rw (e, tasks_for-subscribers item bus.subs)
        (append_assoc bus.tasks (map (λ s. (s.1, item)) (subscribers item.0 bus.subs))
          (handed items bus.subs)),
  )

  ledger-dispatch :
      (subs : List (String × H)) (bus : Bus M H)
      → Live subs bus
      → Live subs (dispatch bus) × (ledger (dispatch bus) ≡ ledger bus)
  ledger-dispatch subs bus (r, live) =
      subst (λ b. Live subs b × (ledger b ≡ ledger bus)) (sym (dispatch-turn bus r))
        (ledger-turn subs bus.queue bus refl (r, live))

  ledger-step :
      (subs : List (String × H)) (a : Action M) (bus : Bus M H)
      → Live subs bus
      → Live subs (step a bus) × (ledger (step a bus) ≡ ledger bus ++ handed (added a bus) subs)
  unfolding publish
  ledger-step subs (publishes topic message) bus (r, (s, q)) = elim (Bool-cases (accepts bus)) [
    | inl fits ↦ rw fits (
      (r, (s, ground (arith, length-append bus.queue ((topic, message) ∷ [])))),
      rw s (
          ap (λ x. bus.tasks ++ x) (handed-append bus.queue ((topic, message) ∷ []) subs)
          ∙ sym (append_assoc bus.tasks (handed bus.queue subs) _)),
    )
    | inr full ↦ rw full ((r, (s, q)), sym (append-nil _))
  ]
  ledger-step subs turns bus live =
      let (l, e) = ledger-dispatch subs bus live in (l, e ∙ sym (append-nil _))

  ledger-run :
      (subs : List (String × H)) (actions : List (Action M)) (bus : Bus M H)
      → Live subs bus
      → Live subs (run actions bus)
        × (ledger (run actions bus) ≡ ledger bus ++ handed (accepted actions bus) subs)
  ledger-run subs [] bus live = (live, sym (append-nil _))
  ledger-run subs (a ∷ actions) bus live =
      let (l, e) = ledger-step subs a bus live in
      let (m, f) = ledger-run subs actions (step a bus) l in
      (
        m,
        f
            ∙ ap (λ x. x ++ handed (accepted actions (step a bus)) subs) e
            ∙ append_assoc (ledger bus) (handed (added a bus) subs) _
            ∙ ap (λ x. ledger bus ++ x)
                (sym (handed-append (added a bus) (accepted actions (step a bus)) subs)),
      )

  queue-turn :
      (items : List (String × M)) (bus : Bus M H)
      → bus.queue ≡ items
      → length (take_turn items bus).queue ≡ length items - 1
  unfolding take_turn
  queue-turn [] bus e = omega (arith, ap length e)
  queue-turn (item ∷ items) bus e = omega arith

  queue-dispatch :
      (bus : Bus M H) → bus.running ≡ true → length (dispatch bus).queue ≡ length bus.queue - 1
  queue-dispatch bus r =
      ap (λ b. length b.queue) (dispatch-turn bus r) ∙ queue-turn bus.queue bus refl

  empty-handed :
      (tasks : List (H × (String × M))) (subs : List (String × H)) (items : List (String × M))
      → length items ≡ 0
      → (items ≡ []) × (tasks ≡ tasks ++ handed items subs)
  empty-handed tasks subs [] e = (refl, sym (append-nil tasks))
  empty-handed tasks subs (x ∷ items) e = absurd (omega arith)

  drained :
      (subs : List (String × H)) (n : ℕ) (bus : Bus M H)
      → Live subs bus
      → length bus.queue ≡ n
      → ((turns_on n bus).queue ≡ []) × ((turns_on n bus).tasks ≡ ledger bus)
  drained subs zero bus live e = empty-handed bus.tasks bus.subs bus.queue e
  drained subs (suc n) bus live e =
      let (l, f) = ledger-dispatch subs bus live in
      let (q, t) = drained subs n (dispatch bus) l (omega (arith, queue-dispatch bus live.0)) in
      (q, t ∙ f)

  -- Whatever is published on a running bus while its loop takes turns, the queue never holds more
  -- than ten thousand messages, and after as many turns as it has messages left it is empty and
  -- the tasks are those for the accepted messages, in order: one for each subscription whose
  -- pattern matches the topic, with its handler, the topic and the message.
  pub run-handed :
      (subs : List (String × H)) (actions : List (Action M))
      → let bus = run actions (record empty_bus { subs = subs; running = true }) in
        let last = turns_on (length bus.queue) bus in
        (length bus.queue ≤ max_queue)
        × ((last.queue ≡ [])
            × (last.tasks
                ≡ handed
                    (accepted actions (record empty_bus { subs = subs; running = true }))
                    subs))
  run-handed subs actions =
      let first = record empty_bus { subs = subs; running = true } in
      let (live, e) = ledger-run subs actions first (refl, (refl, omega arith)) in
      let (q, t) = drained subs (length (run actions first).queue) (run actions first) live refl in
      (live.1.1, (q, t ∙ e))
