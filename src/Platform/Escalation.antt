-- ===== src/Platform/Escalation.antt =====
-- What the orchestrator tells people of an event, whatever the verifier and the rules do.
use field_pilot_ai_submissio.Common.{
  ◌≡◌, refl, sym, ap, ◌∙◌, Option, none, some, true, false, List, [], ◌∷◌, ◌++◌, text_equality, leb,
  arith,
}
use field_pilot_ai_submissio.Events.Schema.{Event, severity_value}
use field_pilot_ai_submissio.Triggers.Alert.{Alert}
use field_pilot_ai_submissio.Triggers.World.{Clock}
use field_pilot_ai_submissio.Triggers.Engine.{process}
use field_pilot_ai_submissio.Broadcast.Hub.{Message}
use field_pilot_ai_submissio.Platform.Setup.{Verifier, Setup, Texts, Platform}
use field_pilot_ai_submissio.Platform.Handling.{
  rank_of, sees, save_event, is_new, may_suppress, judge, gate_of, gate, dashboard_message,
  to_worker, to_zone, and_then, tell_people, go_on, handle_event,
}
use field_pilot_ai_submissio.Platform.Extension.{run_rules-Extends}
use mathlib.Core.List.{append_assoc}
use mathlib.Core.Path.{subst}
use field_pilot_ai_submissio.Platform.Telling.{Recorded, save_event-Recorded, ToldOf}
use field_pilot_ai_submissio.Platform.Audiences.{told-ToldOf}
use field_pilot_ai_submissio.Platform.Gate.{Same, Passes, Handed, gate-Handed}

-- The hub is given no message, no rule is evaluated and no document is filed.
abbrev pub Quiet : Platform → Platform → Type 0
Quiet p q =
    (q.broadcasts ≡ p.broadcasts)
    × ((q.engine ≡ p.engine) × ((q.rfis ≡ p.rfis) × (q.inspections ≡ p.inspections)))

-- The gate holds the alert back.
abbrev Kept : Platform → Platform × Option Alert → Type 0
Kept p (q, out) = (out ≡ none) × ((q.events ≡ p.events) × Quiet p q)

module _ (setup : Setup) (t : Clock) (texts : Texts) where
  -- A new alert that the verifier lets go on goes on to people.
  handle_event-go_on :
      (event : Event) (p : Platform)
      → let (world, result) =
          process setup.triggers t texts.repr (texts.fresh "alert") event p.world in
        is_new result.outcome ≡ true
        → handle_event setup t texts event p
          ≡ go_on setup t texts event (
              gate setup t texts result.alert
                (record p { events = save_event event p.events; world = world }))
  unfolding handle_event
  handle_event-go_on event p new = rw new refl

  tell_people-broadcasts :
      (alert : Alert) (p : Platform)
      → setup.has_hub ≡ true
      → (tell_people setup t texts alert p).broadcasts
        ≡ p.broadcasts
          ++ (dashboard_message setup t texts alert
              ∷ and_then
                  (to_worker setup t texts alert)
                  (and_then (to_zone setup t texts alert) []))
  unfolding tell_people
  tell_people-broadcasts alert p on = rw on refl

  -- What people are told of an alert.
  abbrev told : Alert → List Message
  told alert =
      dashboard_message setup t texts alert
      ∷ and_then (to_worker setup t texts alert) (and_then (to_zone setup t texts alert) [])

  -- The messages on the alert come first, before those of the rules.
  abbrev Led : Alert → Platform → Platform → Type 0
  Led alert p q =
      (b : Alert) × ((rest : List Message) × (Same alert b
          × ((q.events ≡ p.events) × (q.broadcasts ≡ p.broadcasts ++ (told b ++ rest)))))

  events-tell_people :
      (alert : Alert) (p : Platform) → (tell_people setup t texts alert p).events ≡ p.events
  unfolding tell_people
  events-tell_people alert p = ground arith

  go_on-Led :
      (event : Event) (alert : Alert) (p : Platform) (r : Platform × Option Alert)
      → setup.has_hub ≡ true
      → Handed alert p r
      → Led alert p (go_on setup t texts event r)
  unfolding go_on Handed
  go_on-Led event alert p (q, out) on (b, (e, (same, (kept, saved)))) =
      let (held, (rest, h)) =
        run_rules-Extends setup t texts event b (tell_people setup t texts b q) in
      subst (λ o. Led alert p (go_on setup t texts event (q, o))) (sym e)
        (
          b,
          (
            rest,
            (
              same,
              (
                held ∙ events-tell_people b q ∙ saved,
                h
                    ∙ ap (λ x. x ++ rest) (tell_people-broadcasts b q on)
                    ∙ append_assoc q.broadcasts (told b) rest
                    ∙ ap (λ x. x ++ (told b ++ rest)) kept,
              ),
            ),
          ),
        )

  -- The event is recorded; the messages on the alert are what people are to be told, and come before
  -- whatever else is published.
  abbrev pub Told : Event → Alert → Platform → Platform → Type 0
  Told event alert p q =
      Recorded event p.events q.events
      × ((b : Alert) × (Same alert b
            × ((ms : List Message) × ((rest : List Message) × ((q.broadcasts
                      ≡ p.broadcasts ++ (ms ++ rest))
                    × ToldOf texts t b ms)))))

  handle_event-Led :
      (event : Event) (p : Platform)
      → let (world, result) =
          process setup.triggers t texts.repr (texts.fresh "alert") event p.world in
        setup.has_hub ≡ true
        → is_new result.outcome ≡ true
        → Passes setup texts setup.verifier result.alert
        → Led result.alert
            (record p { events = save_event event p.events })
            (handle_event setup t texts event p)
  handle_event-Led event p on new pass =
      let done = process setup.triggers t texts.repr (texts.fresh "alert") event p.world in
      let saved = record p { events = save_event event p.events; world = done.0 } in
      subst (Led done.1.alert saved) (sym (handle_event-go_on event p new)) (
        go_on-Led event done.1.alert saved (gate setup t texts done.1.alert saved) on
          (gate-Handed setup t texts done.1.alert saved pass))

  -- Where a hub is set up, and an event opens or reactivates an alert that no verifier looks at,
  -- that the verifier confirms or cannot see, or that is more severe than the ceiling: the event
  -- is the last row of the event log if its identifier was new, and otherwise the log is as it
  -- was; and the messages that are added begin with those on the alert, which differs from the
  -- trigger engine's in its payload only. The first carries the alert and reaches exactly the
  -- dashboards for its zone; the next, if the alert names a worker, carries it to exactly that
  -- worker's devices; the next, if it has a zone, is an advisory of low severity on it, which
  -- names what happened and the worker, and reaches exactly the devices in the zone, without that
  -- worker's; each wherever the socket takes it.
  pub handle_event-Told :
      (event : Event) (p : Platform)
      → let (world, result) =
          process setup.triggers t texts.repr (texts.fresh "alert") event p.world in
        setup.has_hub ≡ true
        → is_new result.outcome ≡ true
        → Passes setup texts setup.verifier result.alert
        → Told event result.alert p (handle_event setup t texts event p)
  handle_event-Told event p on new pass =
      let (b, (rest, (same, (held, h)))) = handle_event-Led event p on new pass in
      (
        subst (Recorded event p.events) (sym held) (save_event-Recorded event p.events),
        (b, (same, (told b, (rest, (h, told-ToldOf setup t texts b))))),
      )

  judge_rejected :
      (v : Verifier) (alert : Alert) (p : Platform)
      → (v.verify alert).confirmed ≡ false
      → may_suppress setup t texts alert.severity ≡ true
      → Kept p (judge setup t texts (v.verify alert) alert p)
  unfolding judge
  judge_rejected v alert p no_ may = rw (no_, may) (refl, (refl, (refl, (refl, (refl, refl)))))

  go_on-Kept :
      (event : Event) (p : Platform) (r : Platform × Option Alert)
      → Kept p r
      → ((go_on setup t texts event r).events ≡ p.events) × Quiet p (go_on setup t texts event r)
  unfolding go_on
  go_on-Kept event p (q, out) (e, kept) =
      subst
        (λ o.
          ((go_on setup t texts event (q, o)).events ≡ p.events)
          × Quiet p (go_on setup t texts event (q, o)))
        (sym e) kept

  -- After a new alert that a verifier with vision does not confirm, no more severe than the
  -- ceiling, the event is the last row of the event log if its identifier was new, and otherwise
  -- the log is as it was; the broadcast hub is given no message, no rule is evaluated and no
  -- document is filed.
  pub handle_event-Quiet :
      (event : Event) (p : Platform) (v : Verifier)
      → let (world, result) =
          process setup.triggers t texts.repr (texts.fresh "alert") event p.world in
        setup.verifier ≡ some v
        → is_new result.outcome ≡ true
        → (v.verify result.alert).confirmed ≡ false
        → v.vision ≡ true
        → leb
            (rank_of (texts.lower (severity_value result.alert.severity)))
            (rank_of setup.suppress_max_severity)
          ≡ true
        → Recorded event p.events (handle_event setup t texts event p).events
          × Quiet p (handle_event setup t texts event p)
  unfolding gate gate_of may_suppress
  handle_event-Quiet event p v e new rejected seen mild =
      let done = process setup.triggers t texts.repr (texts.fresh "alert") event p.world in
      let saved = record p { events = save_event event p.events; world = done.0 } in
      let may : may_suppress setup t texts done.1.alert.severity ≡ true =
        rw (ap sees e ∙ seen, mild) refl in
      let held = go_on-Kept event saved (gate setup t texts done.1.alert saved) (
        subst (λ o. Kept saved (gate_of setup t texts o done.1.alert saved)) (sym e)
          (judge_rejected v done.1.alert saved rejected may)) in
      subst (λ q. Recorded event p.events q.events × Quiet p q)
        (sym (handle_event-go_on event p new))
        (subst (Recorded event p.events) (sym held.0) (save_event-Recorded event p.events), held.1)
