-- ===== src/Platform/Warning.antt =====
-- From the event to the worker's device: the orchestrator's message, and the hub's delivery of it.
use field_pilot_ai_submissio.Common.{
  ◌≡◌, ap, ◌∙◌, some, Bool, true, List, [], ◌∷◌, ◌++◌, String, inl, inr, All, All-mono,
}
use field_pilot_ai_submissio.Common.Text.{truthy}
use field_pilot_ai_submissio.Events.Schema.{Event}
use field_pilot_ai_submissio.Triggers.Alert.{Alert}
use field_pilot_ai_submissio.Triggers.World.{Clock}
use field_pilot_ai_submissio.Triggers.Engine.{process}
use field_pilot_ai_submissio.Broadcast.Hub.{Client, Hub, Message, Frame, alert_data, deliver}
use field_pilot_ai_submissio.Broadcast.Routing.{frames-deliver}
use field_pilot_ai_submissio.Platform.Setup.{Setup, Texts, Platform}
use field_pilot_ai_submissio.Platform.Handling.{is_new, handle_event}
use field_pilot_ai_submissio.Platform.Telling.{ToWorker, OneIf}
use field_pilot_ai_submissio.Platform.Gate.{Same, Passes}
use field_pilot_ai_submissio.Platform.Escalation.{Told, handle_event-Told}
use mathlib.Core.Path.{subst}

module _ (setup : Setup) (t : Clock) (texts : Texts) where
  -- Every frame of the message, whatever hub delivers it, carries the alert and the words to its
  -- worker.
  abbrev pub Warns : Alert → Message → Type 0
  Warns alert m =
      (succeeds : Client → Frame → Bool) (hub : Hub)
      → All
          (λ e.
            (e.1.topic ≡ "alert")
            × (e.1.data' ≡ alert_data alert (texts.spoken_phrase alert "worker")))
          (deliver succeeds m hub).1

  -- The second message after those before warns the worker.
  abbrev pub Warned : String → Alert → Platform → Platform → Type 0
  Warned worker alert p q =
      (b : Alert) × (Same alert b
        × ((d : Message) × ((m : Message) × ((rest : List Message) × ((q.broadcasts
                    ≡ p.broadcasts ++ (d ∷ m ∷ rest))
                  × (ToWorker texts t b worker m × Warns b m))))))

  ToWorker-Warns :
      (alert : Alert) (worker : String) (m : Message)
      → ToWorker texts t alert worker m
      → Warns alert m
  ToWorker-Warns alert worker m (topic, (at, (said, reaches))) succeeds hub =
      All-mono (deliver succeeds m hub).1
        (λ e same. (ap (λ f. f.topic) same ∙ topic, ap (λ f. f.data') same ∙ said))
        (frames-deliver succeeds m hub)

  -- A worker who is named is told.
  one_message :
      (worker : String) (To : String → Message → Type 0) (ms : List Message)
      → truthy worker ≡ true
      → OneIf texts t (some worker) To ms
      → (m : Message) × ((ms ≡ m ∷ []) × To worker m)
  one_message worker To ms w (inl (blank, e)) = absurd (cc)
  one_message worker To ms w (inr (named, told)) = told

  Told-Warned :
      (event : Event) (worker : String) (alert : Alert) (p q : Platform)
      → alert.worker_id ≡ some worker
      → truthy worker ≡ true
      → Told setup t texts event alert p q
      → Warned worker alert p q
  Told-Warned event worker alert p q e w
        (recorded, (b, (same, (ms, (rest, (h, (d, (ws, (zs, (split, (dash, (one, zone)))))))))))) =
      let named = ap (λ x. x.worker_id) same ∙ e in
      let (m, (alone, to)) =
        one_message worker (ToWorker texts t b) ws w
          (subst (λ o. OneIf texts t o (ToWorker texts t b) ws) named one) in
      (
        b,
        (
          same,
          (
            d,
            (
              m,
              (
                zs ++ rest,
                (
                  h ∙ ap (λ x. p.broadcasts ++ (x ++ rest)) (split ∙ ap (λ x. d ∷ x ++ zs) alone),
                  (to, ToWorker-Warns b worker m to),
                ),
              ),
            ),
          ),
        ),
      )

  -- A new alert (opened or reactivated by an event) that names a worker, with a hub set up, is
  -- published to that worker whenever there is no verifier, the verifier confirms it, the verifier
  -- does not see images, or the alert is more severe than the ceiling: the second message that the
  -- handling of the event adds carries the alert, unchanged but for its payload, and the words for
  -- its worker; whatever hub delivers it, exactly the devices of that worker whose socket takes it
  -- are sent it, and every frame carries that alert and those words. The clients of the hub stand
  -- under their own identifiers, each once.
  pub handle_event-Warned :
      (event : Event) (p : Platform) (worker : String)
      → let (world, result) =
          process setup.triggers t texts.repr (texts.fresh "alert") event p.world in
        setup.has_hub ≡ true
        → is_new result.outcome ≡ true
        → Passes setup texts setup.verifier result.alert
        → result.alert.worker_id ≡ some worker
        → truthy worker ≡ true
        → Warned worker result.alert p (handle_event setup t texts event p)
  handle_event-Warned event p worker on new pass e w =
      let done = process setup.triggers t texts.repr (texts.fresh "alert") event p.world in
      Told-Warned event worker done.1.alert p (handle_event setup t texts event p) e w
        (handle_event-Told setup t texts event p on new pass)
