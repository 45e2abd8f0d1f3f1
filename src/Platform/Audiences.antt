-- ===== src/Platform/Audiences.antt =====
-- The messages that the orchestrator publishes on an alert reach the people that they are for.
use field_pilot_ai_submissio.Common.{
  ◌≡◌, refl, sym, ap, ◌∙◌, inl, inr, Option, none, some, true, List, [], ◌∷◌, ◌++◌, String,
  text_equality, ==_iff, ◌&&◌, not, arith, Bool-cases, is_some, if◌then◌else◌,
}
use field_pilot_ai_submissio.Common.Text.{truthy}
use field_pilot_ai_submissio.Triggers.Alert.{Alert}
use field_pilot_ai_submissio.Triggers.World.{Clock}
use field_pilot_ai_submissio.Broadcast.Hub.{
  who, Client, Message, wants, is_kind, is_text, alert_worker, alert_message, message_to,
  advise_zone, advisory_message, message_in, excluded_worker,
}
use field_pilot_ai_submissio.Broadcast.Routing.{
  Reaches, deliver-Reaches, alert_worker-Reaches, advise_zone-Reaches,
}
use field_pilot_ai_submissio.Platform.Actions.{◌⊕◌}
use field_pilot_ai_submissio.Events.Schema.{event_type_value}
use field_pilot_ai_submissio.Platform.Setup.{Setup, Texts}
use field_pilot_ai_submissio.Platform.Handling.{dashboard_message, to_worker, to_zone, and_then}
use field_pilot_ai_submissio.Platform.Telling.{
  worker_words, shows, is_worker, ToDashboards, ToWorker, ToPeers, OneIf, ToldOf,
}
use mathlib.Core.Path.{subst}

wants-shows :
    (zone : Option String) (c : Client)
    → wants
        (record {
          zone = zone;
          audience = "dashboard";
          exclude = none;
          worker_id = none;
          exclude_worker = none;
        })
        c
      ≡ shows zone c
unfolding wants
wants-shows none c = ground (arith, ==_iff "dashboard" c.kind, ==_iff c.kind "dashboard")
wants-shows (some z) c = ground (arith, ==_iff "dashboard" c.kind, ==_iff c.kind "dashboard")

and_then-append : (o : Option Message) (ms : List Message) → and_then o ms ≡ and_then o [] ++ ms
and_then-append none ms = refl
and_then-append (some m) ms = refl

module _ (setup : Setup) (t : Clock) (texts : Texts) where
  dashboard_message-ToDashboards :
      (alert : Alert) → ToDashboards texts t alert (dashboard_message setup t texts alert)
  dashboard_message-ToDashboards alert = (
    refl,
    (
      refl,
      (
        refl,
        λ succeeds hub id r.
            deliver-Reaches succeeds texts.spoken_phrase texts.replace_underscores t.now alert hub
              id r (shows alert.zone) (dashboard_message setup t texts alert)
              (wants-shows alert.zone),
      ),
    ),
  )

  pub alert_message-ToWorker :
      (alert : Alert) (worker : String)
      → alert.worker_id ≡ some worker
      → truthy worker ≡ true
      → ToWorker texts t alert worker
          (alert_message texts.spoken_phrase texts.replace_underscores t.now alert worker)
  alert_message-ToWorker alert worker e w = (
    refl,
    (
      refl,
      (
        refl,
        λ succeeds hub id r.
            (alert_worker-Reaches succeeds texts.spoken_phrase texts.replace_underscores t.now alert
              hub id r worker e w).1,
      ),
    ),
  )

  to_worker-OneIf :
      (alert : Alert) (o : Option String)
      → alert.worker_id ≡ o
      → OneIf texts t o (ToWorker texts t alert) (and_then (to_worker setup t texts alert) [])
  unfolding alert_worker
  to_worker-OneIf alert none e =
      ap (λ o. and_then (message_to texts.spoken_phrase texts.replace_underscores t.now alert o) [])
        e
  to_worker-OneIf alert (some w) e =
      let sent =
        ap
          (λ o.
            and_then (message_to texts.spoken_phrase texts.replace_underscores t.now alert o) [])
          e in
      elim (Bool-cases (truthy w)) [
        | inl named ↦ inr (
          named,
          (
            alert_message texts.spoken_phrase texts.replace_underscores t.now alert w,
            (sent ∙ rw named refl, alert_message-ToWorker alert w e named),
          ),
        )
        | inr blank ↦ inl (blank, sent ∙ rw blank refl)
      ]

  excluded-is_worker :
      (alert : Alert) (o : Option String) (c : Client)
      → excluded_worker
          (if is_some (message_to texts.spoken_phrase texts.replace_underscores t.now alert o)
            then o
            else none)
          c.worker_id
        ≡ is_worker o c
  excluded-is_worker alert none c = refl
  excluded-is_worker alert (some w) c = elim (Bool-cases (truthy w)) [
    | inl named ↦ rw named refl
    | inr blank ↦ rw blank refl
  ]

  -- The worker whose devices the advisory spares.
  spared : Alert → Option String
  spared alert = if is_some (to_worker setup t texts alert) then alert.worker_id else none

  spared-is_worker :
      (alert : Alert) (c : Client)
      → excluded_worker (spared alert) c.worker_id ≡ is_worker alert.worker_id c
  unfolding alert_worker spared
  spared-is_worker alert c = excluded-is_worker alert alert.worker_id c

  who-worker_words :
      (o : Option String)
      → who texts.spoken_phrase texts.replace_underscores t.now o ≡ worker_words o
  who-worker_words none = refl
  who-worker_words (some w) = refl

  advisory_message-ToPeers :
      (alert : Alert) (zone : String)
      → alert.zone ≡ some zone
      → truthy zone ≡ true
      → ToPeers texts t alert zone (
          advisory_message texts.spoken_phrase texts.replace_underscores t.now alert zone none
            (spared alert))
  advisory_message-ToPeers alert zone e z =
      let words =
        ap
          (λ w.
            "Advisory: "
            ⊕ texts.replace_underscores (event_type_value alert.event_type)
            ⊕ " involving "
            ⊕ w
            ⊕ " in your zone. Stay alert.")
          (who-worker_words alert.worker_id) in
      (
        refl,
        (
          refl,
          (
            (_, (refl, (refl, (refl, (refl, (refl, (refl, (refl, (refl, words))))))))),
            λ succeeds hub id r.
                subst
                  (λ test. Reaches succeeds hub id test (
                    advisory_message texts.spoken_phrase texts.replace_underscores t.now alert zone
                      none (spared alert)))
                  (λ i c.
                    is_kind "device" c && is_text c.zone zone && not (spared-is_worker alert c i))
                  (advise_zone-Reaches succeeds texts.spoken_phrase texts.replace_underscores t.now
                    alert hub id r zone (spared alert) e z).1,
          ),
        ),
      )

  message_in-OneIf :
      (alert : Alert) (o : Option String)
      → alert.zone ≡ o
      → OneIf texts t o (ToPeers texts t alert) (
          and_then
            (message_in texts.spoken_phrase texts.replace_underscores t.now alert o none
              (spared alert))
            [])
  message_in-OneIf alert none e = refl
  message_in-OneIf alert (some z) e = elim (Bool-cases (truthy z)) [
    | inl named ↦ inr (named, (_, (rw named refl, advisory_message-ToPeers alert z e named)))
    | inr blank ↦ inl (blank, rw blank refl)
  ]

  to_zone-OneIf :
      (alert : Alert) (o : Option String)
      → alert.zone ≡ o
      → OneIf texts t o (ToPeers texts t alert) (and_then (to_zone setup t texts alert) [])
  unfolding advise_zone spared
  to_zone-OneIf alert o e =
      let message : Option String → Option Message = λ z.
        message_in texts.spoken_phrase texts.replace_underscores t.now alert z none
          (spared alert) in
      let sent : and_then (to_zone setup t texts alert) [] ≡ and_then (message o) [] =
        ap (λ z. and_then (message z) []) e in
      subst (OneIf texts t o (ToPeers texts t alert)) (sym sent) (message_in-OneIf alert o e)

  -- What people are told of an alert is what they are to be told.
  pub told-ToldOf :
      (alert : Alert)
      → ToldOf texts t alert (
          dashboard_message setup t texts alert
          ∷ and_then (to_worker setup t texts alert) (and_then (to_zone setup t texts alert) []))
  told-ToldOf alert = (
    dashboard_message setup t texts alert,
    (
      and_then (to_worker setup t texts alert) [],
      (
        and_then (to_zone setup t texts alert) [],
        (
          ap (λ ms. dashboard_message setup t texts alert ∷ ms)
              (and_then-append (to_worker setup t texts alert) _),
          (
            dashboard_message-ToDashboards alert,
            (to_worker-OneIf alert alert.worker_id refl, to_zone-OneIf alert alert.zone refl),
          ),
        ),
      ),
    ),
  )
