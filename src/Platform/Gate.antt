-- ===== src/Platform/Gate.antt =====
-- When the gate hands an alert on to people: what the verifier may hold back, and what it may not.
use field_pilot_ai_submissio.Common.{
  ◌≡◌, refl, ap, ◌∙◌, ◌⊎◌, inl, inr, Option, none, some, true, false, text_equality, leb, arith,
  Bool-cases,
}
use field_pilot_ai_submissio.Events.Schema.{Severity, severity_value}
use field_pilot_ai_submissio.Triggers.Alert.{Alert}
use field_pilot_ai_submissio.Triggers.World.{Clock}
use field_pilot_ai_submissio.Platform.Setup.{Verdict, Verifier, Setup, Texts, Platform}
use field_pilot_ai_submissio.Platform.Handling.{gate, rank_of, sees, may_suppress, judge, gate_of}

-- The alert as it goes on: only its payload may differ.
abbrev pub Same : Alert → Alert → Type 0
Same a b = b ≡ record a { payload = b.payload }

-- The verifier lets an alert go on: there is none, it confirms the alert, it does not see images, or
-- the alert is more severe than what it may suppress.
abbrev pub Passes : Setup → Texts → Option Verifier → Alert → Type 0
Passes setup texts none alert = Unit
Passes setup texts (some v) alert =
    ((v.verify alert).confirmed ≡ true)
    ⊎ ((v.vision ≡ false)
        ⊎ (leb (rank_of (texts.lower (severity_value alert.severity)))
              (rank_of setup.suppress_max_severity)
            ≡ false))

-- The gate hands the alert on, and touches neither the messages nor the events.
unfoldable pub Handed : Alert → Platform → Platform × Option Alert → Type 0
Handed alert p (q, out) =
    (b : Alert) × ((out ≡ some b)
      × (Same alert b × ((q.broadcasts ≡ p.broadcasts) × (q.events ≡ p.events))))

module _ (setup : Setup) (t : Clock) (texts : Texts) where
  judge_confirmed :
      (verdict : Verdict) (alert : Alert) (p : Platform)
      → verdict.confirmed ≡ true
      → Handed alert p (judge setup t texts verdict alert p)
  unfolding judge Handed
  judge_confirmed verdict alert p h = rw h (_, (refl, (refl, (refl, refl))))

  blind_may_not :
      (v : Verifier) (severity : Severity)
      → setup.verifier ≡ some v
      → v.vision ≡ false
      → may_suppress setup t texts severity ≡ false
  unfolding may_suppress
  blind_may_not v severity e blind = rw (ap sees e ∙ blind) refl

  grave_may_not :
      (severity : Severity)
      → leb (rank_of (texts.lower (severity_value severity))) (rank_of setup.suppress_max_severity)
        ≡ false
      → may_suppress setup t texts severity ≡ false
  unfolding may_suppress
  grave_may_not severity grave = ground (arith, grave)

  judge_disputed :
      (verdict : Verdict) (alert : Alert) (p : Platform)
      → may_suppress setup t texts alert.severity ≡ false
      → Handed alert p (judge setup t texts verdict alert p)
  unfolding judge Handed
  judge_disputed verdict alert p h = elim (Bool-cases verdict.confirmed) [
    | inl sure ↦ judge_confirmed verdict alert p sure
    | inr doubted ↦ rw (h, doubted) (_, (refl, (refl, (refl, refl))))
  ]

  gate_of-Handed :
      (o : Option Verifier) (alert : Alert) (p : Platform)
      → setup.verifier ≡ o
      → Passes setup texts o alert
      → Handed alert p (gate_of setup t texts o alert p)
  unfolding gate_of Handed
  gate_of-Handed none alert p e h = (alert, (refl, (refl, (refl, refl))))
  gate_of-Handed (some v) alert p e (inl sure) = judge_confirmed (v.verify alert) alert p sure
  gate_of-Handed (some v) alert p e (inr (inl blind)) =
      judge_disputed (v.verify alert) alert p (blind_may_not v alert.severity e blind)
  gate_of-Handed (some v) alert p e (inr (inr grave)) =
      judge_disputed (v.verify alert) alert p (grave_may_not alert.severity grave)

  pub gate-Handed :
      (alert : Alert) (p : Platform)
      → Passes setup texts setup.verifier alert
      → Handed alert p (gate setup t texts alert p)
  unfolding gate
  gate-Handed alert p pass = gate_of-Handed setup.verifier alert p refl pass
