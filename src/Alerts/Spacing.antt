-- ===== src/Alerts/Spacing.antt =====
-- How far apart the alerts of one category are.
use field_pilot_ai_submissio.Common.{
  ◌≡◌, refl, sym, ap, ◌∙◌, ℕ, ◌+◌, ◌≤◌, inl, inr, Option, none, some, Bool, true, false, List, [],
  ◌∷◌, String, text_equality, ◌==◌, if◌then◌else◌, arith, Bool-cases,
}
use field_pilot_ai_submissio.Common.Dict
use field_pilot_ai_submissio.Common.Dict.{Dict, get-set}
use field_pilot_ai_submissio.Events.Bridge.{HazardEvent}
use mathlib.Core.Path.{subst}
use field_pilot_ai_submissio.Alerts.Dispatcher.{
  AlertDispatcher, category, cooldown_of, too_soon, cooldown_ok, render, dispatch,
}

-- The alerts that were admitted, the last one first: their categories and times.
abbrev pub Admitted : Type 0
Admitted = List (String × ℕ)

abbrev pub note : Bool → String → ℕ → Admitted → Admitted
note false kind now log = log
note true kind now log = (kind, now) ∷ log

-- Hazards that come in one after the other.
abbrev pub run : List (ℕ × HazardEvent) → AlertDispatcher × Admitted → AlertDispatcher × Admitted
run [] s = s
run ((now, hazard) ∷ hazards) (d, log) =
    run hazards
      ((dispatch now hazard d).0, note (dispatch now hazard d).1.admitted (category hazard) now log)

-- The time of the last alert of a category.
abbrev pub last_of : String → Admitted → Option ℕ
last_of kind [] = none
last_of kind ((k, t) ∷ log) = if k == kind then some t else last_of kind log

-- Not before the cooldown is over.
abbrev pub After : ℕ → Option ℕ → ℕ → Type 0
After cd none now = Unit
After cd (some t) now = cd + t ≤ now

abbrev pub Spaced : Dict String ℕ → Admitted → Type 0
Spaced cooldowns [] = Unit
Spaced cooldowns ((kind, now) ∷ log) =
    After (cooldown_of cooldowns kind) (last_of kind log) now × Spaced cooldowns log

-- The dispatcher's memory is that of the log, and the log is spaced.
abbrev Inv : Dict String ℕ → AlertDispatcher × Admitted → Type 0
Inv cooldowns (d, log) =
    (d.cooldowns ≡ cooldowns)
    × (((kind : String) → Dict.get kind d.last ≡ last_of kind log) × Spaced cooldowns log)

too_soon-After : (cd now : ℕ) (o : Option ℕ) → too_soon cd now o ≡ false → After cd o now
too_soon-After cd now none h = tt
too_soon-After cd now (some t) h = ground arith

render-Inv :
    (cooldowns : Dict String ℕ) (hazard : HazardEvent) (d : AlertDispatcher) (log : Admitted)
    → Inv cooldowns (d, log)
    → Inv cooldowns (render hazard d, log)
render-Inv cooldowns hazard d log h = elim (Bool-cases d.dry_run) [
  | inl dry ↦ rw dry h
  | inr wet ↦ rw wet h
]

dispatch-Inv :
    (cooldowns : Dict String ℕ) (now : ℕ) (hazard : HazardEvent) (d : AlertDispatcher)
    (log : Admitted)
    → Inv cooldowns (d, log)
    → Inv cooldowns (
      (dispatch now hazard d).0,
      note (dispatch now hazard d).1.admitted (category hazard) now log,
    )
unfolding dispatch cooldown_ok
dispatch-Inv cooldowns now hazard d log (same, (memory, spaced)) =
    let kind = category hazard in
    elim (Bool-cases (too_soon (cooldown_of d.cooldowns kind) now (Dict.get kind d.last))) [
      | inl soon ↦ rw soon (same, (memory, spaced))
      | inr late ↦ rw late (
          render-Inv cooldowns hazard (record d { last = Dict.set kind now d.last })
            ((kind, now) ∷ log)
            (
              same,
              (
                λ k.
                    get-set kind k now d.last
                    ∙ ap (λ o. if kind == k then some now else o) (memory k),
                (
                  subst (λ o. After (cooldown_of cooldowns kind) o now) (memory kind)
                      (subst (λ c. After (cooldown_of c kind) (Dict.get kind d.last) now) same
                        (too_soon-After _ now _ late)),
                  spaced,
                ),
              ),
            ))
    ]

run-Inv :
    (cooldowns : Dict String ℕ) (hazards : List (ℕ × HazardEvent)) (d : AlertDispatcher)
    (log : Admitted)
    → Inv cooldowns (d, log)
    → Inv cooldowns (run hazards (d, log))
run-Inv cooldowns [] d log h = h
run-Inv cooldowns ((now, hazard) ∷ hazards) d log h =
    run-Inv cooldowns hazards _ _ (dispatch-Inv cooldowns now hazard d log h)

-- The log with an alert that is due, as the log itself tells.
abbrev pub with_due : Dict String ℕ → ℕ → String → Admitted → Admitted
with_due cooldowns now kind log =
    if too_soon (cooldown_of cooldowns kind) now (last_of kind log) then log else (kind, now) ∷ log

abbrev pub all_due : Dict String ℕ → List (ℕ × HazardEvent) → Admitted → Admitted
all_due cooldowns [] log = log
all_due cooldowns ((now, hazard) ∷ hazards) log =
    all_due cooldowns hazards (with_due cooldowns now (category hazard) log)

note-with_due :
    (cooldowns : Dict String ℕ) (now : ℕ) (hazard : HazardEvent) (d : AlertDispatcher)
    (log : Admitted)
    → Inv cooldowns (d, log)
    → note (dispatch now hazard d).1.admitted (category hazard) now log
      ≡ with_due cooldowns now (category hazard) log
unfolding dispatch cooldown_ok
note-with_due cooldowns now hazard d log (same, (memory, spaced)) =
    let kind = category hazard in
    let agree : too_soon (cooldown_of d.cooldowns kind) now (Dict.get kind d.last)
        ≡ too_soon (cooldown_of cooldowns kind) now (last_of kind log) =
      λ i. too_soon (cooldown_of (same i) kind) now (memory kind i) in
    elim (Bool-cases (too_soon (cooldown_of d.cooldowns kind) now (Dict.get kind d.last))) [
      | inl soon ↦ rw (soon, sym agree ∙ soon) refl
      | inr late ↦ rw (late, sym agree ∙ late) refl
    ]

run-all_due :
    (cooldowns : Dict String ℕ) (hazards : List (ℕ × HazardEvent)) (d : AlertDispatcher)
    (log : Admitted)
    → Inv cooldowns (d, log)
    → (run hazards (d, log)).1 ≡ all_due cooldowns hazards log
run-all_due cooldowns [] d log h = refl
run-all_due cooldowns ((now, hazard) ∷ hazards) d log h =
    run-all_due cooldowns hazards _ _ (dispatch-Inv cooldowns now hazard d log h)
    ∙ ap (all_due cooldowns hazards) (note-with_due cooldowns now hazard d log h)

-- Whatever hazards come in, and whatever the clock says, a dispatcher without memory admits
-- exactly those that the log of its earlier alerts does not hold too soon, and each alert comes no
-- earlier than its category's cooldown after the last one of that category.
pub run-Spaced :
    (hazards : List (ℕ × HazardEvent)) (d : AlertDispatcher)
    → d.last ≡ []
    → ((run hazards (d, [])).1 ≡ all_due d.cooldowns hazards [])
      × Spaced d.cooldowns (run hazards (d, [])).1
unfolding Dict.get
run-Spaced hazards d fresh =
    let start : Inv d.cooldowns (d, []) = (refl, (λ k. ap (Dict.get k) fresh, tt)) in
    (run-all_due d.cooldowns hazards d [] start, (run-Inv d.cooldowns hazards d [] start).1.1)
