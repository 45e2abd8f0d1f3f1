-- ===== src/Rules/Due.antt =====
-- When a rule is due on an event, and what its action then is, said apart from the code of the loop.
use field_pilot_ai_submissio.Common.{
  ℕ, ◌+◌, ◌≤◌, ◌≡◌, ◌↔◌, ◌⊎◌, refl, ap, ◌∙◌, inl, inr, Option, none, some, Bool, true, false, List,
  [], ◌∷◌, String, text_equality, text_pair_equality, ◌==◌, ==_iff, leb, ◌&&◌, not, arith, All,
  Bool-cases,
}
use field_pilot_ai_submissio.Common.Dict
use field_pilot_ai_submissio.Common.Dict.{Dict}
use field_pilot_ai_submissio.Events.Value.{Value, Fields}
use field_pilot_ai_submissio.Events.Schema.{Event, event_type_value, or_text}
use field_pilot_ai_submissio.Rules.Operators.{Op, op_table, apply}
use field_pilot_ai_submissio.Rules.Engine.{
  Condition, Rule, resolve, holds, check_op, check, check_all, within, in_cooldown, in_list,
  takes_type, fires,
}

abbrev pub Listed : String → List String → Type 0
Listed s [] = ⊥
Listed s (t ∷ ts) = (t ≡ s) ⊎ Listed s ts

-- The condition's operator is known, its field is there, and the one says yes of the other.
abbrev pub Holds : Value → Condition → Type 0
Holds scope c =
    (op : Op) × ((actual : Value) × ((Dict.get c.op op_table ≡ some op)
        × ((resolve c.field scope ≡ some actual) × (apply op actual c.value ≡ some true))))

-- The rule has no cooldown, or has not fired for the subject, or its cooldown is over.
abbrev pub Rested : ℕ → Rule → String → Dict (String × String) ℕ → Type 0
Rested now rule who fired =
    (rule.cooldown ≡ 0)
    ⊎ ((last : ℕ) → Dict.get (rule.rule_id, who) fired ≡ some last → last + rule.cooldown ≤ now)

-- The rule takes events of this type.
abbrev pub Takes : Event → List String → Type 0
Takes event ts = (ts ≡ []) ⊎ Listed (event_type_value event.event_type) ts

abbrev pub Due : ℕ → Event → Value → Dict (String × String) ℕ → Rule → Type 0
Due now event scope fired rule =
    (rule.enabled ≡ true)
    × (Takes event rule.event_types
        × (Rested now rule (or_text event.worker_id event.camera_id) fired
            × All (Holds scope) rule.conditions))

both : (a b : Bool) → ((a && b) ≡ true) ↔ ((a ≡ true) × (b ≡ true))
both true b = (λ h. (refl, h), λ h. h.1)
both false b = (λ h. absurd (cc), λ h. h.0)

in_list-true : (s : String) (ts : List String) → Listed s ts → in_list s ts ≡ true
in_list-true s [] h = absurd h
in_list-true s (t ∷ ts) (inl here) = ground (arith, (==_iff t s).1 here)
in_list-true s (t ∷ ts) (inr there) = ground (arith, in_list-true s ts there)

in_list-Listed : (s : String) (ts : List String) → in_list s ts ≡ true → Listed s ts
in_list-Listed s [] h = absurd (cc)
in_list-Listed s (t ∷ ts) h = elim (Bool-cases (t == s)) [
  | inl here ↦ inl ((==_iff t s).0 here)
  | inr other ↦ inr (in_list-Listed s ts (rw other at h))
]

takes_type-Takes : (event : Event) (ts : List String) → takes_type event ts ≡ true → Takes event ts
takes_type-Takes event [] h = inl refl
takes_type-Takes event (t ∷ ts) h =
    inr (in_list-Listed (event_type_value event.event_type) (t ∷ ts) h)

takes_type-true : (event : Event) (ts : List String) → Takes event ts → takes_type event ts ≡ true
takes_type-true event [] h = refl
takes_type-true event (t ∷ ts) (inl e) = absurd (cc)
takes_type-true event (t ∷ ts) (inr h) = in_list-true (event_type_value event.event_type) (t ∷ ts) h

holds-true : (o : Option Bool) → holds o ≡ true → o ≡ some true
holds-true none h = absurd (cc)
holds-true (some b) h = ap some h

check_op-Holds :
    (o : Option Op) (a : Option Value) (v : Value)
    → check_op o a v ≡ true
    → (op : Op) × ((actual : Value) × ((o ≡ some op)
          × ((a ≡ some actual) × (apply op actual v ≡ some true))))
check_op-Holds none a v h = absurd (cc)
check_op-Holds (some op) none v h = absurd (cc)
check_op-Holds (some op) (some actual) v h =
    (op, (actual, (refl, (refl, holds-true (apply op actual v) h))))

check_op-true :
    (o : Option Op) (a : Option Value) (v : Value) (op : Op) (actual : Value)
    → o ≡ some op
    → a ≡ some actual
    → apply op actual v ≡ some true
    → check_op o a v ≡ true
check_op-true o a v op actual p q h = (λ i. check_op (p i) (q i) v) ∙ ap holds h

check-Holds : (c : Condition) (scope : Value) → (check c scope ≡ true) ↔ Holds scope c
unfolding check
check-Holds c scope = (
  check_op-Holds (Dict.get c.op op_table) (resolve c.field scope) c.value,
  λ (op, (actual, (p, (q, h)))).
      check_op-true (Dict.get c.op op_table) (resolve c.field scope) c.value op actual p q h,
)

check_all-Holds :
    (cs : List Condition) (scope : Value) → check_all cs scope ≡ true → All (Holds scope) cs
unfolding check_all
check_all-Holds [] scope h = tt
check_all-Holds (c ∷ cs) scope h =
    let (p, q) = (both (check c scope) (check_all cs scope)).0 h in
    ((check-Holds c scope).0 p, check_all-Holds cs scope q)

check_all-true :
    (cs : List Condition) (scope : Value) → All (Holds scope) cs → check_all cs scope ≡ true
unfolding check_all
check_all-true [] scope h = refl
check_all-true (c ∷ cs) scope (p, h) =
    (both (check c scope) (check_all cs scope)).1
      ((check-Holds c scope).1 p, check_all-true cs scope h)

within-Rested :
    (now cd : ℕ) (o : Option ℕ)
    → (not (not (leb cd 0) && within now cd o)) ≡ true
    → (cd ≡ 0) ⊎ ((last : ℕ) → o ≡ some last → last + cd ≤ now)
within-Rested now cd none h = inr (λ last q. absurd (cc))
within-Rested now cd (some l) h = elim (Bool-cases (leb cd 0)) [
  | inl zero_ ↦ inl (ground arith)
  | inr more ↦ inr (λ last q. let e : l ≡ last = cc in ground (arith, e))
]

within-rested :
    (now cd : ℕ) (o : Option ℕ)
    → (cd ≡ 0) ⊎ ((last : ℕ) → o ≡ some last → last + cd ≤ now)
    → (not (not (leb cd 0) && within now cd o)) ≡ true
within-rested now cd o (inl e) = rw e refl
within-rested now cd none (inr h) = ground arith
within-rested now cd (some l) (inr h) = ground (arith, h l refl)

module _ (vformat : String → Value → Option String) (repr : Value → String)
    (model_dump : Event → Fields) (now : ℕ) (event : Event) (scope : Value)
    (fired : Dict (String × String) ℕ) where
  pub fires-Due :
      (r : Rule)
      → fires vformat repr model_dump now event scope r fired ≡ true
      → Due now event scope fired r
  unfolding fires in_cooldown
  fires-Due r h =
      let type = takes_type event r.event_types in
      let rested = not (in_cooldown now r event fired) in
      let (first, held) = (both (r.enabled && type && rested) (check_all r.conditions scope)).0 h in
      let (second, rest) = (both (r.enabled && type) rested).0 first in
      let (on, takes) = (both r.enabled type).0 second in
      (
        on,
        (
          takes_type-Takes event r.event_types takes,
          (within-Rested now r.cooldown _ rest, check_all-Holds r.conditions scope held),
        ),
      )

  pub Due-fires :
      (r : Rule)
      → Due now event scope fired r
      → fires vformat repr model_dump now event scope r fired ≡ true
  unfolding fires in_cooldown
  Due-fires r (on, (takes, (rest, held))) =
      let type = takes_type event r.event_types in
      let rested = not (in_cooldown now r event fired) in
      (both (r.enabled && type && rested) (check_all r.conditions scope)).1 (
        (both (r.enabled && type) rested).1 (
          (both r.enabled type).1 (on, takes_type-true event r.event_types takes),
          within-rested now r.cooldown _ rest,
        ),
        check_all-true r.conditions scope held,
      )
