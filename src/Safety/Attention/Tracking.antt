-- ===== src/Safety/Attention/Tracking.antt =====
-- fieldpilot/safety/attention.py: AttentionTracker, on the events of fieldpilot/core/types.py.
use field_pilot_ai_submissio.Common.{
  ℕ, Option, none, some, Bool, true, false, List, [], ◌∷◌, String, text_equality, number_equality,
  ◌==◌, if◌then◌else◌, ◌&&◌, ◌||◌, not,
}
use field_pilot_ai_submissio.Common.Dict
use field_pilot_ai_submissio.Common.Dict.{Dict}
use Prim.Native.String.{◌++◌}
use mathlib.Core.List.{◌++◌ as join}
use field_pilot_ai_submissio.Safety.Attention.Machine.{
  AttentionState, unnoticed, escalated, attention_value, is_noticed, Thresholds, HazardAttention,
  new_machine, update,
}

pub data HazardType : Type 0 where
  fall : HazardType
  ppe_missing : HazardType
  unnoticed_hazard : HazardType
  proximity : HazardType
  crack : HazardType

-- `HazardEvent.category`
abbrev pub category : HazardType → String
category fall = "fall"
category ppe_missing = "ppe_missing"
category unnoticed_hazard = "unnoticed_hazard"
category proximity = "proximity"
category crack = "crack"

pub data Severity : Type 0 where
  low : Severity
  medium : Severity
  high : Severity

-- The tests of the tracker on states.
abbrev pub same_state : AttentionState → AttentionState → Bool
same_state a b = attention_value a == attention_value b

abbrev pub is_flag : AttentionState → Bool
is_flag unnoticed = true
is_flag escalated = true
is_flag _ = false

module _ (Box Person : Type 0) where
  pub record HazardEvent : Type 0 where
    pub hazard_type : HazardType
    pub severity : Severity
    pub message : String
    pub frame_index : ℕ
    pub ts_monotonic : ℕ
    pub track_id : Option ℕ
    pub bbox : Option Box
    pub meta : Dict String String
    pub id : String

  pub record PersonTrack : Type 0 where
    pub track_id : ℕ
    pub person : Person

  pub record FrameResult : Type 0 where
    pub index : ℕ
    pub ts_monotonic : ℕ
    pub persons : List PersonTrack

  pub record Tracker : Type 0 where
    pub thresholds : Thresholds
    pub machines : Dict String HazardAttention
    pub emitted : Dict String AttentionState

-- How Python prints a number; the identifier that uuid4 makes for an event; the gaze test.
module _ {Box Person : Type 0} (show : ℕ → String) (fresh : String → String)
    (gaze_fn : Person → Box → Bool) where
  -- `_key`
  abbrev pub key_of : ℕ → String → String
  key_of worker hazard = show worker ++ ":" ++ hazard

  -- `person.track_id == hazard.track_id`
  abbrev pub is_self : ℕ → Option ℕ → Bool
  is_self worker none = false
  is_self worker (some id) = worker == id

  abbrev pub notice :
      FrameResult Box Person
      → HazardEvent Box Person
      → Box
      → PersonTrack Box Person
      → AttentionState
      → HazardEvent Box Person
  notice result hazard box person state = record {
    hazard_type = unnoticed_hazard;
    severity = elim state [ escalated ↦ high | _ ↦ medium ];
    message =
        "Worker "
        ++ show person.track_id
        ++ " "
        ++ (elim state [ unnoticed ↦ "has not acknowledged" | _ ↦ "still ignoring" ])
        ++ " a "
        ++ category hazard.hazard_type
        ++ " hazard.";
    frame_index = result.index;
    ts_monotonic = result.ts_monotonic;
    track_id = some person.track_id;
    bbox = some box;
    meta =
        ("attention_state", attention_value state)
        ∷ ("source_hazard", hazard.id)
        ∷ ("source_type", category hazard.hazard_type)
        ∷ [];
    id = fresh (key_of person.track_id hazard.id);
  }

  -- `state != prev`
  abbrev pub differs : AttentionState → Option AttentionState → Bool
  differs state none = true
  differs state (some prev) = not (same_state state prev)

  abbrev pub has_noticed : Option AttentionState → Bool
  has_noticed none = false
  has_noticed (some prev) = is_noticed prev

  -- What the tracker emits and remembers for a pair, from the state now and the one it emitted last.
  abbrev pub transition : AttentionState → Option AttentionState → Bool × Option AttentionState
  transition state prev =
      if differs state prev && is_flag state
      then (true, some state)
      else (if is_noticed state && not (has_noticed prev)
          then (false, some state)
          else (false, prev))

  abbrev pub remember :
      String → Option AttentionState → Dict String AttentionState → Dict String AttentionState
  remember k none emitted = emitted
  remember k (some state) emitted = Dict.set k state emitted

  abbrev pub machine_of : Tracker Box Person → String → String → ℕ → HazardAttention
  machine_of tracker key hazard now = elim (Dict.get key tracker.machines) [
    | none ↦ new_machine tracker.thresholds hazard now
    | some machine ↦ machine
  ]

  -- The body of the inner loop for a worker who is not the hazard: the tracker and the new events.
  unfoldable pub observe_pair :
      FrameResult Box Person
      → HazardEvent Box Person
      → Box
      → PersonTrack Box Person
      → Tracker Box Person
      → Tracker Box Person × List (HazardEvent Box Person)
  observe_pair result hazard box person tracker =
      let key = key_of person.track_id hazard.id in
      let now = result.ts_monotonic in
      let machine = update now (gaze_fn person.person box) (machine_of tracker key hazard.id now) in
      let told = transition machine.state (Dict.get key tracker.emitted) in
      (
        record tracker {
          machines = Dict.set key machine tracker.machines;
          emitted = remember key told.1 tracker.emitted;
        },
        if told.0 then notice result hazard box person machine.state ∷ [] else [],
      )

  -- What the loops hand on: the tracker, the active keys, and the events in the order they came.
  abbrev pub Scan : Type 0
  Scan = Tracker Box Person × (List String × List (HazardEvent Box Person))

  unfoldable pub observe_persons :
      FrameResult Box Person
      → HazardEvent Box Person
      → Box
      → List (PersonTrack Box Person)
      → Scan
      → Scan
  observe_persons result hazard box [] scan = scan
  observe_persons result hazard box (p ∷ persons) (tracker, (active, out)) =
      let seen = observe_pair result hazard box p tracker in
      let next =
        if is_self p.track_id hazard.track_id
        then (tracker, (active, out))
        else (seen.0, (key_of p.track_id hazard.id ∷ active, join out seen.1)) in
      observe_persons result hazard box persons next

  unfoldable pub observe_hazards :
      FrameResult Box Person → List (HazardEvent Box Person) → Scan → Scan
  observe_hazards result [] scan = scan
  observe_hazards result (h ∷ hazards) scan =
      observe_hazards result hazards
        (elim h.bbox [ none ↦ scan | some box ↦ observe_persons result h box result.persons scan ])

  abbrev pub in_list : String → List String → Bool
  in_list k [] = false
  in_list k (j ∷ js) = j == k || in_list k js

  -- The loop that drops what is no longer active.
  abbrev pub keep_active : {V : Type 0} → List String → Dict String V → Dict String V
  keep_active active [] = []
  keep_active active ((k, v) ∷ d) =
      if in_list k active then (k, v) ∷ keep_active active d else keep_active active d

  -- `_emitted` loses the keys that `_machines` loses.
  abbrev pub forget : {V W : Type 0} → List String → Dict String V → Dict String W → Dict String W
  forget active [] d = d
  forget active ((k, v) ∷ machines) d =
      if in_list k active then forget active machines d else Dict.pop k (forget active machines d)

  unfoldable pub observe :
      FrameResult Box Person
      → List (HazardEvent Box Person)
      → Tracker Box Person
      → Tracker Box Person × List (HazardEvent Box Person)
  observe result hazards tracker =
      let done = observe_hazards result hazards (tracker, ([], [])) in
      (
        record done.0 {
          machines = keep_active done.1.0 done.0.machines;
          emitted = forget done.1.0 done.0.machines done.0.emitted;
        },
        done.1.1,
      )
