-- ===== src/Feedback/Service.antt =====
-- fieldpilot/feedback/service.py: FeedbackService. An alert is a record with what its dict may hold;
-- the clock and the fresh identifier are arguments, `str.lower` and the texts of values parameters.
use field_pilot_ai_submissio.Common.{
  ℕ, refl, Option, none, some, Bool, true, false, List, [], ◌∷◌, ◌++◌, String, text_equality, ◌==◌,
  ltb, if◌then◌else◌, ◌&&◌, ◌||◌, not, is_some, length,
}
use field_pilot_ai_submissio.Common.Dict
use field_pilot_ai_submissio.Common.Dict.{Dict}
use field_pilot_ai_submissio.Common.Text.{truthy}
use field_pilot_ai_submissio.Events.Value.{Value, is_truthy}
use field_pilot_ai_submissio.Events.Schema.{str}
use field_pilot_ai_submissio.Storage.Table
use field_pilot_ai_submissio.Storage.Table.{Spec}
use field_pilot_ai_submissio.Storage.Bulk.{patch_each}

-- The alert that a decision is about.
pub record Alert : Type 0 where
  pub alert_id : Option String
  pub event_id : Option String
  pub event_type : Option String
  pub zone : Option String
  pub worker_id : Option String
  pub image_path : Option String
  pub image_url : Option String
  pub confidence : Option ℕ
  pub severity : Option String
  pub message : Option String
  pub hit_count : Option ℕ
  pub payload : Dict String Value

-- `alert_snapshot`
pub record Snapshot : Type 0 where
  pub severity : Option String
  pub message : Option String
  pub hit_count : Option ℕ

pub record Feedback : Type 0 where
  pub feedback_id : String
  pub alert_id : Option String
  pub event_id : Value
  pub event_type : Option String
  pub decision : String
  pub label : Option String
  pub image_path : Value
  pub zone : Option String
  pub worker_id : Option String
  pub reviewer : String
  pub notes : String
  pub confidence : ℕ
  pub consumed_at : Option ℕ
  pub consumed_by : Option String
  pub created_at : ℕ
  pub bbox : Value
  pub image_url : Option String
  pub alert_snapshot : Snapshot

-- FEEDBACK_TABLE
abbrev pub spec : Spec Feedback
spec = record {
  key = λ f. f.feedback_id;
  before = λ f g. ltb f.created_at g.created_at;
  restore = λ old f. record f { created_at = old.created_at };
  key_restore = λ old f. refl;
}

-- `payload.get(key)`
abbrev pub value_of : Option Value → Value
value_of none = Value.null
value_of (some v) = v

abbrev text_value : Option String → Value
text_value none = Value.null
text_value (some s) = Value.text s

-- `v or w`
abbrev or_value : Value → Value → Value
or_value v w = if is_truthy v then v else w

abbrev pub class_keys : List String
class_keys = "class" ∷ "detected_class" ∷ "cls_name" ∷ "defect" ∷ []

-- `FeedbackDecision(…)`: the two values, or a ValueError.
abbrev pub is_decision : String → Bool
is_decision s = s == "approve" || s == "reject"

module _ (repr : Value → String) where
  unfoldable pub class_in : List String → Dict String Value → Option String
  class_in [] payload = none
  class_in (key ∷ keys) payload =
      let rest = class_in keys payload in
      let value = value_of (Dict.get key payload) in
      if is_truthy value then some (str repr value) else rest

  -- `_detected_class`
  unfoldable pub detected_class : Dict String Value → Option String
  unfolding class_in
  detected_class payload = class_in class_keys payload

  -- `label or _detected_class(payload)`
  unfoldable pub label_of : Option String → Dict String Value → Option String
  unfolding detected_class
  label_of none payload = detected_class payload
  label_of (some label) payload = if truthy label then some label else detected_class payload

  abbrev confidence_of : Option ℕ → ℕ
  confidence_of none = 0
  confidence_of (some c) = c

  unfoldable pub new_feedback :
      String → ℕ → Alert → String → Option String → String → String → Value → Feedback
  unfolding label_of
  new_feedback fresh now alert decision label reviewer notes bbox = record {
    feedback_id = fresh;
    alert_id = alert.alert_id;
    event_id = or_value (value_of (Dict.get "event_id" alert.payload)) (text_value alert.event_id);
    event_type = alert.event_type;
    decision = decision;
    label = label_of label alert.payload;
    image_path =
        or_value (text_value alert.image_path) (value_of (Dict.get "image_path" alert.payload));
    zone = alert.zone;
    worker_id = alert.worker_id;
    reviewer = reviewer;
    notes = notes;
    confidence = confidence_of alert.confidence;
    consumed_at = none;
    consumed_by = none;
    created_at = now;
    bbox = or_value bbox (value_of (Dict.get "bbox" alert.payload));
    image_url = alert.image_url;
    alert_snapshot = record {
      severity = alert.severity;
      message = alert.message;
      hit_count = alert.hit_count;
    };
  }

  -- Nothing is the ValueError of an unknown decision.
  unfoldable pub record_decision :
      (String → String)
      → String
      → ℕ
      → Alert
      → String
      → Option String
      → String
      → String
      → Value
      → List Feedback
      → List Feedback × Option Feedback
  record_decision lower fresh now alert decision label reviewer notes bbox table =
      let row = new_feedback fresh now alert (lower decision) label reviewer notes bbox in
      if is_decision (lower decision)
      then ((Table.put spec row table).0, some row)
      else (table, none)

-- `where["column"] = value`, when there is a value
abbrev wanted : Option String → Option String → Bool
wanted none column = true
wanted (some v) none = not (truthy v)
wanted (some v) (some s) = if truthy v then s == v else true

abbrev pub unconsumed : Feedback → Bool
unconsumed f = not (is_some f.consumed_at)

unfoldable pub list :
    Option String → Option String → Option String → Bool → ℕ → List Feedback → List Feedback
list decision event_type alert_id unconsumed_only limit table =
    Table.select spec
      (λ f.
        wanted decision (some f.decision)
        && (wanted event_type f.event_type
            && (wanted alert_id f.alert_id && (not unconsumed_only || unconsumed f))))
      limit true table

abbrev first : List Feedback → Option Feedback
first [] = none
first (f ∷ rows) = some f

abbrev has_alert : String → Feedback → Bool
has_alert id f = elim f.alert_id [ none ↦ false | some a ↦ a == id ]

unfoldable pub for_alert : String → List Feedback → Option Feedback
for_alert id table = first (Table.select spec (has_alert id) 1 true table)

-- The stamp of a run that claims a sample.
abbrev pub stamp : ℕ → String → Feedback → Feedback
stamp now run f = record f { consumed_at = some now; consumed_by = some run }

-- `updated or row`
abbrev or_row : Option Feedback → Feedback → Feedback
or_row none row = row
or_row (some updated) row = updated

-- The loop of `claim_for_training`.
unfoldable pub claim_each :
    ℕ → String → List Feedback → List Feedback → List Feedback → List Feedback × List Feedback
claim_each now run [] claimed table = (table, claimed)
claim_each now run (row ∷ rows) claimed table =
    let patched = Table.patch spec row.feedback_id (stamp now run) table in
    claim_each now run rows (claimed ++ (or_row patched.1 row ∷ [])) patched.0

unfoldable pub claim_for_training : ℕ → String → ℕ → List Feedback → List Feedback × List Feedback
unfolding list
claim_for_training now run limit table =
    claim_each now run (list none none none true limit table) [] table

abbrev pub claimed_by : String → Feedback → Bool
claimed_by run f = elim f.consumed_by [ none ↦ false | some r ↦ r == run ]

abbrev pub clear : Feedback → Feedback
clear f = record f { consumed_at = none; consumed_by = none }

unfoldable pub release : String → List Feedback → List Feedback × ℕ
release run table =
    let rows = Table.select spec (claimed_by run) 10000 true table in
    (patch_each spec clear rows table, length rows)
