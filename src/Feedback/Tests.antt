-- ===== src/Feedback/Tests.antt =====
-- A run that claims the one open sample and gives it back.
use field_pilot_ai_submissio.Common.{
  ◌≡◌, refl, arith, none, some, List, [], ◌∷◌, String, text_equality,
}
use field_pilot_ai_submissio.Common.Dict
use field_pilot_ai_submissio.Events.Value.{Value}
use field_pilot_ai_submissio.Storage.Table
use field_pilot_ai_submissio.Storage.Query.{has_key}
use field_pilot_ai_submissio.Feedback.Service
use field_pilot_ai_submissio.Feedback.Service.{
  Alert, Feedback, spec, new_feedback, stamp, claim_for_training, release, claim_each, list,
  class_in, detected_class,
}
use field_pilot_ai_submissio.Feedback.Claims.{release-claim_for_training}

abbrev repr : Value → String
repr v = "?"

abbrev alert : Alert
alert = record {
  alert_id = some "a1";
  event_id = some "e1";
  event_type = some "ppe";
  zone = some "zone-a";
  worker_id = some "w-1";
  image_path = none;
  image_url = none;
  confidence = some 900;
  severity = some "high";
  message = some "no helmet";
  hit_count = some 3;
  payload = ("class", Value.text "NO-Hardhat") ∷ [];
}

abbrev fresh_sample : Feedback
fresh_sample = new_feedback repr "f1" 1000 alert "approve" none "maya" "" Value.null

abbrev used_sample : Feedback
used_sample =
    stamp 500 "run-0" (new_feedback repr "f2" 400 alert "reject" none "maya" "" Value.null)

abbrev table : List Feedback
table = used_sample ∷ fresh_sample ∷ []

label_run : fresh_sample.label ≡ some "NO-Hardhat"
unfolding new_feedback Service.label_of detected_class class_in Dict.get
label_run = refl

claim_run :
    claim_for_training 2000 "run-1" 10 table
    ≡ (used_sample ∷ stamp 2000 "run-1" fresh_sample ∷ [], stamp 2000 "run-1" fresh_sample ∷ [])
unfolding claim_for_training claim_each list Table.select Table.sort_by Table.patch Table.upsert
    Table.get new_feedback
claim_run = refl

release-claim_for_training_example :
    Table.get spec "f1" (release "run-1" (claim_for_training 2000 "run-1" 10 table).0).0
    ≡ Table.get spec "f1" table
unfolding has_key Table.count new_feedback
release-claim_for_training_example =
    release-claim_for_training 2000 "run-1" 10 table "f1" (refl, (refl, tt)) (omega arith)
      (omega arith) ((λ open_. cc, refl), ((λ open_. refl, refl), tt))
