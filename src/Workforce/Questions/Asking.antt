-- ===== src/Workforce/Questions/Asking.antt =====
-- fieldpilot/workforce/questions.py: the question's record and `ask`. The check of an image's path is
-- a parameter; a QuestionError is a value.
use field_pilot_ai_submissio.Common.{
  ℕ, refl, Option, none, some, Bool, List, [], String, text_equality, ltb, if◌then◌else◌, ◌||◌, not,
}
use field_pilot_ai_submissio.Common.Text.{strip, truthy, length_text}
use field_pilot_ai_submissio.Storage.Table
use field_pilot_ai_submissio.Storage.Table.{Spec}

-- What is kept of a chunk that an answer rests on.
pub record Citation : Type 0 where
  pub citation : String
  pub clause : Option String
  pub source : String
  pub page : Option ℕ
  pub zone : Option String
  pub score : Option ℕ
  pub text : String

pub record Question : Type 0 where
  pub question_id : String
  pub worker_id : String
  pub zone : Option String
  pub text : String
  pub image_path : Option String
  pub status : String
  pub llm_answer : Option String
  pub llm_grounded : Option Bool
  pub llm_model : Option String
  pub llm_error : Option String
  pub manager_reply : Option String
  pub manager_id : Option String
  pub replied_at : Option ℕ
  pub answered_at : Option ℕ
  pub created_at : ℕ
  pub citations : List Citation

-- QUESTIONS_TABLE
abbrev pub spec : Spec Question
spec = record {
  key = λ q. q.question_id;
  before = λ p q. ltb p.created_at q.created_at;
  restore = λ old q. record q { created_at = old.created_at };
  key_restore = λ old q. refl;
}

-- What `ask` and `reply` return, or the QuestionError that they raise.
pub data Result {ℓ} (A : Type ℓ) : Type ℓ where
  returned : A → Result A
  question_error : Result A

-- `resolve_image_path`: nothing is a QuestionError, `check` what the file system says of a path.
abbrev pub resolve_image_path : (String → Option String) → Option String → Option (Option String)
resolve_image_path check none = some none
resolve_image_path check (some path) =
    if truthy path then elim (check path) [ none ↦ none | some p ↦ some (some p) ] else some none

abbrev pub new_question : String → ℕ → String → Option String → String → Option String → Question
new_question fresh now worker zone text image = record {
  question_id = fresh;
  worker_id = worker;
  zone = zone;
  text = text;
  image_path = image;
  status = "pending";
  llm_answer = none;
  llm_grounded = none;
  llm_model = none;
  llm_error = none;
  manager_reply = none;
  manager_id = none;
  replied_at = none;
  answered_at = none;
  created_at = now;
  citations = [];
}

-- The end of `ask`, once the image's path is settled.
abbrev pub store :
    String
    → ℕ
    → String
    → Option String
    → String
    → Option (Option String)
    → List Question
    → List Question × Result Question
store fresh now worker place text none table = (table, question_error)
store fresh now worker place text (some image) table = (
  (Table.put spec (new_question fresh now worker place text image) table).0,
  returned (new_question fresh now worker place text image),
)

unfoldable pub ask :
    (String → Option String)
    → String
    → ℕ
    → String
    → String
    → Option String
    → Option String
    → List Question
    → List Question × Result Question
ask check fresh now worker text zone image table =
    let question = strip text in
    if not (truthy question) || ltb 2000 (length_text question)
    then (table, question_error)
    else store fresh now worker zone question (resolve_image_path check image) table
