-- ===== src/Workforce/Questions/Managing.antt =====
-- fieldpilot/workforce/questions.py: the manager's reply, the closing of a question, and the reads.
use field_pilot_ai_submissio.Common.{
  ℕ, ◌+◌, Option, none, some, Bool, true, List, String, text_equality, ◌==◌, if◌then◌else◌, ◌&&◌,
  not, filter_by, length,
}
use field_pilot_ai_submissio.Common.Text.{strip, truthy}
use field_pilot_ai_submissio.Reasoning.Rag.{given}
use field_pilot_ai_submissio.Storage.Table
use field_pilot_ai_submissio.Storage.Table.{Spec}
use field_pilot_ai_submissio.Workforce.Questions.Asking.{
  Question, spec, Result, returned, question_error,
}

abbrev pub replied : ℕ → String → String → Question → Question
replied now manager body q = record q {
  manager_reply = some body;
  manager_id = some manager;
  replied_at = some now;
  status = "answered";
}

unfoldable pub reply :
    ℕ → String → String → String → List Question → List Question × Result (Option Question)
reply now id manager text table =
    let body = strip text in
    let done = Table.patch spec id (replied now manager body) table in
    if truthy body then (done.0, returned done.1) else (table, question_error)

abbrev pub closed : Question → Question
closed q = record q { status = "closed" }

unfoldable pub close : String → List Question → List Question × Option Question
close id table = Table.patch spec id closed table

abbrev wanted : Option String → String → Bool
wanted none s = true
wanted (some v) s = if truthy v then s == v else true

abbrev wanted_zone : Option String → Option String → Bool
wanted_zone none z = true
wanted_zone (some v) none = not (truthy v)
wanted_zone (some v) (some z) = if truthy v then z == v else true

unfoldable pub list :
    Option String → Option String → Option String → ℕ → List Question → List Question
list worker status zone limit table =
    Table.select spec
      (λ q. wanted worker q.worker_id && (wanted status q.status && wanted_zone zone q.zone)) limit
      true table

abbrev pub has_status : String → Question → Bool
has_status s q = q.status == s

pub record Stats : Type 0 where
  pub total : ℕ
  pub pending : ℕ
  pub answered : ℕ
  pub closed : ℕ
  pub awaiting_manager : ℕ

unfoldable pub stats : List Question → Stats
stats table =
    let pending = Table.count spec (has_status "pending") table in
    let answered = Table.count spec (has_status "answered") table in
    let closed = Table.count spec (has_status "closed") table in
    record {
      total = pending + answered + closed;
      pending = pending;
      answered = answered;
      closed = closed;
      awaiting_manager = length (
          filter_by (λ q. not (given q.manager_reply))
            (Table.select spec (has_status "pending") 1000 true table));
    }
