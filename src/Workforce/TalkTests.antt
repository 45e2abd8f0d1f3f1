-- ===== src/Workforce/TalkTests.antt =====
-- Messages and questions of one worker.
use field_pilot_ai_submissio.Common.{
  ℕ, ◌≡◌, refl, arith, Option, none, some, true, List, [], ◌∷◌, String, text_equality,
  number_equality, length, All, ◌⊎◌, if◌then◌else◌,
}
use field_pilot_ai_submissio.Common.Dict
use field_pilot_ai_submissio.Common.Text.{strip}
use field_pilot_ai_submissio.Storage.Table
use field_pilot_ai_submissio.Storage.Query.{has_key, passes}
use field_pilot_ai_submissio.Reasoning.Rag.{Chunk}
use field_pilot_ai_submissio.Reasoning.Sample.{embed, query_points, honours}
use field_pilot_ai_submissio.Workforce.Messages
use field_pilot_ai_submissio.Workforce.Messages.{
  Message, in_thread, unread_from, other_side, set_read, mark_read, unread_for_manager, send, Draft,
}
use field_pilot_ai_submissio.Workforce.Reading.{
  awaits, waits, mark_read-get, unread_for_manager-count,
}
use field_pilot_ai_submissio.Workforce.Questions.{
  Question, Settings, Generated, ask, answer_with_llm, ask_index, reply, stats, new_question,
  response,
}
use field_pilot_ai_submissio.Workforce.Review.{Op, asks, replies, run, run-stats}
use field_pilot_ai_submissio.Workforce.Answers.{Answered, human, answer_with_llm-zone}
use mathlib.Core.Option

abbrev from_ravi : Message
from_ravi = record {
  message_id = "m1";
  worker_id = "ravi";
  sender_role = "worker";
  sender_id = "ravi";
  sender_name = "Ravi";
  text = "on my way";
  audio_path = none;
  audio_seconds = none;
  read_at = none;
  created_at = 1000;
}

abbrev from_manager : Message
from_manager = record from_ravi {
  message_id = "m2";
  sender_role = "site_manager";
  sender_id = "maya";
  sender_name = "Maya";
  created_at = 2000;
}

abbrev messages : List Message
messages = from_ravi ∷ from_manager ∷ []

mark_read_run :
    mark_read 3000 "ravi" "site_manager" messages
    ≡ (record from_ravi { read_at = some 3000 } ∷ from_manager ∷ [], 1)
unfolding mark_read Messages.mark_each Table.select Table.sort_by Table.patch Table.upsert Table.get
mark_read_run = refl

unread_run : unread_for_manager messages ≡ 1
unfolding unread_for_manager Messages.threads Messages.group Messages.add_row Messages.note
    Table.select Table.sort_by Dict.set Dict.get
unread_run = refl

mark_read-get_example :
    (Table.get Messages.spec "m1" (mark_read 3000 "ravi" "site_manager" messages).0 ≡ (
      if passes Messages.spec (awaits "ravi" "site_manager") (Table.get Messages.spec "m1" messages)
      then Option.map {A = Messages.Message}
          (λ m. record m { read_at = some 3000 })
          (Table.get Messages.spec "m1" messages)
      else Table.get Messages.spec "m1" messages))
    × ((mark_read 3000 "ravi" "site_manager" messages).1
        ≡ Table.count Messages.spec (awaits "ravi" "site_manager") messages)
unfolding has_key Table.count
mark_read-get_example =
    mark_read-get 3000 "ravi" "site_manager" "m1" messages (refl, (refl, tt)) (omega arith)

unread_for_manager-count_example :
    unread_for_manager messages ≡ Table.count Messages.spec waits messages
unfolding Table.count
unread_for_manager-count_example = unread_for_manager-count messages (omega arith)

-- A question on rebar in zone-a, answered and replied to.
abbrev show : ℕ → String
show n = "n"

abbrev generate : String → Generated
generate prompt = response "The spacing is 150 mm."

abbrev settings : Settings
settings = record { model = "llama"; llm_enabled = true; available = true }

abbrev seek : String → Option String → Option (List Chunk)
seek = ask_index embed query_points 5 "default"

abbrev check : String → Option String
check path = none

abbrev calls : List Op
calls =
    asks "q1" 1000 "ravi" " What spacing?" (some "zone-a") none
    ∷ asks "q2" 2000 "ravi" "" none none
    ∷ replies 4000 "q1" "maya" "150 mm"
    ∷ []

run-stats_example :
    ((stats (run check show generate settings seek calls [])).total
      ≡ length (run check show generate settings seek calls []))
    × ((stats (run check show generate settings seek calls [])).awaiting_manager
        ≡ (stats (run check show generate settings seek calls [])).pending)
unfolding Table.count ask strip reply Table.put Table.upsert Table.patch Table.get
run-stats_example = run-stats check show generate settings seek calls (omega arith)

abbrev question : Question
question = new_question "q1" 1000 "ravi" (some "zone-a") "What spacing?" none

answer_with_llm-zone_example :
    (a : Question) × (Answered "q1" "q1"
        (question ∷ [])
        a
        (answer_with_llm show generate settings seek 3000 "q1" (question ∷ []))
      × ((human a ≡ human question)
          × All (λ c. (c.zone ≡ some "zone-a") ⊎ (c.zone ≡ none)) a.citations))
unfolding Table.get
answer_with_llm-zone_example =
    answer_with_llm-zone embed query_points honours show generate settings 5 "default" 3000 "q1"
      "zone-a" "q1" (question ∷ []) question refl refl refl
