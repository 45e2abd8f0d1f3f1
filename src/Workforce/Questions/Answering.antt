-- ===== src/Workforce/Questions/Answering.antt =====
-- fieldpilot/workforce/questions.py: the automated answer. The retrieval, the language model and
-- `str` of a number are parameters.
use field_pilot_ai_submissio.Common.{
  ℕ, suc, Option, none, some, Bool, true, false, List, [], ◌∷◌, String, text_equality, ltb,
  if◌then◌else◌, map,
}
use field_pilot_ai_submissio.Common.Text.{strip, take_text, length_text}
use field_pilot_ai_submissio.Events.Schema.{or_text}
use field_pilot_ai_submissio.Reasoning.Rag.{Chunk, Filter, Point, citation, given}
use field_pilot_ai_submissio.Reasoning.Rag
use field_pilot_ai_submissio.Storage.Table
use field_pilot_ai_submissio.Storage.Table.{Spec}
use Prim.Native.String.{◌++◌}
use field_pilot_ai_submissio.Workforce.Questions.Asking.{Citation, Question, spec}

-- What the language model does: it answers, or the call raises an exception, as a text.
pub data Generated : Type 0 where
  response : String → Generated
  failed : String → Generated

-- The settings of the service.
pub record Settings : Type 0 where
  pub model : String
  pub llm_enabled : Bool
  pub available : Bool

abbrev disabled_note : String
disabled_note =
    "Automated answering is disabled on this site. Your site manager has been notified and will reply."

abbrev failed_note : String
failed_note =
    "An automated answer could not be produced right now. Your site manager has been notified and will reply."

abbrev pub ungrounded_note : String
ungrounded_note =
    "\n\nNote: no site specification text was found for this zone, so this answer is general guidance only and is NOT backed by the project documents. Confirm with your site manager before acting on it."

-- The answer, the model that gave it, and the error.
pub record Answer : Type 0 where
  pub answer : String
  pub model : Option String
  pub error : Option String

module _ (show : ℕ → String) where
  abbrev pub cite : Chunk → Citation
  cite c = record {
    citation = citation show c;
    clause = c.clause;
    source = c.source;
    page = c.page;
    zone = c.zone;
    score = c.score;
    text = take_text 600 c.text;
  }

  -- `[i] citation` and the text, for the prompt
  abbrev extract : ℕ → Chunk → String
  extract i c = "[" ++ show i ++ "] " ++ citation show c ++ "\n" ++ take_text 2000 c.text

  abbrev extracts : ℕ → Chunk → List Chunk → String
  extracts i c [] = extract i c
  extracts i c (d ∷ chunks) = extract i c ++ "\n\n" ++ extracts (suc i) d chunks

  abbrev context : List Chunk → String
  context [] = "(no specification text is indexed for this zone)"
  context (c ∷ chunks) = extracts 1 c chunks

  abbrev reference : ℕ → Chunk → String
  reference i c = "  [" ++ show i ++ "] " ++ citation show c

  abbrev references : ℕ → Chunk → List Chunk → String
  references i c [] = reference i c
  references i c (d ∷ chunks) = reference i c ++ "\n" ++ references (suc i) d chunks

  -- What is put under an answer of the model.
  abbrev pub footing : List Chunk → String
  footing [] = ungrounded_note
  footing (c ∷ chunks) = "\n\nReferences:\n" ++ references 1 c chunks

  abbrev prompt : Question → List Chunk → String
  prompt q chunks =
      "You are a construction site safety assistant answering a question from a worker on site. Answer in plain, direct language a worker can act on — 3 sentences at most.\nUse ONLY the specification extracts below. Reference them by their [n] markers where relevant. Do NOT invent clause numbers, drawing numbers, measurements or dates. If the extracts do not answer the question, say so plainly and tell them to ask their site manager. If the question suggests immediate danger, tell them to stop work and raise an alert first.\n\nZone: "
      ++ or_text q.zone "unspecified"
      ++ "\nWorker's question: "
      ++ q.text
      ++ "\n\nSpecification extracts:\n"
      ++ context chunks
      ++ "\n\nAnswer:"

  module _ (generate : String → Generated) (settings : Settings) where
    abbrev pub judge : List Chunk → Generated → Answer
    judge chunks (failed why) = record { answer = failed_note; model = none; error = some why }
    judge chunks (response raw) =
        let text = strip raw in
        if ltb (length_text text) 5
        then record {
          answer = failed_note;
          model = some settings.model;
          error = some "empty_response";
        }
        else record { answer = text ++ footing chunks; model = some settings.model; error = none }

    unfoldable pub compose : Question → List Chunk → Answer
    compose q chunks =
        if settings.llm_enabled
        then judge chunks (generate (prompt q chunks))
        else record { answer = disabled_note; model = none; error = some "llm_disabled" }

    -- `_retrieve`: no index, or an exception, is no chunk.
    module _ (seek : String → Option String → Option (List Chunk)) where
      unfoldable pub retrieve : Question → List Chunk
      retrieve q =
          if settings.available
          then elim (seek q.text q.zone) [ none ↦ [] | some chunks ↦ chunks ]
          else []

      abbrev any : List Chunk → Bool
      any [] = false
      any (c ∷ chunks) = true

      -- The patch of `answer_with_llm`, from the question as it was read.
      unfoldable pub answered : ℕ → Question → Question → Question
      unfolding retrieve compose
      answered now read q =
          let chunks = retrieve read in
          let done = compose read chunks in
          record q {
            llm_answer = some done.answer;
            llm_grounded = some (any chunks);
            llm_model = done.model;
            llm_error = done.error;
            answered_at = some now;
            citations = map cite chunks;
          }

      unfoldable pub answer_with_llm : ℕ → String → List Question → List Question × Option Question
      answer_with_llm now id table = elim (Table.get spec id table) [
        | none ↦ (table, none)
        | some q ↦ Table.patch spec id (answered now q) table
      ]

-- The index that `_retrieve` asks: three chunks of any category.
abbrev pub ask_index :
    {V : Type 0}
    → (String → Option V)
    → (V → Filter → ℕ → Option (List Point))
    → ℕ
    → String
    → String
    → Option String
    → Option (List Chunk)
ask_index embed query_points default_k project text zone =
    Rag.search embed query_points default_k text project zone none (some 3) true
