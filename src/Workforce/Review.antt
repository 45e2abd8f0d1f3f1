-- ===== src/Workforce/Review.antt =====
-- The life of a question: what a run of calls keeps, and what the counts of the review queue say.
use field_pilot_ai_submissio.Common.{
  ℕ, ◌+◌, ◌≤◌, ◌≡◌, refl, sym, ◌∙◌, Option, none, some, Bool, true, false, List, [], ◌∷◌, String,
  text_equality, ◌==◌, ==_exclusive, ◌&&◌, ◌||◌, not, ltb, ◌⊎◌, arith, All, length, Bool-cases,
  Option-cases, inl, inr,
}
use mathlib.Core.Path.{subst}
use field_pilot_ai_submissio.Common.Text.{strip, truthy, length_text}
use field_pilot_ai_submissio.Reasoning.Rag.{Chunk, given}
use field_pilot_ai_submissio.Storage.Table
use field_pilot_ai_submissio.Storage.Every.{All-upsert, All-patch}
use field_pilot_ai_submissio.Storage.Subset.{length-filter-select}
use field_pilot_ai_submissio.Workforce.Questions.{
  Question, Settings, Generated, spec, ask, store, resolve_image_path, new_question,
  answer_with_llm, reply, replied, close, closed, has_status, stats, answered, question_error,
}

abbrev is_status : String → Bool
is_status s = s == "pending" || s == "answered" || s == "closed"

-- The status is one of STATUSES, and a pending question has no reply of a manager.
abbrev pub Sound : Question → Type 0
Sound q =
    (is_status q.status ≡ true) × (has_status "pending" q ≡ true → given q.manager_reply ≡ false)

store-Sound :
    (fresh : String) (now : ℕ) (worker : String) (place : Option String) (text : String)
    (image : Option (Option String)) (table : List Question)
    → All Sound table
    → All Sound (store fresh now worker place text image table).0
unfolding Table.put
store-Sound fresh now worker place text none table h = h
store-Sound fresh now worker place text (some image) table h =
    All-upsert spec Sound (new_question fresh now worker place text image) table
      (refl, λ pending. refl) (λ old. (refl, λ pending. refl)) h

ask-cases :
    (check : String → Option String) (fresh : String) (now : ℕ) (worker text : String)
    (place image : Option String) (table : List Question)
    → (ask check fresh now worker text place image table ≡ (table, question_error))
      ⊎ (ask check fresh now worker text place image table
          ≡ store fresh now worker place (strip text) (resolve_image_path check image) table)
unfolding ask
ask-cases check fresh now worker text place image table =
    elim (Bool-cases (not (truthy (strip text)) || ltb 2000 (length_text (strip text)))) [
      | inl bad ↦ inl (rw bad refl)
      | inr fine ↦ inr (rw fine refl)
    ]

pub answer_with_llm-cases :
    (show : ℕ → String) (generate : String → Generated) (settings : Settings)
    (seek : String → Option String → Option (List Chunk)) (now : ℕ) (id : String)
    (table : List Question)
    → (answer_with_llm show generate settings seek now id table ≡ (table, none))
      ⊎ ((q : Question) × (answer_with_llm show generate settings seek now id table
            ≡ Table.patch spec id (answered show generate settings seek now q) table))
unfolding answer_with_llm
answer_with_llm-cases show generate settings seek now id table =
    elim (Option-cases (Table.get spec id table)) [
      | inl e ↦ inl (rw (e, answer_with_llm) refl)
      | inr (q, e) ↦ inr (q, rw (e, answer_with_llm) refl)
    ]

reply-cases :
    (now : ℕ) (id manager text : String) (table : List Question)
    → ((reply now id manager text table).0 ≡ table)
      ⊎ ((reply now id manager text table).0
          ≡ (Table.patch spec id (replied now manager (strip text)) table).0)
unfolding reply
reply-cases now id manager text table = elim (Bool-cases (truthy (strip text))) [
  | inl full ↦ inr (rw full refl)
  | inr blank ↦ inl (rw blank refl)
]

-- A call of the service.
pub data Op : Type 0 where
  asks : (fresh : String) (now : ℕ) (worker text : String) (zone image : Option String) → Op
  answers : (now : ℕ) (id : String) → Op
  replies : (now : ℕ) (id manager text : String) → Op
  closes : (id : String) → Op

module _ (check : String → Option String) (show : ℕ → String) (generate : String → Generated)
    (settings : Settings) (seek : String → Option String → Option (List Chunk)) where
  abbrev pub step : Op → List Question → List Question
  step (asks fresh now worker text zone image) table =
      (ask check fresh now worker text zone image table).0
  step (answers now id) table = (answer_with_llm show generate settings seek now id table).0
  step (replies now id manager text) table = (reply now id manager text table).0
  step (closes id) table = (close id table).0

  abbrev pub run : List Op → List Question → List Question
  run [] table = table
  run (op ∷ ops) table = run ops (step op table)

  step-Sound : (op : Op) (table : List Question) → All Sound table → All Sound (step op table)
  unfolding close answered
  step-Sound (asks fresh now worker text zone image) table h =
      elim (ask-cases check fresh now worker text zone image table) [
        | inl e ↦ subst (λ r. All Sound r.0) (sym e) h
        | inr e ↦
            subst (λ r. All Sound r.0) (sym e)
              (store-Sound fresh now worker zone (strip text) (resolve_image_path check image) table
                h)
      ]
  step-Sound (answers now id) table h =
      elim (answer_with_llm-cases show generate settings seek now id table) [
        | inl e ↦ subst (λ r. All Sound r.0) (sym e) h
        | inr (q, e) ↦
            subst (λ r. All Sound r.0) (sym e)
              (All-patch spec Sound id (answered show generate settings seek now q) table (λ r p. p)
                (λ old r p. p) h)
      ]
  step-Sound (replies now id manager text) table h = elim (reply-cases now id manager text table) [
    | inl e ↦ subst (All Sound) (sym e) h
    | inr e ↦ subst (All Sound) (sym e) (
        All-patch spec Sound id (replied now manager (strip text)) table
          (λ r p. (refl, λ pending. absurd cc)) (λ old r p. p) h)
  ]
  step-Sound (closes id) table h =
      All-patch spec Sound id closed table (λ r p. (refl, λ pending. absurd cc)) (λ old r p. p) h

  run-Sound : (ops : List Op) (table : List Question) → All Sound table → All Sound (run ops table)
  run-Sound [] table h = h
  run-Sound (op ∷ ops) table h = run-Sound ops (step op table) (step-Sound op table h)

count_statuses :
    (table : List Question)
    → All Sound table
    → Table.count spec (has_status "pending") table
        + Table.count spec (has_status "answered") table
        + Table.count spec (has_status "closed") table
      ≡ length table
unfolding Table.count
count_statuses [] h = refl
count_statuses (q ∷ table) ((s, p), h) = ground (
  arith,
  count_statuses table h,
  ==_exclusive q.status "pending" "answered" refl,
  ==_exclusive q.status "pending" "closed" refl,
  ==_exclusive q.status "answered" "closed" refl,
)

count_awaiting :
    (table : List Question)
    → All Sound table
    → Table.count spec (λ q. has_status "pending" q && not (given q.manager_reply)) table
      ≡ Table.count spec (has_status "pending") table
unfolding Table.count
count_awaiting [] h = refl
count_awaiting (q ∷ table) ((s, p), h) = ground (arith, count_awaiting table h)

-- After any questions, automated answers, replies and closings, from the empty table on, the
-- statistics count every question once, and exactly the pending ones as awaiting a manager, if at
-- most a thousand are pending.
pub run-stats :
    (check : String → Option String) (show : ℕ → String) (generate : String → Generated)
    (settings : Settings) (seek : String → Option String → Option (List Chunk)) (ops : List Op)
    → let table = run check show generate settings seek ops [] in
      Table.count spec (has_status "pending") table ≤ 1000
      → ((stats table).total ≡ length table)
        × ((stats table).awaiting_manager ≡ (stats table).pending)
unfolding stats
run-stats check show generate settings seek ops h =
    let table = run check show generate settings seek ops [] in
    let sound = run-Sound check show generate settings seek ops [] tt in
    (
      count_statuses table sound,
      length-filter-select spec (has_status "pending") _ 1000 true table h
          ∙ count_awaiting table sound,
    )
