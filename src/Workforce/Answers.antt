-- ===== src/Workforce/Answers.antt =====
-- What an automated answer may cite, and what it leaves to the manager.
use field_pilot_ai_submissio.Common.{
  ℕ, ◌≡◌, refl, sym, ◌∙◌, ◌⊎◌, Option, none, some, true, List, [], ◌∷◌, String, text_equality, ◌==◌,
  ==_iff, map, All, inl, inr, if◌then◌else◌, Bool-cases,
}
use field_pilot_ai_submissio.Common.Text.{truthy}
use field_pilot_ai_submissio.Reasoning.Rag.{Chunk, Filter, Point}
use field_pilot_ai_submissio.Reasoning.Scope.{Matches, InScope, search-InScope}
use field_pilot_ai_submissio.Storage.Table
use field_pilot_ai_submissio.Storage.Lookup.{get-patch, patch-get}
use field_pilot_ai_submissio.Workforce.Questions.{
  Question, Settings, Generated, spec, cite, retrieve, answered, answer_with_llm, ask_index,
}
use mathlib.Core.Path.{subst}

-- The part of a question that its worker and the manager write.
abbrev pub Human : Type 0
Human =
    ((String × (String × String)) × (Option String × (Option String × ℕ)))
    × (String × (Option String × (Option String × Option ℕ)))

abbrev pub human : Question → Human
human q = (
  ((q.question_id, (q.worker_id, q.text)), (q.zone, (q.image_path, q.created_at))),
  (q.status, (q.manager_reply, (q.manager_id, q.replied_at))),
)

All-cite :
    (show : ℕ → String) (project zone : String) (chunks : List Chunk)
    → All (InScope project zone) chunks
    → All (λ c. (c.zone ≡ some zone) ⊎ (c.zone ≡ none)) (map (cite show) chunks)
All-cite show project zone [] h = tt
All-cite show project zone (c ∷ chunks) (p, h) = (p.1, All-cite show project zone chunks h)

-- The question is returned as it is now, and stands in the table; no other one is changed.
abbrev pub Answered :
    String → String → List Question → Question → List Question × Option Question → Type 0
Answered id k table a (after, out) =
    (out ≡ some a) × (Table.get spec k after ≡ (if id == k then some a else Table.get spec k table))

module _ (show : ℕ → String) (generate : String → Generated) (settings : Settings)
    (seek : String → Option String → Option (List Chunk)) (now : ℕ) (id k : String)
    (table : List Question) (q : Question) (e : Table.get spec id table ≡ some q) where
  change : Question → Question
  change = answered show generate settings seek now q

  answer_with_llm-patch :
      answer_with_llm show generate settings seek now id table ≡ Table.patch spec id change table
  unfolding answer_with_llm change
  answer_with_llm-patch = rw (e, answer_with_llm) refl

  answer_with_llm-Answered :
      Answered id k table
        (answered show generate settings seek now q q)
        (answer_with_llm show generate settings seek now id table)
  unfolding answered change
  answer_with_llm-Answered = subst (Answered id k table (change q)) (sym answer_with_llm-patch) (
    patch-get spec change (λ r. refl) id table ∙ rw e refl,
    get-patch spec change (λ r. refl) id table k ∙ elim (Bool-cases (id == k)) [
      | inl same ↦ rw (same, ← (==_iff id k).0 same, e) refl
      | inr other ↦ rw other refl
    ],
  )

module _ {V : Type 0} (embed : String → Option V)
    (query_points : V → Filter → ℕ → Option (List Point))
    (honours : (v : V) (filter : Filter) (k : ℕ) (points : List Point)
      → query_points v filter k ≡ some points
      → All (Matches filter) points)
    (show : ℕ → String) (generate : String → Generated) (settings : Settings) (default_k : ℕ)
    (project : String) where
  found_in :
      (text zone : String)
      → truthy zone ≡ true
      → (o : Option (List Chunk))
      → ask_index embed query_points default_k project text (some zone) ≡ o
      → All (InScope project zone) (elim o [ none ↦ [] | some chunks ↦ chunks ])
  found_in text zone t none e = tt
  found_in text zone t (some chunks) e =
      (search-InScope embed query_points honours default_k text project zone none (some 3) true
        chunks t e).0

  retrieve-InScope :
      (q : Question) (zone : String)
      → truthy zone ≡ true
      → q.zone ≡ some zone
      → All
          (InScope project zone)
          (retrieve show generate settings (ask_index embed query_points default_k project) q)
  unfolding retrieve
  retrieve-InScope q zone t e = elim (Bool-cases settings.available) [
    | inl up ↦ rw (up, e) (found_in q.text zone t _ refl)
    | inr down ↦ rw down tt
  ]

  -- An automated answer to a question from a zone cites only documents of that zone or of the
  -- whole project, leaves what the worker asked (text, zone, image, time) and the manager's part
  -- of the question as they were, is returned, stands in the table under the question's
  -- identifier, and changes no other question; provided that the points that the vector index
  -- returns match the filter that it is given.
  pub answer_with_llm-zone :
      (now : ℕ) (id zone k : String) (table : List Question) (q : Question)
      → truthy zone ≡ true
      → Table.get spec id table ≡ some q
      → q.zone ≡ some zone
      → (a : Question) × (Answered id k table a (
            answer_with_llm show generate settings
              (ask_index embed query_points default_k project)
              now
              id
              table)
          × ((human a ≡ human q) × All (λ c. (c.zone ≡ some zone) ⊎ (c.zone ≡ none)) a.citations))
  unfolding answered
  answer_with_llm-zone now id zone k table q t e z =
      let seek = ask_index embed query_points default_k project in
      let change = answered show generate settings seek now q in
      (
        change q,
        (
          answer_with_llm-Answered show generate settings seek now id k table q e,
          (refl, All-cite show project zone _ (retrieve-InScope q zone t z)),
        ),
      )
