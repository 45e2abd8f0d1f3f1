-- ===== src/Reasoning/Rag.antt =====
-- fieldpilot/reasoning/rag.py: Chunk, and BlueprintIndex.search with _query. The embedder and the
-- Qdrant client are parameters that may fail, and `str` of a number is one. Scores are in thousandths.
use field_pilot_ai_submissio.Common.{
  ℕ, Option, none, some, Bool, false, List, [], ◌∷◌, ◌++◌, String, text_equality, number_equality,
  ◌==◌, ltb, if◌then◌else◌, ◌&&◌, ◌||◌, map, take, ◌>>=◌,
}
use field_pilot_ai_submissio.Common.Text.{truthy}
use field_pilot_ai_submissio.Events.Schema.{or_text}
use field_pilot_ai_submissio.Storage.Table
use Prim.Native.String

pub record Chunk : Type 0 where
  pub chunk_id : String
  pub text : String
  pub project_id : String
  pub zone : Option String
  pub category : String
  pub source : String
  pub page : Option ℕ
  pub clause : Option String
  pub score : Option ℕ

-- A point of the collection, with what its payload may hold.
pub record Point : Type 0 where
  pub id : String
  pub score : Option ℕ
  pub chunk_id : Option String
  pub text : Option String
  pub project_id : Option String
  pub zone : Option String
  pub category : Option String
  pub source : Option String
  pub page : Option ℕ
  pub clause : Option String

module _ (show : ℕ → String) where
  abbrev clause_bits : Option String → List String
  clause_bits none = []
  clause_bits (some c) = if truthy c then Prim.Native.String.◌++◌ "clause " c ∷ [] else []

  abbrev page_bits : Option ℕ → List String
  page_bits none = []
  page_bits (some n) = Prim.Native.String.◌++◌ "p." (show n) ∷ []

  -- `" — ".join(first, *bits)`
  abbrev join_bits : String → List String → String
  join_bits s [] = s
  join_bits s (t ∷ bits) =
      Prim.Native.String.◌++◌ s (Prim.Native.String.◌++◌ " — " (join_bits t bits))

  unfoldable pub citation : Chunk → String
  citation c = join_bits c.source (clause_bits c.clause ++ page_bits c.page)

-- `_ALL_ZONES`
abbrev pub all_zones : String
all_zones = "__project_wide__"

-- The conditions of a filter: each field has to hold the value.
abbrev pub Filter : Type 0
Filter = List (String × String)

abbrev pub given : Option String → Bool
given none = false
given (some s) = truthy s

-- `must.append(…)` when there is a value
abbrev pub condition : String → Option String → Filter
condition key none = []
condition key (some v) = if truthy v then (key, v) ∷ [] else []

abbrev pub must : String → Option String → Option String → Filter
must project zone category =
    ("project_id", project) ∷ (condition "zone" zone ++ condition "category" category)

abbrev pub zone_of : Option String → Option String
zone_of none = none
zone_of (some z) = if z == all_zones then none else some z

abbrev pub chunk_of : Point → Chunk
chunk_of p = record {
  chunk_id = or_text p.chunk_id p.id;
  text = or_text p.text "";
  project_id = or_text p.project_id "";
  zone = zone_of p.zone;
  category = or_text p.category "general";
  source = or_text p.source "unknown";
  page = p.page;
  clause = p.clause;
  score = p.score;
}

-- `c.score or 0.0`
abbrev score_of : Chunk → ℕ
score_of c = elim c.score [ none ↦ 0 | some s ↦ s ]

abbrev pub better : Chunk → Chunk → Bool
better c d = ltb (score_of d) (score_of c)

abbrev pub seen : String → List String → Bool
seen id [] = false
seen id (i ∷ ids) = i == id || seen id ids

-- The loop over the sorted results: each chunk once, the best score first.
unfoldable pub merge : List String → List Chunk → List Chunk
merge ids [] = []
merge ids (c ∷ chunks) =
    let skipped = merge ids chunks in
    let kept = merge (c.chunk_id ∷ ids) chunks in if seen c.chunk_id ids then skipped else c ∷ kept

-- `top_k or self.top_k`
abbrev pub or_number : Option ℕ → ℕ → ℕ
or_number none d = d
or_number (some n) d = if n == 0 then d else n

module _ {V : Type 0} (embed : String → Option V)
    (query_points : V → Filter → ℕ → Option (List Point)) where
  unfoldable pub query : V → String → Option String → Option String → ℕ → Option (List Chunk)
  query vector project zone category k = do
    points ← query_points vector (must project zone category) k
    some (map chunk_of points)

  -- The second pass, for the chunks of the whole project.
  unfoldable pub project_wide :
      V → String → Option String → Option String → ℕ → Bool → Option (List Chunk)
  unfolding query
  project_wide vector project zone category k wide =
      if given zone && wide then query vector project (some all_zones) category k else some []

  unfoldable pub search :
      ℕ → String → String → Option String → Option String → Option ℕ → Bool → Option (List Chunk)
  unfolding query project_wide
  search default_k text project zone category top_k wide = do
    vector ← embed text
    results ← query vector project zone category (or_number top_k default_k)
    more ← project_wide vector project zone category (or_number top_k default_k) wide
    some (take (or_number top_k default_k) (merge [] (Table.sort_by better (results ++ more))))
