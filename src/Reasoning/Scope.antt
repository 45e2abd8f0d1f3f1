-- ===== src/Reasoning/Scope.antt =====
-- Retrieval stays in the project and the zone that it is scoped to.
use field_pilot_ai_submissio.Common.{
  ℕ, zero, suc, ◌≤◌, ◌≡◌, refl, ◌∙◌, ◌⊎◌, inl, inr, Option, none, some, Bool, true, false, List, [],
  ◌∷◌, ◌++◌, String, text_equality, ◌==◌, if◌then◌else◌, ◌&&◌, arith, map, take, length, All,
  All-mono, All-append, Bool-cases, bind-some,
}
use field_pilot_ai_submissio.Common.Text.{truthy}
use mathlib.Core.Path.{subst}
use field_pilot_ai_submissio.Storage.Table
use field_pilot_ai_submissio.Storage.Rows.{All-sort_by, All-take}
use field_pilot_ai_submissio.Events.Schema.{or_text}
use field_pilot_ai_submissio.Reasoning.Rag.{
  Chunk, Point, Filter, all_zones, must, chunk_of, zone_of, condition, better, seen, merge, query,
  project_wide, search, or_number,
}

-- What a condition looks at.
abbrev pub field : String → Point → Option String
field key p =
    if key == "project_id"
    then p.project_id
    else if key == "zone"
    then p.zone
    else if key == "category"
    then p.category
    else none

-- The point holds the value of every condition.
abbrev pub Matches : Filter → Point → Type 0
Matches filter p = All (λ c. field c.0 p ≡ some c.1) filter

-- A chunk of the project that belongs to the zone, or to the whole project.
abbrev pub InScope : String → String → Chunk → Type 0
InScope project zone c = (c.project_id ≡ project) × ((c.zone ≡ some zone) ⊎ (c.zone ≡ none))

-- Every chunk once.
abbrev pub Once : List Chunk → Type 0
Once [] = Unit
Once (c ∷ chunks) = All (λ d. (c.chunk_id == d.chunk_id) ≡ false) chunks × Once chunks

All-merge {κ} :
    (P : Chunk → Type κ) (ids : List String) (chunks : List Chunk)
    → All P chunks
    → All P (merge ids chunks)
unfolding merge
All-merge P ids [] h = tt
All-merge P ids (c ∷ chunks) (p, h) = elim (Bool-cases (seen c.chunk_id ids)) [
  | inl hit ↦ rw hit (All-merge P ids chunks h)
  | inr miss ↦ rw miss (p, All-merge P (c.chunk_id ∷ ids) chunks h)
]

merge-unseen :
    (ids : List String) (chunks : List Chunk)
    → All (λ d. seen d.chunk_id ids ≡ false) (merge ids chunks)
unfolding merge
merge-unseen ids [] = tt
merge-unseen ids (c ∷ chunks) = elim (Bool-cases (seen c.chunk_id ids)) [
  | inl hit ↦ rw hit (merge-unseen ids chunks)
  | inr miss ↦ rw miss (
    miss,
    All-mono (merge (c.chunk_id ∷ ids) chunks) (λ d h. ground arith)
        (merge-unseen (c.chunk_id ∷ ids) chunks),
  )
]

merge-Once : (ids : List String) (chunks : List Chunk) → Once (merge ids chunks)
unfolding merge
merge-Once ids [] = tt
merge-Once ids (c ∷ chunks) = elim (Bool-cases (seen c.chunk_id ids)) [
  | inl hit ↦ rw hit (merge-Once ids chunks)
  | inr miss ↦ rw miss (
    All-mono (merge (c.chunk_id ∷ ids) chunks) (λ d h. ground arith)
        (merge-unseen (c.chunk_id ∷ ids) chunks),
    merge-Once (c.chunk_id ∷ ids) chunks,
  )
]

length-take {ℓ} : {A : Type ℓ} (n : ℕ) (xs : List A) → length (take n xs) ≤ n
length-take zero xs = omega arith
length-take (suc n) [] = omega arith
length-take (suc n) (x ∷ xs) = omega (arith, length-take n xs)

Once-take : (n : ℕ) (chunks : List Chunk) → Once chunks → Once (take n chunks)
Once-take zero chunks h = tt
Once-take (suc n) [] h = tt
Once-take (suc n) (c ∷ chunks) (p, h) = (All-take _ n chunks p, Once-take n chunks h)

or_text-some : (s : String) → or_text (some s) "" ≡ s
or_text-some String.[] = refl
or_text-some (String.◌∷◌ c s) = refl

zone_of-scope : (zone : String) → (zone_of (some zone) ≡ some zone) ⊎ (zone_of (some zone) ≡ none)
zone_of-scope zone = elim (Bool-cases (zone == all_zones)) [
  | inl same ↦ inr (rw same refl)
  | inr other ↦ inl (rw other refl)
]

chunk_of_matching :
    (project zone : String) (category : Option String) (p : Point)
    → truthy zone ≡ true
    → Matches (must project (some zone) category) p
    → ((chunk_of p).project_id ≡ project) × ((chunk_of p).zone ≡ zone_of (some zone))
chunk_of_matching project zone category p t m =
    let held : Matches (("project_id", project) ∷ ("zone", zone) ∷ condition "category" category)
        p =
      rw t at m in
    (rw held.0 (or_text-some project), rw held.1.0 refl)

All-chunk_of {κ} :
    (P : Chunk → Type κ) (points : List Point)
    → All (λ p. P (chunk_of p)) points
    → All P (map chunk_of points)
All-chunk_of P [] h = tt
All-chunk_of P (p ∷ points) (q, h) = (q, All-chunk_of P points h)

module _ {V : Type 0} (embed : String → Option V)
    (query_points : V → Filter → ℕ → Option (List Point))
    (honours : (v : V) (filter : Filter) (k : ℕ) (points : List Point)
      → query_points v filter k ≡ some points
      → All (Matches filter) points) where
  query_matching :
      (v : V) (project zone : String) (category : Option String) (k : ℕ) (chunks : List Chunk)
      → truthy zone ≡ true
      → query embed query_points v project (some zone) category k ≡ some chunks
      → All (λ c. (c.project_id ≡ project) × (c.zone ≡ zone_of (some zone))) chunks
  unfolding query
  query_matching v project zone category k chunks t q =
      let (points, (e, r)) = bind-some (query_points v (must project (some zone) category) k) _ q in
      let same : map chunk_of points ≡ chunks = cc in
      subst (All _) same (
        All-chunk_of _ points (
          All-mono points (λ p m. chunk_of_matching project zone category p t m)
            (honours v (must project (some zone) category) k points e)))

  project_wide-InScope :
      (v : V) (project zone : String) (category : Option String) (k : ℕ) (wide : Bool)
      (chunks : List Chunk)
      → project_wide embed query_points v project (some zone) category k wide ≡ some chunks
      → All (InScope project zone) chunks
  unfolding project_wide
  project_wide-InScope v project zone category k wide chunks q =
      elim (Bool-cases (truthy zone && wide)) [
        | inl asked ↦
            All-mono chunks (λ c h. (h.0, inr h.1))
              (query_matching v project all_zones category k chunks refl (rw asked at q))
        | inr alone ↦
            let nothing : some [] ≡ some chunks = rw alone at q in
            let same : [] ≡ chunks = cc in subst (All _) same tt
      ]

  -- In the zone asked for, every chunk found belongs to the project and to the zone or to no zone, no
  -- chunk twice, and not more than asked for.
  pub search-InScope :
      (default_k : ℕ) (text project zone : String) (category : Option String) (top_k : Option ℕ)
      (wide : Bool) (chunks : List Chunk)
      → truthy zone ≡ true
      → search embed query_points default_k text project (some zone) category top_k wide
        ≡ some chunks
      → All (InScope project zone) chunks
        × (Once chunks × (length chunks ≤ or_number top_k default_k))
  unfolding search
  search-InScope default_k text project zone category top_k wide chunks t q =
      let k = or_number top_k default_k in
      let (v, (e, q1)) = bind-some (embed text) _ q in
      let (results, (e1, q2)) =
        bind-some (query embed query_points v project (some zone) category k) _ q1 in
      let (more, (e2, q3)) =
        bind-some (project_wide embed query_points v project (some zone) category k wide) _ q2 in
      let merged = merge [] (Table.sort_by better (results ++ more)) in
      let same : take k merged ≡ chunks = cc in
      let scoped = query_matching v project zone category k results t e1 in
      subst (λ cs. All (InScope project zone) cs × (Once cs × (length cs ≤ k))) same
        (
          All-take _ k merged (
              All-merge _ [] _ (
                All-sort_by _ better (results ++ more) (
                  All-append _ results more
                    (All-mono results
                      (λ c h. (
                        h.0,
                        elim (zone_of-scope zone) [ inl s ↦ inl (h.1 ∙ s) | inr s ↦ inr (h.1 ∙ s) ],
                      ))
                      scoped)
                    (project_wide-InScope v project zone category k wide more e2)))),
          (Once-take k merged (merge-Once [] _), length-take k merged),
        )
