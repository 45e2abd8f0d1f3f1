-- ===== src/Reasoning/Sample.antt =====
-- A small collection behind the retrieval: what a filter lets through, in order.
use field_pilot_ai_submissio.Common.{
  ℕ, ◌≡◌, Option, none, some, Bool, true, false, List, [], ◌∷◌, String, text_equality, ◌==◌, ==_iff,
  ◌&&◌, arith, filter_by, take, All, All-mono, ap,
}
use mathlib.Core.Path.{subst}
use field_pilot_ai_submissio.Storage.Rows.{All-passed, All-take}
use field_pilot_ai_submissio.Reasoning.Rag.{Point, Filter}
use field_pilot_ai_submissio.Reasoning.Scope.{field, Matches}

abbrev clause_a : Point
clause_a = record {
  id = "1";
  score = some 900;
  chunk_id = some "a-4.2";
  text = some "Rebar spacing is 150 mm.";
  project_id = some "default";
  zone = some "zone-a";
  category = some "rebar";
  source = some "spec.pdf";
  page = some 4;
  clause = some "4.2";
}

abbrev clause_b : Point
clause_b = record clause_a { id = "2"; chunk_id = some "b-4.2"; zone = some "zone-b" }

abbrev general : Point
general = record clause_a { id = "3"; chunk_id = some "g-1"; zone = some "__project_wide__" }

abbrev collection : List Point
collection = clause_a ∷ clause_b ∷ general ∷ []

abbrev pub embed : String → Option ℕ
embed s = some 0

abbrev holds_value : Option String → String → Bool
holds_value none v = false
holds_value (some s) v = s == v

abbrev holds : Filter → Point → Bool
holds [] p = true
holds ((key, v) ∷ filter) p = holds_value (field key p) v && holds filter p

unfoldable pub query_points : ℕ → Filter → ℕ → Option (List Point)
query_points v filter k = some (take k (filter_by (holds filter) collection))

holds_value-some : (o : Option String) (v : String) → holds_value o v ≡ true → o ≡ some v
holds_value-some none v h = cc
holds_value-some (some s) v h = ap (λ x. some x) ((==_iff s v).0 h)

and_left : (a b : Bool) → (a && b) ≡ true → a ≡ true
and_left a b h = ground arith

and_right : (a b : Bool) → (a && b) ≡ true → b ≡ true
and_right a b h = ground arith

holds-Matches : (filter : Filter) (p : Point) → holds filter p ≡ true → Matches filter p
holds-Matches [] p h = tt
holds-Matches ((key, v) ∷ filter) p h = (
  holds_value-some (field key p) v (and_left (holds_value (field key p) v) (holds filter p) h),
  holds-Matches filter p (and_right (holds_value (field key p) v) (holds filter p) h),
)

pub honours :
    (v : ℕ) (filter : Filter) (k : ℕ) (points : List Point)
    → query_points v filter k ≡ some points
    → All (Matches filter) points
unfolding query_points
honours v filter k points e =
    let found = filter_by (holds filter) collection in
    let same : take k found ≡ points = cc in
    subst (All (Matches filter)) same (
      All-mono (take k found) (λ p h. holds-Matches filter p h)
        (All-take (λ p. holds filter p ≡ true) k found (All-passed (holds filter) collection)))
