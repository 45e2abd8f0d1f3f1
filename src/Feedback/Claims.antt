-- ===== src/Feedback/Claims.antt =====
-- What a training run claims, and what it gives back.
use field_pilot_ai_submissio.Common.{
  ℕ, ◌≤◌, ◌≡◌, refl, sym, ap, ◌∙◌, Option, none, some, true, false, List, [], ◌∷◌, String,
  text_equality, ==_refl, if◌then◌else◌, arith, All, length, Option-cases, Bool-cases, inl, inr,
}
use field_pilot_ai_submissio.Storage.Table
use field_pilot_ai_submissio.Storage.Query.{UniqueKeys, passes}
use field_pilot_ai_submissio.Storage.Bulk.{patch_each, get-patch_selected, UniqueKeys-patch_each}
use field_pilot_ai_submissio.Storage.Every.{All-get}
use field_pilot_ai_submissio.Storage.Size.{length-patch_each, length-filter_by}
use field_pilot_ai_submissio.Feedback.Service.{
  Feedback, spec, unconsumed, list, stamp, claim_each, claim_for_training, claimed_by, clear,
  release,
}
use mathlib.Core.Option

claim_each-patch_each :
    (now : ℕ) (run : String) (rows claimed table : List Feedback)
    → (claim_each now run rows claimed table).0 ≡ patch_each spec (stamp now run) rows table
unfolding claim_each patch_each
claim_each-patch_each now run [] claimed table = refl
claim_each-patch_each now run (row ∷ rows) claimed table =
    claim_each-patch_each now run rows _ (Table.patch spec row.feedback_id (stamp now run) table).0

module _ (now : ℕ) (run : String) (limit : ℕ) (table : List Feedback) where
  waiting : List Feedback
  waiting = Table.select spec unconsumed limit true table

  claim_for_training-patch_each :
      (claim_for_training now run limit table).0 ≡ patch_each spec (stamp now run) waiting table
  unfolding claim_for_training list waiting
  claim_for_training-patch_each = claim_each-patch_each now run waiting [] table

  -- What a claim leaves under each key: the unconsumed samples are stamped, the others as they were.
  pub claim_for_training-get :
      (k : String)
      → UniqueKeys spec table
      → Table.count spec unconsumed table ≤ limit
      → Table.get spec k (claim_for_training now run limit table).0 ≡ (
          if passes spec unconsumed (Table.get spec k table)
          then Option.map (stamp now run) (Table.get spec k table)
          else Table.get spec k table)
  unfolding waiting
  claim_for_training-get k u h = rw claim_for_training-patch_each (
      get-patch_selected spec (stamp now run) (λ f. refl) (λ f. refl) unconsumed limit true table k
        u h)

-- A sample that no run has claimed names none, and no sample names the run.
abbrev pub Free : String → Feedback → Type 0
Free run f = (unconsumed f ≡ true → f.consumed_by ≡ none) × (claimed_by run f ≡ false)

consumed_none : (f : Feedback) → unconsumed f ≡ true → f.consumed_at ≡ none
consumed_none f h = elim (Option-cases f.consumed_at) [
  | inl e ↦ e
  | inr (t, e) ↦ absurd (let q : false ≡ true = rw e at h in cc)
]

clear_bare : (f : Feedback) → f.consumed_at ≡ none → f.consumed_by ≡ none → clear f ≡ f
clear_bare f a b i = record f { consumed_at = sym a i; consumed_by = sym b i }

module _ (now : ℕ) (run : String) where
  clear-stamp :
      (o : Option Feedback)
      → ((f : Feedback) → o ≡ some f → Free run f)
      → let p = if passes spec unconsumed o then Option.map (stamp now run) o else o in
        (if passes spec (claimed_by run) p then Option.map clear p else p) ≡ o
  clear-stamp none free = refl
  clear-stamp (some f) free =
      let (bare, other) = free f refl in
      elim (Bool-cases (unconsumed f)) [
        | inl new ↦
            rw (new, ==_refl run) (ap (λ g. some g) (clear_bare f (consumed_none f new) (bare new)))
        | inr old ↦ rw (old, other) refl
      ]

-- Releasing what a training run has claimed gives every sample back as it was, provided that each
-- identifier stands once in the table, that the table has at most ten thousand rows and no more
-- unclaimed ones than the claim's limit, that no sample names the run beforehand, and that the
-- unclaimed ones name no run.
pub release-claim_for_training :
    (now : ℕ) (run : String) (limit : ℕ) (table : List Feedback) (k : String)
    → UniqueKeys spec table
    → Table.count spec unconsumed table ≤ limit
    → length table ≤ 10000
    → All (Free run) table
    → Table.get spec k (release run (claim_for_training now run limit table).0).0
      ≡ Table.get spec k table
unfolding release Table.count
release-claim_for_training now run limit table k u h small free =
    let claimed = (claim_for_training now run limit table).0 in
    let e = claim_for_training-patch_each now run limit table in
    get-patch_selected spec clear (λ f. refl) (λ f. refl) (claimed_by run) 10000 true claimed k
      (rw e (UniqueKeys-patch_each spec (stamp now run) _ table u))
      (omega (
        arith,
        length-filter_by (claimed_by run) claimed,
        ap length e,
        length-patch_each spec (stamp now run) (λ f. refl) (waiting now run limit table) table,
        small,
      ))
    ∙ rw (claim_for_training-get now run limit table k u h) (
        clear-stamp now run (Table.get spec k table)
          (λ f q. All-get spec (Free run) k table f free q))
