-- ===== src/Rules/Order.antt =====
-- The order in which rules are tried, and which of them a filter leaves.
use field_pilot_ai_submissio.Common.{
  ◌+◌, ◌≤◌, ◌≡◌, refl, inl, inr, none, Bool, true, false, List, [], ◌∷◌, String, text_equality,
  ==_iff, if◌then◌else◌, arith, filter_by, All, All-mono, Bool-cases,
}
use field_pilot_ai_submissio.Common.Int.{ℤ, pos_part, neg_part}
use field_pilot_ai_submissio.Storage.Table
use field_pilot_ai_submissio.Storage.Table.{Spec}
use field_pilot_ai_submissio.Storage.Query.{has_key, UniqueKeys, passes, get-has_key}
use field_pilot_ai_submissio.Storage.Rows.{All-filter_by, All-insert_by}
use field_pilot_ai_submissio.Rules.Engine.{Rule, more_urgent}

-- `a ≤ b` on signed integers.
abbrev pub AtMost : ℤ → ℤ → Type 0
AtMost a b = pos_part a + neg_part b ≤ pos_part b + neg_part a

-- No rule comes before one of a higher priority.
abbrev pub Prioritised : List Rule → Type 0
Prioritised [] = Unit
Prioritised (r ∷ rules) = All (λ s. AtMost s.priority r.priority) rules × Prioritised rules

AtMost-urgent : (r s : Rule) → more_urgent r s ≡ true → AtMost s.priority r.priority
AtMost-urgent r s h = ground arith

AtMost-calm : (r s : Rule) → more_urgent r s ≡ false → AtMost r.priority s.priority
AtMost-calm r s h = ground arith

Prioritised-insert :
    (r : Rule) (rules : List Rule)
    → Prioritised rules
    → Prioritised (Table.insert_by more_urgent r rules)
unfolding Table.insert_by
Prioritised-insert r [] h = (tt, tt)
Prioritised-insert r (s ∷ rules) (low, h) = elim (Bool-cases (more_urgent s r)) [
  | inl above ↦ rw above (
    All-insert_by (λ x. AtMost x.priority s.priority) more_urgent r rules (AtMost-urgent s r above)
        low,
    Prioritised-insert r rules h,
  )
  | inr not_above ↦ rw not_above (
    (
      AtMost-calm s r not_above,
      All-mono rules (λ x q. omega (arith, q, AtMost-calm s r not_above)) low,
    ),
    (low, h),
  )
]

pub Prioritised-sort : (rules : List Rule) → Prioritised (Table.sort_by more_urgent rules)
unfolding Table.sort_by
Prioritised-sort [] = tt
Prioritised-sort (r ∷ rules) =
    Prioritised-insert r (Table.sort_by more_urgent rules) (Prioritised-sort rules)

pub Prioritised-filter :
    (test : Rule → Bool) (rules : List Rule)
    → Prioritised rules
    → Prioritised (filter_by test rules)
Prioritised-filter test [] h = tt
Prioritised-filter test (r ∷ rules) (low, h) = elim (Bool-cases (test r)) [
  | inl hit ↦ rw hit (All-filter_by _ test rules low, Prioritised-filter test rules h)
  | inr miss ↦ rw miss (Prioritised-filter test rules h)
]

module _ {R : Type 0} (spec : Spec R) where
  -- A read by key of the rows that a test leaves.
  pub get-filter_by :
      (test : R → Bool) (k : String) (xs : List R)
      → UniqueKeys spec xs
      → Table.get spec k (filter_by test xs)
        ≡ (if passes spec test (Table.get spec k xs) then Table.get spec k xs else none)
  unfolding Table.get has_key
  get-filter_by test k [] u = refl
  get-filter_by test k (x ∷ xs) (n, u) =
      ground (arith, get-filter_by test k xs u, get-has_key spec k xs, ==_iff (spec.key x) k)
