-- ===== src/Rules/Operators.antt =====
-- fieldpilot/rules/engine.py: the operators of conditions, on JSON values. Nothing stands for the
-- TypeError that Python raises where an operator does not fit its arguments.
use field_pilot_ai_submissio.Common.{
  Option, none, some, Bool, true, false, List, [], ◌∷◌, String, text_equality, if◌then◌else◌, ◌||◌,
  not,
}
use field_pilot_ai_submissio.Common.Int.{ℤ, compare_ℤ}
use field_pilot_ai_submissio.Common.Text.{is_infix}
use field_pilot_ai_submissio.Events.Value.{
  Value, Items, stop, item, null, bool, num, text, list, dict, as_number, is_truthy, has_field, beq,
}
use Prim.Native.Nat.{Ordering}
use Prim.Native.String.{compare as compare_text}

abbrev order_numbers : Option ℤ → Option ℤ → Option Ordering
order_numbers (some a) (some b) = some (compare_ℤ a b)
order_numbers _ _ = none

-- How two values compare in Python's order, where it has one: numbers and Booleans as numbers, texts
-- by their characters, lists by their first items that are not equal.
unfoldable mutual
  pub order : Value → Value → Option Ordering
  order (text s) (text t) = some (compare_text s t)
  order (list xs) (list ys) = order_items xs ys
  order (bool b) v = order_numbers (as_number (bool b)) (as_number v)
  order (num z) v = order_numbers (some z) (as_number v)
  order _ _ = none

  pub order_items : Items → Items → Option Ordering
  order_items stop stop = some Ordering.eq
  order_items stop (item w ws) = some Ordering.lt
  order_items (item v vs) stop = some Ordering.gt
  order_items (item v vs) (item w ws) =
      let rest = order_items vs ws in let first = order v w in if beq v w then rest else first

abbrev is_lt : Ordering → Bool
is_lt Ordering.lt = true
is_lt _ = false

abbrev is_gt : Ordering → Bool
is_gt Ordering.gt = true
is_gt _ = false

abbrev decide : (Ordering → Bool) → Option Ordering → Option Bool
decide test none = none
decide test (some o) = some (test o)

unfoldable pub any_item : Value → Items → Bool
unfolding beq
any_item a stop = false
any_item a (item v vs) = beq a v || any_item a vs

-- `a in b`
unfoldable pub member : Value → Value → Option Bool
unfolding any_item is_infix has_field
member a (list vs) = some (any_item a vs)
member (text s) (text t) = some (is_infix s t)
member (text k) (dict fs) = some (has_field k fs)
member (list vs) (dict fs) = none
member (dict gs) (dict fs) = none
member _ (dict fs) = some false
member _ _ = none

-- `b or []`
abbrev or_empty : Value → Value
or_empty v = if is_truthy v then v else list stop

-- `a or ""`
abbrev or_blank : Value → Value
or_blank v = if is_truthy v then v else text ""

abbrev negated : Option Bool → Option Bool
negated none = none
negated (some b) = some (not b)

pub data Op : Type 0 where
  op_eq op_ne op_gt op_gte op_lt op_lte op_in op_not_in op_contains op_exists op_truthy : Op

-- The keys of _OPS
abbrev pub op_table : List (String × Op)
op_table =
    ("eq", op_eq)
    ∷ ("ne", op_ne)
    ∷ ("gt", op_gt)
    ∷ ("gte", op_gte)
    ∷ ("lt", op_lt)
    ∷ ("lte", op_lte)
    ∷ ("in", op_in)
    ∷ ("not_in", op_not_in)
    ∷ ("contains", op_contains)
    ∷ ("exists", op_exists)
    ∷ ("truthy", op_truthy)
    ∷ []

abbrev is_null : Value → Bool
is_null null = true
is_null _ = false

-- `_OPS[…](a, b)`
unfoldable pub apply : Op → Value → Value → Option Bool
unfolding member order beq
apply op_eq a b = some (beq a b)
apply op_ne a b = some (not (beq a b))
apply op_gt a b = decide is_gt (order a b)
apply op_gte a b = decide (λ o. not (is_lt o)) (order a b)
apply op_lt a b = decide is_lt (order a b)
apply op_lte a b = decide (λ o. not (is_gt o)) (order a b)
apply op_in a b = member a (or_empty b)
apply op_not_in a b = negated (member a (or_empty b))
apply op_contains (text s) b = member b (or_blank (text s))
apply op_contains (list vs) b = member b (or_blank (list vs))
apply op_contains a b = some false
apply op_exists a b = some (not (is_null a))
apply op_truthy a b = some (is_truthy a)
