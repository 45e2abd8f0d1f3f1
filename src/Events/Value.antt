-- ===== src/Events/Value.antt =====
-- The JSON values of event payloads, with Python's truth, equality, order and membership.
-- Numbers are integers counted in thousandths; a Boolean is equal to the number 0 or 1.
use field_pilot_ai_submissio.Common.{
  ℕ, String, Option, none, some, Bool, true, false, ◌&&◌, ◌||◌, not, if◌then◌else◌, ◌==◌,
  text_equality, number_equality,
}
use field_pilot_ai_submissio.Common.Int.{ℤ, pos, compare_ℤ}
use field_pilot_ai_submissio.Common.Text.{truthy}
use Prim.Native.Nat.{Ordering}

mutual
  -- A dict, its entries in order.
  pub data Fields : Type 0 where
    blank : Fields
    entry : String → Value → Fields → Fields

  -- A list.
  pub data Items : Type 0 where
    stop : Items
    item : Value → Items → Items

  pub data Value : Type 0 where
    null : Value
    bool : Bool → Value
    num : ℤ → Value
    text : String → Value
    list : Items → Value
    dict : Fields → Value

abbrev one : ℤ
one = pos 1000

-- What a value is as a number, if it is one.
abbrev pub as_number : Value → Option ℤ
as_number (bool true) = some one
as_number (bool false) = some (pos 0)
as_number (num z) = some z
as_number _ = none

abbrev pub no_items : Items → Bool
no_items stop = true
no_items (item v vs) = false

abbrev no_fields : Fields → Bool
no_fields blank = true
no_fields (entry k v fs) = false

abbrev is_zero : ℤ → Bool
is_zero z = elim (compare_ℤ z (pos 0)) [ Ordering.eq ↦ true | _ ↦ false ]

-- `bool(v)`
abbrev pub is_truthy : Value → Bool
is_truthy null = false
is_truthy (bool b) = b
is_truthy (num z) = not (is_zero z)
is_truthy (text s) = truthy s
is_truthy (list vs) = not (no_items vs)
is_truthy (dict fs) = not (no_fields fs)

-- `d.get(k)`
unfoldable pub get_field : String → Fields → Option Value
get_field k blank = none
get_field k (entry j v fs) = if j == k then some v else get_field k fs

unfoldable pub has_field : String → Fields → Bool
has_field k blank = false
has_field k (entry j v fs) = j == k || has_field k fs

abbrev size_fields : Fields → ℕ
size_fields blank = 0
size_fields (entry k v fs) = ℕ.suc (size_fields fs)

abbrev same_number : Option ℤ → Option ℤ → Bool
same_number (some a) (some b) = elim (compare_ℤ a b) [ Ordering.eq ↦ true | _ ↦ false ]
same_number _ _ = false

-- `a == b`: dicts are compared without their order.
unfoldable mutual
  pub beq : Value → Value → Bool
  beq null null = true
  beq (text s) (text t) = s == t
  beq (list xs) (list ys) = beq_items xs ys
  beq (dict fs) (dict gs) = size_fields fs == size_fields gs && covers fs gs
  beq (bool b) v = same_number (as_number (bool b)) (as_number v)
  beq (num z) v = same_number (some z) (as_number v)
  beq _ _ = false

  pub beq_items : Items → Items → Bool
  beq_items stop stop = true
  beq_items (item v vs) (item w ws) = beq v w && beq_items vs ws
  beq_items _ _ = false

  -- Every entry of the first dict is one of the second.
  pub covers : Fields → Fields → Bool
  covers blank gs = true
  covers (entry k v fs) gs =
      elim (get_field k gs) [ none ↦ false | some w ↦ beq v w ] && covers fs gs
