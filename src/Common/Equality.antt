-- ===== src/Common/Equality.antt =====
-- Python's `==` on the types whose values the program compares.
use Prim.Native.Nat.{ℕ}
use Prim.Native.String.{String}
use mathlib.Core.Path.{◌≡◌, refl, ap}
use mathlib.Core.Logic.{◌↔◌}
use mathlib.Core.Bool.{Bool, false, true, ◌&&◌}
use native.Mathlib.Omega.{arith}
use text.Mathlib.Text.{◌==◌ as same_text}
use text.Mathlib.TextEquality.{eq_iff}
use field_pilot_ai_submissio.Common.Tests.{nat_beq, nat_beq_iff}

pub record Equality {ℓ} (A : Type ℓ) : Type ℓ where
  pub equal : A → A → Bool
  pub equal_iff : (x y : A) → (equal x y ≡ true) ↔ (x ≡ y)

instance abbrev pub text_equality : Equality String
text_equality = record { equal = same_text; equal_iff = eq_iff }

instance abbrev pub number_equality : Equality ℕ
number_equality = record { equal = nat_beq; equal_iff = nat_beq_iff }

infix 50 ◌==◌
abbrev pub ◌==◌ {ℓ} : {A : Type ℓ} ⦃eq : Equality A⦄ → A → A → Bool
◌==◌ ⦃eq⦄ x y = eq.equal x y

module _ {ℓ} {A : Type ℓ} ⦃eq : Equality A⦄ where
  pub ==_iff : (x y : A) → ((x == y) ≡ true) ↔ (x ≡ y)
  ==_iff x y = eq.equal_iff x y

  pub ==_refl : (x : A) → (x == x) ≡ true
  ==_refl x = (eq.equal_iff x x).1 refl

  -- What is equal to one of two different things is not equal to the other.
  pub ==_exclusive : (x y z : A) → (y == z) ≡ false → (x == y) ≡ true → (x == z) ≡ false
  ==_exclusive x y z n h = rw ((eq.equal_iff x y).0 h) n

&&-left : (a b : Bool) → (a && b) ≡ true → a ≡ true
&&-left a b h = ground arith

&&-right : (a b : Bool) → (a && b) ≡ true → b ≡ true
&&-right a b h = ground arith

abbrev equal_pair : String × String → String × String → Bool
equal_pair (a, b) (c, d) = (a == c) && (b == d)

pub equal_pair_iff : (p q : String × String) → (equal_pair p q ≡ true) ↔ (p ≡ q)
equal_pair_iff (a, b) (c, d) = (
  λ h.
      let x = (==_iff a c).0 (&&-left (a == c) (b == d) h) in
      let y = (==_iff b d).0 (&&-right (a == c) (b == d) h) in λ i. (x i, y i),
  λ h. rw ((==_iff a c).1 (ap (λ p. p.0) h), (==_iff b d).1 (ap (λ p. p.1) h)) refl,
)

instance abbrev pub text_pair_equality : Equality (String × String)
text_pair_equality = record { equal = equal_pair; equal_iff = equal_pair_iff }
