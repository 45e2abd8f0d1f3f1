-- ===== src/Common/Dict.antt =====
-- A Python dict: its entries in insertion order.
use mathlib.Core.Path.{◌≡◌, refl, subst}
use mathlib.Core.Bool.{Bool}
use mathlib.Core.Option.{Option, none, some}
use mathlib.Core.Logic.{inl, inr}
use mathlib.Core.List.{List, [], ◌∷◌}
use native.Mathlib.Omega.{arith}
use field_pilot_ai_submissio.Common.Tests.{if◌then◌else◌, is_some, Bool-cases}
use field_pilot_ai_submissio.Common.Lists.{All}
use field_pilot_ai_submissio.Common.Equality.{Equality, ◌==◌, ==_refl}

abbrev pub Dict {ℓ κ} : Type ℓ → Type κ → Type (ℓ ⊔ κ)
Dict K V = List (K × V)

module _ {ℓ κ} {K : Type ℓ} {V : Type κ} ⦃e : Equality K⦄ where
  -- `d.get(k)`
  unfoldable pub get : K → Dict K V → Option V
  get k [] = none
  get k ((j, v) ∷ d) = if j == k then some v else get k d

  -- `d[k] = v`
  unfoldable pub set : K → V → Dict K V → Dict K V
  set k v [] = (k, v) ∷ []
  set k v ((j, w) ∷ d) = if j == k then (k, v) ∷ d else (j, w) ∷ set k v d

  -- `d.pop(k, None)`
  unfoldable pub pop : K → Dict K V → Dict K V
  pop k [] = []
  pop k ((j, w) ∷ d) = if j == k then pop k d else (j, w) ∷ pop k d

  -- `k in d`
  unfoldable pub contains : K → Dict K V → Bool
  unfolding get
  contains k d = is_some (get k d)

  -- `d.update(other)`
  unfoldable pub update : Dict K V → Dict K V → Dict K V
  update [] d = d
  update ((k, v) ∷ other) d = update other (set k v d)

  pub get-set :
      (k j : K) (v : V) (d : Dict K V) → get j (set k v d) ≡ (if k == j then some v else get j d)
  unfolding get set
  get-set k j v [] = refl
  get-set k j v ((i, w) ∷ d) =
      ground (arith, e.equal_iff k j, e.equal_iff i k, e.equal_iff i j, get-set k j v d)

  pub get-set_self : (k : K) (v : V) (d : Dict K V) → get k (set k v d) ≡ some v
  get-set_self k v d = rw (get-set k k v d, ==_refl k)

  pub get-pop : (k j : K) (d : Dict K V) → get j (pop k d) ≡ (if k == j then none else get j d)
  unfolding get pop
  get-pop k j [] = ground arith
  get-pop k j ((i, w) ∷ d) =
      ground (arith, e.equal_iff k j, e.equal_iff i k, e.equal_iff i j, get-pop k j d)

-- Every key once, as in any dict.
abbrev pub Unique {ℓ κ} : {K : Type ℓ} {V : Type κ} ⦃e : Equality K⦄ → Dict K V → Type κ
Unique [] = Unit
Unique ((k, v) ∷ d) = (get k d ≡ none) × Unique d

module _ {ℓ κ} {K : Type ℓ} {V : Type κ} ⦃e : Equality K⦄ where
  pub Unique-pop : (k : K) (d : Dict K V) → Unique d → Unique (pop k d)
  unfolding pop
  Unique-pop k [] u = tt
  Unique-pop k ((j, w) ∷ d) u =
      ground (arith, Unique-pop k d u.1, get-pop k j d, e.equal_iff k j, e.equal_iff j k)

  pub Unique-set : (k : K) (v : V) (d : Dict K V) → Unique d → Unique (set k v d)
  unfolding set get
  Unique-set k v [] u = (refl, tt)
  Unique-set k v ((j, w) ∷ d) u =
      ground (arith, Unique-set k v d u.1, get-set k j v d, e.equal_iff k j, e.equal_iff j k)

  pub All-pop {μ} : (P : K × V → Type μ) (k : K) (d : Dict K V) → All P d → All P (pop k d)
  unfolding pop
  All-pop P k [] h = tt
  All-pop P k ((j, w) ∷ d) h = elim (Bool-cases (j == k)) [
    | inl same ↦ rw same (All-pop P k d h.1)
    | inr other ↦ rw other (h.0, All-pop P k d h.1)
  ]

  pub All-set {μ} :
      (P : K × V → Type μ) (k : K) (v : V) (d : Dict K V) → P (k, v) → All P d → All P (set k v d)
  unfolding set
  All-set P k v [] p h = (p, tt)
  All-set P k v ((j, w) ∷ d) p h = elim (Bool-cases (j == k)) [
    | inl same ↦ rw same (p, h.1)
    | inr other ↦ rw other (h.0, All-set P k v d p h.1)
  ]

  pub All-get {μ} :
      (P : K × V → Type μ) (k : K) {v : V} (d : Dict K V) → All P d → get k d ≡ some v → P (k, v)
  unfolding get
  All-get P k {v} [] h q = cc
  All-get P k {v} ((j, w) ∷ d) h q = elim (Bool-cases (j == k)) [
    | inl same ↦
        let here : some w ≡ some v = rw same at q in
        let p = (e.equal_iff j k).0 same in let r : w ≡ v = cc in subst P (λ i. (p i, r i)) h.0
    | inr other ↦ All-get P k d h.1 (rw other at q)
  ]

-- The entries of a list are what the dict holds for their keys.
abbrev pub Agrees {ℓ κ} :
    {K : Type ℓ} {V : Type κ} ⦃e : Equality K⦄ → List (K × V) → Dict K V → Type κ
Agrees [] d = Unit
Agrees ((k, v) ∷ items) d = (get k d ≡ some v) × Agrees items d

module _ {ℓ κ} {K : Type ℓ} {V : Type κ} ⦃e : Equality K⦄ where
  Agrees-cons :
      (key : K) (x : V) (items : List (K × V)) (d : Dict K V)
      → get key items ≡ none
      → Agrees items d
      → Agrees items ((key, x) ∷ d)
  unfolding get
  Agrees-cons key x [] d n h = tt
  Agrees-cons key x ((k, v) ∷ items) d n (p, h) = (
    ground (arith, e.equal_iff key k, e.equal_iff k key),
    Agrees-cons key x items d (ground arith) h,
  )

  pub Agrees-self : (d : Dict K V) → Unique d → Agrees d d
  unfolding get
  Agrees-self [] u = tt
  Agrees-self ((k, v) ∷ d) (n, u) = (rw (==_refl k), Agrees-cons k v d d n (Agrees-self d u))
