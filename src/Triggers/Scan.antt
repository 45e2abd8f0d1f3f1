-- ===== src/Triggers/Scan.antt =====
-- What the cache's `scan` finds, and what it leaves to later reads.
use field_pilot_ai_submissio.Common.{
  ℕ, ◌≤◌, ◌≡◌, refl, none, String, text_equality, if◌then◌else◌, ==_iff, List, [], ◌∷◌, arith, ltb,
  All, inl, inr, Bool-cases,
}
use field_pilot_ai_submissio.Common.Dict.{Dict, Unique, Agrees, Agrees-self, get-pop}
use field_pilot_ai_submissio.Common.Dict
use field_pilot_ai_submissio.Triggers.Cache
use field_pilot_ai_submissio.Triggers.Cache.{Cache, live}
use text.Mathlib.Text.{starts_with}

module _ {ℓ} {V : Type ℓ} where
  Agrees-pop :
      (key : String) (items : List (String × (V × ℕ))) (c : Cache V)
      → Dict.get key items ≡ none
      → Agrees items c
      → Agrees items (Dict.pop key c)
  unfolding Dict.get
  Agrees-pop key [] c n h = tt
  Agrees-pop key ((k, e) ∷ items) c n (p, h) = (
    ground (arith, get-pop key k c, ==_iff key k, ==_iff k key),
    Agrees-pop key items c (ground arith) h,
  )

  live-scan_items :
      (prefix : String) (t u : ℕ) (items : List (String × (V × ℕ))) (c : Cache V) (j : String)
      → t ≤ u
      → Unique items
      → Agrees items c
      → live u (Cache.scan_items prefix t items c).0 j ≡ live u c j
  unfolding Cache.scan_items
  live-scan_items prefix t u [] c j h q a = refl
  live-scan_items prefix t u ((k, (v, expires)) ∷ items) c j h (n, q) (p, a) = ground (
    arith,
    live-scan_items prefix t u items c j h q a,
    live-scan_items prefix t u items (Dict.pop k c) j h q (Agrees-pop k items c n a),
    get-pop k j c,
    ==_iff k j,
  )

  -- A scan hides nothing from a read at that time or later.
  pub live-scan :
      (prefix : String) (t u : ℕ) (c : Cache V) (j : String)
      → t ≤ u
      → Unique c
      → live u (Cache.scan prefix t c).0 j ≡ live u c j
  unfolding Cache.scan
  live-scan prefix t u c j h q = live-scan_items prefix t u c c j h q (Agrees-self c q)

  get-scan_items :
      (prefix : String) (t : ℕ) (items : List (String × (V × ℕ))) (c : Cache V) (j : String)
      → Unique items
      → Dict.get j (Cache.scan_items prefix t items c).1
        ≡ (if starts_with j prefix then live t items j else none)
  unfolding Cache.scan_items Dict.get
  get-scan_items prefix t [] c j q = ground arith
  get-scan_items prefix t ((k, (v, expires)) ∷ items) c j (n, q) = ground (
    arith,
    get-scan_items prefix t items c j q,
    get-scan_items prefix t items (Dict.pop k c) j q,
    ==_iff k j,
  )

  Unique-scan_items :
      (prefix : String) (t : ℕ) (items : List (String × (V × ℕ))) (c : Cache V)
      → Unique items
      → Unique (Cache.scan_items prefix t items c).1
  unfolding Cache.scan_items
  Unique-scan_items prefix t [] c q = tt
  Unique-scan_items prefix t ((k, (v, expires)) ∷ items) c (n, q) =
      let here = Unique-scan_items prefix t items c q in
      let gone = Unique-scan_items prefix t items (Dict.pop k c) q in
      ground (arith, get-scan_items prefix t items c k q)

  -- A scan finds, once each, the live entries whose keys match.
  pub get-scan :
      (prefix : String) (t : ℕ) (c : Cache V) (j : String)
      → Unique c
      → Dict.get j (Cache.scan prefix t c).1 ≡ (if starts_with j prefix then live t c j else none)
  unfolding Cache.scan
  get-scan prefix t c j q = get-scan_items prefix t c c j q

  pub Unique-scan :
      (prefix : String) (t : ℕ) (c : Cache V) → Unique c → Unique (Cache.scan prefix t c).1
  unfolding Cache.scan
  Unique-scan prefix t c q = Unique-scan_items prefix t c c q

  All-scan_items {κ} :
      (P : String → V → Type κ) (prefix : String) (t : ℕ) (items : List (String × (V × ℕ)))
      (c : Cache V)
      → All (λ e. P e.0 e.1.0) items
      → All (λ e. P e.0 e.1) (Cache.scan_items prefix t items c).1
  unfolding Cache.scan_items
  All-scan_items P prefix t [] c h = tt
  All-scan_items P prefix t ((k, (v, expires)) ∷ items) c (p, h) =
      elim (Bool-cases (ltb expires t)) [
        | inl gone ↦ rw gone (All-scan_items P prefix t items (Dict.pop k c) h)
        | inr here ↦ elim (Bool-cases (starts_with k prefix)) [
          | inl found ↦ rw (here, found) (p, All-scan_items P prefix t items c h)
          | inr other ↦ rw (here, other) (All-scan_items P prefix t items c h)
        ]
      ]

  pub All-scan {κ} :
      (P : String → V → Type κ) (prefix : String) (t : ℕ) (c : Cache V)
      → All (λ e. P e.0 e.1.0) c
      → All (λ e. P e.0 e.1) (Cache.scan prefix t c).1
  unfolding Cache.scan
  All-scan P prefix t c h = All-scan_items P prefix t c c h
