-- ===== src/Triggers/Cache.antt =====
-- fieldpilot/triggers/cache.py, the in-memory cache: a dict of values with the time after which
-- each is gone. An operation takes the time at which it runs. `scan` is used with patterns that
-- end in their only `*`, so a pattern is the text before it.
use field_pilot_ai_submissio.Common.{
  ℕ, ◌+◌, ◌≤◌, ◌≡◌, Option, none, some, List, [], ◌∷◌, String, text_equality, ltb, if◌then◌else◌,
  ◌==◌, ==_iff, arith,
}
use field_pilot_ai_submissio.Common.Dict
use field_pilot_ai_submissio.Common.Dict.{Dict, get-set, get-pop}
use text.Mathlib.Text.{starts_with}

abbrev pub Cache {ℓ} : Type ℓ → Type ℓ
Cache V = Dict String (V × ℕ)

module _ {ℓ} {V : Type ℓ} where
  abbrev fresh_at : ℕ → V × ℕ → Option V
  fresh_at t (v, expires) = if ltb expires t then none else some v

  -- What a read at time `t` finds.
  abbrev pub live : ℕ → Cache V → String → Option V
  live t c key = elim (Dict.get key c) [ none ↦ none | some e ↦ fresh_at t e ]

  unfoldable pub get : String → ℕ → Cache V → Option V × Cache V
  get key t c = elim (Dict.get key c) [
    | none ↦ (none, c)
    | some (v, expires) ↦ if ltb expires t then (none, Dict.pop key c) else (some v, c)
  ]

  unfoldable pub set : String → V → ℕ → ℕ → Cache V → Cache V
  set key v ttl t c = Dict.set key (v, t + ttl) c

  unfoldable pub delete : String → Cache V → Cache V
  delete key c = Dict.pop key c

  -- The loop of `scan` over the items: the cache that is left, and what was found.
  unfoldable pub scan_items :
      String → ℕ → List (String × (V × ℕ)) → Cache V → Cache V × List (String × V)
  scan_items prefix t [] c = (c, [])
  scan_items prefix t ((key, (v, expires)) ∷ items) c =
      let expired = scan_items prefix t items (Dict.pop key c) in
      let kept = scan_items prefix t items c in
      if ltb expires t
      then expired
      else if starts_with key prefix
      then (kept.0, (key, v) ∷ kept.1)
      else kept

  unfoldable pub scan : String → ℕ → Cache V → Cache V × List (String × V)
  unfolding scan_items
  scan prefix t c = scan_items prefix t c c

  -- A read returns what is live.
  pub get-live : (key : String) (t : ℕ) (c : Cache V) → (get key t c).0 ≡ live t c key
  unfolding get
  get-live key t c = ground arith

  -- Purging an expired entry hides nothing from a read at that time or later.
  pub live-get :
      (key : String) (t u : ℕ) (c : Cache V) (j : String)
      → t ≤ u
      → live u (get key t c).1 j ≡ live u c j
  unfolding get
  live-get key t u c j h = ground (arith, get-pop key j c, ==_iff key j)

  pub live-set :
      (key : String) (v : V) (ttl t u : ℕ) (c : Cache V) (j : String)
      → live u (set key v ttl t c) j
        ≡ (if key == j then (if ltb (t + ttl) u then none else some v) else live u c j)
  unfolding set
  live-set key v ttl t u c j = ground (arith, get-set key j (v, t + ttl) c)
