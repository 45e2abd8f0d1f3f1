-- ===== src/Triggers/Tracked.antt =====
-- What a later read of the trigger engine's cache finds, after each of the engine's basic steps.
use field_pilot_ai_submissio.Common.{
  ℕ, ◌+◌, ◌≤◌, ◌≡◌, refl, ap, Option, none, some, String, text_equality, if◌then◌else◌, ◌==◌,
  ==_iff, [], ◌∷◌, ◌++◌, arith, ltb, le→ltb, ◌∙◌,
}
use field_pilot_ai_submissio.Triggers.Cache
use field_pilot_ai_submissio.Triggers.Cache.{live-get, live-set, get-live}
use field_pilot_ai_submissio.Triggers.Alert.{Alert}
use field_pilot_ai_submissio.Triggers.World.{
  Topic, Config, World, Clock, cache_key, save, emit, fetch,
}
use text.Mathlib.TextLemmas.{append_cancel_left}

-- The alert that a read of the cache at time `u` finds for an issue.
abbrev pub tracked : ℕ → World → String → Option Alert
tracked u w key = Cache.live u w.cache (cache_key key)

-- Different issues have different places in the cache.
pub cache_key_beq : (a b : String) → (cache_key a == cache_key b) ≡ (a == b)
cache_key_beq a b = ground (
  arith,
  ==_iff (cache_key a) (cache_key b),
  ==_iff a b,
  append_cancel_left "alert:" a b,
  λ (p : a ≡ b). ap cache_key p,
)

-- What a read at time `u` finds of an alert that was saved at `t`.
abbrev pub kept : Config → Clock → ℕ → Alert → Option Alert
kept cfg t u alert = if ltb (t.cache_now + cfg.cache_ttl) u then none else some alert

pub kept-some :
    (cfg : Config) (t : Clock) (u : ℕ) (alert : Alert)
    → u ≤ t.cache_now + cfg.cache_ttl
    → kept cfg t u alert ≡ some alert
kept-some cfg t u alert h = rw (le→ltb (t.cache_now + cfg.cache_ttl) u h)

module _ (cfg : Config) (t : Clock) where
  pub tracked-save :
      (key : String) (alert : Alert) (w : World) (u : ℕ) (j : String)
      → tracked u (save cfg t (cache_key key) alert w) j
        ≡ (if key == j then kept cfg t u alert else tracked u w j)
  unfolding save
  tracked-save key alert w u j =
      live-set (cache_key key) alert cfg.cache_ttl t.cache_now u w.cache (cache_key j)
      ∙ rw (cache_key_beq key j)

  pub tracked-emit :
      (topic : Topic) (alert : Alert) (w : World) (u : ℕ) (j : String)
      → tracked u (emit cfg t topic alert w) j ≡ tracked u w j
  unfolding emit
  tracked-emit topic alert w u j = ground arith

  pub tracked-fetch :
      (key : String) (w : World) (u : ℕ) (j : String)
      → t.cache_now ≤ u
      → tracked u (fetch cfg t key w).1 j ≡ tracked u w j
  unfolding fetch
  tracked-fetch key w u j h = live-get key t.cache_now u w.cache (cache_key j) h

  pub fetch-tracked :
      (key : String) (w : World) → (fetch cfg t (cache_key key) w).0 ≡ tracked t.cache_now w key
  unfolding fetch
  fetch-tracked key w = get-live (cache_key key) t.cache_now w.cache

  pub published-fetch : (key : String) (w : World) → (fetch cfg t key w).1.published ≡ w.published
  unfolding fetch
  published-fetch key w = refl

  pub published-save :
      (key : String) (alert : Alert) (w : World) → (save cfg t key alert w).published ≡ w.published
  unfolding save
  published-save key alert w = refl

  pub published-emit :
      (topic : Topic) (alert : Alert) (w : World)
      → (emit cfg t topic alert w).published
        ≡ (if cfg.has_bus then w.published ++ (topic, alert) ∷ [] else w.published)
  unfolding emit
  published-emit topic alert w = ground arith
