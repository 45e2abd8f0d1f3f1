-- ===== src/Triggers/Suppression.antt =====
-- Suppressing an issue and taking the suppression back.
use field_pilot_ai_submissio.Common.{
  ℕ, ◌≤◌, ◌+◌, ◌≡◌, refl, ◌∙◌, if◌then◌else◌, [], ◌∷◌, ◌++◌, some, String, text_equality, ==_refl,
  none,
}
use field_pilot_ai_submissio.Triggers.Alert.{Alert, AlertState}
use field_pilot_ai_submissio.Triggers.World.{
  alert_updated, Config, World, Clock, cache_key, save, fetch,
}
use field_pilot_ai_submissio.Triggers.Operator.{suppress, unsuppress}
use field_pilot_ai_submissio.Triggers.Tracked.{
  tracked, kept-some, tracked-save, tracked-emit, fetch-tracked, published-emit,
}

-- The alert under suppression, and after it.
abbrev pub hushed : Clock → Alert → Alert
hushed t a = record a { state = AlertState.suppressed; suppressed_at = some t.now }

abbrev pub released : Alert → Alert
released a = record a { state = AlertState.active; suppressed_at = none }

module _ (cfg : Config) where
  tracked-suppress :
      (t : Clock) (key : String) (w : World) (a : Alert)
      → tracked t.cache_now w key ≡ some a
      → (u : Clock) → u.cache_now ≤ t.cache_now + cfg.cache_ttl
      → tracked u.cache_now (suppress cfg t key w).0 key ≡ some (hushed t a)
  unfolding suppress
  tracked-suppress t key w a e u h =
      let w' = (fetch cfg t (cache_key key) w).1 in
      rw (fetch-tracked cfg t key w ∙ e, suppress)
        (tracked-emit cfg t alert_updated (hushed t a) (save cfg t (cache_key key) (hushed t a) w')
            u.cache_now key
          ∙ tracked-save cfg t key (hushed t a) w' u.cache_now key
          ∙ rw (==_refl key, kept-some cfg t u.cache_now (hushed t a) h))

  unsuppress-released :
      (t : Clock) (key : String) (w : World) (a : Alert)
      → tracked t.cache_now w key ≡ some a
      → a.state ≡ AlertState.suppressed
      → (unsuppress cfg t key w).1 ≡ some (released a)
  unfolding unsuppress
  unsuppress-released t key w a e s = rw (fetch-tracked cfg t key w ∙ e, unsuppress, s)

  tracked-unsuppress :
      (t : Clock) (key : String) (w : World) (a : Alert)
      → tracked t.cache_now w key ≡ some a
      → a.state ≡ AlertState.suppressed
      → (u : ℕ) → u ≤ t.cache_now + cfg.cache_ttl
      → tracked u (unsuppress cfg t key w).0 key ≡ some (released a)
  unfolding unsuppress
  tracked-unsuppress t key w a e s u h =
      let w' = (fetch cfg t (cache_key key) w).1 in
      rw (fetch-tracked cfg t key w ∙ e, unsuppress, s)
        (tracked-emit cfg t alert_updated (released a) (save cfg t (cache_key key) (released a) w')
            u key
          ∙ tracked-save cfg t key (released a) w' u key
          ∙ rw (==_refl key, kept-some cfg t u (released a) h))

  published-unsuppress :
      (t : Clock) (key : String) (w : World) (a : Alert)
      → tracked t.cache_now w key ≡ some a
      → a.state ≡ AlertState.suppressed
      → (unsuppress cfg t key w).0.published
        ≡ (if cfg.has_bus then w.published ++ ((alert_updated, released a) ∷ []) else w.published)
  unfolding unsuppress
  published-unsuppress t key w a e s =
      let w' = (fetch cfg t (cache_key key) w).1 in
      rw (fetch-tracked cfg t key w ∙ e, unsuppress, s)
        (published-emit cfg t alert_updated (released a)
          (save cfg t (cache_key key) (released a) w'))

  -- Suppressing a tracked issue and taking that back, while the cache keeps it, always ends in an
  -- active alert, whatever its state was: it is returned, it is what the cache then holds for as
  -- long as it keeps it, and it goes out on the bus if there is one; all else of the alert is as
  -- it was, so that an issue that was resolved is active again and still has the time of its
  -- resolution.
  pub unsuppress-suppress :
      (t u : Clock) (later : ℕ) (key : String) (w : World) (a : Alert)
      → tracked t.cache_now w key ≡ some a
      → u.cache_now ≤ t.cache_now + cfg.cache_ttl
      → later ≤ u.cache_now + cfg.cache_ttl
      → let hushed_world = (suppress cfg t key w).0 in
        let (after, result) = unsuppress cfg u key hushed_world in
        (result ≡ some (released a))
        × ((tracked later after key ≡ some (released a))
            × (after.published ≡ (
                if cfg.has_bus
                then hushed_world.published ++ ((alert_updated, released a) ∷ [])
                else hushed_world.published)))
  unsuppress-suppress t u later key w a e h g =
      let held = tracked-suppress t key w a e u h in
      let hushed_world = (suppress cfg t key w).0 in
      (
        unsuppress-released u key hushed_world (hushed t a) held refl,
        (
          tracked-unsuppress u key hushed_world (hushed t a) held refl later g,
          published-unsuppress u key hushed_world (hushed t a) held refl,
        ),
      )
