-- ===== src/Triggers/World.antt =====
-- The surroundings of fieldpilot/triggers/engine.py's TriggerEngine. An operation takes the state of the
-- engine's surroundings (the cache, the messages put on the bus, the alerts handed to the sink) and
-- returns the state after it. The clocks are read once for each operation: `now` is the engine's,
-- `cache_now` the cache's.
use field_pilot_ai_submissio.Common.{
  ℕ, Option, Bool, List, [], ◌∷◌, ◌++◌, text_equality, String, if◌then◌else◌,
}
use field_pilot_ai_submissio.Triggers.Cache
use field_pilot_ai_submissio.Triggers.Cache.{Cache}
use field_pilot_ai_submissio.Triggers.Alert.{Alert}
use Prim.Native.String.{◌++◌ as join}

pub data Topic : Type 0 where
  alert_new alert_updated alert_resolved : Topic

pub record Config : Type 0 where
  pub dedup_window : ℕ
  pub resolve_after : ℕ
  pub cache_ttl : ℕ
  pub has_bus : Bool
  pub has_sink : Bool

pub record World : Type 0 where
  pub cache : Cache Alert
  pub published : List (Topic × Alert)
  pub sunk : List Alert

pub record Clock : Type 0 where
  pub now : ℕ
  pub cache_now : ℕ

abbrev pub cache_key : String → String
cache_key key = join "alert:" key

module _ (cfg : Config) (t : Clock) where
  unfoldable pub save : String → Alert → World → World
  save key alert w = record w {
    cache = Cache.set key alert cfg.cache_ttl t.cache_now w.cache;
    sunk = if cfg.has_sink then w.sunk ++ alert ∷ [] else w.sunk;
  }

  unfoldable pub emit : Topic → Alert → World → World
  emit topic alert w =
      if cfg.has_bus then record w { published = w.published ++ (topic, alert) ∷ [] } else w

  -- `await self.cache.get(key)`
  unfoldable pub fetch : String → World → Option Alert × World
  fetch key w =
      let (found, rest) = Cache.get key t.cache_now w.cache in (found, record w { cache = rest })
