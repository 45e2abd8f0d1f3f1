-- ===== src/Triggers/Sweep.antt =====
-- fieldpilot/triggers/engine.py: listing the tracked alerts, and the automatic resolution.
use field_pilot_ai_submissio.Common.{
  ◌+◌, Option, none, some, Bool, true, false, List, [], ◌∷◌, map, ◌&&◌, text_equality, String, leb,
  if◌then◌else◌,
}
use field_pilot_ai_submissio.Triggers.Cache
use field_pilot_ai_submissio.Triggers.Cache.{Cache}
use field_pilot_ai_submissio.Triggers.Alert.{Alert, AlertState}
use field_pilot_ai_submissio.Triggers.World.{Config, World, Clock}
use field_pilot_ai_submissio.Triggers.Operator.{resolve}

abbrev pub is_open : AlertState → Bool
is_open AlertState.new = true
is_open AlertState.active = true
is_open _ = false

abbrev listed : Option Alert → List Alert → List Alert
listed none rest = rest
listed (some a) rest = a ∷ rest

module _ (cfg : Config) (t : Clock) where
  abbrev scanned : World → World × List (String × Alert)
  scanned w =
      let (rest, items) = Cache.scan "alert:" t.cache_now w.cache in
      (record w { cache = rest }, items)

  unfoldable pub list_tracked : World → World × List Alert
  list_tracked w = let (w', items) = scanned w in (w', map (λ e. e.1) items)

  -- An open alert that no detection has touched for `resolve_after`.
  abbrev pub is_stale : Alert → Bool
  is_stale alert = is_open alert.state && leb (alert.last_seen + cfg.resolve_after) t.now

  -- The loop of `sweep_once` over what the scan found.
  unfoldable pub sweep_items : List (String × Alert) → World → World × List Alert
  sweep_items [] w = (w, [])
  sweep_items ((_, alert) ∷ items) w =
      let (w', out) = resolve cfg t alert.dedup_key w in
      let stale = sweep_items items w' in
      let rest = sweep_items items w in
      if is_stale alert then (stale.0, listed out stale.1) else rest

  unfoldable pub sweep_once : World → World × List Alert
  unfolding sweep_items
  sweep_once w = let (w', items) = scanned w in sweep_items items w'
