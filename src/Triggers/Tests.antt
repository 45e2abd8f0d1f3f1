-- ===== src/Triggers/Tests.antt =====
-- The trigger engine's theorems at a concrete site: a missing helmet seen by one camera.
use field_pilot_ai_submissio.Common.{
  if◌then◌else◌, ◌++◌, ℕ, ◌≡◌, refl, true, none, some, String, [], ◌∷◌, List, arith, text_equality,
  ◌≤◌, ◌+◌, le→ltb,
}
use field_pilot_ai_submissio.Events.Value.{Value}
use field_pilot_ai_submissio.Events.Schema.{Event, EventType, Severity, dedup_key}
use field_pilot_ai_submissio.Common.Dict
use field_pilot_ai_submissio.Triggers.Cache
use field_pilot_ai_submissio.Triggers.Alert.{Alert, AlertState, open_alert, message_of}
use field_pilot_ai_submissio.Triggers.World.{Config, World, Clock, alert_new}
use field_pilot_ai_submissio.Triggers.Engine.{process}
use field_pilot_ai_submissio.Triggers.Operator.{suppress, unsuppress}
use field_pilot_ai_submissio.Triggers.Sweep.{sweep_once}
use field_pilot_ai_submissio.Triggers.Tracked.{tracked, kept}
use field_pilot_ai_submissio.Triggers.Detection.{process-tracked}
use field_pilot_ai_submissio.Triggers.Merging.{Merged, process-Merged}
use field_pilot_ai_submissio.Triggers.Burst.{
  Detection, detect_all, detect_all_once, detect_all_silent,
}
use field_pilot_ai_submissio.Triggers.Invariant.{Inv}
use field_pilot_ai_submissio.Triggers.Runs.{run, run-Inv, Op, detects, sweeps, resolves}
use field_pilot_ai_submissio.Triggers.Sweeping.{swept, sweep_once-tracked}
use field_pilot_ai_submissio.Triggers.World.{alert_updated}
use field_pilot_ai_submissio.Triggers.Suppression.{released, unsuppress-suppress}

abbrev no_text : Value → String
no_text v = "?"

abbrev no_helmet : Event
no_helmet = record {
  event_id = "e1";
  worker_id = some "w-1";
  camera_id = "cam-1";
  zone = some "zone-a";
  timestamp = 1000;
  event_type = EventType.ppe;
  confidence = 900;
  severity = Severity.high;
  payload = ("ppe_item", Value.text "helmet") ∷ [];
  image_url = none;
  video_url = none;
}

abbrev cfg : Config
cfg = record {
  dedup_window = 45000;
  resolve_after = 90000;
  cache_ttl = 21600000;
  has_bus = true;
  has_sink = true;
}

abbrev clock : ℕ → Clock
clock n = record { now = n; cache_now = n }

abbrev empty_world : World
empty_world = record { cache = []; published = []; sunk = [] }

abbrev helmet_key : String
helmet_key = "ppe:w-1:zone-a:helmet"

helmet_key_lem : dedup_key no_text no_helmet ≡ helmet_key
unfolding dedup_key Dict.get
helmet_key_lem = refl

abbrev detection : ℕ → Detection
detection n = record { clock = clock n; fresh = "a1"; event = no_helmet }

abbrev helmet_alert : Alert
helmet_alert = record {
  alert_id = "a1";
  dedup_key = helmet_key;
  event_type = EventType.ppe;
  worker_id = some "w-1";
  camera_id = "cam-1";
  zone = some "zone-a";
  severity = Severity.high;
  state = AlertState.new;
  hit_count = 1;
  confidence = 900;
  first_seen = 1000;
  last_seen = 1000;
  resolved_at = none;
  suppressed_at = none;
  message = "ppe detected";
  payload = ("ppe_item", Value.text "helmet") ∷ [];
  image_url = none;
  video_url = none;
}

abbrev open_world : World
open_world = record {
  cache = ("alert:ppe:w-1:zone-a:helmet", (helmet_alert, 21601000)) ∷ [];
  published = (alert_new, helmet_alert) ∷ [];
  sunk = helmet_alert ∷ [];
}

first_detection : (process cfg (clock 1000) no_text "a1" no_helmet empty_world).0 ≡ open_world
unfolding process open_alert dedup_key Cache.get Cache.set Dict.get Dict.set message_of
first_detection = refl

open_world-Inv : Inv 1000 open_world
unfolding Dict.get
open_world-Inv = record {
  valid = (
    record {
      keyed = refl;
      counted = omega arith;
      ordered = omega arith;
      past = omega arith;
      closed = λ e. cc;
      hushed = λ e. cc;
      unopened = λ e. refl;
    },
    tt,
  );
  unique = (refl, tt);
}

open_world-Holds :
    (u : ℕ) → 1000 ≤ u → u ≤ 21601000 → tracked u open_world helmet_key ≡ some helmet_alert
unfolding Dict.get
open_world-Holds u h k = rw (le→ltb 21601000 u k)

process-tracked_example :
    tracked 31000 (process cfg (clock 30000) no_text "a2" no_helmet open_world).0 helmet_key
    ≡ kept cfg
        (clock 30000)
        31000
        (process cfg (clock 30000) no_text "a2" no_helmet open_world).1.alert
unfolding dedup_key Dict.get
process-tracked_example =
    process-tracked cfg (clock 30000) no_text "a2" no_helmet open_world 31000 helmet_key
      (omega arith)

process-Merged_example :
    Merged helmet_alert
      (process cfg (clock 30000) no_text "a2" no_helmet open_world).1.alert
      no_helmet
      30000
unfolding dedup_key Dict.get
process-Merged_example =
    process-Merged cfg (clock 30000) no_text "a2" no_helmet open_world helmet_alert refl

detect_all_silent_example :
    ((detect_all cfg no_text (detection 30000 ∷ detection 70000 ∷ []) open_world).published
      ≡ (alert_new, helmet_alert) ∷ [])
    × ((a : Alert) × (tracked 70000
            (detect_all cfg no_text (detection 30000 ∷ detection 70000 ∷ []) open_world)
            helmet_key
          ≡ some a)
        × (a.alert_id ≡ "a1")
        × (a.state ≡ AlertState.new)
        × (a.hit_count ≡ 1 + 2))
unfolding dedup_key Dict.get
detect_all_silent_example =
    detect_all_silent cfg no_text (detection 30000 ∷ detection 70000 ∷ []) helmet_key helmet_alert
      1000 open_world open_world-Holds
      (
        refl,
        omega arith,
        omega arith,
        omega arith,
        (refl, omega arith, omega arith, omega arith, tt),
      )

detect_all_once_example :
    (detect_all cfg no_text (detection 1000 ∷ detection 30000 ∷ []) empty_world).published
    ≡ (alert_new, open_alert no_text "a1" 1000 no_helmet) ∷ []
unfolding Dict.get
detect_all_once_example =
    detect_all_once cfg no_text (detection 1000) (detection 30000 ∷ []) empty_world refl refl
      (refl, omega arith, omega arith, omega arith, tt)

abbrev shift : List (Clock × Op)
shift =
    (clock 30000, detects "a2" no_helmet)
    ∷ (clock 200000, sweeps)
    ∷ (clock 201000, detects "a3" no_helmet)
    ∷ (clock 202000, resolves helmet_key)
    ∷ []

run-Inv_example : Inv 202000 (run cfg no_text shift open_world)
run-Inv_example =
    run-Inv cfg no_text shift 1000 open_world
      (omega arith, (omega arith, (omega arith, (omega arith, tt)))) open_world-Inv

sweep_once-tracked_example :
    tracked 100000 (sweep_once cfg (clock 100000) open_world).0 helmet_key
    ≡ swept cfg (clock 100000) 100000 (some helmet_alert) (some helmet_alert)
unfolding Dict.get
sweep_once-tracked_example =
    sweep_once-tracked cfg (clock 100000) open_world 100000 helmet_key (omega arith) later
  where
    later : Inv 100000 open_world
    later = record {
      valid = (
        record {
          keyed = refl;
          counted = omega arith;
          ordered = omega arith;
          past = omega arith;
          closed = λ e. cc;
          hushed = λ e. cc;
          unopened = λ e. refl;
        },
        tt,
      );
      unique = (refl, tt);
    }

unsuppress-suppress_example :
    let hushed_world = (suppress cfg (clock 2000) helmet_key open_world).0 in
    let (after, result) = unsuppress cfg (clock 3000) helmet_key hushed_world in
    (result ≡ some (released helmet_alert))
    × ((tracked 4000 after helmet_key ≡ some (released helmet_alert))
        × (after.published ≡ (
            if cfg.has_bus
            then hushed_world.published ++ ((alert_updated, released helmet_alert) ∷ [])
            else hushed_world.published)))
unfolding Dict.get
unsuppress-suppress_example =
    unsuppress-suppress cfg (clock 2000) (clock 3000) 4000 helmet_key open_world helmet_alert refl
      (omega arith) (omega arith)
