-- ===== src/Triggers/Runs.antt =====
-- Runs of the trigger engine's operations, in any order, and what every run keeps.
use field_pilot_ai_submissio.Common.{
  ℕ, ◌≤◌, refl, none, some, String, text_equality, List, [], ◌∷◌, arith, ltb, All, inl, inr,
  Option-cases, Bool-cases,
}
use field_pilot_ai_submissio.Common.Dict.{Unique, All-pop, Unique-pop}
use field_pilot_ai_submissio.Common.Dict
use field_pilot_ai_submissio.Events.Value.{Value}
use field_pilot_ai_submissio.Events.Schema.{Event}
use field_pilot_ai_submissio.Triggers.Cache
use field_pilot_ai_submissio.Triggers.Cache.{Cache}
use field_pilot_ai_submissio.Triggers.Alert.{Alert, AlertState}
use field_pilot_ai_submissio.Triggers.World.{Config, World, Clock, cache_key, fetch}
use field_pilot_ai_submissio.Triggers.Engine.{process}
use field_pilot_ai_submissio.Triggers.Operator.{
  is_suppressed, resolve, suppress, unsuppress, find, set_verdict,
}
use field_pilot_ai_submissio.Triggers.Sweep.{is_stale, list_tracked, sweep_once, sweep_items}
use field_pilot_ai_submissio.Triggers.Invariant.{
  IsValid, Inv, fetch-Inv, fetch-IsValid, acted-Inv, process-Inv, resolve-Inv, restated-IsValid,
}
use text.Mathlib.Text.{starts_with}

pub data Op : Type 0 where
  detects : String → Event → Op
  resolves suppresses unsuppresses looks : String → Op
  judges : String → Value → Op
  lists sweeps : Op

module _ (cfg : Config) (t : Clock) where
  suppress-Inv : (key : String) (w : World) → Inv t.now w → Inv t.now (suppress cfg t key w).0
  unfolding suppress
  suppress-Inv key w v =
      let v' = fetch-Inv cfg t (cache_key key) w v in
      elim (Option-cases (fetch cfg t (cache_key key) w).0) [
        | inl e ↦ rw (e, suppress) v'
        | inr (a, e) ↦
            rw (e, suppress)
              (acted-Inv cfg t _ _ _ _
                (restated-IsValid cfg t _ a AlertState.suppressed a.resolved_at (some t.now)
                  (fetch-IsValid cfg t _ w v e) (λ e. cc) (λ e. refl) (λ e. cc))
                v')
      ]

  unsuppress-Inv : (key : String) (w : World) → Inv t.now w → Inv t.now (unsuppress cfg t key w).0
  unfolding unsuppress
  unsuppress-Inv key w v =
      let v' = fetch-Inv cfg t (cache_key key) w v in
      elim (Option-cases (fetch cfg t (cache_key key) w).0) [
        | inl e ↦ rw (e, unsuppress) v'
        | inr (a, e) ↦ elim (Bool-cases (is_suppressed a.state)) [
          | inl hushed ↦
              rw (e, unsuppress, hushed)
                (acted-Inv cfg t _ _ _ _
                  (restated-IsValid cfg t _ a AlertState.active a.resolved_at none
                    (fetch-IsValid cfg t _ w v e) (λ e. cc) (λ e. cc) (λ e. cc))
                  v')
          | inr other ↦ rw (e, unsuppress, other) v'
        ]
      ]

  set_verdict-Inv :
      (key : String) (verdict : Value) (w : World)
      → Inv t.now w
      → Inv t.now (set_verdict cfg t key verdict w).0
  unfolding set_verdict
  set_verdict-Inv key verdict w v =
      let v' = fetch-Inv cfg t (cache_key key) w v in
      elim (Option-cases (fetch cfg t (cache_key key) w).0) [
        | inl e ↦ rw (e, set_verdict) v'
        | inr (a, e) ↦
            let h = fetch-IsValid cfg t _ w v e in
            rw (e, set_verdict)
              (acted-Inv cfg t _ _ _ _
                (record {
                  keyed = h.keyed;
                  counted = h.counted;
                  ordered = h.ordered;
                  past = h.past;
                  closed = h.closed;
                  hushed = h.hushed;
                  unopened = h.unopened;
                })
                v')
      ]

  find-Inv : (key : String) (w : World) → Inv t.now w → Inv t.now (find cfg t key w).0
  unfolding find
  find-Inv key w v = fetch-Inv cfg t (cache_key key) w v

  scan_items-Inv :
      (items : List (String × (Alert × ℕ))) (c : Cache Alert) (w : World)
      → Inv t.now (record w { cache = c })
      → Inv t.now (record w { cache = (Cache.scan_items "alert:" t.cache_now items c).0 })
  unfolding Cache.scan_items
  scan_items-Inv [] c w v = v
  scan_items-Inv ((key, (a, expires)) ∷ items) c w v = elim (Bool-cases (ltb expires t.cache_now)) [
    | inl gone ↦ rw gone (
        scan_items-Inv items (Dict.pop key c) w (record {
          valid = All-pop (λ e. IsValid t.now e.0 e.1.0) key c v.valid;
          unique = Unique-pop key c v.unique;
        }))
    | inr here ↦ elim (Bool-cases (starts_with key "alert:")) [
      | inl found ↦ rw (here, found) (scan_items-Inv items c w v)
      | inr other ↦ rw (here, other) (scan_items-Inv items c w v)
    ]
  ]

  scan-Inv :
      (w : World)
      → Inv t.now w
      → Inv t.now (record w { cache = (Cache.scan "alert:" t.cache_now w.cache).0 })
  unfolding Cache.scan
  scan-Inv w v = scan_items-Inv w.cache w.cache w (record { valid = v.valid; unique = v.unique })

  sweep_items-Inv :
      (items : List (String × Alert)) (w : World)
      → Inv t.now w
      → Inv t.now (sweep_items cfg t items w).0
  unfolding sweep_items
  sweep_items-Inv [] w v = v
  sweep_items-Inv ((_, a) ∷ items) w v = elim (Bool-cases (is_stale cfg t a)) [
    | inl stale ↦ rw stale (sweep_items-Inv items _ (resolve-Inv cfg t a.dedup_key w v))
    | inr other ↦ rw other (sweep_items-Inv items w v)
  ]

  sweep_once-Inv : (w : World) → Inv t.now w → Inv t.now (sweep_once cfg t w).0
  unfolding sweep_once
  sweep_once-Inv w v = sweep_items-Inv (Cache.scan "alert:" t.cache_now w.cache).1 _ (scan-Inv w v)

  -- One operation, whatever it returns.
  pub step : (Value → String) → Op → World → World
  step repr (detects fresh event) w = (process cfg t repr fresh event w).0
  step repr (resolves key) w = (resolve cfg t key w).0
  step repr (suppresses key) w = (suppress cfg t key w).0
  step repr (unsuppresses key) w = (unsuppress cfg t key w).0
  step repr (looks key) w = (find cfg t key w).0
  step repr (judges key verdict) w = (set_verdict cfg t key verdict w).0
  step repr lists w = (list_tracked cfg t w).0
  step repr sweeps w = (sweep_once cfg t w).0

  step-Inv :
      (repr : Value → String) (op : Op) (w : World) → Inv t.now w → Inv t.now (step repr op w)
  unfolding step list_tracked
  step-Inv repr (detects fresh event) w v = process-Inv cfg t repr fresh event w v
  step-Inv repr (resolves key) w v = resolve-Inv cfg t key w v
  step-Inv repr (suppresses key) w v = suppress-Inv key w v
  step-Inv repr (unsuppresses key) w v = unsuppress-Inv key w v
  step-Inv repr (looks key) w v = find-Inv key w v
  step-Inv repr (judges key verdict) w v = set_verdict-Inv key verdict w v
  step-Inv repr lists w v = scan-Inv w v
  step-Inv repr sweeps w v = sweep_once-Inv w v

Inv-later : (now later : ℕ) (w : World) → now ≤ later → Inv now w → Inv later w
Inv-later now later w h v = record { valid = all w.cache v.valid; unique = v.unique }
  where
    all :
        (c : Cache Alert)
        → All (λ e. IsValid now e.0 e.1.0) c
        → All (λ e. IsValid later e.0 e.1.0) c
    all [] p = tt
    all ((k, (a, x)) ∷ c) (p, q) = (
      record {
        keyed = p.keyed;
        counted = p.counted;
        ordered = p.ordered;
        past = omega (arith, p.past);
        closed = p.closed;
        hushed = p.hushed;
        unopened = p.unopened;
      },
      all c q,
    )

module _ (cfg : Config) (repr : Value → String) where
  pub run : List (Clock × Op) → World → World
  run [] w = w
  run ((t, op) ∷ ops) w = run ops (step cfg t repr op w)

  -- The engine's clock never goes back.
  abbrev pub Forward : ℕ → List (Clock × Op) → Type 0
  Forward now [] = Unit
  Forward now ((t, op) ∷ ops) = (now ≤ t.now) × Forward t.now ops

  abbrev pub last_time : ℕ → List (Clock × Op) → ℕ
  last_time now [] = now
  last_time now ((t, op) ∷ ops) = last_time t.now ops

  -- Whatever detections, operator actions, reads and sweeps come in, in any order, as long as the
  -- clock does not go back: every alert in the cache stands under the key of its own issue, each
  -- key once, with at least one hit and its first sighting no later than its last; a resolved
  -- alert has the time of its resolution, a suppressed one that of its suppression, and a new one
  -- none.
  pub run-Inv :
      (ops : List (Clock × Op)) (now : ℕ) (w : World)
      → Forward now ops
      → Inv now w
      → Inv (last_time now ops) (run ops w)
  unfolding run
  run-Inv [] now w f v = v
  run-Inv ((t, op) ∷ ops) now w (h, f) v =
      run-Inv ops t.now _ f (step-Inv cfg t repr op w (Inv-later now t.now w h v))
