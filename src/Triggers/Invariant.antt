-- ===== src/Triggers/Invariant.antt =====
-- What holds of the alerts in the trigger engine's cache, after any run of its operations.
use field_pilot_ai_submissio.Common.{
  ℕ, ◌+◌, ◌≤◌, ◌≡◌, refl, Option, true, none, some, String, text_equality, arith, ltb, All, is_some,
  inl, inr, Option-cases, Bool-cases,
}
use field_pilot_ai_submissio.Common.Dict.{Unique, All-pop, All-set, All-get, Unique-pop, Unique-set}
use field_pilot_ai_submissio.Common.Dict
use field_pilot_ai_submissio.Events.Value.{Value}
use field_pilot_ai_submissio.Events.Schema.{Event, dedup_key}
use field_pilot_ai_submissio.Triggers.Cache
use field_pilot_ai_submissio.Triggers.Alert.{Alert, AlertState, merge, open_alert}
use field_pilot_ai_submissio.Triggers.World.{
  Topic, Config, World, Clock, cache_key, save, emit, fetch,
}
use field_pilot_ai_submissio.Triggers.Engine.{
  on_suppressed, on_resolved, on_tracked, on_cached, on_missing, process, confirm,
}
use field_pilot_ai_submissio.Triggers.Operator.{is_resolved, resolve}

-- An alert at its place in the cache: its own key, a consistent history, and the times that its
-- state calls for.
pub record IsValid (now : ℕ) (key : String) (a : Alert) : Type 0 where
  pub keyed : key ≡ cache_key a.dedup_key
  pub counted : 1 ≤ a.hit_count
  pub ordered : a.first_seen ≤ a.last_seen
  pub past : a.last_seen ≤ now
  pub closed : a.state ≡ AlertState.resolved → is_some a.resolved_at ≡ true
  pub hushed : a.state ≡ AlertState.suppressed → is_some a.suppressed_at ≡ true
  pub unopened : a.state ≡ AlertState.new → a.resolved_at ≡ none

abbrev pub Entries : ℕ → World → Type 0
Entries now w = All (λ e. IsValid now e.0 e.1.0) w.cache

pub record Inv (now : ℕ) (w : World) : Type 0 where
  pub valid : Entries now w
  pub unique : Unique w.cache

confirm-resolved : (s : AlertState) → confirm s ≡ AlertState.resolved → s ≡ AlertState.resolved
confirm-resolved AlertState.new e = cc
confirm-resolved s e = e

confirm-suppressed :
    (s : AlertState) → confirm s ≡ AlertState.suppressed → s ≡ AlertState.suppressed
confirm-suppressed AlertState.new e = cc
confirm-suppressed s e = e

confirm-ne-new : (s : AlertState) → ¬ (confirm s ≡ AlertState.new)
confirm-ne-new AlertState.new e = cc
confirm-ne-new _ e = cc

module _ (cfg : Config) (t : Clock) where
  pub fetch-Inv : (key : String) (w : World) → Inv t.now w → Inv t.now (fetch cfg t key w).1
  unfolding fetch Cache.get
  fetch-Inv key w v = elim (Option-cases (Dict.get key w.cache)) [
    | inl e ↦ rw (e, fetch, Cache.get) (record { valid = v.valid; unique = v.unique })
    | inr ((a, expires), e) ↦ elim (Bool-cases (ltb expires t.cache_now)) [
      | inl gone ↦
          rw (e, gone, fetch, Cache.get)
            (record {
              valid = All-pop (λ e. IsValid t.now e.0 e.1.0) key w.cache v.valid;
              unique = Unique-pop key w.cache v.unique;
            })
      | inr here ↦ rw (e, here, fetch, Cache.get) (record { valid = v.valid; unique = v.unique })
    ]
  ]

  pub fetch-IsValid :
      (key : String) (w : World) {a : Alert}
      → Inv t.now w
      → (fetch cfg t key w).0 ≡ some a
      → IsValid t.now key a
  unfolding fetch Cache.get
  fetch-IsValid key w {a} v h = elim (Option-cases (Dict.get key w.cache)) [
    | inl e ↦ absurd (ground arith)
    | inr ((b, expires), e) ↦
        let same : b ≡ a = ground arith in
        rw same at (All-get (λ e. IsValid t.now e.0 e.1.0) key w.cache v.valid e)
  ]

  save-Inv :
      (key : String) (a : Alert) (w : World)
      → IsValid t.now key a
      → Inv t.now w
      → Inv t.now (save cfg t key a w)
  unfolding save Cache.set
  save-Inv key a w h v = record {
    valid = All-set (λ e. IsValid t.now e.0 e.1.0) key _ w.cache h v.valid;
    unique = Unique-set key _ w.cache v.unique;
  }

  emit-Inv :
      (topic : Topic) (a : Alert) (w : World) → Inv t.now w → Inv t.now (emit cfg t topic a w)
  unfolding emit
  emit-Inv topic a w v = elim (Bool-cases cfg.has_bus) [
    | inl on ↦ rw on (record { valid = v.valid; unique = v.unique })
    | inr off ↦ rw off v
  ]

  merge-IsValid :
      (key : String) (a : Alert) (event : Event)
      → IsValid t.now key a
      → IsValid t.now key (merge a event t.now)
  unfolding merge
  merge-IsValid key a event v = record {
    keyed = v.keyed;
    counted = omega arith;
    ordered = omega (arith, v.ordered, v.past);
    past = omega arith;
    closed = v.closed;
    hushed = v.hushed;
    unopened = v.unopened;
  }

  open_alert-IsValid :
      (repr : Value → String) (fresh : String) (event : Event)
      → IsValid t.now (cache_key (dedup_key repr event)) (open_alert repr fresh t.now event)
  unfolding open_alert
  open_alert-IsValid repr fresh event = record {
    keyed = refl;
    counted = omega arith;
    ordered = omega arith;
    past = omega arith;
    closed = λ e. cc;
    hushed = λ e. cc;
    unopened = λ e. refl;
  }

  -- A change of state keeps an alert valid, if it sets the time that the state calls for.
  pub restated-IsValid :
      (key : String) (a : Alert) (s : AlertState) (closed hushed : Option ℕ)
      → IsValid t.now key a
      → (s ≡ AlertState.resolved → is_some closed ≡ true)
      → (s ≡ AlertState.suppressed → is_some hushed ≡ true)
      → (s ≡ AlertState.new → closed ≡ none)
      → IsValid t.now key (record a { state = s; resolved_at = closed; suppressed_at = hushed })
  restated-IsValid key a s closed hushed v p q r = record {
    keyed = v.keyed;
    counted = v.counted;
    ordered = v.ordered;
    past = v.past;
    closed = p;
    hushed = q;
    unopened = r;
  }

  confirm-IsValid :
      (key : String) (a : Alert)
      → IsValid t.now key a
      → IsValid t.now key (record a { state = confirm a.state })
  confirm-IsValid key a v =
      restated-IsValid key a (confirm a.state) a.resolved_at a.suppressed_at v
        (λ e. v.closed (confirm-resolved a.state e)) (λ e. v.hushed (confirm-suppressed a.state e))
        (λ e. absurd (confirm-ne-new a.state e))

  on_tracked-Inv :
      (key : String) (event : Event) (a : Alert) (w : World)
      → IsValid t.now key a
      → Inv t.now w
      → Inv t.now (on_tracked cfg t key event a w).0
  unfolding on_tracked
  on_tracked-Inv key event a w h v =
      elim (Bool-cases (ltb t.now (a.last_seen + cfg.dedup_window))) [
        | inl soon ↦ rw soon (save-Inv key _ w (merge-IsValid key a event h) v)
        | inr late ↦ rw late (
            emit-Inv _ _ _
              (save-Inv key _ w (confirm-IsValid key _ (merge-IsValid key a event h)) v))
      ]

  on_cached-Inv :
      (s : AlertState) (key : String) (event : Event) (a : Alert) (w : World)
      → IsValid t.now key a
      → Inv t.now w
      → Inv t.now (on_cached cfg t s key event a w).0
  unfolding on_cached on_suppressed on_resolved
  on_cached-Inv AlertState.suppressed key event a w h v =
      save-Inv key _ w (merge-IsValid key a event h) v
  on_cached-Inv AlertState.resolved key event a w h v = emit-Inv _ _ _ (
      save-Inv key _ w
        (merge-IsValid key _ event (
          restated-IsValid key a AlertState.active none a.suppressed_at h (λ e. cc) (λ e. cc)
            (λ e. cc)))
        v)
  on_cached-Inv _ key event a w h v = on_tracked-Inv key event a w h v

  pub process-Inv :
      (repr : Value → String) (fresh : String) (event : Event) (w : World)
      → Inv t.now w
      → Inv t.now (process cfg t repr fresh event w).0
  unfolding process on_missing
  process-Inv repr fresh event w v =
      let key = cache_key (dedup_key repr event) in
      let v' = fetch-Inv key w v in
      elim (Option-cases (fetch cfg t key w).0) [
        | inl e ↦
            rw (e, process)
              (emit-Inv _ _ _ (save-Inv key _ _ (open_alert-IsValid repr fresh event) v'))
        | inr (a, e) ↦
            rw (e, process) (on_cached-Inv a.state key event a _ (fetch-IsValid key w v e) v')
      ]

  -- The shape of the operators' actions: what is saved and sent if the alert is there.
  pub acted-Inv :
      (topic : Topic) (key : String) (w : World) (a : Alert)
      → IsValid t.now key a
      → Inv t.now w
      → Inv t.now (emit cfg t topic a (save cfg t key a w))
  acted-Inv topic key w a h v = emit-Inv topic a _ (save-Inv key a w h v)

  pub resolve-Inv : (key : String) (w : World) → Inv t.now w → Inv t.now (resolve cfg t key w).0
  unfolding resolve
  resolve-Inv key w v =
      let v' = fetch-Inv (cache_key key) w v in
      elim (Option-cases (fetch cfg t (cache_key key) w).0) [
        | inl e ↦ rw (e, resolve) v'
        | inr (a, e) ↦ elim (Bool-cases (is_resolved a.state)) [
          | inl done ↦ rw (e, resolve, done) v'
          | inr undone ↦
              rw (e, resolve, undone)
                (acted-Inv _ _ _ _
                  (restated-IsValid _ a AlertState.resolved (some t.now) a.suppressed_at
                    (fetch-IsValid _ w v e) (λ e. refl) (λ e. cc) (λ e. cc))
                  v')
        ]
      ]
