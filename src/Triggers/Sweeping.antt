-- ===== src/Triggers/Sweeping.antt =====
-- What the automatic resolution does to each tracked issue, and what it says of it.
use field_pilot_ai_submissio.Common.{
  ℕ, ◌≤◌, ◌≡◌, refl, ap, sym, ◌∙◌, Option, true, false, none, some, String, text_equality,
  if◌then◌else◌, ◌==◌, ==_iff, List, [], ◌∷◌, ◌++◌, map, ◌&&◌, arith, All, inl, inr, Bool-cases,
}
use mathlib.Core.List.{append-nil, append_assoc}
use field_pilot_ai_submissio.Common.Dict.{Dict, Unique, Agrees, Agrees-self}
use field_pilot_ai_submissio.Common.Dict
use field_pilot_ai_submissio.Triggers.Cache
use field_pilot_ai_submissio.Triggers.Cache.{Cache}
use field_pilot_ai_submissio.Triggers.Alert.{Alert, AlertState}
use field_pilot_ai_submissio.Triggers.World.{
  Topic, alert_resolved, Config, World, Clock, cache_key, save, fetch,
}
use field_pilot_ai_submissio.Triggers.Operator.{is_resolved, resolve}
use field_pilot_ai_submissio.Triggers.Sweep.{is_stale, sweep_once, sweep_items}
use field_pilot_ai_submissio.Triggers.Tracked.{
  tracked, kept, cache_key_beq, tracked-save, tracked-emit, tracked-fetch, fetch-tracked,
  published-fetch, published-save, published-emit,
}
use field_pilot_ai_submissio.Triggers.Invariant.{IsValid, Inv}
use field_pilot_ai_submissio.Triggers.Scan.{get-scan, live-scan, Unique-scan, All-scan}
use text.Mathlib.Text.{starts_with}
use text.Mathlib.TextEquality.{starts_with_iff}
use text.Mathlib.TextLemmas.{prefix-append}

-- The alert as it stands when it is resolved at `now`.
abbrev pub settled : ℕ → Alert → Alert
settled now a = record a { state = AlertState.resolved; resolved_at = some now }

-- What a later read finds of an issue that a sweep met with the given alert.
abbrev pub swept : Config → Clock → ℕ → Option Alert → Option Alert → Option Alert
swept cfg t u none later = later
swept cfg t u (some a) later = if is_stale cfg t a then kept cfg t u (settled t.now a) else later

abbrev pub notices : List Alert → List (Topic × Alert)
notices = map (λ a. (alert_resolved, a))

module _ (cfg : Config) (t : Clock) where
  -- Resolving an issue whose alert is not resolved yet.
  record Resolves (key : String) (w : World) (a : Alert) (r : World × Option Alert) : Type 0 where
    result : r.1 ≡ some (settled t.now a)
    sent : r.0.published ≡ (
        if cfg.has_bus then w.published ++ (alert_resolved, settled t.now a) ∷ [] else w.published)
    found :
        (u : ℕ) (j : String)
        → t.cache_now ≤ u
        → tracked u r.0 j ≡ (if key == j then kept cfg t u (settled t.now a) else tracked u w j)

  resolve-Resolves :
      (key : String) (w : World) (a : Alert)
      → tracked t.cache_now w key ≡ some a
      → is_resolved a.state ≡ false
      → Resolves key w a (resolve cfg t key w)
  unfolding resolve
  resolve-Resolves key w a e n =
      let got = fetch-tracked cfg t key w ∙ e in
      let w' = (fetch cfg t (cache_key key) w).1 in
      let a' = settled t.now a in
      rw (got, resolve, n)
        (record {
          result = refl;
          sent =
              published-emit cfg t alert_resolved a' (save cfg t (cache_key key) a' w')
              ∙ rw (published-save, published-fetch);
          found = λ u j h.
              tracked-emit cfg t alert_resolved a' (save cfg t (cache_key key) a' w') u j
              ∙ tracked-save cfg t key a' w' u j
              ∙ rw (tracked-fetch cfg t (cache_key key) w u j h);
        })

  open-ne-resolved : (a : Alert) → is_stale cfg t a ≡ true → is_resolved a.state ≡ false
  open-ne-resolved a h = ground arith

  abbrev Keyed : List (String × Alert) → Type 0
  Keyed items = All (λ e. e.0 ≡ cache_key e.1.dedup_key) items

  -- The items are what the cache holds for their issues.
  abbrev Current : World → List (String × Alert) → Type 0
  Current w items = All (λ e. tracked t.cache_now w e.1.dedup_key ≡ some e.1) items

  -- Resolving an issue that is not among the items leaves them current.
  Current-resolve :
      (items : List (String × Alert)) (key : String) (w : World) (a : Alert)
      (r : World × Option Alert)
      → Resolves key w a r
      → Dict.get (cache_key key) items ≡ none
      → Keyed items
      → Current w items
      → Current r.0 items
  unfolding Dict.get
  Current-resolve [] key w a r h n ks c = tt
  Current-resolve ((k, b) ∷ items) key w a r h n (p, ks) (q, c) =
      let moved = h.found t.cache_now b.dedup_key (omega arith) in
      (
        ground (
          arith,
          moved,
          ==_iff k (cache_key key),
          ==_iff key b.dedup_key,
          λ (same : key ≡ b.dedup_key). ap cache_key same,
        ),
        Current-resolve items key w a r h (ground arith) ks c,
      )

  -- What the first item adds to what a later read finds of an issue.
  swept-cons :
      (k : String) (a : Alert) (items : List (String × Alert)) (key : String) (u : ℕ)
      (later before : Option Alert)
      → k ≡ cache_key a.dedup_key
      → Dict.get k items ≡ none
      → later ≡ (
          if is_stale cfg t a && a.dedup_key == key then kept cfg t u (settled t.now a) else before)
      → swept cfg t u (Dict.get (cache_key key) items) later
        ≡ swept cfg t u (Dict.get (cache_key key) ((k, a) ∷ items)) before
  unfolding Dict.get
  swept-cons k a items key u later before p n e =
      let here : (k == cache_key key) ≡ (a.dedup_key == key) =
        rw p (cache_key_beq a.dedup_key key) in
      elim (Bool-cases (a.dedup_key == key)) [
        | inl same ↦
            let gone : Dict.get (cache_key key) items ≡ none =
              rw ((==_iff k (cache_key key)).0 (here ∙ same)) at n in
            rw (gone, here, same, e, same) (ground arith)
        | inr other ↦ rw (here, other, e, other) (ground arith)
      ]

  sweep_items-tracked :
      (items : List (String × Alert)) (w : World) (u : ℕ) (key : String)
      → t.cache_now ≤ u
      → Unique items
      → Keyed items
      → Current w items
      → tracked u (sweep_items cfg t items w).0 key
        ≡ swept cfg t u (Dict.get (cache_key key) items) (tracked u w key)
  unfolding sweep_items
  sweep_items-tracked [] w u key h q ks c = unfold Dict.get in refl
  sweep_items-tracked ((k, a) ∷ items) w u key h (n, q) (p, ks) (x, c) =
      elim (Bool-cases (is_stale cfg t a)) [
        | inl stale ↦
            let r = resolve cfg t a.dedup_key w in
            let res = resolve-Resolves a.dedup_key w a x (open-ne-resolved a stale) in
            let absent : Dict.get (cache_key a.dedup_key) items ≡ none = rw p at n in
            rw stale (
              sweep_items-tracked items r.0 u key h q ks
                (Current-resolve items a.dedup_key w a r res absent ks c)
              ∙ swept-cons k a items key u (tracked u r.0 key) (tracked u w key) p n
                  (res.found u key h ∙ rw stale))
        | inr other ↦ rw other (
            sweep_items-tracked items w u key h q ks c
            ∙ swept-cons k a items key u (tracked u w key) (tracked u w key) p n (rw other))
      ]

  sweep_items-published :
      (items : List (String × Alert)) (w : World)
      → Unique items
      → Keyed items
      → Current w items
      → (sweep_items cfg t items w).0.published ≡ (
          if cfg.has_bus then w.published ++ notices (sweep_items cfg t items w).1 else w.published)
  unfolding sweep_items
  sweep_items-published [] w q ks c = rw append-nil (ground arith)
  sweep_items-published ((k, a) ∷ items) w (n, q) (p, ks) (x, c) =
      elim (Bool-cases (is_stale cfg t a)) [
        | inl stale ↦
            let r = resolve cfg t a.dedup_key w in
            let res = resolve-Resolves a.dedup_key w a x (open-ne-resolved a stale) in
            let absent : Dict.get (cache_key a.dedup_key) items ≡ none = rw p at n in
            rw (stale, res.result)
              (sweep_items-published items r.0 q ks
                  (Current-resolve items a.dedup_key w a r res absent ks c)
                ∙ rw (res.sent) (
                    ground (
                      arith,
                      append_assoc w.published ((alert_resolved, settled t.now a) ∷ [])
                          (notices (sweep_items cfg t items r.0).1),
                    )))
        | inr other ↦ rw other (sweep_items-published items w q ks c)
      ]

  scanned-Keyed : (w : World) → Inv t.now w → Keyed (Cache.scan "alert:" t.cache_now w.cache).1
  scanned-Keyed w v =
      All-scan (λ key a. key ≡ cache_key a.dedup_key) "alert:" t.cache_now w.cache
        (keyed w.cache v.valid)
    where
      keyed :
          (c : Cache Alert)
          → All (λ e. IsValid t.now e.0 e.1.0) c
          → All (λ e. e.0 ≡ cache_key e.1.0.dedup_key) c
      keyed [] h = tt
      keyed (e ∷ c) (h, hs) = (h.keyed, keyed c hs)

  starts_with-cache_key : (key : String) → starts_with (cache_key key) "alert:" ≡ true
  starts_with-cache_key key =
      (starts_with_iff (cache_key key) "alert:").1 (prefix-append "alert:" key)

  get-scanned :
      (w : World) (key : String)
      → Unique w.cache
      → Dict.get (cache_key key) (Cache.scan "alert:" t.cache_now w.cache).1
        ≡ tracked t.cache_now w key
  get-scanned w key q =
      get-scan "alert:" t.cache_now w.cache (cache_key key) q ∙ rw (starts_with-cache_key key)

  scanned-Current :
      (w w' : World) (items rest : List (String × Alert))
      → ((key : String) → Dict.get (cache_key key) items ≡ tracked t.cache_now w' key)
      → Keyed rest
      → Agrees rest items
      → Current w' rest
  scanned-Current w w' items [] e ks a = tt
  scanned-Current w w' items ((k, b) ∷ rest) e (p, ks) (g, a) =
      (sym (e b.dedup_key) ∙ rw p at g, scanned-Current w w' items rest e ks a)

  -- What `sweep_once` scans, and what it starts from.
  abbrev found_items : World → List (String × Alert)
  found_items w = (Cache.scan "alert:" t.cache_now w.cache).1

  abbrev after_scan : World → World
  after_scan w = record w { cache = (Cache.scan "alert:" t.cache_now w.cache).0 }

  tracked-after_scan :
      (w : World) (u : ℕ) (key : String)
      → t.cache_now ≤ u
      → Unique w.cache
      → tracked u (after_scan w) key ≡ tracked u w key
  tracked-after_scan w u key h q = live-scan "alert:" t.cache_now u w.cache (cache_key key) h q

  start-Current : (w : World) → Inv t.now w → Current (after_scan w) (found_items w)
  start-Current w v =
      scanned-Current w (after_scan w) (found_items w) (found_items w)
        (λ key.
          get-scanned w key v.unique
          ∙ sym (tracked-after_scan w t.cache_now key (omega arith) v.unique))
        (scanned-Keyed w v)
        (Agrees-self (found_items w) (Unique-scan "alert:" t.cache_now w.cache v.unique))

  -- A sweep resolves the issues that are open and have not been seen for `resolve_after`, and no
  -- others: a read at its time or later finds the resolved alert for each of those, as long as the
  -- cache keeps it, and for every other issue what it would have found without the sweep.
  pub sweep_once-tracked :
      (w : World) (u : ℕ) (key : String)
      → t.cache_now ≤ u
      → Inv t.now w
      → tracked u (sweep_once cfg t w).0 key
        ≡ swept cfg t u (tracked t.cache_now w key) (tracked u w key)
  unfolding sweep_once
  sweep_once-tracked w u key h v =
      sweep_items-tracked (found_items w) (after_scan w) u key h
        (Unique-scan "alert:" t.cache_now w.cache v.unique) (scanned-Keyed w v) (start-Current w v)
      ∙ rw (get-scanned w key v.unique, tracked-after_scan w u key h v.unique)

  -- A sweep puts one message on the bus for each alert that it returns, in their order.
  pub sweep_once-published :
      (w : World)
      → Inv t.now w
      → (sweep_once cfg t w).0.published
        ≡ (if cfg.has_bus then w.published ++ notices (sweep_once cfg t w).1 else w.published)
  unfolding sweep_once
  sweep_once-published w v =
      sweep_items-published (found_items w) (after_scan w)
        (Unique-scan "alert:" t.cache_now w.cache v.unique) (scanned-Keyed w v) (start-Current w v)
