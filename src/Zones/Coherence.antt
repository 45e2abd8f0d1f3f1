-- ===== src/Zones/Coherence.antt =====
-- The cache of zones never differs from the table.
use field_pilot_ai_submissio.Common.{
  ℕ, ◌≤◌, length, filter_by, ◌≡◌, refl, ◌∙◌, Option, none, some, true, List, [], ◌∷◌, String,
  text_equality, ◌==◌, ==_iff, if◌then◌else◌, ◌&&◌, ◌||◌, not, arith, Bool-cases, Option-cases, inl,
  inr,
}
use mathlib.Core.Option
use field_pilot_ai_submissio.Common.Dict
use field_pilot_ai_submissio.Common.Dict.{Dict, get-set, get-pop}
use field_pilot_ai_submissio.Common.Text.{strip, truthy}
use field_pilot_ai_submissio.Storage.Table
use field_pilot_ai_submissio.Storage.Lookup.{get-upsert, get-patch, get-delete, patch-get}
use field_pilot_ai_submissio.Storage.Query.{
  has_key, UniqueKeys, take_whole, length-sort_by, has_key-sort_by, get-has_key,
}
use field_pilot_ai_submissio.Storage.Rows.{get-sort_by, UniqueKeys-sort_by}
use field_pilot_ai_submissio.Zones.Service
use field_pilot_ai_submissio.Zones.Service.{Zone, Zones, spec, Request, add, patched, refresh}

-- A look into the cache finds what a look into the table would.
abbrev pub Coherent : Zones → Type 0
Coherent zones = (id : String) → Dict.get id zones.cache ≡ Table.get spec id zones.table

add-Coherent : (zone : Zone) (zones : Zones) → Coherent zones → Coherent (add zone zones).0
unfolding add Table.put
add-Coherent zone zones c id = elim (Option-cases (Table.get spec zone.zone_id zones.table)) [
  | inr (z, e) ↦ rw e (c id)
  | inl e ↦ rw e (
      rw (get-set zone.zone_id id zone zones.cache, get-upsert spec zone zones.table id)
        (ground (arith, c id, e, ==_iff zone.zone_id id)))
]

refresh-Coherent :
    (change : Zone → Zone) (key : String) (table : List Zone) (o : Option Zone)
    (cache : Dict String Zone)
    → o ≡ Option.map change (Dict.get key cache)
    → ((j : String)
        → Table.get spec j table
          ≡ (if key == j then Option.map change (Dict.get j cache) else Dict.get j cache))
    → Coherent (refresh key (table, o) cache).0
refresh-Coherent change key table none cache e w id =
    rw (w id) (elim (Option-cases (Dict.get key cache)) [
      | inl n ↦ ground (arith, n, ==_iff key id)
      | inr (z, n) ↦ absurd (let q : none ≡ some (change z) = e ∙ rw n refl in cc)
    ])
refresh-Coherent change key table (some z) cache e w id =
    rw (get-set key id z cache, w id) (ground (arith, e, ==_iff key id))

module _ (lower : String → String) where
  create-Coherent :
      (now : ℕ) (request : Request) (zones : Zones)
      → Coherent zones
      → Coherent (Service.create lower now request zones).0
  unfolding Service.create
  create-Coherent now request zones c id =
      elim (Bool-cases (
        not (truthy (strip (Service.or_else request.name "")))
        || not (Service.is_level (lower (Service.or_else request.hazard_level "medium"))))) [
          | inl e ↦ rw (Service.create, e) (c id)
          | inr e ↦ rw (Service.create, e) (add-Coherent _ zones c id)
        ]

  update-Coherent :
      (now : ℕ) (id : String) (changes : Request) (zones : Zones)
      → Coherent zones
      → Coherent (Service.update lower now id changes zones).0
  unfolding Service.update
  update-Coherent now key changes zones c id =
      elim (Bool-cases
        (Service.valid_name changes.name && Service.valid_level lower changes.hazard_level)) [
          | inr e ↦ rw (Service.update, e) (c id)
          | inl e ↦
              rw (Service.update, e)
                (refresh-Coherent (patched lower now changes) key _ _ zones.cache
                  (patch-get spec (patched lower now changes) (λ z. refl) key zones.table
                    ∙ rw (c key) refl)
                  (λ j.
                    get-patch spec (patched lower now changes) (λ z. refl) key zones.table j
                    ∙ rw (c j) refl)
                  id)
        ]

  delete-Coherent :
      (key : String) (zones : Zones) → Coherent zones → Coherent (Service.delete key zones).0
  unfolding Service.delete
  delete-Coherent key zones c id =
      rw (get-pop key id zones.cache, get-delete spec key zones.table id, c id) refl

  get-Coherent :
      (key : String) (zones : Zones) → Coherent zones → Coherent (Service.get key zones).0
  unfolding Service.get
  get-Coherent key zones c id = elim (Option-cases (Table.get spec key zones.table)) [
    | inl e ↦ rw (Service.get, e) (c id)
    | inr (z, e) ↦
        rw (Service.get, e)
          (rw (get-set key id z zones.cache, c id) (ground (arith, e, ==_iff key id)))
  ]

get-index :
    (rows : List Zone) (d : Dict String Zone) (k : String)
    → UniqueKeys spec rows
    → Dict.get k (Service.index rows d)
      ≡ (if has_key spec k rows then Table.get spec k rows else Dict.get k d)
unfolding has_key Table.get
get-index [] d k u = refl
get-index (z ∷ rows) d k (n, u) =
    get-index rows (Dict.set z.zone_id z d) k u
    ∙ ground (arith, get-set z.zone_id k z d, ==_iff z.zone_id k)

get-empty : (k : String) → Dict.get {V = Zone} k [] ≡ none
unfolding Dict.get
get-empty k = refl

filter_all : (rows : List Zone) → filter_by (λ z. true) rows ≡ rows
filter_all [] = refl
filter_all (z ∷ rows) = rw (filter_all rows) refl

-- What `start` reads into the cache is the table, if its zones are no more than the query's limit.
start-Coherent :
    (table : List Zone)
    → UniqueKeys spec table
    → length table ≤ 500
    → Coherent (Service.start table)
unfolding Service.start Table.select
start-Coherent table u h id =
    let before = Table.descending spec in
    let whole =
      take_whole (Table.sort_by before table) 500
        (omega (arith, length-sort_by spec before table, h)) in
    rw (filter_all table, whole)
      (get-index (Table.sort_by before table) [] id (UniqueKeys-sort_by spec before table u)
        ∙ rw (has_key-sort_by spec before id table, get-sort_by spec before id table u)
            (elim (Bool-cases (has_key spec id table)) [
              | inl e ↦ rw e refl
              | inr e ↦ rw (e, get-has_key spec id table e) (get-empty id)
            ]))

-- A call of the service.
pub data Call : Type 0 where
  creates : ℕ → Request → Call
  updates : ℕ → String → Request → Call
  deletes : String → Call
  gets : String → Call

abbrev pub run_call : (String → String) → Call → Zones → Zones
run_call lower (creates now request) zones = (Service.create lower now request zones).0
run_call lower (updates now id changes) zones = (Service.update lower now id changes zones).0
run_call lower (deletes id) zones = (Service.delete id zones).0
run_call lower (gets id) zones = (Service.get id zones).0

abbrev pub run_calls : (String → String) → List Call → Zones → Zones
run_calls lower [] zones = zones
run_calls lower (call ∷ calls) zones = run_calls lower calls (run_call lower call zones)

run_call-Coherent :
    (lower : String → String) (call : Call) (zones : Zones)
    → Coherent zones
    → Coherent (run_call lower call zones)
run_call-Coherent lower (creates now request) zones c = create-Coherent lower now request zones c
run_call-Coherent lower (updates now id changes) zones c =
    update-Coherent lower now id changes zones c
run_call-Coherent lower (deletes id) zones c = delete-Coherent lower id zones c
run_call-Coherent lower (gets id) zones c = get-Coherent lower id zones c

run_calls-Coherent :
    (lower : String → String) (calls : List Call) (zones : Zones)
    → Coherent zones
    → Coherent (run_calls lower calls zones)
run_calls-Coherent lower [] zones c = c
run_calls-Coherent lower (call ∷ calls) zones c =
    run_calls-Coherent lower calls (run_call lower call zones)
      (run_call-Coherent lower call zones c)

-- After the start on a table of at most five hundred zones, each identifier once, and after any
-- reads and writes through the service, a look into the cache finds for every identifier that is
-- not empty what the table holds.
pub cached-run_calls :
    (lower : String → String) (calls : List Call) (table : List Zone) (id : String)
    → UniqueKeys spec table
    → length table ≤ 500
    → truthy id ≡ true
    → Service.cached (some id) (run_calls lower calls (Service.start table))
      ≡ Table.get spec id (run_calls lower calls (Service.start table)).table
unfolding Service.cached
cached-run_calls lower calls table id u h t =
    rw t (run_calls-Coherent lower calls (Service.start table) (start-Coherent table u h) id)
