-- ===== src/Zones/Service.antt =====
-- fieldpilot/zones/service.py: ZoneService. A request is a record with what its dict may hold; the
-- clock is an argument, and `str.lower` a parameter.
use field_pilot_ai_submissio.Common.{
  ℕ, refl, Option, none, some, Bool, true, false, List, [], ◌∷◌, String, text_equality, ◌==◌, ltb,
  leb, if◌then◌else◌, ◌&&◌, ◌||◌, not, is_some,
}
use field_pilot_ai_submissio.Common.Dict
use field_pilot_ai_submissio.Common.Dict.{Dict}
use field_pilot_ai_submissio.Common.Text.{strip, truthy}
use field_pilot_ai_submissio.Storage.Table
use field_pilot_ai_submissio.Storage.Table.{Spec}
use Prim.Native.Char.{Char, code}
use Prim.Native.String.{◌++◌}

pub record Zone : Type 0 where
  pub zone_id : String
  pub name : String
  pub project_id : String
  pub hazard_level : String
  pub danger : Bool
  pub active : Bool
  pub description : String
  pub created_at : ℕ
  pub updated_at : ℕ

-- ZONES_TABLE
abbrev pub spec : Spec Zone
spec = record {
  key = λ z. z.zone_id;
  before = λ z y. ltb z.created_at y.created_at;
  restore = λ old z. record z { created_at = old.created_at };
  key_restore = λ old z. refl;
}

-- The table and `_cache`.
pub record Zones : Type 0 where
  pub table : List Zone
  pub cache : Dict String Zone

-- What `create` and `update` are asked for; nothing for a key that the dict does not have.
pub record Request : Type 0 where
  pub zone_id : Option String
  pub name : Option String
  pub project_id : Option String
  pub hazard_level : Option String
  pub danger : Option Bool
  pub active : Option Bool
  pub description : Option String

-- A zone, or the ValueError that is raised.
pub data Result : Type 0 where
  stored : Zone → Result
  value_error : Result

abbrev pub or_else : {A : Type 0} → Option A → A → A
or_else none d = d
or_else (some x) d = x

abbrev pub is_level : String → Bool
is_level s = s == "low" || s == "medium" || s == "high"

abbrev in_range : ℕ → ℕ → ℕ → Bool
in_range a b c = leb a c && leb c b

-- `[a-z0-9]`
abbrev slug_char : Char → Bool
slug_char c = in_range 97 122 (code c) || in_range 48 57 (code c)

-- The runs of the characters that a slug may have, with one hyphen between two of them: `seen` when
-- one came before, `gap` when something else came after it.
unfoldable pub slug : Bool → Bool → String → String
slug seen gap String.[] = String.[]
slug seen gap (String.◌∷◌ c s) =
    let joined = slug true false s in
    let skipped = slug seen seen s in
    if slug_char c
    then (if gap then "-" ++ String.◌∷◌ c joined else String.◌∷◌ c joined)
    else skipped

abbrev or_zone : String → String
or_zone s = if truthy s then s else "zone"

unfoldable pub slugify : (String → String) → String → String
slugify lower s = or_zone (slug false false (lower (strip s)))

-- `{z["zone_id"]: z for z in existing}`
abbrev pub index : List Zone → Dict String Zone → Dict String Zone
index [] d = d
index (z ∷ zones) d = index zones (Dict.set z.zone_id z d)

-- `start`, when the table has zones already.
unfoldable pub start : List Zone → Zones
start table = record {
  table = table;
  cache = index (Table.select spec (λ z. true) 500 true table) [];
}

abbrev wanted_project : Option String → String → Bool
wanted_project none p = true
wanted_project (some q) p = if truthy q then p == q else true

unfoldable pub list : Option String → Bool → Zones → List Zone
list project active_only zones =
    Table.select spec (λ z. wanted_project project z.project_id && (not active_only || z.active))
      500 false zones.table

unfoldable pub get : String → Zones → Zones × Option Zone
get id zones = elim (Table.get spec id zones.table) [
  | none ↦ (zones, none)
  | some z ↦ (record zones { cache = Dict.set id z zones.cache }, some z)
]

unfoldable pub cached : Option String → Zones → Option Zone
cached none zones = none
cached (some id) zones = if truthy id then Dict.get id zones.cache else none

abbrev danger_of : Option Zone → Bool
danger_of none = false
danger_of (some z) = z.danger

unfoldable pub is_danger_zone : Option String → Zones → Bool
is_danger_zone id zones = danger_of (cached id zones)

abbrev level_of : Option Zone → String
level_of none = "medium"
level_of (some z) = z.hazard_level

unfoldable pub hazard_level : Option String → Zones → String
hazard_level id zones = level_of (cached id zones)

-- `str(data.get("zone_id") or slugify(name))`
abbrev pub id_of : (String → String) → Option String → String → String
id_of lower none name = slugify lower name
id_of lower (some id) name = if truthy id then id else slugify lower name

-- The zone that a request makes.
abbrev pub new_zone : (String → String) → ℕ → Request → String → String → Zone
new_zone lower now data' name level = record {
  zone_id = id_of lower data'.zone_id name;
  name = name;
  project_id = or_else data'.project_id "default";
  hazard_level = level;
  danger = or_else data'.danger (level == "high");
  active = or_else data'.active true;
  description = or_else data'.description "";
  created_at = now;
  updated_at = now;
}

-- The end of `create`, on a zone that passed the checks.
unfoldable pub add : Zone → Zones → Zones × Result
add zone zones =
    if is_some (Table.get spec zone.zone_id zones.table) then (zones, value_error) else (
      record {
        table = (Table.put spec zone zones.table).0;
        cache = Dict.set zone.zone_id zone zones.cache;
      },
      stored zone,
    )

unfoldable pub create : (String → String) → ℕ → Request → Zones → Zones × Result
create lower now data' zones =
    let name = strip (or_else data'.name "") in
    let level = lower (or_else data'.hazard_level "medium") in
    if not (truthy name) || not (is_level level)
    then (zones, value_error)
    else add (new_zone lower now data' name level) zones

-- A value that is there passes the check of `update`.
abbrev pub valid_name : Option String → Bool
valid_name none = true
valid_name (some name) = truthy (strip name)

abbrev pub valid_level : (String → String) → Option String → Bool
valid_level lower none = true
valid_level lower (some level) = is_level (lower level)

abbrev new_name : Option String → String → String
new_name none old = old
new_name (some name) old = strip name

abbrev new_level : (String → String) → Option String → String → String
new_level lower none old = old
new_level lower (some level) old = lower level

-- The patch of `update`: the allowed fields that are there, and the time.
abbrev pub patched : (String → String) → ℕ → Request → Zone → Zone
patched lower now changes z = record z {
  name = new_name changes.name z.name;
  project_id = or_else changes.project_id z.project_id;
  hazard_level = new_level lower changes.hazard_level z.hazard_level;
  danger = or_else changes.danger z.danger;
  active = or_else changes.active z.active;
  description = or_else changes.description z.description;
  updated_at = now;
}

-- What follows on the write of `update`.
abbrev pub refresh : String → List Zone × Option Zone → Dict String Zone → Zones × Option Zone
refresh id (table, none) cache = (record { table = table; cache = cache }, none)
refresh id (table, some z) cache = (record { table = table; cache = Dict.set id z cache }, some z)

-- The zones, and whether a ValueError was raised, and else the zone that is returned.
unfoldable pub update :
    (String → String) → ℕ → String → Request → Zones → Zones × (Bool × Option Zone)
update lower now id changes zones =
    let done =
      refresh id (Table.patch spec id (patched lower now changes) zones.table) zones.cache in
    if valid_name changes.name && valid_level lower changes.hazard_level
    then (done.0, (false, done.1))
    else (zones, (true, none))

unfoldable pub delete : String → Zones → Zones × Bool
delete id zones =
    let deleted = Table.delete spec id zones.table in
    (record { table = deleted.0; cache = Dict.pop id zones.cache }, deleted.1)
