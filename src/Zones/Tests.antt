-- ===== src/Zones/Tests.antt =====
-- A site with one zone, and a second one that comes and goes.
use field_pilot_ai_submissio.Common.{
  ◌≡◌, refl, arith, none, some, true, false, List, [], ◌∷◌, String,
}
use field_pilot_ai_submissio.Common.Text.{strip}
use field_pilot_ai_submissio.Common.Dict
use field_pilot_ai_submissio.Storage.Table
use field_pilot_ai_submissio.Storage.Query.{has_key}
use field_pilot_ai_submissio.Zones.Service
use field_pilot_ai_submissio.Zones.Service.{Zone, Request, spec, slugify, slug, stored, value_error}
use field_pilot_ai_submissio.Zones.Coherence.{
  Call, creates, updates, deletes, gets, run_calls, cached-run_calls,
}

abbrev lower : String → String
lower s = s

slug_run : slugify lower " zone 7 -- north!" ≡ "zone-7-north"
unfolding slugify slug strip
slug_run = refl

empty_slug_run : slugify lower "--" ≡ "zone"
unfolding slugify slug strip
empty_slug_run = refl

abbrev yard : Zone
yard = record {
  zone_id = "yard";
  name = "Yard";
  project_id = "default";
  hazard_level = "low";
  danger = false;
  active = true;
  description = "";
  created_at = 1;
  updated_at = 1;
}

abbrev request : Request
request = record {
  zone_id = none;
  name = some "pit";
  project_id = none;
  hazard_level = some "high";
  danger = none;
  active = none;
  description = none;
}

abbrev rename : Request
rename = record request { name = some "Old yard"; hazard_level = none }

abbrev calls : List Call
calls = creates 5 request ∷ updates 6 "yard" rename ∷ deletes "pit" ∷ gets "yard" ∷ []

cached-run_calls_example :
    Service.cached (some "yard") (run_calls lower calls (Service.start (yard ∷ [])))
    ≡ Table.get spec "yard" (run_calls lower calls (Service.start (yard ∷ []))).table
unfolding has_key
cached-run_calls_example =
    cached-run_calls lower calls (yard ∷ []) "yard" (refl, tt) (omega arith) refl

danger_run :
    Service.is_danger_zone
      (some "pit")
      (Service.create lower 5 request (Service.start (yard ∷ []))).0
    ≡ true
unfolding Service.is_danger_zone Service.cached Service.create Service.add Service.start slugify
    slug strip Table.select Table.get Dict.get Dict.set
danger_run = refl

blank_run :
    (Service.create lower 5 (record request { name = some " " }) (Service.start [])).1 ≡ value_error
unfolding Service.create strip
blank_run = refl
