-- ===== src/Platform/Actions/Context.antt =====
-- fieldpilot/backend/service.py: the context that rules see (`_build_context`).
use field_pilot_ai_submissio.Common.{
  Option, none, some, Bool, true, false, List, [], ◌∷◌, String, text_equality, ◌==◌, if◌then◌else◌,
  ◌&&◌, ◌||◌, not,
}
use field_pilot_ai_submissio.Common.Text.{truthy}
use field_pilot_ai_submissio.Events.Value.{Value, Fields}
use field_pilot_ai_submissio.Events.Schema.{Event, EventType}
use field_pilot_ai_submissio.Triggers.Alert.{Alert}
use field_pilot_ai_submissio.Triggers.World.{Clock}
use field_pilot_ai_submissio.Triggers.Sweep.{list_tracked, is_open}
use field_pilot_ai_submissio.Zones.Service as Zoning
use field_pilot_ai_submissio.Zones.Service.{Zones}
use field_pilot_ai_submissio.Platform.Setup.{Setup, Texts, Platform}

abbrev same_text : Option String → Option String → Bool
same_text none none = true
same_text (some a) (some b) = a == b
same_text _ _ = false

abbrev is_proximity : EventType → Bool
is_proximity EventType.proximity = true
is_proximity _ = false

-- The worker has an open proximity alert.
unfoldable pub close_to_danger : Option String → List Alert → Bool
close_to_danger worker [] = false
close_to_danger worker (a ∷ alerts) =
    (same_text a.worker_id worker && is_proximity a.event_type && is_open a.state)
    || close_to_danger worker alerts

abbrev has_worker : Event → Bool
has_worker event = elim event.worker_id [ none ↦ false | some w ↦ truthy w ]

abbrev danger_zone : Option Zones → Option String → Bool
danger_zone none place = false
danger_zone (some zones) place = Zoning.is_danger_zone place zones

abbrev level_field : Option Zones → Option String → Fields
level_field none place = Fields.blank
level_field (some zones) place =
    Fields.entry "zone_hazard_level" (Value.text (Zoning.hazard_level place zones)) Fields.blank

abbrev context_of : Bool → Fields → Fields
context_of danger level = Fields.entry "in_danger_zone" (Value.bool danger) level

module _ (setup : Setup) (t : Clock) (texts : Texts) where
  -- `_build_context`: the list of tracked alerts is read only if the zone is no danger zone.
  unfoldable pub build_context : Event → Platform → Platform × Fields
  build_context event p =
      let danger = danger_zone p.zones event.zone in
      let (world, alerts) = list_tracked setup.triggers t p.world in
      let level = level_field p.zones event.zone in
      if not danger && has_worker event
      then (record p { world = world }, context_of (close_to_danger event.worker_id alerts) level)
      else (p, context_of danger level)
