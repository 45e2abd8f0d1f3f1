-- ===== src/Alerts/Dispatcher.antt =====
-- fieldpilot/alerts/dispatcher.py: AlertDispatcher. The clock is read once per hazard; what is rendered
-- is the list of hazards that are given to the thread pool.
use field_pilot_ai_submissio.Common.{
  ℕ, ◌+◌, ◌-◌, Option, none, some, Bool, true, false, List, [], ◌∷◌, ◌++◌, String, text_equality,
  ltb, if◌then◌else◌,
}
use field_pilot_ai_submissio.Common.Dict
use field_pilot_ai_submissio.Common.Dict.{Dict}
use field_pilot_ai_submissio.Common.Int.{ℤ, pos, negsuc}
use field_pilot_ai_submissio.Events.Bridge.{HazardEvent, hazard_type_value}

pub record AlertRecord : Type 0 where
  pub event : HazardEvent
  pub admitted : Bool
  pub latency_ms : ℤ

pub record AlertDispatcher : Type 0 where
  pub cooldowns : Dict String ℕ
  pub last : Dict String ℕ
  pub dry_run : Bool
  pub rendered : List HazardEvent

-- `HazardEvent.category`
abbrev pub category : HazardEvent → String
category hazard = hazard_type_value hazard.hazard_type

abbrev pub or_zero : Option ℕ → ℕ
or_zero none = 0
or_zero (some n) = n

-- The cooldown of a category.
abbrev pub cooldown_of : Dict String ℕ → String → ℕ
cooldown_of cooldowns kind = or_zero (Dict.get kind cooldowns)

-- `now - last < cd`, where the last time is -1e9 seconds without an alert.
abbrev pub too_soon : ℕ → ℕ → Option ℕ → Bool
too_soon cd now none = ltb (now + 1000000000000) cd
too_soon cd now (some last) = ltb now (cd + last)

-- `_cooldown_ok`
unfoldable pub cooldown_ok : String → ℕ → AlertDispatcher → AlertDispatcher × Bool
cooldown_ok kind now d =
    if too_soon (cooldown_of d.cooldowns kind) now (Dict.get kind d.last)
    then (d, false)
    else (record d { last = Dict.set kind now d.last }, true)

-- `a - b`
abbrev minus : ℕ → ℕ → ℤ
minus a b = if ltb a b then negsuc (b - a - 1) else pos (a - b)

abbrev pub render : HazardEvent → AlertDispatcher → AlertDispatcher
render hazard d = if d.dry_run then d else record d { rendered = d.rendered ++ (hazard ∷ []) }

abbrev pub admit : ℕ → HazardEvent → AlertDispatcher × Bool → AlertDispatcher × AlertRecord
admit now hazard (d, false) = (d, record { event = hazard; admitted = false; latency_ms = pos 0 })
admit now hazard (d, true) = (
  render hazard d,
  record { event = hazard; admitted = true; latency_ms = minus now hazard.ts_monotonic },
)

unfoldable pub dispatch : ℕ → HazardEvent → AlertDispatcher → AlertDispatcher × AlertRecord
unfolding cooldown_ok
dispatch now hazard d = admit now hazard (cooldown_ok (category hazard) now d)
