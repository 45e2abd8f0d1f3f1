-- ===== src/Events/Bus.antt =====
-- fieldpilot/events/bus.py: InMemoryEventBus. A handler is any value; the task that is created for
-- one is recorded with its topic and message. Patterns are those of `fnmatchcase` without brackets.
use field_pilot_ai_submissio.Common.{
  ℕ, Bool, true, false, List, [], ◌∷◌, ◌++◌, String, leb, if◌then◌else◌, ◌&&◌, ◌||◌, length,
  nat_beq, not,
}
use Prim.Native.Char.{Char, code}
use Prim.Native.String

-- What a `*` is replaced by: nothing, or the text from some later place on.
abbrev or_later : (String → Bool) → String → Bool
or_later rest String.[] = rest String.[]
or_later rest (String.◌∷◌ c s) = rest (String.◌∷◌ c s) || or_later rest s

-- One character of the text against one of the pattern, 63 being `?`.
abbrev match_char : Char → (String → Bool) → String → Bool
match_char p rest String.[] = false
match_char p rest (String.◌∷◌ c s) = (nat_beq (code p) 63 || nat_beq (code p) (code c)) && rest s

abbrev is_empty : String → Bool
is_empty String.[] = true
is_empty (String.◌∷◌ c s) = false

-- `fnmatch.fnmatchcase`, 42 being `*`
unfoldable pub matches : String → String → Bool
matches String.[] s = is_empty s
matches (String.◌∷◌ p pattern) s =
    let rest = matches pattern in
    if nat_beq (code p) 42 then or_later rest s else match_char p rest s

-- `event_topic`
abbrev pub event_topic : String → String
event_topic event_type = Prim.Native.String.◌++◌ "events." event_type

pub record Bus (M H : Type 0) : Type 0 where
  pub subs : List (String × H)
  pub tasks : List (H × (String × M))
  pub queue : List (String × M)
  pub running : Bool

-- `maxsize` of the queue
abbrev pub max_queue : ℕ
max_queue = 10000

module _ {M H : Type 0} where
  abbrev pub empty_bus : Bus M H
  empty_bus = record { subs = []; tasks = []; queue = []; running = false }

  abbrev pub start : Bus M H → Bus M H
  start bus = record bus { running = true }

  abbrev pub stop : Bus M H → Bus M H
  stop bus = record bus { running = false; tasks = [] }

  -- Whether `put_nowait` finds room.
  abbrev pub accepts : Bus M H → Bool
  accepts bus = bus.running && not (leb max_queue (length bus.queue))

  unfoldable pub publish : String → M → Bus M H → Bus M H
  publish topic message bus =
      if accepts bus then record bus { queue = bus.queue ++ ((topic, message) ∷ []) } else bus

  abbrev pub subscribe : String → H → Bus M H → Bus M H
  subscribe pattern handler bus = record bus { subs = bus.subs ++ ((pattern, handler) ∷ []) }

  -- The tasks that one message makes, a matching subscription each.
  unfoldable pub tasks_for : String × M → List (String × H) → List (H × (String × M))
  unfolding matches
  tasks_for item [] = []
  tasks_for item ((pattern, handler) ∷ subs) =
      let rest = tasks_for item subs in
      if matches pattern item.0 then (handler, item) ∷ rest else rest

  -- The next turn of the loop, once the queue has an item.
  unfoldable pub take_turn : List (String × M) → Bus M H → Bus M H
  unfolding tasks_for
  take_turn [] bus = bus
  take_turn (item ∷ queue) bus = record bus {
    queue = queue;
    tasks = bus.tasks ++ tasks_for item bus.subs;
  }

  unfoldable pub dispatch : Bus M H → Bus M H
  unfolding take_turn
  dispatch bus = if bus.running then take_turn bus.queue bus else bus
