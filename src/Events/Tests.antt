-- ===== src/Events/Tests.antt =====
-- Two handlers on a running bus.
use field_pilot_ai_submissio.Common.{ℕ, ◌≤◌, ◌≡◌, refl, List, [], ◌∷◌, String, length, true, false}
use field_pilot_ai_submissio.Events.Bus.{max_queue, empty_bus, matches}
use field_pilot_ai_submissio.Events.Handing.{
  Action, publishes, turns, run, turns_on, handed, accepted, run-handed,
}

matches_run : matches "events.*" "events.ppe" ≡ true
unfolding matches
matches_run = refl

matches_other_run : matches "events.*" "alerts.new" ≡ false
unfolding matches
matches_other_run = refl

abbrev subs : List (String × ℕ)
subs = ("events.*", 1) ∷ ("alerts.*", 2) ∷ []

abbrev actions : List (Action String)
actions = publishes "events.ppe" "a" ∷ turns ∷ publishes "alerts.new" "b" ∷ []

run-handed_example :
    (length (run actions (record empty_bus { subs = subs; running = true })).queue ≤ max_queue)
    × (((turns_on
            (length (run actions (record empty_bus { subs = subs; running = true })).queue)
            (run actions (record empty_bus { subs = subs; running = true }))).queue
          ≡ [])
        × ((turns_on
              (length (run actions (record empty_bus { subs = subs; running = true })).queue)
              (run actions (record empty_bus { subs = subs; running = true }))).tasks
            ≡ handed (accepted actions (record empty_bus { subs = subs; running = true })) subs))
run-handed_example = run-handed subs actions
