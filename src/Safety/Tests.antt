-- ===== src/Safety/Tests.antt =====
-- A worker who glances at a hazard, and one who looks at it.
use field_pilot_ai_submissio.Common.{◌≡◌, refl, arith, true, false, List, [], ◌∷◌, if◌then◌else◌}
use field_pilot_ai_submissio.Safety.Attention.{Thresholds, noticed, unnoticed, new_machine, update}
use field_pilot_ai_submissio.Safety.Engagement.{
  Frame, run_updates, long_gaze, graded, last_time, run_updates-state,
}

abbrev defaults : Thresholds
defaults = record {
  dwell_ms = 600;
  glance_ms = 200;
  unnoticed_after_ms = 2500;
  escalate_after_ms = 6000;
}

abbrev glances : List Frame
glances = (1300, true) ∷ (1500, false) ∷ (3600, true) ∷ []

run_updates-state_example :
    (run_updates ((1000, true) ∷ glances) (new_machine defaults "h" 1000)).state ≡ (
      if long_gaze 600 ((1000, true) ∷ glances)
      then noticed
      else graded defaults 1000 (last_time 1000 glances))
run_updates-state_example =
    run_updates-state defaults "h" 1000 true glances (omega arith, (omega arith, (omega arith, tt)))

glances_run :
    (run_updates ((1000, true) ∷ glances) (new_machine defaults "h" 1000)).state ≡ unnoticed
unfolding update
glances_run = refl

gaze_run :
    (run_updates
      ((1000, true) ∷ (1300, true) ∷ (1600, true) ∷ (9000, false) ∷ [])
      (new_machine defaults "h" 1000)).state
    ≡ noticed
unfolding update
gaze_run = refl
