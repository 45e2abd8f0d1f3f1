-- ===== src/Workforce/Tests.antt =====
-- Check-ins and check-outs on a small table.
use field_pilot_ai_submissio.Common.{◌≡◌, refl, arith, none, some, false, List, [], ◌∷◌}
use field_pilot_ai_submissio.Common.Text.{strip}
use field_pilot_ai_submissio.Storage.Table
use field_pilot_ai_submissio.Storage.Query.{has_key}
use field_pilot_ai_submissio.Workforce.Occupancy.{
  Row, Entered, returned, value_error, mismatch_error, is_open, close, enter, leave, check_out,
  close_all, open_rows,
}
use field_pilot_ai_submissio.Workforce.Presence.{occupies, leave-occupies}
use field_pilot_ai_submissio.Workforce.CheckIn.{Settled, enter-Settled}

abbrev ravi_in_a : Row
ravi_in_a = record {
  occupancy_id = "o1";
  worker_id = "ravi";
  zone_id = "a";
  entered_at = 1000;
  left_at = none;
  duration = none;
  created_at = 1000;
}

abbrev anita_in_a : Row
anita_in_a = record {
  occupancy_id = "o2";
  worker_id = "anita";
  zone_id = "a";
  entered_at = 2000;
  left_at = none;
  duration = none;
  created_at = 2000;
}

abbrev table : List Row
table = ravi_in_a ∷ anita_in_a ∷ []

abbrev ravi_gone : Row
ravi_gone = record ravi_in_a { left_at = some 5000; duration = some 4000 }

leave_run :
    leave 5000 " ravi" (some "a") table ≡ (ravi_gone ∷ anita_in_a ∷ [], returned (some ravi_gone))
unfolding leave strip open_rows check_out close close_all Table.select Table.sort_by is_open
leave_run = refl

leave_wrong_run : leave 5000 "ravi" (some "b") table ≡ (table, mismatch_error)
unfolding leave strip open_rows check_out close close_all Table.select Table.sort_by is_open
leave_wrong_run = refl

enter_blank_run : enter "o3" 5000 "ravi" " " table ≡ (table, value_error)
unfolding enter strip
enter_blank_run = refl

enter-Settled_example :
    (out : Entered) × (((enter "o3" 5000 " ravi" "b" table).1 ≡ returned out)
      × Settled (strip " ravi") (strip "b") "o1" ((enter "o3" 5000 " ravi" "b" table).0, out))
unfolding strip has_key is_open Table.count Table.get
enter-Settled_example =
    enter-Settled "o3" 5000 " ravi" "b" "o1" table (refl, (refl, tt)) (omega arith) refl refl refl

leave-occupies_example :
    occupies (strip " ravi") "o1" (leave 5000 " ravi" (some "a") table).0 ≡ false
unfolding leave strip open_rows check_out close close_all Table.select Table.sort_by is_open has_key
    Table.count
leave-occupies_example =
    leave-occupies 5000 " ravi" (some "a") table (some ravi_gone) "o1" (refl, (refl, tt))
      (omega arith) refl
