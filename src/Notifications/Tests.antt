-- ===== src/Notifications/Tests.antt =====
-- A push message that fails once, and a notice that is given twice.
use field_pilot_ai_submissio.Common.{
  ℕ, ◌+◌, ◌≡◌, refl, arith, none, some, Bool, true, [], ◌∷◌, ◌++◌, String, leb,
}
use field_pilot_ai_submissio.Notifications.Service.{
  Note, Settings, Notifier, Notice, deliver, notify, try_send,
}
use field_pilot_ai_submissio.Notifications.Attempts.{Ended, deliver-Ended}
use field_pilot_ai_submissio.Notifications.Window.{notify-again}

abbrev settings : Settings
settings = record { dedup_window = 300000; max_attempts = 3; base_backoff = 2000; has_bus = true }

abbrev registered : String → Bool
registered channel = true

-- The second attempt succeeds.
abbrev send : Note → String → ℕ → Bool
send note meta attempt = leb 2 attempt

abbrev note : Note
note = record {
  notification_id = "n1";
  dedup_key = "alert:a1";
  channel = "push";
  subject = "fall";
  body = "help";
  status = "queued";
  attempts = 0;
  alert_id = none;
  created_at = 1000;
  sent_at = none;
}

abbrev nothing : Notifier String
nothing = record { cache = []; saved = []; published = []; waited = 0 }

try_send_run :
    try_send settings registered send 1000 3 1 note ""
    ≡ (record note { status = "sent"; attempts = 2; sent_at = some 1000 }, 2000)
unfolding try_send
try_send_run = refl

deliver-Ended_example :
    ((deliver settings registered send 1000 note "" nothing).0.saved
      ≡ nothing.saved ++ ((deliver settings registered send 1000 note "" nothing).1 ∷ []))
    × ((waited : ℕ) × (((deliver settings registered send 1000 note "" nothing).0.waited
            ≡ nothing.waited + waited)
          × Ended settings registered send 1000 note "" 0
              ((deliver settings registered send 1000 note "" nothing).1, waited)))
deliver-Ended_example = deliver-Ended settings registered send 1000 note "" nothing refl refl refl

abbrev notice : Notice String
notice = record {
  dedup_key = "alert:a1";
  subject = "fall";
  body = "help";
  severity = "high";
  channels = none;
  alert_id = none;
  meta = "";
}

abbrev fresh : String → String
fresh channel = channel

abbrev before : Notifier String
before = (notify settings registered send 1000 fresh notice nothing).0

notify-again_example :
    ((notify settings registered send 2000 fresh notice before).1 ≡ [])
    × (((notify settings registered send 2000 fresh notice before).0.saved ≡ before.saved)
        × ((notify settings registered send 2000 fresh notice before).0.published
            ≡ before.published))
notify-again_example =
    notify-again settings registered send 1000 2000 fresh fresh notice nothing (omega arith)
      (omega arith)
