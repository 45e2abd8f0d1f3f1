-- ===== src/Safety/Attention/Machine.antt =====
-- fieldpilot/safety/attention.py: HazardAttention.
use field_pilot_ai_submissio.Common.{
  ℕ, ◌+◌, Option, none, some, Bool, true, false, String, text_equality, number_equality, leb,
  if◌then◌else◌,
}

pub data AttentionState : Type 0 where
  passive : AttentionState
  noticed : AttentionState
  unnoticed : AttentionState
  escalated : AttentionState

abbrev pub attention_value : AttentionState → String
attention_value passive = "passive"
attention_value noticed = "noticed"
attention_value unnoticed = "unnoticed"
attention_value escalated = "escalated"

abbrev pub is_noticed : AttentionState → Bool
is_noticed noticed = true
is_noticed _ = false

pub record Thresholds : Type 0 where
  pub dwell_ms : ℕ
  pub glance_ms : ℕ
  pub unnoticed_after_ms : ℕ
  pub escalate_after_ms : ℕ

pub record HazardAttention : Type 0 where
  pub hazard_id : String
  pub onset_ms : ℕ
  pub thresholds : Thresholds
  pub state : AttentionState
  pub dwell_start : Option ℕ
  pub last_seen_ms : ℕ

-- A machine as the constructor makes it.
abbrev pub new_machine : Thresholds → String → ℕ → HazardAttention
new_machine t hazard now = record {
  hazard_id = hazard;
  onset_ms = now;
  thresholds = t;
  state = passive;
  dwell_start = none;
  last_seen_ms = 0;
}

-- The start of the gaze, when there is one.
abbrev pub gaze_start : Option ℕ → ℕ → ℕ
gaze_start none now = now
gaze_start (some start) now = start

-- The first half of `update`: the gaze, and whether it confirms the engagement.
unfoldable pub gaze : ℕ → Bool → HazardAttention → HazardAttention
gaze now looking m =
    let start = gaze_start m.dwell_start now in
    if looking
    then record m {
      dwell_start = some start;
      state = if leb (start + m.thresholds.dwell_ms) now then noticed else m.state;
      last_seen_ms = now;
    }
    else record m { dwell_start = none; last_seen_ms = now }

-- The second half: how long the hazard has gone unnoticed.
unfoldable pub elapse : ℕ → HazardAttention → HazardAttention
elapse now m = if is_noticed m.state then m else record m {
  state =
      if leb (m.onset_ms + m.thresholds.escalate_after_ms) now
      then escalated
      else (if leb (m.onset_ms + m.thresholds.unnoticed_after_ms) now then unnoticed else m.state);
}

unfoldable pub update : ℕ → Bool → HazardAttention → HazardAttention
unfolding gaze elapse
update now looking m = elapse now (gaze now looking m)
