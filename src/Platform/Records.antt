-- ===== src/Platform/Records.antt =====
-- fieldpilot/backend/service.py: the documents that the orchestrator files for people to review.
use field_pilot_ai_submissio.Common.{ℕ, Option, Bool, String}

-- An RFI, drafted or plain, with what is read of its payload.
pub record Rfi : Type 0 where
  pub rfi_id : String
  pub event_id : String
  pub title : String
  pub summary : String
  pub body : String
  pub priority : String
  pub zone : Option String
  pub status : String
  pub created_at : ℕ
  pub rule : String
  pub image_url : Option String
  pub grounded : Bool

pub record Inspection : Type 0 where
  pub inspection_id : String
  pub event_id : String
  pub priority : String
  pub zone : Option String
  pub message : String
  pub status : String
  pub created_at : ℕ
