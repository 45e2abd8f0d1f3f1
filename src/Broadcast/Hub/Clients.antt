-- ===== src/Broadcast/Hub/Clients.antt =====
-- fieldpilot/broadcast/hub.py: Client, and which messages it wants.
use field_pilot_ai_submissio.Common.{
  ℕ, Option, none, some, Bool, true, false, String, text_equality, ◌==◌, ◌&&◌, ◌||◌, not,
  number_equality,
}
use field_pilot_ai_submissio.Common.Text.{truthy}

pub record Client : Type 0 where
  pub client_id : String
  pub kind : String
  pub zone : Option String
  pub worker_id : Option String
  pub connected_at : ℕ

-- `zone in (None, "", "all")`
abbrev pub spans_zones : Option String → Bool
spans_zones none = true
spans_zones (some z) = not (truthy z) || z == "all"

abbrev pub listens_to_all_zones : Client → Bool
listens_to_all_zones c = c.kind == "dashboard" && spans_zones c.zone

-- `a == b` of an optional text and a text
abbrev pub is_text : Option String → String → Bool
is_text none s = false
is_text (some t) s = t == s

-- Who a message is for.
pub record Routing : Type 0 where
  pub zone : Option String
  pub audience : String
  pub exclude : Option String
  pub worker_id : Option String
  pub exclude_worker : Option String

abbrev named_worker : Option String → Option String → Bool
named_worker none worker = true
named_worker (some w) worker = is_text worker w

abbrev pub excluded_worker : Option String → Option String → Bool
excluded_worker none worker = false
excluded_worker (some w) worker = is_text worker w

abbrev in_zone : Option String → Client → Bool
in_zone none c = true
in_zone (some z) c = listens_to_all_zones c || is_text c.zone z

unfoldable pub wants : Routing → Client → Bool
wants r c =
    not (is_text r.exclude c.client_id)
    && (r.audience == "all" || r.audience == c.kind)
    && named_worker r.worker_id c.worker_id
    && not (excluded_worker r.exclude_worker c.worker_id)
    && in_zone r.zone c
