-- ===== src/Workforce/Messages.antt =====
-- fieldpilot/workforce/messages.py: MessageService. The clock and the fresh identifier are
-- arguments; the exceptions that `send` raises are values.
use field_pilot_ai_submissio.Common.{
  ℕ, suc, ◌+◌, refl, Option, none, some, Bool, true, false, List, [], ◌∷◌, String, text_equality,
  number_equality, ◌==◌, ltb, leb, if◌then◌else◌, ◌&&◌, ◌||◌, not, map,
}
use field_pilot_ai_submissio.Common.Dict
use field_pilot_ai_submissio.Common.Dict.{Dict}
use field_pilot_ai_submissio.Common.Text.{strip, truthy, take_text}
use field_pilot_ai_submissio.Events.Schema.{or_text}
use field_pilot_ai_submissio.Storage.Table
use field_pilot_ai_submissio.Storage.Table.{Spec}

pub record Message : Type 0 where
  pub message_id : String
  pub worker_id : String
  pub sender_role : String
  pub sender_id : String
  pub sender_name : String
  pub text : String
  pub audio_path : Option String
  pub audio_seconds : Option ℕ
  pub read_at : Option ℕ
  pub created_at : ℕ

-- MESSAGES_TABLE
abbrev pub spec : Spec Message
spec = record {
  key = λ m. m.message_id;
  before = λ m n. ltb m.created_at n.created_at;
  restore = λ old m. record m { created_at = old.created_at };
  key_restore = λ old m. refl;
}

-- `role in SENDER_ROLES`
abbrev pub is_sender_role : String → Bool
is_sender_role role = role == "worker" || role == "site_manager"

-- `bool(t)` of an optional time or duration
abbrev pub is_set : Option ℕ → Bool
is_set none = false
is_set (some t) = not (t == 0)

abbrev pub has_text : Option String → Bool
has_text none = false
has_text (some s) = truthy s

-- `float(s) if s else None`
abbrev or_nothing : Option ℕ → Option ℕ
or_nothing s = if is_set s then s else none

-- What `send` is asked for.
pub record Draft : Type 0 where
  pub worker_id : String
  pub sender_role : String
  pub sender_id : String
  pub sender_name : Option String
  pub text : String
  pub audio_path : Option String
  pub audio_seconds : Option ℕ

abbrev pub new_message : String → ℕ → Draft → Message
new_message fresh now draft = record {
  message_id = fresh;
  worker_id = draft.worker_id;
  sender_role = draft.sender_role;
  sender_id = draft.sender_id;
  sender_name = or_text draft.sender_name draft.sender_id;
  text = take_text 2000 (strip draft.text);
  audio_path = draft.audio_path;
  audio_seconds = or_nothing draft.audio_seconds;
  read_at = none;
  created_at = now;
}

-- The message, or the MessageError that is raised.
pub data Sent : Type 0 where
  sent : Message → Sent
  unknown_role : Sent
  empty_message : Sent

unfoldable pub send : String → ℕ → Draft → List Message → List Message × Sent
send fresh now draft table =
    if not (is_sender_role draft.sender_role)
    then (table, unknown_role)
    else if not (truthy (strip draft.text)) && not (has_text draft.audio_path)
    then (table, empty_message)
    else (
      (Table.put spec (new_message fresh now draft) table).0,
      sent (new_message fresh now draft),
    )

abbrev pub in_thread : String → Message → Bool
in_thread worker m = m.worker_id == worker

abbrev pub earlier : Message → Message → Bool
earlier m n = ltb m.created_at n.created_at

unfoldable pub thread : String → ℕ → List Message → List Message
thread worker limit table =
    Table.sort_by earlier (Table.select spec (in_thread worker) limit true table)

-- An entry of the inbox: one conversation.
pub record Conversation : Type 0 where
  pub worker_id : String
  pub messages : ℕ
  pub unread : ℕ
  pub last_at : ℕ
  pub last_text : String
  pub last_sender_role : Option String
  pub last_has_audio : Bool
  pub worker_name : Option String

abbrev pub fresh_conversation : String → Conversation
fresh_conversation worker = record {
  worker_id = worker;
  messages = 0;
  unread = 0;
  last_at = 0;
  last_text = "";
  last_sender_role = none;
  last_has_audio = false;
  worker_name = none;
}

-- `row.get("sender_role") == role and not row.get("read_at")`
abbrev pub unread_from : String → Message → Bool
unread_from role m = m.sender_role == role && not (is_set m.read_at)

-- `row.get("sender_name") or entry["worker_name"]`
abbrev or_name : String → Option String → Option String
or_name name old = if truthy name then some name else old

abbrev counted : Message → Conversation → Conversation
counted m c = record c { messages = suc c.messages }

-- What a message of the worker's adds.
abbrev from_worker : Message → Conversation → Conversation
from_worker m c =
    if m.sender_role == "worker"
    then record c {
      unread = if is_set m.read_at then c.unread else suc c.unread;
      worker_name = or_name m.sender_name c.worker_name;
    }
    else c

-- What the newest message adds.
abbrev newest : Message → Conversation → Conversation
newest m c =
    if leb c.last_at m.created_at
    then record c {
      last_at = m.created_at;
      last_text = m.text;
      last_sender_role = some m.sender_role;
      last_has_audio = has_text m.audio_path;
    }
    else c

unfoldable pub note : Message → Conversation → Conversation
note m c = newest m (from_worker m (counted m c))

abbrev pub conversation_of : String → Option Conversation → Conversation
conversation_of worker none = fresh_conversation worker
conversation_of worker (some c) = c

-- One pass of the loop of `threads`.
unfoldable pub add_row : Message → Dict String Conversation → Dict String Conversation
unfolding note
add_row m d =
    if truthy m.worker_id
    then Dict.set m.worker_id (note m (conversation_of m.worker_id (Dict.get m.worker_id d))) d
    else d

unfoldable pub group : List Message → Dict String Conversation → Dict String Conversation
unfolding add_row
group [] d = d
group (m ∷ rows) d = group rows (add_row m d)

abbrev pub more_recent : Conversation → Conversation → Bool
more_recent c d = ltb d.last_at c.last_at

unfoldable pub threads : List Message → List Conversation
threads table =
    Table.sort_by more_recent
      (map (λ e. e.1) (group (Table.select spec (λ m. true) 5000 true table) []))

-- The side whose messages the reader reads.
abbrev pub other_side : String → String
other_side reader = if reader == "site_manager" then "worker" else "site_manager"

abbrev pub set_read : ℕ → Message → Message
set_read now m = record m { read_at = some now }

-- The loop of `mark_read`: the table, and how many messages changed.
unfoldable pub mark_each : ℕ → String → List Message → List Message × ℕ → List Message × ℕ
mark_each now side [] done = done
mark_each now side (m ∷ rows) done = mark_each now side rows (
    if unread_from side m
    then ((Table.patch spec m.message_id (set_read now) done.0).0, suc done.1)
    else done)

unfoldable pub mark_read : ℕ → String → String → List Message → List Message × ℕ
mark_read now worker reader table =
    mark_each now (other_side reader) (Table.select spec (in_thread worker) 5000 true table)
      (table, 0)

-- `sum(t["unread"] for t in …)`
abbrev pub sum_unread : List Conversation → ℕ
sum_unread [] = 0
sum_unread (c ∷ cs) = c.unread + sum_unread cs

unfoldable pub unread_for_manager : List Message → ℕ
unread_for_manager table = sum_unread (threads table)
