-- ===== src/Notifications/Service.antt =====
-- fieldpilot/notifications/service.py: NotificationService. Whether an attempt of a registered
-- sender succeeds is a parameter (an exception of it is a failure), so is what `meta` is; one time is
-- read for each call of a channel. The waits between attempts are added up.
use field_pilot_ai_submissio.Common.{
  ℕ, zero, suc, ◌+◌, ◌-◌, ◌*◌, ◌/◌, ◌^◌, Option, none, some, Bool, List, [], ◌∷◌, ◌++◌, String,
  if◌then◌else◌, ltb, text_equality, ◌==◌,
}
use field_pilot_ai_submissio.Common.Dict
use field_pilot_ai_submissio.Common.Dict.{Dict}
use field_pilot_ai_submissio.Triggers.Cache
use field_pilot_ai_submissio.Triggers.Cache.{Cache}
use Prim.Native.String

pub record Note : Type 0 where
  pub notification_id : String
  pub dedup_key : String
  pub channel : String
  pub subject : String
  pub body : String
  pub status : String
  pub attempts : ℕ
  pub alert_id : Option String
  pub created_at : ℕ
  pub sent_at : Option ℕ

-- What the cache holds of a notification that was sent.
pub record Mark : Type 0 where
  pub merged : ℕ
  pub notification_id : String

-- SEVERITY_CHANNELS
abbrev pub severity_channels : Dict String (List String)
severity_channels =
    ("low", "dashboard" ∷ [])
    ∷ ("medium", "dashboard" ∷ "push" ∷ [])
    ∷ ("high", "dashboard" ∷ "push" ∷ "email" ∷ [])
    ∷ ("critical", "dashboard" ∷ "push" ∷ "sms" ∷ "whatsapp" ∷ "email" ∷ [])
    ∷ []

pub record Settings : Type 0 where
  pub dedup_window : ℕ
  pub max_attempts : ℕ
  pub base_backoff : ℕ
  pub has_bus : Bool

-- `int(self.dedup_window_s)`, as milliseconds
abbrev pub whole_seconds : ℕ → ℕ
whole_seconds window = window / 1000 * 1000

-- The cache, the rows that the store is given and the messages that the bus is, and the waiting.
pub record Notifier (M : Type 0) : Type 0 where
  pub cache : Cache Mark
  pub saved : List Note
  pub published : List (Note × M)
  pub waited : ℕ

-- What a caller asks to be told.
pub record Notice (M : Type 0) : Type 0 where
  pub dedup_key : String
  pub subject : String
  pub body : String
  pub severity : String
  pub channels : Option (List String)
  pub alert_id : Option String
  pub meta : M

abbrev default_channels : String → List String
default_channels severity = elim (Dict.get severity severity_channels) [
  | none ↦ "dashboard" ∷ []
  | some channels ↦ channels
]

-- `channels or SEVERITY_CHANNELS.get(severity, ["dashboard"])`
abbrev pub targets : Option (List String) → String → List String
targets none severity = default_channels severity
targets (some []) severity = default_channels severity
targets (some (c ∷ channels)) severity = c ∷ channels

abbrev pub channel_key : String → String → String
channel_key channel key =
    Prim.Native.String.◌++◌ "notif:"
      (Prim.Native.String.◌++◌ channel (Prim.Native.String.◌++◌ ":" key))

abbrev pub add_note : Option Note → List Note → List Note
add_note none notes = notes
add_note (some note) notes = note ∷ notes

module _ {M : Type 0} (settings : Settings) (registered : String → Bool)
    (send : Note → M → ℕ → Bool) (now : ℕ) where
  abbrev pub sent : Note → Note
  sent note = record note { status = "sent"; sent_at = some now }

  -- The loop over the attempts that are left, from the number of the next one: the note, and the
  -- time slept in between.
  unfoldable pub try_send : ℕ → ℕ → Note → M → Note × ℕ
  try_send zero attempt note meta = (record note { status = "failed" }, 0)
  try_send (suc left) attempt note meta =
      let tried = record note { attempts = attempt } in
      let later = try_send left (suc attempt) tried meta in
      let slept =
        if ltb attempt settings.max_attempts
        then settings.base_backoff * 2 ^ (attempt - 1)
        else 0 in
      if send tried meta attempt then (sent tried, 0) else (later.0, slept + later.1)

  -- `_deliver`
  unfoldable pub deliver : Note → M → Notifier M → Notifier M × Note
  unfolding try_send
  deliver note meta n =
      let tried = try_send settings.max_attempts 1 note meta in
      let skipped = record note { status = "skipped" } in
      if note.channel == "dashboard"
      then (
        record n {
          published =
              if settings.has_bus then n.published ++ ((sent note, meta) ∷ []) else n.published;
          saved = n.saved ++ (sent note ∷ []);
        },
        sent note,
      )
      else if registered note.channel
      then (record n { saved = n.saved ++ (tried.0 ∷ []); waited = n.waited + tried.1 }, tried.0)
      else (record n { saved = n.saved ++ (skipped ∷ []) }, skipped)

  abbrev pub new_note : String → String → Notice M → Note
  new_note fresh channel notice = record {
    notification_id = fresh;
    dedup_key = notice.dedup_key;
    channel = channel;
    subject = notice.subject;
    body = notice.body;
    status = "queued";
    attempts = 0;
    alert_id = notice.alert_id;
    created_at = now;
    sent_at = none;
  }

  -- A notification that was sent within the window is merged into the one before.
  abbrev pub merge_into : String → Mark → Notifier M → Notifier M
  merge_into key mark n = record n {
    cache =
        Cache.set key (record mark { merged = suc mark.merged })
          (whole_seconds settings.dedup_window) now n.cache;
  }

  abbrev pub marked : String → String → Notifier M → Notifier M
  marked key fresh n = record n {
    cache =
        Cache.set key (record { merged = 0; notification_id = fresh })
          (whole_seconds settings.dedup_window) now n.cache;
  }

  abbrev given : Notifier M × Note → Notifier M × Option Note
  given (n, note) = (n, some note)

  -- `_notify_channel`, from what the cache has of the notification.
  unfoldable pub on_found :
      String → String → Notice M → Notifier M → Option Mark → Notifier M × Option Note
  unfolding deliver
  on_found fresh channel notice n none = given (
      deliver (new_note fresh channel notice) notice.meta
        (marked (channel_key channel notice.dedup_key) fresh n))
  on_found fresh channel notice n (some mark) =
      (merge_into (channel_key channel notice.dedup_key) mark n, none)

  unfoldable pub notify_channel : String → String → Notice M → Notifier M → Notifier M × Option Note
  unfolding on_found
  notify_channel fresh channel notice n =
      let got = Cache.get (channel_key channel notice.dedup_key) now n.cache in
      on_found fresh channel notice (record n { cache = got.1 }) got.0

  -- The loop of `notify` over the channels, with the identifiers that uuid4 makes for them.
  unfoldable pub notify_each :
      (String → String) → List String → Notice M → Notifier M → Notifier M × List Note
  unfolding notify_channel
  notify_each fresh [] notice n = (n, [])
  notify_each fresh (channel ∷ channels) notice n =
      let (n', note) = notify_channel (fresh channel) channel notice n in
      let (n'', notes) = notify_each fresh channels notice n' in (n'', add_note note notes)

  unfoldable pub notify : (String → String) → Notice M → Notifier M → Notifier M × List Note
  unfolding notify_each
  notify fresh notice n = notify_each fresh (targets notice.channels notice.severity) notice n
