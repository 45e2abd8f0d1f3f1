-- ===== src/Workforce/Reading.antt =====
-- Unread messages: what the inbox counts, and what reading a thread changes.
use field_pilot_ai_submissio.Common.{
  ℕ, suc, ◌+◌, ◌≤◌, ◌≡◌, refl, ap, ◌∙◌, Bool, true, List, [], ◌∷◌, String, text_equality,
  number_equality, if◌then◌else◌, ◌&&◌, not, some, arith, ◌==◌, filter_by, length, map, Bool-cases,
  inl, inr,
}
use field_pilot_ai_submissio.Common.Dict
use field_pilot_ai_submissio.Common.Dict.{Dict}
use field_pilot_ai_submissio.Common.Text.{truthy}
use field_pilot_ai_submissio.Storage.Table
use field_pilot_ai_submissio.Storage.Query.{UniqueKeys, passes}
use field_pilot_ai_submissio.Storage.Bulk.{patch_each, get-patch_each}
use field_pilot_ai_submissio.Storage.Subset.{has_key-filter-select, length-filter-select}
use field_pilot_ai_submissio.Workforce.Messages.{
  Message, Conversation, is_set, spec, in_thread, unread_from, note, conversation_of, add_row,
  group, threads, other_side, set_read, mark_each, mark_read, sum_unread, unread_for_manager,
}
use mathlib.Core.Option
use mathlib.Core.Path.{subst}

-- A message that the manager has still to read.
abbrev pub waits : Message → Bool
waits m = truthy m.worker_id && unread_from "worker" m

abbrev values : Dict String Conversation → List Conversation
values d = map (λ e. e.1) d

note-unread :
    (m : Message) (c : Conversation)
    → (note m c).unread ≡ (if unread_from "worker" m then suc c.unread else c.unread)
unfolding note
note-unread m c = ground arith

sum_unread-set :
    (k : String) (c : Conversation) (d : Dict String Conversation)
    → sum_unread (values (Dict.set k c d)) + (conversation_of k (Dict.get k d)).unread
      ≡ sum_unread (values d) + c.unread
unfolding Dict.set Dict.get
sum_unread-set k c [] = omega arith
sum_unread-set k c ((j, e) ∷ d) = ground (arith, sum_unread-set k c d)

sum_unread-add_row :
    (m : Message) (d : Dict String Conversation)
    → sum_unread (values (add_row m d))
      ≡ (if waits m then suc (sum_unread (values d)) else sum_unread (values d))
unfolding add_row
sum_unread-add_row m d =
    let old = conversation_of m.worker_id (Dict.get m.worker_id d) in
    ground (arith, sum_unread-set m.worker_id (note m old) d, note-unread m old)

sum_unread-group :
    (rows : List Message) (d : Dict String Conversation)
    → sum_unread (values (group rows d)) ≡ length (filter_by waits rows) + sum_unread (values d)
unfolding group
sum_unread-group [] d = omega arith
sum_unread-group (m ∷ rows) d =
    ground (arith, sum_unread-group rows (add_row m d), sum_unread-add_row m d)

sum_unread-insert_by :
    (before : Conversation → Conversation → Bool) (c : Conversation) (cs : List Conversation)
    → sum_unread (Table.insert_by before c cs) ≡ c.unread + sum_unread cs
unfolding Table.insert_by
sum_unread-insert_by before c [] = refl
sum_unread-insert_by before c (x ∷ cs) = ground (arith, sum_unread-insert_by before c cs)

sum_unread-sort_by :
    (before : Conversation → Conversation → Bool) (cs : List Conversation)
    → sum_unread (Table.sort_by before cs) ≡ sum_unread cs
unfolding Table.sort_by
sum_unread-sort_by before [] = refl
sum_unread-sort_by before (c ∷ cs) =
    sum_unread-insert_by before c (Table.sort_by before cs) ∙ rw (sum_unread-sort_by before cs) refl

-- The manager's badge is the number of messages that a worker has sent, in a thread that names its
-- worker, and nobody has read, if the table has at most five thousand messages.
pub unread_for_manager-count :
    (table : List Message)
    → Table.count spec (λ m. true) table ≤ 5000
    → unread_for_manager table ≡ Table.count spec waits table
unfolding unread_for_manager threads
unread_for_manager-count table h =
    sum_unread-sort_by _ _
    ∙ sum_unread-group (Table.select spec (λ m. true) 5000 true table) []
    ∙ omega (arith, length-filter-select spec (λ m. true) waits 5000 true table h)

mark_each-patch_each :
    (now : ℕ) (side : String) (rows table : List Message) (n : ℕ)
    → mark_each now side rows (table, n) ≡ (
      patch_each spec (set_read now) (filter_by (unread_from side) rows) table,
      n + length (filter_by (unread_from side) rows),
    )
unfolding mark_each patch_each
mark_each-patch_each now side [] table n = ap (λ k. (table, k)) (omega arith)
mark_each-patch_each now side (m ∷ rows) table n = elim (Bool-cases (unread_from side m)) [
  | inl hit ↦ rw hit (
      let read = (Table.patch spec m.message_id (set_read now) table).0 in
      mark_each-patch_each now side rows read (suc n)
      ∙ ap (λ k. (patch_each spec (set_read now) (filter_by (unread_from side) rows) read, k))
          (omega arith))
  | inr miss ↦ rw miss (mark_each-patch_each now side rows table n)
]

-- A message of the worker's thread that nobody has read and that is not of the reader's side: the
-- manager reads what the worker has sent, anyone else what the manager has sent.
abbrev pub awaits : String → String → Message → Bool
awaits worker reader m =
    m.worker_id == worker
    && (if reader == "site_manager"
        then m.sender_role == "worker"
        else m.sender_role == "site_manager")
    && not (is_set m.read_at)

in_thread-awaits :
    (worker reader : String) (m : Message)
    → (in_thread worker m && unread_from (other_side reader) m) ≡ awaits worker reader m
in_thread-awaits worker reader m = ground arith

in_thread_rows-get :
    (now : ℕ) (worker reader k : String) (table : List Message)
    → UniqueKeys spec table
    → Table.count spec (in_thread worker) table ≤ 5000
    → (Table.get spec k (mark_read now worker reader table).0 ≡ (
        if passes spec
          (λ m. in_thread worker m && unread_from (other_side reader) m)
          (Table.get spec k table)
        then Option.map (set_read now) (Table.get spec k table)
        else Table.get spec k table))
      × ((mark_read now worker reader table).1
          ≡ Table.count spec (λ m. in_thread worker m && unread_from (other_side reader) m) table)
unfolding mark_read
in_thread_rows-get now worker reader k table u h =
    let side = other_side reader in
    let rows = Table.select spec (in_thread worker) 5000 true table in
    rw (mark_each-patch_each now side rows table 0) (
      get-patch_each spec (set_read now) (λ m. refl) (λ m. refl) (filter_by (unread_from side) rows)
            table k
          ∙ rw
              (has_key-filter-select spec (in_thread worker) (unread_from side) 5000 true table h k
                u)
              refl,
      omega (
        arith,
        length-filter-select spec (in_thread worker) (unread_from side) 5000 true table h,
      ),
    )

-- Reading a thread marks as read now the messages of that thread that nobody has read and that the
-- other side has sent: the worker's, if the manager reads, and else the manager's; it leaves every
-- other message as it was, and returns how many were marked; provided that each identifier stands
-- once in the table and the thread has at most five thousand messages.
pub mark_read-get :
    (now : ℕ) (worker reader k : String) (table : List Message)
    → UniqueKeys spec table
    → Table.count spec (λ m. m.worker_id == worker) table ≤ 5000
    → (Table.get spec k (mark_read now worker reader table).0 ≡ (
        if passes spec (awaits worker reader) (Table.get spec k table)
        then Option.map {A = Message}
            (λ m. record m { read_at = some now })
            (Table.get spec k table)
        else Table.get spec k table))
      × ((mark_read now worker reader table).1 ≡ Table.count spec (awaits worker reader) table)
mark_read-get now worker reader k table u h =
    subst
      (λ test.
        (Table.get spec k (mark_read now worker reader table).0 ≡ (
          if passes spec test (Table.get spec k table)
          then Option.map (set_read now) (Table.get spec k table)
          else Table.get spec k table))
        × ((mark_read now worker reader table).1 ≡ Table.count spec test table))
      (λ i m. in_thread-awaits worker reader m i) (in_thread_rows-get now worker reader k table u h)
