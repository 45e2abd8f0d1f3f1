-- ===== src/Broadcast/Routing.antt =====
-- Who is sent a message, and what a delivery leaves of the hub.
use field_pilot_ai_submissio.Common.{
  ℕ, suc, ◌+◌, ◌≡◌, refl, ap, ◌∙◌, Option, none, some, Bool, true, false, List, [], ◌∷◌, String,
  text_equality, ◌==◌, ==_iff, ==_exclusive, if◌then◌else◌, ◌&&◌, ◌||◌, not, arith, filter_by,
  length, All, Bool-cases, inl, inr,
}
use field_pilot_ai_submissio.Common.Dict
use field_pilot_ai_submissio.Common.Dict.{Dict, Unique, get-pop}
use field_pilot_ai_submissio.Common.Text.{truthy}
use field_pilot_ai_submissio.Triggers.Alert.{Alert}
use field_pilot_ai_submissio.Broadcast.Hub.{
  Client, Hub, Message, Frame, wants, values, is_text, is_kind, received, targets, send_all,
  drop_stale, disconnect, deliver, alert_worker, alert_message, message_to, message_in,
  advisory_message, excluded_worker, advise_zone,
}

-- Some frame went to the client.
unfoldable pub sent_to : String → List (String × Frame) → Bool
sent_to id [] = false
sent_to id ((k, f) ∷ frames) = k == id || sent_to id frames

has_client : String → List Client → Bool
has_client id [] = false
has_client id (c ∷ cs) = c.client_id == id || has_client id cs

-- There is a client, and it passes the test.
abbrev pub client_passes : (Client → Bool) → Option Client → Bool
client_passes test none = false
client_passes test (some c) = test c

-- Every client under its own identifier, each once.
abbrev pub Registered : Dict String Client → Type 0
Registered clients = All (λ e. e.1.client_id ≡ e.0) clients × Unique clients

abbrev pub frame_of : Message → Frame
frame_of m = record {
  topic = m.topic;
  zone = (received m.routing).zone;
  ts = m.ts;
  data' = m.data';
}

module _ (succeeds : Client → Frame → Bool) where
  module _ (frame : Frame) (test : Client → Bool) (id : String) where
    sent_to-send_all :
        (clients : Dict String Client) (n : ℕ)
        → Registered clients
        → sent_to id (send_all succeeds frame (filter_by test (values clients)) n).0.1
          ≡ client_passes (λ c. test c && succeeds c frame) (Dict.get id clients)
    unfolding sent_to send_all Dict.get
    sent_to-send_all [] n r = refl
    sent_to-send_all ((k, c) ∷ clients) n ((e, h), (u, v)) = ground (
      arith,
      sent_to-send_all clients n (h, v),
      sent_to-send_all clients (suc n) (h, v),
      ==_iff k id,
      ==_iff c.client_id id,
    )

    has_client-send_all :
        (clients : Dict String Client) (n : ℕ)
        → Registered clients
        → has_client id (send_all succeeds frame (filter_by test (values clients)) n).1
          ≡ client_passes (λ c. test c && not (succeeds c frame)) (Dict.get id clients)
    unfolding has_client send_all Dict.get
    has_client-send_all [] n r = refl
    has_client-send_all ((k, c) ∷ clients) n ((e, h), (u, v)) = ground (
      arith,
      has_client-send_all clients n (h, v),
      has_client-send_all clients (suc n) (h, v),
      ==_iff k id,
      ==_iff c.client_id id,
    )

  count-send_all :
      (frame : Frame) (cs : List Client) (n : ℕ)
      → (send_all succeeds frame cs n).0.0 + length (send_all succeeds frame cs n).1 ≡ n + length cs
  unfolding send_all
  count-send_all frame [] n = refl
  count-send_all frame (c ∷ cs) n =
      ground (arith, count-send_all frame cs n, count-send_all frame cs (suc n))

drop_stale-get :
    (cs : List Client) (hub : Hub) (id : String)
    → Dict.get id (drop_stale cs hub).clients
      ≡ (if has_client id cs then none else Dict.get id hub.clients)
unfolding drop_stale disconnect has_client
drop_stale-get [] hub id = refl
drop_stale-get (c ∷ cs) hub id =
    drop_stale-get cs (disconnect c (record hub { dropped = suc hub.dropped })) id
    ∙ ground (arith, get-pop c.client_id id hub.clients)

drop_stale-count :
    (cs : List Client) (hub : Hub)
    → ((drop_stale cs hub).delivered ≡ hub.delivered)
      × ((drop_stale cs hub).dropped ≡ hub.dropped + length cs)
unfolding drop_stale disconnect
drop_stale-count [] hub = (refl, omega arith)
drop_stale-count (c ∷ cs) hub =
    let (d, e) = drop_stale-count cs (disconnect c (record hub { dropped = suc hub.dropped })) in
    (d, omega (arith, e))

-- What a delivery does to one client and to the counters.
abbrev pub Delivered :
    (Client → Frame → Bool) → Message → Hub → String → Hub × List (String × Frame) → Type 0
Delivered succeeds m hub id (after, frames) =
    let wanted = wants (received m.routing) in
    let ok : Client → Bool = λ c. succeeds c (frame_of m) in
    let found = Dict.get id hub.clients in
    (sent_to id frames ≡ client_passes (λ c. wanted c && ok c) found)
    × ((Dict.get id after.clients
          ≡ (if client_passes (λ c. wanted c && not (ok c)) found then none else found))
        × (after.delivered + after.dropped
            ≡ hub.delivered + hub.dropped + length (targets (received m.routing) hub)))

-- A delivery sends the message to exactly the clients that want it and whose socket takes it,
-- disconnects exactly those that want it and whose socket fails, leaves every other client
-- connected, and counts each of the targets once, as delivered or as dropped. The clients of the
-- hub stand under their own identifiers, each once.
pub deliver-Delivered :
    (succeeds : Client → Frame → Bool) (m : Message) (hub : Hub) (id : String)
    → Registered hub.clients
    → Delivered succeeds m hub id (deliver succeeds m hub)
unfolding deliver targets
deliver-Delivered succeeds m hub id r =
    let wanted = wants (received m.routing) in
    let cs = filter_by wanted (values hub.clients) in
    let done = send_all succeeds (frame_of m) cs hub.delivered in
    let hub' = record hub { delivered = done.0.0 } in
    (
      sent_to-send_all succeeds (frame_of m) wanted id hub.clients hub.delivered r,
      (
        drop_stale-get done.1 hub' id
            ∙ rw (has_client-send_all succeeds (frame_of m) wanted id hub.clients hub.delivered r)
                refl,
        omega (
          arith,
          drop_stale-count done.1 hub',
          count-send_all succeeds (frame_of m) cs hub.delivered,
        ),
      ),
    )

-- Every frame that is sent is the message's.
frames-send_all :
    (succeeds : Client → Frame → Bool) (frame : Frame) (cs : List Client) (n : ℕ)
    → All (λ e. e.1 ≡ frame) (send_all succeeds frame cs n).0.1
unfolding send_all
frames-send_all succeeds frame [] n = tt
frames-send_all succeeds frame (c ∷ cs) n = elim (Bool-cases (succeeds c frame)) [
  | inl taken ↦ rw taken (refl, frames-send_all succeeds frame cs (suc n))
  | inr lost ↦ rw lost (frames-send_all succeeds frame cs n)
]

pub frames-deliver :
    (succeeds : Client → Frame → Bool) (m : Message) (hub : Hub)
    → All (λ e. e.1 ≡ frame_of m) (deliver succeeds m hub).1
unfolding deliver
frames-deliver succeeds m hub =
    frames-send_all succeeds (frame_of m) (targets (received m.routing) hub) hub.delivered

client_passes_same :
    (f g : Client → Bool)
    → ((c : Client) → f c ≡ g c)
    → (o : Option Client) → client_passes f o ≡ client_passes g o
client_passes_same f g same none = refl
client_passes_same f g same (some c) = same c

-- Exactly the clients that pass the test are sent the message, if their socket takes it.
abbrev pub Reaches : (Client → Frame → Bool) → Hub → String → (Client → Bool) → Message → Type 0
Reaches succeeds hub id test m =
    sent_to id (deliver succeeds m hub).1
    ≡ client_passes (λ c. test c && succeeds c (frame_of m)) (Dict.get id hub.clients)

-- An alert that names a worker is published.
pub alert_worker-message :
    (spoken_phrase : Alert → String → String) (replace_underscores : String → String) (now : ℕ)
    (alert : Alert) (worker : String)
    → alert.worker_id ≡ some worker
    → truthy worker ≡ true
    → alert_worker spoken_phrase replace_underscores now alert
      ≡ some (alert_message spoken_phrase replace_underscores now alert worker)
unfolding alert_worker
alert_worker-message spoken_phrase replace_underscores now alert worker e t =
    ap (message_to spoken_phrase replace_underscores now alert) e ∙ rw t refl

module _ (succeeds : Client → Frame → Bool) (spoken_phrase : Alert → String → String)
    (replace_underscores : String → String) (now : ℕ) (alert : Alert) (hub : Hub) (id : String)
    (r : Registered hub.clients) where
  pub deliver-Reaches :
      (test : Client → Bool) (m : Message)
      → ((c : Client) → wants (received m.routing) c ≡ test c)
      → Reaches succeeds hub id test m
  deliver-Reaches test m same =
      (deliver-Delivered succeeds m hub id r).0
      ∙ client_passes_same _ _ (λ c. ap (λ b. b && succeeds c (frame_of m)) (same c))
          (Dict.get id hub.clients)

  -- An alert about a worker goes to that worker's devices and to no one else.
  pub alert_worker-Reaches :
      (worker : String)
      → alert.worker_id ≡ some worker
      → truthy worker ≡ true
      → let m = alert_message spoken_phrase replace_underscores now alert worker in
        (alert_worker spoken_phrase replace_underscores now alert ≡ some m)
        × Reaches succeeds hub id (λ c. is_kind "device" c && is_text c.worker_id worker) m
  unfolding wants
  alert_worker-Reaches worker e t = (
    alert_worker-message spoken_phrase replace_underscores now alert worker e t,
    deliver-Reaches (λ c. is_kind "device" c && is_text c.worker_id worker) _
        (λ c. ground (arith, ==_iff "device" c.kind, ==_iff c.kind "device")),
  )

  -- The advisory on an alert of a zone is published, and when a hub delivers it, exactly the
  -- devices that are pinned to that zone and not those of the excluded worker, and whose socket
  -- takes it, are sent it: no dashboard, and no device without a zone. The clients of the hub
  -- stand under their own identifiers, each once.
  pub advise_zone-Reaches :
      (zone : String) (exclude_worker : Option String)
      → alert.zone ≡ some zone
      → truthy zone ≡ true
      → let m =
          advisory_message spoken_phrase replace_underscores now alert zone none exclude_worker in
        (advise_zone spoken_phrase replace_underscores now alert none exclude_worker ≡ some m)
        × Reaches succeeds hub id
            (λ c.
              is_kind "device" c
              && is_text c.zone zone
              && not (excluded_worker exclude_worker c.worker_id))
            m
  unfolding advise_zone wants
  advise_zone-Reaches zone exclude_worker e t = (
    ap (λ z. message_in spoken_phrase replace_underscores now alert z none exclude_worker) e
        ∙ rw t refl,
    deliver-Reaches _ _ (λ c. ground (
      arith,
      ==_iff "device" c.kind,
      ==_iff c.kind "device",
      ==_iff c.kind "dashboard",
      ==_exclusive c.kind "device" "dashboard" refl,
    )),
  )
