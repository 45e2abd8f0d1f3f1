-- ===== src/Broadcast/Hub/Delivery.antt =====
-- fieldpilot/broadcast/hub.py: the delivery of a message from the bus. Which sends succeed is a
-- parameter.
use field_pilot_ai_submissio.Common.{
  ℕ, suc, Option, Bool, List, [], ◌∷◌, String, text_equality, if◌then◌else◌, filter_by,
  number_equality,
}
use field_pilot_ai_submissio.Common.Text.{truthy}
use field_pilot_ai_submissio.Broadcast.Hub.Clients.{Client, Routing, wants}
use field_pilot_ai_submissio.Broadcast.Hub.Registry.{Hub, disconnect, values}
use field_pilot_ai_submissio.Broadcast.Hub.Publishing.{Data, Message}

-- The frame that a client is sent.
pub record Frame : Type 0 where
  pub topic : String
  pub zone : Option String
  pub ts : ℕ
  pub data' : Data

-- `str(message.get("audience") or "all")`
abbrev pub received : Routing → Routing
received r = record r { audience = if truthy r.audience then r.audience else "all" }

unfoldable pub targets : Routing → Hub → List Client
unfolding wants
targets r hub = filter_by (wants r) (values hub.clients)

-- The clients whose send failed are dropped.
unfoldable pub drop_stale : List Client → Hub → Hub
unfolding disconnect
drop_stale [] hub = hub
drop_stale (c ∷ cs) hub = drop_stale cs (disconnect c (record hub { dropped = suc hub.dropped }))

module _ (succeeds : Client → Frame → Bool) where
  -- `_send` to each target: the counter, what was sent, and the clients whose send failed.
  unfoldable pub send_all : Frame → List Client → ℕ → (ℕ × List (String × Frame)) × List Client
  send_all frame [] delivered = ((delivered, []), [])
  send_all frame (c ∷ cs) delivered =
      let rest = send_all frame cs (suc delivered) in
      let others = send_all frame cs delivered in
      if succeeds c frame
      then ((rest.0.0, (c.client_id, frame) ∷ rest.0.1), rest.1)
      else (others.0, c ∷ others.1)

  -- `_on_bus_message` with `_deliver`: the hub, and what was sent to whom.
  unfoldable pub deliver : Message → Hub → Hub × List (String × Frame)
  unfolding targets send_all drop_stale
  deliver m hub =
      let r = received m.routing in
      let frame : Frame = record { topic = m.topic; zone = r.zone; ts = m.ts; data' = m.data' } in
      let done = send_all frame (targets r hub) hub.delivered in
      (drop_stale done.1 (record hub { delivered = done.0.0 }), done.0.1)
