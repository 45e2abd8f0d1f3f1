-- ===== src/Broadcast/Hub/Registry.antt =====
-- fieldpilot/broadcast/hub.py: the connected clients and their counts. The clock is an argument.
use field_pilot_ai_submissio.Common.{
  ℕ, suc, Option, none, some, Bool, List, [], ◌∷◌, String, text_equality, ◌==◌, if◌then◌else◌, ◌||◌,
  filter_by, length, number_equality,
}
use field_pilot_ai_submissio.Common.Dict
use field_pilot_ai_submissio.Common.Dict.{Dict}
use field_pilot_ai_submissio.Events.Schema.{or_text}
use field_pilot_ai_submissio.Broadcast.Hub.Clients.{Client}

-- The hub: its clients by their identifiers, and its counters.
pub record Hub : Type 0 where
  pub clients : Dict String Client
  pub delivered : ℕ
  pub dropped : ℕ

abbrev kind_of : String → String
kind_of kind = if kind == "dashboard" || kind == "device" then kind else "dashboard"

unfoldable pub connect : String → ℕ → String → Option String → Option String → Hub → Hub × Client
connect fresh now kind zone worker hub =
    let client : Client = record {
      client_id = fresh;
      kind = kind_of kind;
      zone = zone;
      worker_id = worker;
      connected_at = now;
    } in
    (record hub { clients = Dict.set fresh client hub.clients }, client)

unfoldable pub disconnect : Client → Hub → Hub
disconnect client hub = record hub { clients = Dict.pop client.client_id hub.clients }

abbrev pub values : Dict String Client → List Client
values [] = []
values ((k, c) ∷ d) = c ∷ values d

abbrev zone_key : Option String → String
zone_key zone = or_text zone "all"

-- `d.get(key, 0)`
abbrev or_zero : Option ℕ → ℕ
or_zero none = 0
or_zero (some n) = n

-- `by_zone`
abbrev pub count_zones : List Client → Dict String ℕ → Dict String ℕ
count_zones [] d = d
count_zones (c ∷ cs) d =
    count_zones cs (Dict.set (zone_key c.zone) (suc (or_zero (Dict.get (zone_key c.zone) d))) d)

pub record Stats : Type 0 where
  pub connected : ℕ
  pub devices : ℕ
  pub dashboards : ℕ
  pub by_zone : Dict String ℕ
  pub delivered : ℕ
  pub dropped : ℕ

abbrev pub is_kind : String → Client → Bool
is_kind kind c = c.kind == kind

unfoldable pub stats : Hub → Stats
stats hub = record {
  connected = length hub.clients;
  devices = length (filter_by (is_kind "device") (values hub.clients));
  dashboards = length (filter_by (is_kind "dashboard") (values hub.clients));
  by_zone = count_zones (values hub.clients) [];
  delivered = hub.delivered;
  dropped = hub.dropped;
}
