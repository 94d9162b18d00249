-- ===== src/Room.antt =====
-- internal/sfu/room.go: one conference room. A Go `int` limit that is not positive means no limit, and so
-- does 0 here. `departed` logs the peers that left the map, newest first; `emitted` logs the calls of
-- `kafkaProducer.Emit`, oldest first; `close_notices` counts the calls of `onClose`.
-- `address` tells the rooms of a server apart, as a pointer does; `admitted` counts the peers that were let in.
pub mod Ops
pub mod Loops
pub mod Invariant
pub mod Membership
pub mod Delivery
pub mod Publishing
use mephi_sfu_server_project.Common.{
  ℕ, suc, ◌+◌, String, Bool, true, false, List, [], ◌∷◌, ◌++◌, Option, none, some, length,
  if◌then◌else◌,
}
use mephi_sfu_server_project.Map.{Map}
use mephi_sfu_server_project.Router
use mephi_sfu_server_project.Router.{Router}
use mephi_sfu_server_project.Peer.{Peer}
use mephi_sfu_server_project.Cascade.{CascadeBridge}

pub record RoomConfig : Type 0 where
  pub max_peers : ℕ

abbrev pub default_room_config : RoomConfig
default_room_config = record { max_peers = 0 }

-- internal/kafka/events.go: the events of rooms, with what they carry; a
-- published track has its owner, its id, its stream and its kind.
pub data Event : Type 0 where
  room_created room_closed : String → Event
  peer_joined peer_left : String → String → Event
  track_published : String → String → String → String → String → Event
  track_unpublished : String → String → String → Event

-- The gauge `PeersActive` of one room, counted up and down.
pub record Metrics : Type 0 where
  pub peers_joined : ℕ
  pub peers_left : ℕ

pub record Room : Type 0 where
  pub address : ℕ
  pub id : String
  pub router : Router
  pub peers : Map Peer
  pub cascade_bridges : Map CascadeBridge
  pub cancelled : Bool
  pub close_once : Bool
  pub config : RoomConfig
  pub on_close : Bool
  pub metrics : Option Metrics
  pub emitted : Option (List Event)
  pub departed : List Peer
  pub close_notices : ℕ
  pub admitted : ℕ

-- `NewRoom`; the flags tell whether metrics and a producer are there.
unfoldable pub new_room : ℕ → String → RoomConfig → Bool → Bool → Room
unfolding Router.new_router
new_room address id config has_metrics has_kafka = record {
  address = address;
  id = id;
  router = record (Router.new_router has_metrics) {
    on_receiver_added = true;
    on_receiver_removed = true;
  };
  peers = [];
  cascade_bridges = [];
  cancelled = false;
  close_once = false;
  config = config;
  on_close = false;
  metrics = if has_metrics then some (record { peers_joined = 0; peers_left = 0 }) else none;
  emitted = if has_kafka then some [] else none;
  departed = [];
  close_notices = 0;
  admitted = 0;
}

-- `if r.kafkaProducer != nil { Emit }`
abbrev pub emit : Event → Option (List Event) → Option (List Event)
emit e none = none
emit e (some log) = some (log ++ e ∷ [])

abbrev pub count_joined : Option Metrics → Option Metrics
count_joined none = none
count_joined (some m) = some (record m { peers_joined = m.peers_joined + 1 })

-- `PeerLeft`, called once for each of `n` peers.
abbrev pub count_left : ℕ → Option Metrics → Option Metrics
count_left n none = none
count_left n (some m) = some (record m { peers_left = m.peers_left + n })

unfoldable pub set_on_close : Room → Room
set_on_close r = record r { on_close = true }

unfoldable pub peer_count : Room → ℕ
peer_count r = length r.peers

pub record RoomStats : Type 0 where
  pub peer_count : ℕ
  pub receiver_count : ℕ
  pub sender_count : ℕ

unfoldable pub stats : Room → RoomStats
unfolding Router.stats
stats r = record {
  peer_count = length r.peers;
  receiver_count = (Router.stats r.router).receiver_count;
  sender_count = (Router.stats r.router).senders;
}
