-- ===== src/Server.antt =====
-- internal/sfu/server.go: the registry of rooms. A room is changed in the registry, and the callback
-- that the server gave it runs where the room tells that it closed. A Go `int` limit that is not positive means
-- no limit, and so does 0 here. `emitted` logs the server's own calls of `Emit`; `ended` logs the
-- rooms that left the registry.
pub mod Ops
pub mod Invariant
pub mod Registry
pub mod Placement
use mephi_sfu_server_project.Common.{
  ℕ, ◌+◌, String, Bool, true, false, List, [], ◌∷◌, Option, none, some, length, if◌then◌else◌,
}
use mephi_sfu_server_project.Map.{Map}
use mephi_sfu_server_project.Room
use mephi_sfu_server_project.Room.{Room, Event}

pub record ServerConfig : Type 0 where
  pub max_rooms : ℕ
  pub has_metrics : Bool
  pub has_kafka : Bool
  pub cluster_enabled : Bool
  pub cluster_enable_cascading : Bool
  pub cluster_node : Option String
  pub has_room_router : Bool

-- The gauge `RoomsActive`, counted up and down.
pub record Metrics : Type 0 where
  pub rooms_created : ℕ
  pub rooms_closed : ℕ

pub record SfuServer (S : Type 0) : Type 0 where
  pub rooms : Map Room
  pub closed : Bool
  pub close_once : Bool
  pub cancelled : Bool
  pub config : ServerConfig
  pub metrics : Option Metrics
  pub emitted : Option (List Event)
  pub redis : S
  pub ended : List Room
  pub made : ℕ

-- `NewSFUServer`
unfoldable pub new_sfu_server : {S : Type 0} → ServerConfig → S → SfuServer S
new_sfu_server config redis = record {
  rooms = [];
  closed = false;
  close_once = false;
  cancelled = false;
  config = config;
  metrics =
      if config.has_metrics then some (record { rooms_created = 0; rooms_closed = 0 }) else none;
  emitted = if config.has_kafka then some [] else none;
  redis = redis;
  ended = [];
  made = 0;
}

abbrev pub count_created : Option Metrics → Option Metrics
count_created none = none
count_created (some m) = some (record m { rooms_created = m.rooms_created + 1 })

abbrev pub count_closed : Option Metrics → Option Metrics
count_closed none = none
count_closed (some m) = some (record m { rooms_closed = m.rooms_closed + 1 })

pub record ServerStats : Type 0 where
  pub rooms_count : ℕ
  pub total_peers : ℕ
  pub total_receivers : ℕ
  pub total_senders : ℕ

-- The loop of `Stats`.
unfoldable pub add_stats : Map Room → ServerStats → ServerStats
unfolding Room.stats
add_stats [] t = t
add_stats ((id, room) ∷ rest) t =
    let s = Room.stats room in
    add_stats rest (record t {
      total_peers = t.total_peers + s.peer_count;
      total_receivers = t.total_receivers + s.receiver_count;
      total_senders = t.total_senders + s.sender_count;
    })

unfoldable pub stats : {S : Type 0} → SfuServer S → ServerStats
unfolding add_stats
stats s = add_stats s.rooms (record {
  rooms_count = length s.rooms;
  total_peers = 0;
  total_receivers = 0;
  total_senders = 0;
})
